-- ===== src/Store/Invariant/Merges.antt =====
-- Merge and Rebase of internal/db/store.go and the well-formedness of the tables.
use docstore.Base.{
  ℕ, ◌+◌, ◌≤◌, ◌<◌, ◌≡◌, ◌≢◌, refl, ◌∙◌, inl, inr, Bool, true, false, Option, none, some, List, [],
  ◌∷◌, arith, Option-cases, ◌==◌, if◌then◌else◌,
}
use docstore.Store.Tables.{
  Db, Env, Branch, FileCommit, MergeConflict, is_active, find_branch, merged,
}
use docstore.Store.Rows.{latest_changes}
use docstore.Store.Writes.{insert_commit, update_branch, set_status}
use docstore.Store.Merge.{
  MergeRequest, MergeResponse, conclude, merged_rows, apply_merge, merge_unless_conflict,
  merge_changes, merge_branch, merge_body, merge, merge_message,
}
use docstore.Store.Rebase.{
  RebaseRequest, RebaseGroup, replay_group, replay, finish_rebase, replay_unless_conflict,
  rebase_changes, rebase_branch, rebase_body, rebase, author_or_system, rebase_message,
}
use docstore.Store.Invariant.{
  IsWf, Extends, Extends-refl, Extends-trans, next-insert_commit, next-update_commit_hash,
  insert_commit-Extends, update_commit_hash-Extends, with_tx-Extends, find_branch-BranchBelow,
}
use docstore.Store.Invariant.Within.{
  copy_changes-Within, set_head-Extends, set_status-Extends, set_base_and_head-Extends, if-Extends,
}
use docstore.Store.Rebase.Groups.{groups-nil}

module _ (env : Env) (now : ℕ) (req : MergeRequest) where
  conclude-Extends :
      (db after : Db) (dry : Bool) (resp : MergeResponse)
      → Extends db after
      → Extends db (conclude dry resp after).1
  unfolding conclude
  conclude-Extends db after dry resp e = e

  merged_rows-Extends :
      (changes : List FileCommit) (db : Db) → Extends db (merged_rows env now req changes db)
  unfolding merged_rows
  merged_rows-Extends changes db =
      let message = merge_message req.branch in
      let db' = insert_commit db req.repo "main" message req.author now in
      let next = next-insert_commit db req.repo "main" message req.author now in
      let rows =
        copy_changes-Within env req.repo db.next_sequence "main" changes db'
          (omega (arith, next)) in
      Extends-trans (insert_commit-Extends db req.repo "main" message req.author now) (
        Extends-trans rows.extends (
          Extends-trans
            (set_head-Extends req.repo "main" db.next_sequence _ (omega (arith, rows.same, next)))
            (set_status-Extends req.repo req.branch merged _)))

  merge_unless_conflict-Extends :
      (changes : List FileCommit) (conflicts : List MergeConflict) (db : Db)
      → Extends db (merge_unless_conflict env now req changes conflicts db).1
  unfolding merge_unless_conflict apply_merge
  merge_unless_conflict-Extends changes [] db = conclude-Extends db _ req.dry_run _ (
      Extends-trans (merged_rows-Extends changes db)
        (update_commit_hash-Extends _ req.repo db.next_sequence _))
  merge_unless_conflict-Extends changes (c ∷ cs) db = Extends-refl db

  marked-Extends :
      (db : Db) (dry : Bool)
      → Extends db (if dry then db else update_branch req.repo req.branch (set_status merged) db)
  marked-Extends db true = Extends-refl db
  marked-Extends db false = set_status-Extends req.repo req.branch merged db

  merge_changes-Extends :
      (main b : Branch) (changes : List FileCommit) (db : Db)
      → Extends db (merge_changes env now req main b changes db).1
  unfolding merge_changes
  merge_changes-Extends main b [] db =
      conclude-Extends db _ req.dry_run _ (marked-Extends db req.dry_run)
  merge_changes-Extends main b (r ∷ rs) db = merge_unless_conflict-Extends (r ∷ rs) _ db

  merge_branch-Extends :
      (main : Branch) (o : Option Branch) (db : Db)
      → Extends db (merge_branch env now req main o db).1
  merge_branch-Extends main none db = unfold merge_branch in Extends-refl db
  merge_branch-Extends main (some b) db =
      unfold merge_branch in
      if-Extends db (is_active b.status) _ _
        (if-Extends db b.draft _ _ (Extends-refl db) (merge_changes-Extends main b _ db))
        (Extends-refl db)

  merge_body-Extends : (db : Db) → Extends db (merge_body env now req db).1
  unfolding merge_body
  merge_body-Extends db = elim (Option-cases (find_branch req.repo "main" db)) [
    | inl e ↦ rw (e, merge_body) (Extends-refl db)
    | inr (main, e) ↦ rw (e, merge_body) (merge_branch-Extends main _ db)
  ]

  -- A merge keeps the tables well-formed.
  pub merge-Extends : (db : Db) → Extends db (merge env now req db).1
  unfolding merge
  merge-Extends db = with_tx-Extends db _ (merge_body-Extends db)

module _ (env : Env) (now : ℕ) (req : RebaseRequest) where
  replay_group-next :
      (g : RebaseGroup) (db : Db)
      → (Extends db (replay_group env now req g db))
        × ((replay_group env now req g db).next_sequence ≡ db.next_sequence + 1)
  unfolding replay_group
  replay_group-next g db =
      let author = author_or_system req.author in
      let message = rebase_message env g.seq in
      let db' = insert_commit db req.repo req.branch message author now in
      let next = next-insert_commit db req.repo req.branch message author now in
      let rows =
        copy_changes-Within env req.repo db.next_sequence req.branch g.files db'
          (omega (arith, next)) in
      (
        Extends-trans (insert_commit-Extends db req.repo req.branch message author now)
            (Extends-trans rows.extends (update_commit_hash-Extends _ req.repo db.next_sequence _)),
        next-update_commit_hash _ req.repo db.next_sequence _ ∙ (rows.same ∙ next),
      )

  -- The last sequence of a replay is below the next one, and not below the start.
  replay-Extends :
      (gs : List RebaseGroup) (last : ℕ) (db : Db)
      → last < db.next_sequence
      → let o = replay env now req gs last db in
        (Extends db o.1) × (o.0 < o.1.next_sequence) × (last ≤ o.0)
  unfolding replay
  replay-Extends [] last db h = (Extends-refl db, h, omega arith)
  replay-Extends (g ∷ gs) last db h =
      let (x, n) = replay_group-next g db in
      let (y, lt, le) =
        replay-Extends gs db.next_sequence (replay_group env now req g db) (omega (arith, n)) in
      (Extends-trans x y, lt, omega (arith, le))

  -- A branch with commits to replay ends at a new sequence.
  finish_rebase-Extends :
      (main_head count : ℕ) (db : Db) (o : ℕ × Db)
      → Extends db o.1
      → main_head ≤ o.0
      → o.0 < o.1.next_sequence
      → Extends db (finish_rebase req main_head count o).1
  unfolding finish_rebase
  finish_rebase-Extends main_head count db (last, after) x le lt =
      Extends-trans x (set_base_and_head-Extends req.repo req.branch main_head last after le lt)

  replay_unless_conflict-Extends :
      (main_head : ℕ) (groups : List RebaseGroup) (conflicts : List MergeConflict) (db : Db)
      → main_head < db.next_sequence
      → groups ≢ []
      → Extends db (replay_unless_conflict env now req main_head groups conflicts db).1
  unfolding replay_unless_conflict
  replay_unless_conflict-Extends main_head [] [] db h ne = absurd (ne refl)
  replay_unless_conflict-Extends main_head (g ∷ gs) [] db h ne =
      let (x, n) = replay_group-next g db in
      let (y, lt, le) =
        replay-Extends gs db.next_sequence (replay_group env now req g db) (omega (arith, n)) in
      unfold replay in
      finish_rebase-Extends main_head _ db _ (Extends-trans x y) (omega (arith, le)) lt
  replay_unless_conflict-Extends main_head groups (c ∷ cs) db h ne = Extends-refl db

  rebase_changes-Extends :
      (main_head : ℕ) (b : Branch) (changes : List FileCommit) (db : Db)
      → main_head < db.next_sequence
      → latest_changes db req.repo req.branch b.base_sequence ≡ changes
      → Extends db (rebase_changes env now req main_head b changes db).1
  unfolding rebase_changes
  rebase_changes-Extends main_head b [] db h e =
      finish_rebase-Extends main_head 0 db _ (Extends-refl db) (omega arith) h
  rebase_changes-Extends main_head b (r ∷ rs) db h e =
      replay_unless_conflict-Extends main_head _ _ db h
        (λ none_left. cc (groups-nil db req.repo req.branch b.base_sequence none_left))

  rebase_branch-Extends :
      (main_head : ℕ) (o : Option Branch) (db : Db)
      → main_head < db.next_sequence
      → Extends db (rebase_branch env now req main_head o db).1
  unfolding rebase_branch
  rebase_branch-Extends main_head none db h = Extends-refl db
  rebase_branch-Extends main_head (some b) db h =
      if-Extends db (is_active b.status) _ _ (rebase_changes-Extends main_head b _ db h refl)
        (Extends-refl db)

  rebase_body-Extends : (db : Db) → IsWf db → Extends db (rebase_body env now req db).1
  unfolding rebase_body
  rebase_body-Extends db w = elim (Option-cases (find_branch req.repo "main" db)) [
    | inl e ↦ rw (e, rebase_body) (Extends-refl db)
    | inr (main, e) ↦
        rw (e, rebase_body)
          (rebase_branch-Extends main.head_sequence _ db
            (find_branch-BranchBelow req.repo "main" db main w e).1)
  ]

  -- A rebase keeps well-formed tables well-formed.
  pub rebase-Extends : (db : Db) → IsWf db → Extends db (rebase env now req db).1
  unfolding rebase
  rebase-Extends db w =
      if-Extends db (req.branch == "main") _ _ (Extends-refl db)
        (with_tx-Extends db _ (rebase_body-Extends db w))
