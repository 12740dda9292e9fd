-- ===== src/Store/Invariant/Answers.antt =====
-- The sequences that Commit and Merge of internal/db/store.go answer with.
use docstore.Base.{
  ℕ, ◌+◌, ◌<◌, String, ◌≡◌, refl, if◌then◌else◌, inl, inr, Bool, true, false, Option, none, some,
  List, [], ◌∷◌, All, arith, Bool-cases, Option-cases,
}
use docstore.Store.Tables.{
  Db, Env, Branch, FileCommit, MergeConflict, Result, ok, err, is_active, find_branch, with_tx,
  rolled_back,
}
use docstore.Store.Writes.{insert_commit, update_branch, update_commit_hash}
use docstore.Store.Commit.{
  CommitRequest, CommitResponse, Written, finish_commit, commit_body, commit_files,
}
use docstore.Store.Merge.{
  MergeRequest, MergeResponse, conclude, merged_rows, apply_merge, merge_unless_conflict,
  merge_changes, merge_branch, merge_body, merge, merge_message,
}
use docstore.Store.Invariant.{
  IsWf, next-insert_commit, next-update_commit_hash, find_branch-BranchBelow,
}
use docstore.Store.Invariant.Within.{copy_changes-Within}
use docstore.Store.Invariant.Commits.{write_files-Within}

-- The sequences in an answer: one, if the call succeeds.
abbrev pub sequences {ℓ} : {A : Type ℓ} → (A → ℕ) → Result A × Db → List ℕ
sequences f (ok a, after) = f a ∷ []
sequences f (err e, after) = []

-- The answer's sequence is below the next one.
abbrev Given {ℓ} : {A : Type ℓ} → (A → ℕ) → Result A × Db → Type 0
Given f (ok a, after) = f a < after.next_sequence
Given f (err e, after) = Unit

Given-sequences {ℓ} :
    {A : Type ℓ} (f : A → ℕ) (o : Result A × Db)
    → Given f o
    → All (λ s. s < o.1.next_sequence) (sequences f o)
Given-sequences f (ok a, after) h = (h, tt)
Given-sequences f (err e, after) h = tt

next-update_branch :
    (repo name : String) (change : Branch → Branch) (db : Db)
    → (update_branch repo name change db).next_sequence ≡ db.next_sequence
unfolding update_branch
next-update_branch repo name change db = refl

module _ (env : Env) (now : ℕ) (req : CommitRequest) where
  finish_commit-Given :
      (before : Db) (seq : ℕ) (o : Result (List Written) × Db)
      → o.1.next_sequence ≡ seq + 1
      → Given
          (λ (r : CommitResponse). r.sequence)
          (with_tx before (finish_commit env now req seq o))
  unfolding finish_commit with_tx update_branch update_commit_hash
  finish_commit-Given before seq (err e, after) n = tt
  finish_commit-Given before seq (ok ws, after) n = omega (arith, n)

  commit_files-Given : (db : Db) → Given (λ r. r.sequence) (commit_files env now req db)
  unfolding commit_files commit_body with_tx insert_commit
  commit_files-Given db = elim (Option-cases (find_branch req.repo req.branch db)) [
    | inl e ↦ rw (e, commit_body) tt
    | inr (b, e) ↦ elim (Bool-cases (is_active b.status)) [
      | inl a ↦
          rw (e, commit_body)
            (rw a (
              let db' = insert_commit db req.repo req.branch req.message req.author now in
              let files = write_files-Within env req db.next_sequence req.files db' (omega arith) in
              finish_commit-Given db db.next_sequence _ (omega (arith, files.same))))
      | inr a ↦ rw (e, commit_body) (rw a tt)
    ]
  ]

  pub sequences-commit_files :
      (db : Db)
      → let o = commit_files env now req db in
        All (λ s. s < o.1.next_sequence) (sequences (λ r. r.sequence) o)
  sequences-commit_files db = Given-sequences (λ r. r.sequence) _ (commit_files-Given db)

module _ (env : Env) (now : ℕ) (req : MergeRequest) where
  conclude-Given :
      (before after : Db) (dry : Bool) (resp : MergeResponse)
      → resp.sequence < after.next_sequence
      → Given (λ (r : MergeResponse). r.sequence) (with_tx before (conclude dry resp after))
  unfolding conclude with_tx rolled_back
  conclude-Given before after true resp h = h
  conclude-Given before after false resp h = h

  next-merged_rows :
      (changes : List FileCommit) (db : Db)
      → (merged_rows env now req changes db).next_sequence ≡ db.next_sequence + 1
  unfolding merged_rows update_branch
  next-merged_rows changes db =
      let message = merge_message req.branch in
      let next = next-insert_commit db req.repo "main" message req.author now in
      let rows =
        copy_changes-Within env req.repo db.next_sequence "main" changes
          (insert_commit db req.repo "main" message req.author now) (omega (arith, next)) in
      omega (arith, rows.same, next)

  merge_unless_conflict-Given :
      (changes : List FileCommit) (conflicts : List MergeConflict) (db : Db)
      → Given
          (λ (r : MergeResponse). r.sequence)
          (with_tx db (merge_unless_conflict env now req changes conflicts db))
  unfolding merge_unless_conflict apply_merge
  merge_unless_conflict-Given changes [] db = conclude-Given db _ req.dry_run _ (
      omega (
        arith,
        next-update_commit_hash (merged_rows env now req changes db) req.repo db.next_sequence _,
        next-merged_rows changes db,
      ))
  merge_unless_conflict-Given changes (c ∷ cs) db = unfold with_tx in tt

  marked_next :
      (db : Db) (dry : Bool) (change : Branch → Branch)
      → (if dry then db else update_branch req.repo req.branch change db).next_sequence
        ≡ db.next_sequence
  marked_next db true change = refl
  marked_next db false change = next-update_branch req.repo req.branch change db

  merge_changes-Given :
      (main b : Branch) (changes : List FileCommit) (db : Db)
      → main.head_sequence < db.next_sequence
      → Given
          (λ (r : MergeResponse). r.sequence)
          (with_tx db (merge_changes env now req main b changes db))
  unfolding merge_changes
  merge_changes-Given main b [] db h =
      conclude-Given db _ req.dry_run _ (omega (arith, h, marked_next db req.dry_run _))
  merge_changes-Given main b (r ∷ rs) db h = merge_unless_conflict-Given (r ∷ rs) _ db

  merge_branch-Given :
      (main : Branch) (o : Option Branch) (db : Db)
      → main.head_sequence < db.next_sequence
      → Given (λ (r : MergeResponse). r.sequence) (with_tx db (merge_branch env now req main o db))
  unfolding merge_branch with_tx merge_changes
  merge_branch-Given main none db h = tt
  merge_branch-Given main (some b) db h = elim (Bool-cases (is_active b.status)) [
    | inl a ↦ elim (Bool-cases b.draft) [
      | inl t ↦ rw (a, t) tt
      | inr t ↦ rw (a, t) (merge_changes-Given main b _ db h)
    ]
    | inr a ↦ rw a tt
  ]

  merge-Given : (db : Db) → IsWf db → Given (λ r. r.sequence) (merge env now req db)
  unfolding merge merge_body with_tx
  merge-Given db w = elim (Option-cases (find_branch req.repo "main" db)) [
    | inl e ↦ rw (e, merge_body) tt
    | inr (main, e) ↦
        rw (e, merge_body)
          (merge_branch-Given main _ db (find_branch-BranchBelow req.repo "main" db main w e).1)
  ]

  pub sequences-merge :
      (db : Db)
      → IsWf db
      → let o = merge env now req db in
        All (λ s. s < o.1.next_sequence) (sequences (λ r. r.sequence) o)
  sequences-merge db w = Given-sequences (λ r. r.sequence) _ (merge-Given db w)
