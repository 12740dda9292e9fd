-- ===== src/Store/Merge/ThreeWay.antt =====
-- What main shows after Merge of internal/db/store.go, path by path.
use docstore.Base.{
  ℕ, String, ◌≡◌, refl, sym, ap, subst, ◌∙◌, inl, inr, Bool, true, false, Option, none, some, List,
  [], ◌∷◌, Option-cases, if◌then◌else◌,
}
use docstore.Store.Tables.{
  Db, Env, Branch, FileCommit, MergeConflict, Result, ok, err, is_active, is_branch, find_branch,
  merged, with_tx,
}
use docstore.Store.Rows.{latest_changes, version_of, file_version}
use docstore.Store.Writes.{insert_commit, update_branch, set_head, set_status, update_commit_hash}
use docstore.Store.Merge.{
  MergeRequest, MergeResponse, change_at, conclude, merged_rows, apply_merge, merge_unless_conflict,
  merge_changes, merge_branch, merge_body, merge, merge_message,
}
use docstore.Store.Merge.Copies.{overlay, newest-copy_changes, branches-copy_changes}
use docstore.Store.Changes.{IsDistinct, distinct_latest-IsDistinct}
use docstore.Store.Changes.Shown.{changed, changed-change_at, newest-changed}
use docstore.Store.Invariant.{IsWf}
use docstore.Store.Lookup.{
  base_of, shows, shows-TakesPath, file_version_at, AtMost-of_below, base_of_branches,
  base-update_branch,
}

latest_changes-IsDistinct :
    (db : Db) (repo branch : String) (base : ℕ) → IsDistinct (latest_changes db repo branch base)
unfolding latest_changes
latest_changes-IsDistinct db repo branch base = distinct_latest-IsDistinct _ db.file_commits

-- The version that a merge leaves on main at a path.
abbrev pub three_way : Db → String → String → ℕ → String → Option String
three_way db repo branch base path =
    if changed db repo branch base path
    then file_version db repo branch path none
    else file_version db repo "main" path none

-- Laying the changes of the branch over main is the three-way merge.
overlay-three_way :
    (db : Db) (repo branch path : String) (base : ℕ)
    → base_of (find_branch repo branch db) ≡ some base
    → overlay
        (change_at path (latest_changes db repo branch base))
        (file_version db repo "main" path none)
      ≡ three_way db repo branch base path
overlay-three_way db repo branch path base based =
    elim (Option-cases (change_at path (latest_changes db repo branch base))) [
      | inl e ↦ rw (changed-change_at db repo branch base path, e)
      | inr (r, e) ↦
          rw
            (
              changed-change_at db repo branch base path,
              e,
              file_version_at db repo branch path none base based,
              newest-changed db repo branch base path r e,
            )
            (unfold version_of in refl)
    ]

base-set_head :
    (repo name repo' name' : String) (seq : ℕ) (db : Db)
    → base_of (find_branch repo' name' (update_branch repo name (set_head seq) db))
      ≡ base_of (find_branch repo' name' db)
unfolding set_head is_branch
base-set_head repo name repo' name' seq db =
    base-update_branch repo name repo' name' (set_head seq) db (λ b. refl) (λ b. refl)

base-set_merged :
    (repo name repo' name' : String) (db : Db)
    → base_of (find_branch repo' name' (update_branch repo name (set_status merged) db))
      ≡ base_of (find_branch repo' name' db)
unfolding set_status is_branch
base-set_merged repo name repo' name' db =
    base-update_branch repo name repo' name' (set_status merged) db (λ b. refl) (λ b. refl)

module _ (env : Env) (now : ℕ) (req : MergeRequest) (changes : List FileCommit) (db : Db) where
  -- A merge moves no base.
  merged_base :
      (repo branch hash : String)
      → base_of (
          find_branch repo branch (
            update_commit_hash (merged_rows env now req changes db) req.repo db.next_sequence hash))
        ≡ base_of (find_branch repo branch db)
  unfolding merged_rows update_commit_hash insert_commit
  merged_base repo branch hash =
      base_of_branches _ _ repo branch refl
      ∙ (base-set_merged req.repo req.branch repo branch _
          ∙ (base-set_head req.repo "main" repo branch db.next_sequence _
              ∙ base_of_branches _ db repo branch
                  (branches-copy_changes env req.repo db.next_sequence "main" changes _)))

  -- The changes lie over what main showed.
  main_after :
      (path hash : String) (base : ℕ)
      → IsWf db
      → IsDistinct changes
      → base_of (find_branch req.repo "main" db) ≡ some base
      → file_version
          (update_commit_hash (merged_rows env now req changes db) req.repo db.next_sequence hash)
          req.repo
          "main"
          path
          none
        ≡ overlay (change_at path changes) (file_version db req.repo "main" path none)
  unfolding merged_rows update_branch update_commit_hash insert_commit
  main_after path hash base w d based =
      file_version_at _ req.repo "main" path none base (merged_base req.repo "main" hash ∙ based)
      ∙ (newest-copy_changes env req.repo db.next_sequence "main" path
            (shows req.repo "main" base path none)
            (shows-TakesPath req.repo "main" db.next_sequence base path) changes
            (insert_commit db req.repo "main" (merge_message req.branch) req.author now) d
            (AtMost-of_below db.next_sequence db.file_commits w.rows)
          ∙ ap (overlay (change_at path changes))
              (sym (file_version_at db req.repo "main" path none base based)))

pub merge_body-found :
    (env : Env) (now : ℕ) (req : MergeRequest) (db : Db) (main b : Branch)
    → find_branch req.repo "main" db ≡ some main
    → find_branch req.repo req.branch db ≡ some b
    → merge_body env now req db ≡ merge_branch env now req main (some b) db
unfolding merge_body
merge_body-found env now req db main b found e = rw (found, merge_body) (rw e)

-- What a merge that is no dry run leaves on main, if it succeeds.
abbrev Lays : Db → MergeRequest → List FileCommit → Result MergeResponse × Db → Type 0
Lays db req changes (ok resp, after) =
    (path : String)
    → file_version after req.repo "main" path none
      ≡ overlay (change_at path changes) (file_version db req.repo "main" path none)
Lays db req changes (err e, after) = Unit

module _ (env : Env) (now : ℕ) (req : MergeRequest) (db : Db) (w : IsWf db) (main : Branch)
    (found : find_branch req.repo "main" db ≡ some main) (wet : req.dry_run ≡ false) where
  merge_unless_conflict-Lays :
      (changes : List FileCommit) (conflicts : List MergeConflict)
      → IsDistinct changes
      → Lays db req changes (with_tx db (merge_unless_conflict env now req changes conflicts db))
  unfolding merge_unless_conflict apply_merge conclude with_tx
  merge_unless_conflict-Lays changes [] d =
      simp wet
        (λ path. main_after env now req changes db path _ main.base_sequence w d (ap base_of found))
  merge_unless_conflict-Lays changes (c ∷ cs) d = tt

  merge_changes-Lays :
      (b : Branch) (changes : List FileCommit)
      → IsDistinct changes
      → Lays db req changes (with_tx db (merge_changes env now req main b changes db))
  unfolding merge_changes conclude with_tx update_branch change_at
  merge_changes-Lays b [] d = simp wet λ path.
      file_version_at _ req.repo "main" path none main.base_sequence
        (base-set_merged req.repo req.branch req.repo "main" db ∙ ap base_of found)
      ∙ sym (file_version_at db req.repo "main" path none main.base_sequence (ap base_of found))
  merge_changes-Lays b (r ∷ rs) d = merge_unless_conflict-Lays (r ∷ rs) _ d

  merge-Lays :
      (b : Branch)
      → find_branch req.repo req.branch db ≡ some b
      → Lays db req (latest_changes db req.repo req.branch b.base_sequence) (merge env now req db)
  unfolding merge
  merge-Lays b e =
      rw (merge_body-found env now req db main b found e)
        (merge_branch-Lays b (is_active b.status) refl b.draft refl)
    where
      merge_branch-Lays :
          (c : Branch) (active : Bool)
          → is_active c.status ≡ active
          → (draft : Bool) → c.draft ≡ draft
          → Lays db req
              (latest_changes db req.repo req.branch c.base_sequence)
              (with_tx db (merge_branch env now req main (some c) db))
      merge_branch-Lays c true a true t = unfold merge_branch with_tx in simp (a, t) tt
      merge_branch-Lays c true a false t =
          unfold merge_branch in
          simp (a, t)
            (merge_changes-Lays c _
              (latest_changes-IsDistinct db req.repo req.branch c.base_sequence))
      merge_branch-Lays c false a _ t = unfold merge_branch with_tx in simp a tt

-- After a successful merge that is no dry run, of well-formed tables, main shows at every path that
-- changed on the branch since its base what the branch showed there, a deletion included, and at
-- every other path what main itself showed.
pub file_version-merge :
    (env : Env) (now : ℕ) (req : MergeRequest) (db after : Db) (resp : MergeResponse)
    (main b : Branch) (path : String)
    → IsWf db
    → find_branch req.repo "main" db ≡ some main
    → find_branch req.repo req.branch db ≡ some b
    → req.dry_run ≡ false
    → merge env now req db ≡ (ok resp, after)
    → file_version after req.repo "main" path none
      ≡ three_way db req.repo req.branch b.base_sequence path
file_version-merge env now req db after resp main b path w found e wet done =
    subst (Lays db req (latest_changes db req.repo req.branch b.base_sequence)) done
      (merge-Lays env now req db w main found wet b e) path
    ∙ overlay-three_way db req.repo req.branch path b.base_sequence (ap base_of e)
