-- ===== src/Gate/AutoMerge/Conflict.antt =====
-- A conflict that tryAutoMerge of internal/automerge/worker.go meets.
use docstore.Base.{
  ℕ, String, ◌≡◌, refl, sym, ap, ◌∙◌, true, false, Option, some, List, [], ◌∷◌, first,
  if◌then◌else◌,
}
use docstore.Store.Tables.{
  Db, Env, Branch, MergeConflict, Error, merge_conflict, Result, err, Outcome, commit, rollback,
  fail, rolled_back, with_tx, is_branch, find_branch,
}
use docstore.Store.Branches.{set_auto_merge, update_if_found, set_branch_auto_merge}
use docstore.Store.Lookup.{updated, find_branch-update}
use docstore.Store.Merge.{MergeResponse, merge_body, merge}
use docstore.Store.Merge.Closed.{find_branch-passes}
use docstore.Gate.Policy.{World, PolicyCache}
use docstore.Gate.Policy.Allows.{IsLetThrough}
use docstore.Gate.AutoMerge.{
  branch_auto_merge_failed, in_db, auto_merge_request, disable, after_merge, merge_if_allowed,
  is_eligible, try_branch, try_auto_merge,
}

set_branch_auto_merge-false :
    (repo branch : String) (db : Db) (b : Branch)
    → find_branch repo branch db ≡ some b
    → find_branch repo branch (set_branch_auto_merge repo branch false db).1
      ≡ some (set_auto_merge false b)
unfolding set_branch_auto_merge update_if_found
set_branch_auto_merge-false repo branch db b e =
    rw (e, update_if_found)
      (find_branch-update repo branch (set_auto_merge false) db repo branch
          (λ x. unfold set_auto_merge is_branch in refl)
        ∙ ap (updated (is_branch repo branch) (set_auto_merge false)) e
        ∙ ap (λ t. some (if t then set_auto_merge false b else b))
            (find_branch-passes repo branch db b e))

-- A failed transaction leaves the branches as they were.
failed-branches :
    (repo branch : String) (before after : Db) (x : Error) (o : Outcome MergeResponse × Db)
    → with_tx before o ≡ (err x, after)
    → find_branch repo branch after ≡ find_branch repo branch before
unfolding with_tx find_branch rolled_back
failed-branches repo branch before after x (commit a, db) e = cc
failed-branches repo branch before after x (rollback a, db) e = cc
failed-branches repo branch before after x (fail y, db) e =
    sym (ap (λ (o : Result MergeResponse × Db). first (is_branch repo branch) o.1.branches) e)

module _ (env : Env) (now later : ℕ) (cache next_cache : Option PolicyCache) (repo branch : String)
    (w : World) (b : Branch) (after : Db) (cs : List MergeConflict)
    (found : find_branch repo branch w.tables.db ≡ some b) (eligible : is_eligible b ≡ true)
    (through : IsLetThrough cache w repo branch "auto-merge")
    (conflict : merge env now (auto_merge_request repo branch) w.tables.db
      ≡ (err (merge_conflict cs), after)) where
  tried : try_auto_merge env now cache repo branch w ≡ (
    disable repo branch (in_db after w),
    branch_auto_merge_failed repo branch "merge conflict" ∷ [],
  )
  unfolding try_auto_merge try_branch merge_if_allowed after_merge
  tried = rw (found, try_branch, eligible, through, merge_if_allowed, conflict, after_merge) refl

  kept : find_branch repo branch after ≡ some b
  kept =
      failed-branches repo branch w.tables.db after (merge_conflict cs)
        (merge_body env now (auto_merge_request repo branch) w.tables.db) (unfold merge in conflict)
      ∙ found

  disabled :
      try_auto_merge env later next_cache repo branch (disable repo branch (in_db after w))
      ≡ (disable repo branch (in_db after w), [])
  unfolding try_auto_merge disable in_db
  disabled =
      rw (set_branch_auto_merge-false repo branch after b kept)
        (unfold try_branch is_eligible set_auto_merge in refl)

  -- A conflict ends auto-merge for the branch: the worker reports the failure once, and on the tables
  -- that it leaves it does nothing at the next event, whatever the time and the policies then.
  pub try_auto_merge_conflict :
      ((try_auto_merge env now cache repo branch w).1
        ≡ branch_auto_merge_failed repo branch "merge conflict" ∷ [])
      × (try_auto_merge env later next_cache repo branch
            (try_auto_merge env now cache repo branch w).0
          ≡ ((try_auto_merge env now cache repo branch w).0, []))
  try_auto_merge_conflict = rw tried (refl, disabled)
