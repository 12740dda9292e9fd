-- ===== src/Store/Merge/DryRun.antt =====
-- Dry runs of Merge of internal/db/store.go.
use docstore.Base.{
  ℕ, ◌≡◌, refl, Bool, true, false, Option, none, some, List, [], ◌∷◌, if◌then◌else◌, Option-cases,
  inl, inr,
}
use docstore.Store.Tables.{
  Db, Env, Branch, FileCommit, MergeConflict, Result, fail, branch_draft, branch_not_active,
  is_active, find_branch, with_tx, rolled_back,
}
use docstore.Store.Rows.{latest_changes}
use docstore.Store.Merge.{
  MergeRequest, MergeResponse, conclude, apply_merge, merge_unless_conflict, merge_changes,
  merge_branch, merge_body, merge,
}

-- The same request, dry or not.
abbrev pub with_dry_run : Bool → MergeRequest → MergeRequest
with_dry_run dry req = record req { dry_run = dry }

-- A result of a dry run, beside that of the merge itself.
abbrev Foretells : Db → Result MergeResponse × Db → Result MergeResponse × Db → Type 0
Foretells db dry wet =
    (dry.0 ≡ wet.0)
    × (dry.1 ≡ record db { next_sequence = dry.1.next_sequence; drawn = dry.1.drawn })

module _ (env : Env) (now : ℕ) (req : MergeRequest) (db : Db) where
  foretold_conflicts :
      (changes : List FileCommit) (cs : List MergeConflict)
      → Foretells db
          (with_tx db (merge_unless_conflict env now (with_dry_run true req) changes cs db))
          (with_tx db (merge_unless_conflict env now (with_dry_run false req) changes cs db))
  unfolding merge_unless_conflict apply_merge conclude with_tx rolled_back
  foretold_conflicts changes [] = (refl, refl)
  foretold_conflicts changes (c ∷ cs) = (refl, refl)

  foretold_changes :
      (main b : Branch) (changes : List FileCommit)
      → Foretells db
          (with_tx db (merge_changes env now (with_dry_run true req) main b changes db))
          (with_tx db (merge_changes env now (with_dry_run false req) main b changes db))
  foretold_changes main b [] = unfold merge_changes conclude with_tx rolled_back in (refl, refl)
  foretold_changes main b (r ∷ rs) = unfold merge_changes in foretold_conflicts (r ∷ rs) _

  foretold_branch :
      (main : Branch) (o : Option Branch)
      → Foretells db
          (with_tx db (merge_branch env now (with_dry_run true req) main o db))
          (with_tx db (merge_branch env now (with_dry_run false req) main o db))
  foretold_branch main none = unfold merge_branch with_tx rolled_back in (refl, refl)
  foretold_branch main (some b) = unfold merge_branch in choose (is_active b.status) b.draft
    where
      choose :
          (active draft : Bool)
          → Foretells db
              (with_tx db (
                if active
                then (if draft
                    then (fail branch_draft, db)
                    else merge_changes env now
                        (with_dry_run true req)
                        main
                        b
                        (latest_changes db req.repo req.branch b.base_sequence)
                        db)
                else (fail branch_not_active, db)))
              (with_tx db (
                if active
                then (if draft
                    then (fail branch_draft, db)
                    else merge_changes env now
                        (with_dry_run false req)
                        main
                        b
                        (latest_changes db req.repo req.branch b.base_sequence)
                        db)
                else (fail branch_not_active, db)))
      choose true true = unfold with_tx rolled_back in (refl, refl)
      choose true false = foretold_changes main b _
      choose false _ = unfold with_tx rolled_back in (refl, refl)

  -- A dry run returns what the merge itself would return, an error included, and changes no table:
  -- only sequences and UUIDs may have been drawn.
  pub dry_run_foretells :
      ((merge env now (with_dry_run true req) db).0 ≡ (merge env now (with_dry_run false req) db).0)
      × ((merge env now (with_dry_run true req) db).1 ≡ record db {
        next_sequence = (merge env now (with_dry_run true req) db).1.next_sequence;
        drawn = (merge env now (with_dry_run true req) db).1.drawn;
      })
  unfolding merge merge_body with_tx
  dry_run_foretells = elim (Option-cases (find_branch req.repo "main" db)) [
    | inl e ↦ rw (e, merge_body) (unfold with_tx rolled_back in (refl, refl))
    | inr (main, e) ↦ rw (e, merge_body) (foretold_branch main _)
  ]
