-- ===== src/Store/Diff/Foretells.antt =====
-- The conflicts of GetDiff, of internal/store/store.go, and those of Merge, of internal/db/store.go.
use docstore.Base.{
  ℕ, String, ◌≡◌, refl, sym, ap, subst, inl, inr, true, false, Option, none, some, List, [], ◌∷◌,
  map, Option-cases,
}
use docstore.Store.Tables.{
  Db, Env, Branch, FileCommit, MergeConflict, Result, ok, err, merge_conflict, is_active,
  find_branch, with_tx,
}
use docstore.Store.Rows.{latest_changes}
use docstore.Store.Merge.{
  MergeRequest, MergeResponse, null_str, change_at, apply_merge, merge_unless_conflict,
  merge_changes, merge, find_conflicts,
}
use docstore.Store.Merge.Conflicts.{merge_mergeable, concluded}
use docstore.Store.Diff.{
  ConflictEntry, DiffResult, version_or_empty, conflict_entry, add_conflict, diff_conflicts,
  diff_of, diff_if_found, get_diff,
}

-- A conflict of a diff as one of a merge.
abbrev pub as_merge_conflict : ConflictEntry → MergeConflict
as_merge_conflict c = record {
  path = c.path;
  main_version_id = c.main_version_id;
  branch_version_id = c.branch_version_id;
}

version_or_empty-null_str : (o : Option String) → version_or_empty o ≡ null_str o
unfolding version_or_empty null_str
version_or_empty-null_str none = refl
version_or_empty-null_str (some id) = refl

-- Two routines, one in each package, find the same conflicts.
find_conflicts-diff_conflicts :
    (rs ms : List FileCommit) → find_conflicts rs ms ≡ map as_merge_conflict (diff_conflicts rs ms)
unfolding find_conflicts diff_conflicts add_conflict
find_conflicts-diff_conflicts [] ms = refl
find_conflicts-diff_conflicts (r ∷ rs) ms = elim (Option-cases (change_at r.path ms)) [
  | inl e ↦ rw (e, find_conflicts) (find_conflicts-diff_conflicts rs ms)
  | inr (m, e) ↦
      rw (e, find_conflicts, find_conflicts-diff_conflicts rs ms)
        (unfold conflict_entry in
          rw (version_or_empty-null_str m.version_id, version_or_empty-null_str r.version_id) refl)
]

-- What a merge returns when the diff has these conflicts.
abbrev pub Foretold : List ConflictEntry → Result MergeResponse → Type 0
Foretold [] res = (resp : MergeResponse) × (res ≡ ok resp)
Foretold (c ∷ cs) res = res ≡ err (merge_conflict (map as_merge_conflict (c ∷ cs)))

module _ (env : Env) (now : ℕ) (req : MergeRequest) (db : Db) (main b : Branch)
    (found : find_branch req.repo "main" db ≡ some main)
    (e : find_branch req.repo req.branch db ≡ some b) (active : is_active b.status ≡ true)
    (ready : b.draft ≡ false) where
  -- GetDiff of an active, published branch tells what a merge of it, dry or not, would return: a merge
  -- succeeds when the diff lists no conflict, and otherwise fails with the conflicts of the diff, where
  -- both visit the changed paths in one order.
  pub get_diff_foretells :
      (d : DiffResult) × ((get_diff db req.repo req.branch ≡ some d)
        × Foretold d.conflicts (merge env now req db).0)
  unfolding get_diff diff_if_found diff_of
  get_diff_foretells = (
    diff_of db req.repo req.branch b,
    (
      rw e refl,
      subst (Foretold (diff_conflicts (latest_changes db req.repo req.branch b.base_sequence) ms))
          (sym (
            ap (λ (o : Result MergeResponse × Db). o.0)
              (merge_mergeable env now req db main b found e active ready)))
          (tells (latest_changes db req.repo req.branch b.base_sequence)),
    ),
  )
    where
      ms : List FileCommit
      ms = latest_changes db req.repo "main" b.base_sequence

      answer :
          (rs : List FileCommit) (r : FileCommit) (cs : List ConflictEntry)
          → Foretold cs
              (with_tx db
                (merge_unless_conflict env now req (r ∷ rs) (map as_merge_conflict cs) db)).0
      answer rs r [] = (
        record { sequence = db.next_sequence },
        unfold merge_unless_conflict apply_merge in concluded db req.dry_run _ _,
      )
      answer rs r (c ∷ cs) = unfold merge_unless_conflict with_tx in refl

      tells :
          (rs : List FileCommit)
          → Foretold (diff_conflicts rs ms) (with_tx db (merge_changes env now req main b rs db)).0
      tells [] =
          unfold diff_conflicts merge_changes in
          (record { sequence = main.head_sequence }, concluded db req.dry_run _ _)
      tells (r ∷ rs) =
          unfold merge_changes in
          rw (find_conflicts-diff_conflicts (r ∷ rs) ms) (answer rs r (diff_conflicts (r ∷ rs) ms))
