-- ===== src/Store/Merge/Conflicts.antt =====
-- Which changes on the branch and on main Merge of internal/db/store.go refuses, and which it takes.
use mathlib.Core.Bool.{false≢true}
use docstore.Base.{
  ℕ, String, ◌≡◌, refl, sym, ap, ◌∙◌, ◌⊎◌, inl, inr, Bool, true, false, Option, none, some, List,
  [], ◌∷◌, arith, eq_refl,
}
use docstore.Store.Tables.{
  Db, Env, Branch, FileCommit, MergeConflict, Result, ok, err, merge_conflict, is_active,
  find_branch, with_tx, rolled_back,
}
use docstore.Store.Rows.{latest_changes}
use docstore.Store.Merge.{
  MergeRequest, MergeResponse, change_at, conclude, apply_merge, merge_unless_conflict,
  merge_changes, merge_branch, merge, find_conflicts,
}
use docstore.Store.Merge.Copies.{no_conflicts}
use docstore.Store.Merge.ThreeWay.{merge_body-found}
use docstore.Store.Changes.Shown.{changed, is_some, changed-change_at}

is_some-none : (o : Option FileCommit) → is_some o ≡ false → o ≡ none
is_some-none none e = refl
is_some-none (some r) e = cc

is_some-some : (o : Option FileCommit) → is_some o ≡ true → (r : FileCommit) × (o ≡ some r)
is_some-some none e = cc
is_some-some (some r) e = (r, refl)

-- Changes that main has none of conflict with nothing.
find_conflicts-nil :
    (rs ms : List FileCommit)
    → ((path : String) → is_some (change_at path rs) ≡ true → is_some (change_at path ms) ≡ false)
    → find_conflicts rs ms ≡ []
unfolding find_conflicts
find_conflicts-nil [] ms f = refl
find_conflicts-nil (q ∷ rs) ms f =
    rw
      (
        is_some-none (change_at q.path ms) (f q.path (unfold change_at in rw eq_refl)),
        find_conflicts,
      )
      (find_conflicts-nil rs ms (λ path h. f path (unfold change_at in ground (arith, h))))

List-cases :
    (cs : List MergeConflict)
    → (cs ≡ []) ⊎ ((c : MergeConflict) × (rest : List MergeConflict) × (cs ≡ c ∷ rest))
List-cases [] = inl refl
List-cases (c ∷ rest) = inr (c, rest, refl)

pub concluded :
    (db : Db) (dry : Bool) (resp : MergeResponse) (after : Db)
    → (with_tx db (conclude dry resp after)).0 ≡ ok resp
unfolding conclude with_tx
concluded db true resp after = refl
concluded db false resp after = refl

module _ (env : Env) (now : ℕ) (req : MergeRequest) (db : Db) (main b : Branch)
    (found : find_branch req.repo "main" db ≡ some main)
    (e : find_branch req.repo req.branch db ≡ some b) (active : is_active b.status ≡ true)
    (ready : b.draft ≡ false) where
  pub merge_mergeable :
      merge env now req db
      ≡ with_tx db (
          merge_changes env now req main b
            (latest_changes db req.repo req.branch b.base_sequence)
            db)
  unfolding merge
  merge_mergeable = ap (with_tx db) (merge_body-found env now req db main b found e ∙ opened)
    where
      opened :
          merge_branch env now req main (some b) db
          ≡ merge_changes env now req main b
              (latest_changes db req.repo req.branch b.base_sequence)
              db
      opened = unfold merge_branch in simp (active, ready)

  -- A path that changed since the branch's base both on an active, published branch and on main makes
  -- the merge fail with a list of conflicts that is not empty, and the tables stay as they were, the
  -- sequence included.
  pub merge_conflicting :
      (path : String)
      → changed db req.repo req.branch b.base_sequence path ≡ true
      → changed db req.repo "main" b.base_sequence path ≡ true
      → (c : MergeConflict) × (cs : List MergeConflict) × (merge env now req db
          ≡ (err (merge_conflict (c ∷ cs)), db))
  merge_conflicting path hb hm =
      refuse (latest_changes db req.repo req.branch b.base_sequence) refl
        (sym (changed-change_at db req.repo req.branch b.base_sequence path) ∙ hb)
        (sym (changed-change_at db req.repo "main" b.base_sequence path) ∙ hm)
    where
      ms : List FileCommit
      ms = latest_changes db req.repo "main" b.base_sequence

      refuse :
          (rs : List FileCommit)
          → latest_changes db req.repo req.branch b.base_sequence ≡ rs
          → is_some (change_at path rs) ≡ true
          → is_some (change_at path ms) ≡ true
          → (c : MergeConflict) × (cs : List MergeConflict) × (merge env now req db
              ≡ (err (merge_conflict (c ∷ cs)), db))
      refuse [] same x y = unfold change_at in cc x
      refuse (r ∷ rs) same x y = elim (List-cases (find_conflicts (r ∷ rs) ms)) [
        | inl none_found ↦
            let (q, at_q) = is_some-some (change_at path (r ∷ rs)) x in
            absurd
              (false≢true (ap is_some (sym (no_conflicts (r ∷ rs) ms path q none_found at_q)) ∙ y))
        | inr (c, cs, some_found) ↦ (
          c,
          cs,
          merge_mergeable
              ∙ (unfold merge_changes merge_unless_conflict with_tx rolled_back in
                  rw (same, some_found, merge_changes)),
        )
      ]

  -- Where no path changed both on the branch and on main since the branch was based, the merge of an
  -- active, published branch succeeds.
  pub merge_clean :
      ((path : String)
        → changed db req.repo req.branch b.base_sequence path ≡ true
        → changed db req.repo "main" b.base_sequence path ≡ false)
      → (resp : MergeResponse) × ((merge env now req db).0 ≡ ok resp)
  merge_clean clean =
      let (resp, done) = accept (latest_changes db req.repo req.branch b.base_sequence) clear in
      (resp, ap (λ (o : Result MergeResponse × Db). o.0) merge_mergeable ∙ done)
    where
      ms : List FileCommit
      ms = latest_changes db req.repo "main" b.base_sequence

      clear :
          (path : String)
          → is_some (change_at path (latest_changes db req.repo req.branch b.base_sequence)) ≡ true
          → is_some (change_at path ms) ≡ false
      clear path h =
          sym (changed-change_at db req.repo "main" b.base_sequence path)
          ∙ clean path (changed-change_at db req.repo req.branch b.base_sequence path ∙ h)

      accept :
          (rs : List FileCommit)
          → ((path : String)
              → is_some (change_at path rs) ≡ true
              → is_some (change_at path ms) ≡ false)
          → (resp : MergeResponse) × ((with_tx db (merge_changes env now req main b rs db)).0
              ≡ ok resp)
      accept [] f = (
        record { sequence = main.head_sequence },
        unfold merge_changes in concluded db req.dry_run _ _,
      )
      accept (r ∷ rs) f = (
        record { sequence = db.next_sequence },
        unfold merge_changes in
            rw (find_conflicts-nil (r ∷ rs) ms f)
              (unfold merge_unless_conflict apply_merge in concluded db req.dry_run _ _),
      )
