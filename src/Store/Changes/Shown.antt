-- ===== src/Store/Changes/Shown.antt =====
-- How the changes of a branch since its base relate to what the branch shows: the newest change of a
-- path is what the branch shows there.
use docstore.Base.{
  ℕ, ◌≤◌, ◌<◌, String, ◌≡◌, refl, sym, subst, ◌∙◌, Bool, true, false, ◌&&◌, Option, none, some,
  List, [], ◌∷◌, arith, some_item, if◌then◌else◌,
}
use docstore.Store.Tables.{Db, FileCommit}
use docstore.Store.Rows.{newer, newest, changed_since, latest_changes, at_path, visible, up_to}
use docstore.Store.Merge.{change_at}
use docstore.Store.Changes.{change_at-distinct_latest}
use docstore.Store.Lookup.{shows}

-- Some row records a change of a path on a branch since a base.
abbrev pub changed : Db → String → String → ℕ → String → Bool
changed db repo branch base path =
    some_item (λ r. changed_since repo branch base r && at_path path r) db.file_commits

abbrev pub is_some : Option FileCommit → Bool
is_some none = false
is_some (some r) = true

some_item-newest :
    (p : FileCommit → Bool) (rs : List FileCommit) → some_item p rs ≡ is_some (newest p rs)
unfolding newest
some_item-newest p [] = refl
some_item-newest p (r ∷ rs) = ground (arith, some_item-newest p rs)

-- Exactly the changed paths are among the latest changes.
pub changed-change_at :
    (db : Db) (repo branch : String) (base : ℕ) (path : String)
    → changed db repo branch base path
      ≡ is_some (change_at path (latest_changes db repo branch base))
unfolding latest_changes
changed-change_at db repo branch base path =
    rw change_at-distinct_latest (some_item-newest _ db.file_commits)

-- The rows of one test lie above `base`, the other rows of a wider test do not.
abbrev Dominates : ℕ → Option FileCommit → Option FileCommit → Type 0
Dominates base (some x) wide = (wide ≡ some x) × (base < x.sequence)
Dominates base none none = Unit
Dominates base none (some y) = y.sequence ≤ base

abbrev Splits : ℕ → (FileCommit → Bool) → (FileCommit → Bool) → Type 0
Splits base q p =
    (r : FileCommit)
    → ((q r ≡ true → (p r ≡ true) × (base < r.sequence)))
      × ((q r ≡ false → p r ≡ true → r.sequence ≤ base))

newest-Dominates :
    (base : ℕ) (q p : FileCommit → Bool)
    → Splits base q p
    → (rs : List FileCommit) → Dominates base (newest q rs) (newest p rs)
unfolding newest newer
newest-Dominates base q p f [] = tt
newest-Dominates base q p f (r ∷ rs) =
    step (newest q rs) (newest p rs) (newest-Dominates base q p f rs) (q r) (p r) (f r).0 (f r).1
  where
    step :
        (x y : Option FileCommit)
        → Dominates base x y
        → (a b : Bool) → (a ≡ true → (b ≡ true) × (base < r.sequence))
        → (a ≡ false → b ≡ true → r.sequence ≤ base)
        → Dominates base (if a then some (newer r x) else x) (if b then some (newer r y) else y)
    step x y d true false h k = cc ((h refl).0)
    step x y d false false h k = d
    step (some x) y d true true h k = rw d.0 (refl, ground (arith, h refl))
    step none none d true true h k = (refl, (h refl).1)
    step none (some y) d true true h k = ground (arith, h refl)
    step (some x) y d false true h k = rw d.0 (ground (arith, k refl refl))
    step none none d false true h k = k refl refl
    step none (some y) d false true h k = ground (arith, k refl refl)

Splits-changed :
    (repo branch : String) (base : ℕ) (path : String)
    → Splits base
        (λ r. changed_since repo branch base r && at_path path r)
        (shows repo branch base path none)
unfolding changed_since visible up_to
Splits-changed repo branch base path r = (ground arith, ground arith)

-- A path that changed on a branch since its base shows its newest change.
pub newest-changed :
    (db : Db) (repo branch : String) (base : ℕ) (path : String) (r : FileCommit)
    → change_at path (latest_changes db repo branch base) ≡ some r
    → newest (shows repo branch base path none) db.file_commits ≡ some r
unfolding latest_changes
newest-changed db repo branch base path r e =
    let d = newest-Dominates base _ _ (Splits-changed repo branch base path) db.file_commits in
    (subst (λ x. Dominates base x (newest (shows repo branch base path none) db.file_commits))
      (sym (change_at-distinct_latest path _ db.file_commits) ∙ e) d).0
