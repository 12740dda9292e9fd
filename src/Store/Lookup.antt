-- ===== src/Store/Lookup.antt =====
-- What the queries of internal/db and internal/store find after a statement: the newest row of a
-- path, the row of a branch, and the version that a branch shows at a path.
use docstore.Base.{
  ℕ, ◌≤◌, ◌<◌, String, ◌≡◌, refl, ◌∙◌, inl, inr, Bool, true, false, Option, none, some, List, [],
  ◌∷◌, map, arith, All, Option-cases, if◌then◌else◌, first, ◌&&◌, ◌==◌, eq_refl, ap, All-map,
}
use docstore.Store.Tables.{Db, Branch, FileCommit, is_branch, find_branch}
use docstore.Store.Rows.{newest, visible, at_path, up_to, file_row, version_of, file_version}
use docstore.Store.Writes.{update_branch}
use docstore.Store.Invariant.{RowBelow}

abbrev pub AtMost : ℕ → FileCommit → Type 0
AtMost n r = r.sequence ≤ n

pub newest-AtMost :
    (p : FileCommit → Bool) (n : ℕ) (rs : List FileCommit) (q : FileCommit)
    → All (AtMost n) rs
    → newest p rs ≡ some q
    → q.sequence ≤ n
unfolding newest
newest-AtMost p n [] q h e = cc
newest-AtMost p n (r ∷ rs) q h e = elim (Option-cases (newest p rs)) [
  | inl x ↦ ground (arith, x)
  | inr (b, x) ↦ ground (arith, x, newest-AtMost p n rs b h.1 x)
]

-- A row that no other row is newer than is the newest.
pub newest-cons :
    (p : FileCommit → Bool) (r : FileCommit) (rs : List FileCommit)
    → p r ≡ true
    → All (AtMost r.sequence) rs
    → newest p (r ∷ rs) ≡ some r
unfolding newest
newest-cons p r rs t h = elim (Option-cases (newest p rs)) [
  | inl x ↦ rw (t, x)
  | inr (b, x) ↦ rw (t, x) (ground (arith, newest-AtMost p r.sequence rs b h x))
]

-- The row passes no test, or its sequence is below a bound.
abbrev pub Under : (FileCommit → Bool) → ℕ → FileCommit → Type 0
Under p n r = p r ≡ true → r.sequence < n

newest-Under :
    (p : FileCommit → Bool) (n : ℕ) (rs : List FileCommit) (q : FileCommit)
    → All (Under p n) rs
    → newest p rs ≡ some q
    → q.sequence < n
unfolding newest
newest-Under p n [] q h e = cc
newest-Under p n (r ∷ rs) q h e = elim (Option-cases (newest p rs)) [
  | inl x ↦ ground (arith, x, h.0)
  | inr (b, x) ↦ ground (arith, x, h.0, newest-Under p n rs b h.1 x)
]

-- A row above all others that pass the test is the newest.
pub newest-above :
    (p : FileCommit → Bool) (r : FileCommit) (rs : List FileCommit)
    → p r ≡ true
    → All (Under p r.sequence) rs
    → newest p (r ∷ rs) ≡ some r
unfolding newest
newest-above p r rs t h = elim (Option-cases (newest p rs)) [
  | inl x ↦ rw (t, x)
  | inr (b, x) ↦ rw (t, x) (ground (arith, newest-Under p r.sequence rs b h x))
]

pub newest-skip :
    (p : FileCommit → Bool) (r : FileCommit) (rs : List FileCommit)
    → p r ≡ false
    → newest p (r ∷ rs) ≡ newest p rs
unfolding newest
newest-skip p r rs t = rw t

-- Two tests that agree on the rows find one row.
pub newest-agree :
    (p q : FileCommit → Bool) (rs : List FileCommit)
    → All (λ r. p r ≡ q r) rs
    → newest p rs ≡ newest q rs
unfolding newest
newest-agree p q [] h = refl
newest-agree p q (r ∷ rs) h = rw (h.0, newest-agree p q rs h.1)

-- The branch that a query finds once some branches were updated.
abbrev pub updated : (Branch → Bool) → (Branch → Branch) → Option Branch → Option Branch
updated test change none = none
updated test change (some b) = some (if test b then change b else b)

first-update :
    (q test : Branch → Bool) (change : Branch → Branch)
    → ((b : Branch) → q (change b) ≡ q b)
    → (bs : List Branch)
    → first q (map (λ b. if test b then change b else b) bs) ≡ updated test change (first q bs)
first-update q test change f [] = refl
first-update q test change f (b ∷ bs) = ground (arith, f b, first-update q test change f bs)

-- An UPDATE that leaves repo and name alone is seen by whoever finds that branch.
pub find_branch-update :
    (repo name : String) (change : Branch → Branch) (db : Db) (repo' name' : String)
    → ((b : Branch) → is_branch repo' name' (change b) ≡ is_branch repo' name' b)
    → find_branch repo' name' (update_branch repo name change db)
      ≡ updated (is_branch repo name) change (find_branch repo' name' db)
unfolding find_branch update_branch
find_branch-update repo name change db repo' name' f =
    first-update (is_branch repo' name') (is_branch repo name) change f db.branches

-- The base of the branch, which with the rows decides what a branch shows.
abbrev pub base_of : Option Branch → Option ℕ
base_of none = none
base_of (some b) = some b.base_sequence

pub base_of-updated :
    (test : Branch → Bool) (change : Branch → Branch) (o : Option Branch)
    → ((b : Branch) → (change b).base_sequence ≡ b.base_sequence)
    → base_of (updated test change o) ≡ base_of o
base_of-updated test change none f = refl
base_of-updated test change (some b) f = ground (arith, f b)

-- The rows that a branch with a given base shows at a path.
abbrev pub shows : String → String → ℕ → String → Option ℕ → FileCommit → Bool
shows repo branch base path at r = visible repo branch base r && (at_path path r && up_to at r)

abbrev pub row_at :
    String → String → String → Option ℕ → List FileCommit → Option ℕ → Option FileCommit
row_at repo branch path at rows none = none
row_at repo branch path at rows (some base) = newest (shows repo branch base path at) rows

pub file_row-row_at :
    (db : Db) (repo branch path : String) (at : Option ℕ)
    → file_row db repo branch path at
      ≡ row_at repo branch path at db.file_commits (base_of (find_branch repo branch db))
unfolding file_row
file_row-row_at db repo branch path at = elim (Option-cases (find_branch repo branch db)) [
  | inl e ↦ rw (e, file_row)
  | inr (b, e) ↦ rw (e, file_row)
]

-- A test that takes the rows of one commit by their path alone.
abbrev pub TakesPath : String → String → ℕ → String → (FileCommit → Bool) → Type 0
TakesPath repo branch seq path p =
    (r : FileCommit) → r.repo ≡ repo → r.branch ≡ branch → r.sequence ≡ seq → p r ≡ (r.path == path)

and-true : (b : Bool) → (b && true) ≡ b
and-true true = refl
and-true false = refl

-- So does what a branch shows, of the rows of a commit to it.
pub shows-TakesPath :
    (repo branch : String) (seq base : ℕ) (path : String)
    → TakesPath repo branch seq path (shows repo branch base path none)
unfolding visible at_path up_to
shows-TakesPath repo branch seq base path r e1 e2 e3 = simp (e1, e2, eq_refl, and-true)

-- The version that a branch of a known base shows.
pub file_version_at :
    (db : Db) (repo branch path : String) (at : Option ℕ) (base : ℕ)
    → base_of (find_branch repo branch db) ≡ some base
    → file_version db repo branch path at
      ≡ version_of (newest (shows repo branch base path at) db.file_commits)
unfolding file_version
file_version_at db repo branch path at base e =
    ap version_of
      (file_row-row_at db repo branch path at ∙ ap (row_at repo branch path at db.file_commits) e)

pub AtMost-of_below : (n : ℕ) (rs : List FileCommit) → All (RowBelow n) rs → All (AtMost n) rs
AtMost-of_below n rs h = All-map _ _ rs (λ r x. omega arith) h

pub base_of_branches :
    (a b : Db) (repo branch : String)
    → a.branches ≡ b.branches
    → base_of (find_branch repo branch a) ≡ base_of (find_branch repo branch b)
unfolding find_branch
base_of_branches a b repo branch e = ap (λ bs. base_of (first (is_branch repo branch) bs)) e

-- An UPDATE that leaves the keys and the bases of branches alone.
pub base-update_branch :
    (repo branch repo' branch' : String) (change : Branch → Branch) (db : Db)
    → ((b : Branch) → is_branch repo' branch' (change b) ≡ is_branch repo' branch' b)
    → ((b : Branch) → (change b).base_sequence ≡ b.base_sequence)
    → base_of (find_branch repo' branch' (update_branch repo branch change db))
      ≡ base_of (find_branch repo' branch' db)
base-update_branch repo branch repo' branch' change db f g =
    ap base_of (find_branch-update repo branch change db repo' branch' f)
    ∙ base_of-updated (is_branch repo branch) change (find_branch repo' branch' db) g
