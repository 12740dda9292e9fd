-- ===== src/Store/Tree/Rises.antt =====
-- The order of the entries of MaterializeTree, of internal/store/store.go.
use docstore.Base.{
  ℕ, String, ◌≡◌, refl, sym, subst, ◌∙◌, inl, inr, true, false, Option, List, [], ◌∷◌, ◌==◌, All,
  Bool-cases, Option-cases, eq_iff,
}
use docstore.Base.Order.{text_leb, text_leb-antisym, text_leb-total, text_leb_trans}
use docstore.Base.Sorting.{IsSorted, sort_by-IsSorted, OnlyOne}
use docstore.Store.Tables.{Db, FileCommit, find_branch}
use docstore.Store.Tree.{
  TreeEntry, path_leb, latest_rows, entry_of_version, cons_some, entries_of, tree_of,
}
use docstore.Store.Tree.Files.{path-entry, latest_rows-OnlyOne}

-- A path stands before another in the order of the listing.
abbrev pub Below : String → String → Type 0
Below p q = text_leb q p ≡ false

-- The paths of entries rise.
abbrev pub Rises : List TreeEntry → Type 0
Rises [] = Unit
Rises (e ∷ es) = All (λ (f : TreeEntry). Below e.path f.path) es × Rises es

abbrev RowsRise : List FileCommit → Type 0
RowsRise [] = Unit
RowsRise (r ∷ rs) = All (λ (q : FileCommit). Below r.path q.path) rs × RowsRise rs

latest_rows-IsSorted :
    (db : Db) (repo branch : String) (base : ℕ) (at : Option ℕ)
    → IsSorted path_leb (latest_rows db repo branch base at)
unfolding latest_rows path_leb
latest_rows-IsSorted db repo branch base at =
    sort_by-IsSorted path_leb (λ r q h. text_leb-total r.path q.path h)
      (λ r q s h g. text_leb_trans r.path q.path s.path h g) _

-- Sorted rows of which each path has one only.
sorted-RowsRise :
    (rs : List FileCommit)
    → IsSorted path_leb rs
    → ((path : String) → OnlyOne (λ (r : FileCommit). r.path == path) rs)
    → RowsRise rs
sorted-RowsRise [] s o = tt
sorted-RowsRise (r ∷ rs) s o = (
  strict rs s.0 ((o r.path).0 ((eq_iff r.path r.path).1 refl)),
  sorted-RowsRise rs s.1 (λ path. (o path).1),
)
  where
    strict :
        (qs : List FileCommit)
        → All (λ q. path_leb r q ≡ true) qs
        → All (λ (q : FileCommit). (q.path == r.path) ≡ false) qs
        → All (λ (q : FileCommit). Below r.path q.path) qs
    strict [] h g = tt
    strict (q ∷ qs) h g = (apart q h.0 g.0, strict qs h.1 g.1)
      where
        apart :
            (q : FileCommit)
            → path_leb r q ≡ true
            → (q.path == r.path) ≡ false
            → Below r.path q.path
        apart q h g = elim (Bool-cases (text_leb q.path r.path)) [
          | inr e ↦ e
          | inl e ↦
              let same = text_leb-antisym q.path r.path e (unfold path_leb in h) in
              cc (sym g ∙ (eq_iff q.path r.path).1 same)
        ]

Below-entries :
    (db : Db) (repo path : String) (rs : List FileCommit)
    → All (λ (q : FileCommit). Below path q.path) rs
    → All (λ (f : TreeEntry). Below path f.path) (entries_of db repo rs)
unfolding entries_of cons_some
Below-entries db repo path [] h = tt
Below-entries db repo path (r ∷ rs) h =
    elim (Option-cases (entry_of_version db repo r.path r.version_id)) [
      | inl n ↦ rw n (Below-entries db repo path rs h.1)
      | inr (x, n) ↦ rw n (
        subst (λ p. Below path p) (sym (path-entry db repo r.path r.version_id x n)) h.0,
        Below-entries db repo path rs h.1,
      )
    ]

entries_of-Rises :
    (db : Db) (repo : String) (rs : List FileCommit) → RowsRise rs → Rises (entries_of db repo rs)
unfolding entries_of cons_some
entries_of-Rises db repo [] h = tt
entries_of-Rises db repo (r ∷ rs) h =
    elim (Option-cases (entry_of_version db repo r.path r.version_id)) [
      | inl n ↦ rw n (entries_of-Rises db repo rs h.1)
      | inr (x, n) ↦ rw n (
        subst (λ p. All (λ (f : TreeEntry). Below p f.path) (entries_of db repo rs))
            (sym (path-entry db repo r.path r.version_id x n))
            (Below-entries db repo r.path rs h.0),
        entries_of-Rises db repo rs h.1,
      )
    ]

pub tree_of-Rises :
    (db : Db) (repo branch : String) (at : Option ℕ) → Rises (tree_of db repo branch at)
unfolding tree_of
tree_of-Rises db repo branch at = elim (Option-cases (find_branch repo branch db)) [
  | inl e ↦ rw (e, tree_of) tt
  | inr (b, e) ↦
      rw (e, tree_of)
        (entries_of-Rises db repo (latest_rows db repo branch b.base_sequence at) (
          sorted-RowsRise (latest_rows db repo branch b.base_sequence at)
            (latest_rows-IsSorted db repo branch b.base_sequence at)
            (λ path. latest_rows-OnlyOne db repo branch path b.base_sequence at)))
]
