-- ===== src/Store/Tree/Files.antt =====
-- The tree of MaterializeTree and the files of GetFile, both of internal/store/store.go.
use docstore.Base.{
  ℕ, String, ◌≡◌, ◌∙◌, refl, sym, ap, subst, inl, inr, ◌&&◌, Option, none, some, List, [], ◌∷◌,
  ◌==◌, All, first, Bool-cases, Option-cases, arith, eq_iff,
}
use docstore.Base.Sorting.{OnlyOne, OnlyOne-sort_by, first-sort_by, first-none}
use docstore.Store.Tables.{Db, FileCommit, Document, find_branch}
use docstore.Store.Rows.{distinct_latest, visible, up_to, at_path, newest, file_row}
use docstore.Store.Merge.{change_at}
use docstore.Store.Changes.{
  Fresh, IsDistinct, change_at-distinct_latest, distinct_latest-IsDistinct,
}
use docstore.Store.Lookup.{newest-agree}
use docstore.Store.Tree.{
  TreeEntry, path_leb, latest_rows, document_of, entry_with, entry_of_version, cons_some,
  entries_of, tree_of,
}

-- Of distinct paths at most one is any given path.
OnlyOne-of_distinct :
    (path : String) (rs : List FileCommit)
    → IsDistinct rs
    → OnlyOne (λ (r : FileCommit). r.path == path) rs
OnlyOne-of_distinct path [] d = tt
OnlyOne-of_distinct path (r ∷ rs) d =
    ((λ e. subst (λ p. Fresh p rs) ((eq_iff r.path path).0 e) d.0), OnlyOne-of_distinct path rs d.1)

-- The entry that a tree should have for the row that a branch shows at a path.
abbrev pub entry_of_row : Db → String → Option FileCommit → Option TreeEntry
entry_of_row db repo none = none
entry_of_row db repo (some r) = entry_of_version db repo r.path r.version_id

abbrev pub entry_at : String → List TreeEntry → Option TreeEntry
entry_at path es = first (λ (e : TreeEntry). e.path == path) es

path_or : String → Option TreeEntry → String
path_or path none = path
path_or path (some x) = x.path

pub path-entry :
    (db : Db) (repo path : String) (o : Option String) (e : TreeEntry)
    → entry_of_version db repo path o ≡ some e
    → e.path ≡ path
unfolding entry_of_version entry_with path_or
path-entry db repo path none e h = cc
path-entry db repo path (some id) e h = elim (Option-cases (document_of db repo id)) [
  | inl n ↦ cc (rw n at h)
  | inr (d, n) ↦ step d (rw n at h)
]
  where
    step :
        (d : Document)
        → some (record { path = path; version_id = id; content_hash = d.content_hash }) ≡ some e
        → e.path ≡ path
    step d h = sym (ap (path_or path) h)

entry_at-entries_of :
    (db : Db) (repo path : String) (rs : List FileCommit)
    → OnlyOne (λ (r : FileCommit). r.path == path) rs
    → entry_at path (entries_of db repo rs) ≡ entry_of_row db repo (change_at path rs)
unfolding entries_of cons_some change_at
entry_at-entries_of db repo path [] d = refl
entry_at-entries_of db repo path (r ∷ rs) d =
    let ih = entry_at-entries_of db repo path rs d.1 in
    elim (Option-cases (entry_of_version db repo r.path r.version_id)) [
      | inl n ↦ elim (Bool-cases (r.path == path)) [
        | inl e ↦ rw (n, e) (ih ∙ ap (entry_of_row db repo) (first-none _ rs (d.0 e)) ∙ sym n)
        | inr e ↦ rw (n, e) ih
      ]
      | inr (x, n) ↦
          let same = path-entry db repo r.path r.version_id x n in
          elim (Bool-cases (r.path == path)) [
            | inl e ↦ simp (n, same, e) refl
            | inr e ↦ rw (n, same, e) ih
          ]
    ]

latest_rows-found :
    (db : Db) (repo branch path : String) (base : ℕ) (at : Option ℕ)
    → change_at path (latest_rows db repo branch base at)
      ≡ newest (λ r. visible repo branch base r && (at_path path r && up_to at r)) db.file_commits
unfolding latest_rows
latest_rows-found db repo branch path base at =
    let p = λ (r : FileCommit). visible repo branch base r && up_to at r in
    unfold change_at in
    first-sort_by (λ r. r.path == path) path_leb (distinct_latest p db.file_commits)
      (OnlyOne-of_distinct path (distinct_latest p db.file_commits)
        (distinct_latest-IsDistinct p db.file_commits))
    ∙ change_at-distinct_latest path p db.file_commits
    ∙ newest-agree _ _ db.file_commits (regrouped db.file_commits)
  where
    regrouped :
        (rs : List FileCommit)
        → All
            (λ r.
              ((visible repo branch base r && up_to at r) && at_path path r)
              ≡ (visible repo branch base r && (at_path path r && up_to at r)))
            rs
    regrouped [] = tt
    regrouped (r ∷ rs) = (ground arith, regrouped rs)

pub latest_rows-OnlyOne :
    (db : Db) (repo branch path : String) (base : ℕ) (at : Option ℕ)
    → OnlyOne (λ (r : FileCommit). r.path == path) (latest_rows db repo branch base at)
unfolding latest_rows
latest_rows-OnlyOne db repo branch path base at =
    let p = λ (r : FileCommit). visible repo branch base r && up_to at r in
    OnlyOne-sort_by (λ r. r.path == path) path_leb (distinct_latest p db.file_commits)
      (OnlyOne-of_distinct path (distinct_latest p db.file_commits)
        (distinct_latest-IsDistinct p db.file_commits))

-- A listing and a read agree: at every path, the tree of a branch, as of any sequence, has the entry of
-- the row that GetFile reads there, with its version and its document's hash, and no entry where
-- GetFile has no row, the row records a deletion, or the version has no document in the repo.
pub entry_at-tree_of :
    (db : Db) (repo branch path : String) (at : Option ℕ)
    → entry_at path (tree_of db repo branch at)
      ≡ entry_of_row db repo (file_row db repo branch path at)
unfolding tree_of file_row
entry_at-tree_of db repo branch path at = elim (Option-cases (find_branch repo branch db)) [
  | inl e ↦ rw (e, tree_of, file_row) refl
  | inr (b, e) ↦
      rw (e, tree_of, file_row)
        (entry_at-entries_of db repo path (latest_rows db repo branch b.base_sequence at)
            (latest_rows-OnlyOne db repo branch path b.base_sequence at)
          ∙ ap (entry_of_row db repo) (latest_rows-found db repo branch path b.base_sequence at))
]
