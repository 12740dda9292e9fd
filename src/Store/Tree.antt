-- ===== src/Store/Tree.antt =====
-- MaterializeTree of internal/store/store.go. Paths are ordered by their code points.
pub mod Files
pub mod Rises
pub mod Pages
use docstore.Base.{
  ℕ, zero, suc, String, Bool, ◌&&◌, ◌||◌, not, Option, none, some, List, [], ◌∷◌, ◌==◌, nat_eq,
  keep, first, take, take, if◌then◌else◌,
}
use docstore.Base.Order.{text_leb}
use docstore.Base.Sorting.{sort_by}
use docstore.Store.Tables.{Db, FileCommit, Document, find_branch}
use docstore.Store.Rows.{distinct_latest, visible, up_to}

pub record TreeEntry : Type 0 where
  pub path : String
  pub version_id : String
  pub content_hash : String

-- ORDER BY path
unfoldable pub path_leb : FileCommit → FileCommit → Bool
path_leb r q = text_leb r.path q.path

-- The rows of the common table expression `latest`, of a branch with this base.
unfoldable pub latest_rows : Db → String → String → ℕ → Option ℕ → List FileCommit
latest_rows db repo branch base at =
    sort_by path_leb
      (distinct_latest (λ r. visible repo branch base r && up_to at r) db.file_commits)

-- The document of a version: WHERE version_id = … AND repo = $1
unfoldable pub document_of : Db → String → String → Option Document
document_of db repo id = first (λ (d : Document). d.version_id == id && d.repo == repo) db.documents

unfoldable pub entry_with : String → String → Option Document → Option TreeEntry
entry_with path id none = none
entry_with path id (some d) =
    some record { path = path; version_id = id; content_hash = d.content_hash }

-- The join with documents, which leaves out a row without a version or without its document.
unfoldable pub entry_of_version : Db → String → String → Option String → Option TreeEntry
entry_of_version db repo path none = none
entry_of_version db repo path (some id) = entry_with path id (document_of db repo id)

unfoldable pub cons_some {ℓ} : {A : Type ℓ} → Option A → List A → List A
cons_some none xs = xs
cons_some (some x) xs = x ∷ xs

unfoldable pub entries_of : Db → String → List FileCommit → List TreeEntry
entries_of db repo [] = []
entries_of db repo (r ∷ rs) =
    cons_some (entry_of_version db repo r.path r.version_id) (entries_of db repo rs)

-- path > $4, which every path does of the empty text.
unfoldable pub is_past : String → TreeEntry → Bool
is_past after_path e = after_path == "" || not (text_leb e.path after_path)

unfoldable pub tree_of : Db → String → String → Option ℕ → List TreeEntry
tree_of db repo branch at = elim (find_branch repo branch db) [
  | none ↦ []
  | some b ↦ entries_of db repo (latest_rows db repo branch b.base_sequence at)
]

-- A limit of 0, which stands for every limit that is not positive, is the default one.
unfoldable pub limit_or_default : ℕ → ℕ
limit_or_default zero = 100
limit_or_default (suc n) = suc n

unfoldable pub materialize_tree : Db → String → String → Option ℕ → ℕ → String → List TreeEntry
materialize_tree db repo branch at limit after_path =
    take (limit_or_default limit) (keep (is_past after_path) (tree_of db repo branch at))
