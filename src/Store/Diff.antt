-- ===== src/Store/Diff.antt =====
-- GetDiff of internal/store/store.go.
pub mod Foretells
use docstore.Base.{ℕ, String, Bool, false, ◌&&◌, not, Option, none, some, List, [], ◌∷◌, ◌==◌, map}
use docstore.Base.Text.{has_prefix}
use docstore.Store.Tables.{Db, Branch, FileCommit, Document, find_branch}
use docstore.Store.Rows.{latest_changes}
use docstore.Store.Merge.{change_at}
use docstore.Store.Tree.{document_of}

pub record DiffEntry : Type 0 where
  pub path : String
  pub version_id : Option String
  pub binary : Bool

pub record ConflictEntry : Type 0 where
  pub path : String
  pub main_version_id : String
  pub branch_version_id : String

pub record DiffResult : Type 0 where
  pub branch_changes : List DiffEntry
  pub main_changes : List DiffEntry
  pub conflicts : List ConflictEntry

unfoldable pub is_binary_content_type : String → Bool
is_binary_content_type ct = not (ct == "") && not (has_prefix "text/" ct)

unfoldable pub version_or_empty : Option String → String
version_or_empty none = ""
version_or_empty (some id) = id

-- LEFT JOIN documents: the type of a version without a document, or of a document without a type,
-- scans as the empty text.
unfoldable pub content_type_of_document : Option Document → String
content_type_of_document none = ""
content_type_of_document (some d) = version_or_empty d.content_type

unfoldable pub content_type_of : Db → String → Option String → String
content_type_of db repo none = ""
content_type_of db repo (some id) = content_type_of_document (document_of db repo id)

unfoldable pub diff_entry : Db → String → FileCommit → DiffEntry
diff_entry db repo r = record {
  path = r.path;
  version_id = r.version_id;
  binary = is_binary_content_type (content_type_of db repo r.version_id);
}

unfoldable pub conflict_entry : FileCommit → FileCommit → ConflictEntry
conflict_entry change main_change = record {
  path = change.path;
  main_version_id = version_or_empty main_change.version_id;
  branch_version_id = version_or_empty change.version_id;
}

-- The entry that a change of the branch adds, by what main has at its path.
unfoldable pub add_conflict :
    FileCommit → Option FileCommit → List ConflictEntry → List ConflictEntry
add_conflict change none conflicts = conflicts
add_conflict change (some main_change) conflicts = conflict_entry change main_change ∷ conflicts

-- The loop over the changes of the branch, in the order of a list that stands for a map.
unfoldable pub diff_conflicts : List FileCommit → List FileCommit → List ConflictEntry
diff_conflicts [] main_changes = []
diff_conflicts (r ∷ rs) main_changes =
    add_conflict r (change_at r.path main_changes) (diff_conflicts rs main_changes)

unfoldable pub diff_of : Db → String → String → Branch → DiffResult
diff_of db repo branch b =
    let branch_changes = latest_changes db repo branch b.base_sequence in
    let main_changes = latest_changes db repo "main" b.base_sequence in
    record {
      branch_changes = map (diff_entry db repo) branch_changes;
      main_changes = map (diff_entry db repo) main_changes;
      conflicts = diff_conflicts branch_changes main_changes;
    }

-- A branch that does not exist has no diff.
unfoldable pub diff_if_found : Db → String → String → Option Branch → Option DiffResult
diff_if_found db repo branch none = none
diff_if_found db repo branch (some b) = some (diff_of db repo branch b)

unfoldable pub get_diff : Db → String → String → Option DiffResult
get_diff db repo branch = diff_if_found db repo branch (find_branch repo branch db)
