-- ===== src/Store/Merge.antt =====
-- Store.Merge of internal/db/store.go.
pub mod Copies
pub mod ThreeWay
pub mod Conflicts
pub mod DryRun
pub mod Closed
use Prim.Native.String.{◌++◌ as text_append}
use docstore.Base.{ℕ, String, Bool, Option, none, some, List, [], ◌∷◌, ◌==◌, first, if◌then◌else◌}
use docstore.Hash.{File}
use docstore.Store.Tables.{
  Db, Env, Branch, Document, FileCommit, MergeConflict, merged, Outcome, commit, rollback, fail,
  Result, branch_not_found, branch_not_active, branch_draft, merge_conflict, failed, is_active,
  find_branch, with_tx,
}
use docstore.Store.Rows.{latest_changes}
use docstore.Store.Writes.{
  insert_commit, insert_file_commit, update_branch, set_head, set_status, update_commit_hash,
  chain_hash,
}

pub record MergeRequest : Type 0 where
  pub repo : String
  pub branch : String
  pub author : String
  pub dry_run : Bool

pub record MergeResponse : Type 0 where
  pub sequence : ℕ

unfoldable pub null_str : Option String → String
null_str none = ""
null_str (some s) = s

-- The change of a path, in a list that stands for a map from paths.
unfoldable pub change_at : String → List FileCommit → Option FileCommit
change_at path rows = first (λ (r : FileCommit). r.path == path) rows

-- Every path that changed on the branch and on main.
unfoldable pub find_conflicts : List FileCommit → List FileCommit → List MergeConflict
find_conflicts [] main_changes = []
find_conflicts (r ∷ rs) main_changes =
    let rest = find_conflicts rs main_changes in
    elim (change_at r.path main_changes) [
      | none ↦ rest
      | some m ↦
          record {
            path = r.path;
            main_version_id = null_str m.version_id;
            branch_version_id = null_str r.version_id;
          }
          ∷ rest
    ]

-- One new row for each change, under one sequence.
unfoldable pub copy_changes : Env → String → ℕ → String → List FileCommit → Db → Db
copy_changes env repo seq branch [] db = db
copy_changes env repo seq branch (r ∷ rs) db =
    copy_changes env repo seq branch rs
      (insert_file_commit env db repo seq r.path r.version_id branch)

-- SELECT content_hash FROM documents WHERE version_id = …; absent versions read as "".
unfoldable pub hash_of_document : Option Document → String
hash_of_document none = ""
hash_of_document (some d) = d.content_hash

unfoldable pub content_hash_of : Db → Option String → String
content_hash_of db none = ""
content_hash_of db (some id) =
    hash_of_document (first (λ (d : Document). d.version_id == id) db.documents)

unfoldable pub changes_to_hash : Db → List FileCommit → List File
changes_to_hash db [] = []
changes_to_hash db (r ∷ rs) =
    record { path = r.path; content_hash = content_hash_of db r.version_id } ∷ changes_to_hash db rs

unfoldable pub merge_message : String → String
merge_message branch = text_append "merge branch '" (text_append branch "'")

unfoldable pub conclude : Bool → MergeResponse → Db → Outcome MergeResponse × Db
conclude dry_run resp db = (if dry_run then rollback resp else commit resp, db)

-- The tables once the changes are on main and the branch is marked.
unfoldable pub merged_rows : Env → ℕ → MergeRequest → List FileCommit → Db → Db
merged_rows env now req changes db = update_branch req.repo req.branch (set_status merged) (
    update_branch req.repo "main" (set_head db.next_sequence) (
      copy_changes env req.repo db.next_sequence "main" changes
        (insert_commit db req.repo "main" (merge_message req.branch) req.author now)))

unfoldable pub apply_merge :
    Env → ℕ → MergeRequest → List FileCommit → Db → Outcome MergeResponse × Db
apply_merge env now req changes db =
    let seq = db.next_sequence in
    let db' = merged_rows env now req changes db in
    let hash =
      chain_hash env db' req.repo "main" seq req.author (merge_message req.branch) now
        (changes_to_hash db' changes) in
    conclude req.dry_run (record { sequence = seq }) (update_commit_hash db' req.repo seq hash)

unfoldable pub merge_unless_conflict :
    Env → ℕ → MergeRequest → List FileCommit → List MergeConflict → Db → Outcome MergeResponse × Db
merge_unless_conflict env now req changes [] db = apply_merge env now req changes db
merge_unless_conflict env now req changes (c ∷ cs) db = (fail (merge_conflict (c ∷ cs)), db)

unfoldable pub merge_changes :
    Env → ℕ → MergeRequest → Branch → Branch → List FileCommit → Db → Outcome MergeResponse × Db
merge_changes env now req main b [] db =
    conclude req.dry_run (record { sequence = main.head_sequence })
      (if req.dry_run then db else update_branch req.repo req.branch (set_status merged) db)
merge_changes env now req main b (r ∷ rs) db =
    merge_unless_conflict env now req (r ∷ rs)
      (find_conflicts (r ∷ rs) (latest_changes db req.repo "main" b.base_sequence)) db

unfoldable pub merge_branch :
    Env → ℕ → MergeRequest → Branch → Option Branch → Db → Outcome MergeResponse × Db
merge_branch env now req main none db = (fail branch_not_found, db)
merge_branch env now req main (some b) db =
    if is_active b.status
    then (if b.draft
        then (fail branch_draft, db)
        else merge_changes env now req main b
            (latest_changes db req.repo req.branch b.base_sequence) db)
    else (fail branch_not_active, db)

unfoldable pub merge_body : Env → ℕ → MergeRequest → Db → Outcome MergeResponse × Db
merge_body env now req db = elim (find_branch req.repo "main" db) [
  | none ↦ (fail (failed "lock main"), db)
  | some main ↦ merge_branch env now req main (find_branch req.repo req.branch db) db
]

unfoldable pub merge : Env → ℕ → MergeRequest → Db → Result MergeResponse × Db
merge env now req db = with_tx db (merge_body env now req db)
