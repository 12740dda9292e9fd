-- ===== src/Store/Commit.antt =====
-- Store.Commit of internal/db/store.go.
pub mod Documents
pub mod Reads
pub mod Shows
pub mod Isolation
use docstore.Base.{
  ℕ, ◌+◌, String, Bool, ◌&&◌, Option, none, some, List, [], ◌∷◌, ◌==◌, ltb, length, first,
  if◌then◌else◌,
}
use docstore.Hash.{File}
use docstore.Store.Tables.{
  Db, Env, Document, Outcome, commit, fail, Result, ok, err, branch_not_found, branch_not_active,
  failed, is_active, find_branch, with_tx,
}
use docstore.Store.Writes.{
  insert_commit, insert_file_commit, update_branch, set_head, update_commit_hash, chain_hash,
}

-- A `content` of none deletes the path.
pub record FileChange : Type 0 where
  pub path : String
  pub content : Option (List ℕ)
  pub content_type : String

pub record CommitRequest : Type 0 where
  pub repo : String
  pub branch : String
  pub files : List FileChange
  pub message : String
  pub author : String

pub record CommitFileResult : Type 0 where
  pub path : String
  pub version_id : Option String

pub record CommitResponse : Type 0 where
  pub sequence : ℕ
  pub files : List CommitFileResult
  pub commit_hash : String

-- Where a new content goes: inline, or to the blob store under its hash; none if the upload fails.
unfoldable pub place : Env → String → List ℕ → Option (Option (List ℕ) × Option String)
place env content_hash bytes = elim env.put [
  | none ↦ some (some bytes, none)
  | some put ↦
      if ltb 0 env.threshold && ltb env.threshold (length bytes)
      then (if put content_hash bytes then some (none, some content_hash) else none)
      else some (some bytes, none)
]

unfoldable pub text_or_null : String → Option String
text_or_null s = if s == "" then none else some s

-- WHERE repo = $1 AND content_hash = $2 LIMIT 1
unfoldable pub find_document : String → String → Db → Option Document
find_document repo content_hash db =
    first (λ (d : Document). d.repo == repo && d.content_hash == content_hash) db.documents

unfoldable pub insert_document :
    Env
    → CommitRequest
    → FileChange
    → String
    → Option (Option (List ℕ) × Option String)
    → Db
    → Result String × Db
insert_document env req f content_hash none db =
    (err (failed "upload blob"), record db { drawn = db.drawn + 1 })
insert_document env req f content_hash (some (content, blob_key)) db = (
  ok (env.uuid db.drawn),
  record db {
    documents =
        record {
          repo = req.repo;
          version_id = env.uuid db.drawn;
          path = f.path;
          content = content;
          content_hash = content_hash;
          content_type = text_or_null f.content_type;
          blob_key = blob_key;
          created_by = req.author;
        }
        ∷ db.documents;
    drawn = db.drawn + 1;
  },
)

-- The document of a content: the one of the same hash in the repo, or a new one.
unfoldable pub store_content : Env → CommitRequest → FileChange → List ℕ → Db → Result String × Db
store_content env req f bytes db =
    let content_hash = env.lib.sha256_hex bytes in
    elim (find_document req.repo content_hash db) [
      | some d ↦ (ok d.version_id, db)
      | none ↦ insert_document env req f content_hash (place env content_hash bytes) db
    ]

-- What one file of a commit leaves: its version, and its line in the chain hash.
pub record Written : Type 0 where
  pub result : CommitFileResult
  pub file : File

unfoldable pub written : FileChange → Option String → String → Written
written f version_id content_hash = record {
  result = record { path = f.path; version_id = version_id };
  file = record { path = f.path; content_hash = content_hash };
}

unfoldable pub stored_version : Env → FileChange → List ℕ → Result String × Db → Result Written × Db
stored_version env f bytes (err e, db) = (err e, db)
stored_version env f bytes (ok id, db) = (ok (written f (some id) (env.lib.sha256_hex bytes)), db)

-- The version of a file, and its line in the hash; a deletion has neither version nor content hash.
unfoldable pub version_for :
    Env → CommitRequest → FileChange → Option (List ℕ) → Db → Result Written × Db
version_for env req f none db = (ok (written f none ""), db)
version_for env req f (some bytes) db =
    stored_version env f bytes (store_content env req f bytes db)

unfoldable pub cons_ok : Written → Result (List Written) → Result (List Written)
cons_ok w (ok ws) = ok (w ∷ ws)
cons_ok w (err e) = err e

unfoldable pub add_written : Written → Result (List Written) × Db → Result (List Written) × Db
unfolding cons_ok
add_written w (rest, db) = (cons_ok w rest, db)

-- The row of a file in `file_commits`.
unfoldable pub write_row : Env → CommitRequest → ℕ → Written → Db → Db
write_row env req seq w db =
    insert_file_commit env db req.repo seq w.result.path w.result.version_id req.branch

-- An error ends the loop; otherwise the rest of it runs.
unfoldable pub and_then :
    Result Written × Db → (Written → Db → Result (List Written) × Db) → Result (List Written) × Db
and_then (err e, db) rest = (err e, db)
and_then (ok w, db) rest = rest w db

-- The loop over the files of a request.
unfoldable pub write_files :
    Env → CommitRequest → ℕ → List FileChange → Db → Result (List Written) × Db
write_files env req seq [] db = (ok [], db)
write_files env req seq (f ∷ fs) db =
    and_then (version_for env req f f.content db)
      λ w db'. add_written w (write_files env req seq fs (write_row env req seq w db'))

unfoldable pub results : List Written → List CommitFileResult
results [] = []
results (w ∷ ws) = w.result ∷ results ws

unfoldable pub hash_files : List Written → List File
hash_files [] = []
hash_files (w ∷ ws) = w.file ∷ hash_files ws

unfoldable pub finish_commit :
    Env → ℕ → CommitRequest → ℕ → Result (List Written) × Db → Outcome CommitResponse × Db
finish_commit env now req seq (err e, db) = (fail e, db)
finish_commit env now req seq (ok ws, db) =
    let db' = update_branch req.repo req.branch (set_head seq) db in
    let hash =
      chain_hash env db' req.repo req.branch seq req.author req.message now (hash_files ws) in
    (
      commit (record { sequence = seq; files = results ws; commit_hash = hash }),
      update_commit_hash db' req.repo seq hash,
    )

-- The body of the transaction.
unfoldable pub commit_body : Env → ℕ → CommitRequest → Db → Outcome CommitResponse × Db
commit_body env now req db = elim (find_branch req.repo req.branch db) [
  | none ↦ (fail branch_not_found, db)
  | some b ↦
      if is_active b.status
      then finish_commit env now req db.next_sequence (
          write_files env req db.next_sequence req.files
            (insert_commit db req.repo req.branch req.message req.author now))
      else (fail branch_not_active, db)
]

unfoldable pub commit_files : Env → ℕ → CommitRequest → Db → Result CommitResponse × Db
commit_files env now req db = with_tx db (commit_body env now req db)
