-- ===== src/Store/Tables.antt =====
-- The rows of internal/db/migrations as internal/db/store.go reads and writes them, the error values
-- of store.go, and `WithTx` of internal/db/tx.go.
use docstore.Base.{ℕ, String, Bool, true, false, ◌&&◌, Option, List, ◌==◌, first}
use docstore.Hash.{Primitives}

pub data BranchStatus : Type 0 where
  active merged abandoned : BranchStatus

unfoldable pub is_active : BranchStatus → Bool
is_active active = true
is_active _ = false

pub record Branch : Type 0 where
  pub repo : String
  pub name : String
  pub head_sequence : ℕ
  pub base_sequence : ℕ
  pub status : BranchStatus
  pub draft : Bool
  pub auto_merge : Bool

pub record Commit : Type 0 where
  pub sequence : ℕ
  pub repo : String
  pub branch : String
  pub message : String
  pub author : String
  pub created_at : ℕ
  pub commit_hash : Option String

-- A row whose `version_id` is `none` records that the path was deleted.
pub record FileCommit : Type 0 where
  pub repo : String
  pub commit_id : String
  pub sequence : ℕ
  pub path : String
  pub version_id : Option String
  pub branch : String

pub record Document : Type 0 where
  pub repo : String
  pub version_id : String
  pub path : String
  pub content : Option (List ℕ)
  pub content_hash : String
  pub content_type : Option String
  pub blob_key : Option String
  pub created_by : String

pub record Review : Type 0 where
  pub id : String
  pub repo : String
  pub branch : String
  pub reviewer : String
  pub sequence : ℕ
  pub status : String
  pub body : Option String

-- The tables, newest row first, with the next value of the sequence of `commits` and the number of
-- UUIDs drawn so far.
pub record Db : Type 0 where
  pub branches : List Branch
  pub commits : List Commit
  pub file_commits : List FileCommit
  pub documents : List Document
  pub reviews : List Review
  pub next_sequence : ℕ
  pub drawn : ℕ

pub record MergeConflict : Type 0 where
  pub path : String
  pub main_version_id : String
  pub branch_version_id : String

pub data Error : Type 0 where
  branch_not_found branch_not_active branch_exists branch_draft : Error
  repo_not_found self_approval : Error
  merge_conflict rebase_conflict : List MergeConflict → Error
  -- a wrapped driver or upload error, by its prefix
  failed : String → Error

pub data Result {ℓ} (A : Type ℓ) : Type ℓ where
  ok : A → Result A
  err : Error → Result A

-- How the body of a transaction ends: it returns nil, `errRollback`, or another error. The value
-- is what the body has assigned to the response by then.
pub data Outcome {ℓ} (A : Type ℓ) : Type ℓ where
  commit rollback : A → Outcome A
  fail : Error → Outcome A

-- Rows come back after a rollback; a sequence's values and drawn UUIDs do not.
unfoldable pub rolled_back : Db → Db → Db
rolled_back before after = record before {
  next_sequence = after.next_sequence;
  drawn = after.drawn;
}

unfoldable pub with_tx {ℓ} : {A : Type ℓ} → Db → Outcome A × Db → Result A × Db
unfolding rolled_back
with_tx before (commit a, after) = (ok a, after)
with_tx before (rollback a, after) = (ok a, rolled_back before after)
with_tx before (fail e, after) = (err e, rolled_back before after)

-- What the store calls and does not implement: the primitives of the chain hash, fresh UUIDs, and
-- the blob store, where one is configured, with its threshold; `put` says whether an upload succeeds.
pub record Env : Type 0 where
  pub lib : Primitives
  pub uuid : ℕ → String
  pub put : Option (String → List ℕ → Bool)
  pub threshold : ℕ

-- WHERE repo = $1 AND name = $2
unfoldable pub is_branch : String → String → Branch → Bool
is_branch repo name b = b.repo == repo && b.name == name

unfoldable pub find_branch : String → String → Db → Option Branch
unfolding is_branch
find_branch repo name db = first (is_branch repo name) db.branches
