-- ===== src/Store/Writes.antt =====
-- The statements that Commit, Merge and Rebase of internal/db/store.go share: rows of `commits` and
-- `file_commits`, the branch row, and the hash of a new commit.
use docstore.Base.{
  ℕ, ◌+◌, String, Bool, ◌&&◌, Option, none, some, List, [], ◌∷◌, map, ◌==◌, nat_eq, ltb,
  if◌then◌else◌,
}
use docstore.Hash.{File, commit_hash, genesis_hash}
use docstore.Store.Tables.{Db, Env, Branch, BranchStatus, Commit, FileCommit, is_branch}

-- INSERT INTO commits … RETURNING sequence, created_at; the new sequence is `db.next_sequence`.
unfoldable pub insert_commit : Db → String → String → String → String → ℕ → Db
insert_commit db repo branch message author now = record db {
  commits =
      record {
        sequence = db.next_sequence;
        repo = repo;
        branch = branch;
        message = message;
        author = author;
        created_at = now;
        commit_hash = none;
      }
      ∷ db.commits;
  next_sequence = db.next_sequence + 1;
}

unfoldable pub file_commit_row :
    Env → Db → String → ℕ → String → Option String → String → FileCommit
file_commit_row env db repo seq path version_id branch = record {
  repo = repo;
  commit_id = env.uuid db.drawn;
  sequence = seq;
  path = path;
  version_id = version_id;
  branch = branch;
}

-- INSERT INTO file_commits
unfoldable pub insert_file_commit : Env → Db → String → ℕ → String → Option String → String → Db
unfolding file_commit_row
insert_file_commit env db repo seq path version_id branch = record db {
  file_commits = file_commit_row env db repo seq path version_id branch ∷ db.file_commits;
  drawn = db.drawn + 1;
}

-- UPDATE branches SET … WHERE repo = $1 AND name = $2
unfoldable pub update_branch : String → String → (Branch → Branch) → Db → Db
update_branch repo name change db = record db {
  branches = map (λ b. if is_branch repo name b then change b else b) db.branches;
}

unfoldable pub set_head : ℕ → Branch → Branch
set_head seq b = record b { head_sequence = seq }

unfoldable pub set_status : BranchStatus → Branch → Branch
set_status status b = record b { status = status }

unfoldable pub set_base_and_head : ℕ → ℕ → Branch → Branch
set_base_and_head base head b = record b { base_sequence = base; head_sequence = head }

-- WHERE repo = $1 AND branch = $2 AND sequence < $3
unfoldable pub is_earlier : String → String → ℕ → Commit → Bool
is_earlier repo branch seq c = c.repo == repo && (c.branch == branch && ltb c.sequence seq)

unfoldable pub later : Commit → Option Commit → Commit
later c none = c
later c (some d) = if ltb c.sequence d.sequence then d else c

unfoldable pub last_commit : (Commit → Bool) → List Commit → Option Commit
unfolding later
last_commit p [] = none
last_commit p (c ∷ cs) = let best = last_commit p cs in if p c then some (later c best) else best

-- A NULL or empty hash starts a chain anew.
unfoldable pub hash_or_genesis : Option String → String
hash_or_genesis none = genesis_hash
hash_or_genesis (some h) = if h == "" then genesis_hash else h

unfoldable pub prev_of : Option Commit → String
unfolding hash_or_genesis
prev_of none = genesis_hash
prev_of (some c) = hash_or_genesis c.commit_hash

-- fetchPrevCommitHash
unfoldable pub fetch_prev_commit_hash : Db → String → String → ℕ → String
fetch_prev_commit_hash db repo branch seq =
    prev_of (last_commit (is_earlier repo branch seq) db.commits)

-- updateCommitHash: WHERE repo = $2 AND sequence = $3
unfoldable pub with_hash : String → ℕ → String → Commit → Commit
with_hash repo seq hash c =
    if c.repo == repo && nat_eq c.sequence seq then record c { commit_hash = some hash } else c

unfoldable pub update_commit_hash : Db → String → ℕ → String → Db
unfolding with_hash
update_commit_hash db repo seq hash = record db {
  commits = map (with_hash repo seq hash) db.commits;
}

-- The hash that a new commit gets: over the hash of the commit before it on its branch.
unfoldable pub chain_hash :
    Env → Db → String → String → ℕ → String → String → ℕ → List File → String
chain_hash env db repo branch seq author message now files =
    commit_hash env.lib (fetch_prev_commit_hash db repo branch seq) seq repo branch author message
      now files
