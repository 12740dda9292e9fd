-- ===== src/Examples/Tables.antt =====
-- A store for the tests: a repo with the branches main and dev, each with a file of its own.
use docstore.Base.{String, false, none, some, List, [], ◌∷◌, arith, nat_eq, if◌then◌else◌}
use docstore.Base.Order.{codes}
use docstore.Store.Tables.{Db, Env, Branch, active}
use docstore.Store.Commit.{CommitRequest}
use docstore.Store.Merge.{MergeRequest}
use docstore.Store.Invariant.{IsWf}
use docstore.Store.Invariant.Reach.{Call, creates_branch, commits, run, run-IsWf}

abbrev pub env : Env
env = record {
  lib = record {
    sha256_hex = λ bytes. "hash";
    bytes_of = codes;
    format_int = λ n. "1";
    format_time = λ t. "2024-01-01T00:00:00Z";
  };
  uuid = λ n. if nat_eq n 0 then "u0" else if nat_eq n 1 then "u1" else "u2";
  put = none;
  threshold = 0;
}

abbrev pub main_branch : Branch
main_branch = record {
  repo = "acme/site";
  name = "main";
  head_sequence = 0;
  base_sequence = 0;
  status = active;
  draft = false;
  auto_merge = false;
}

abbrev pub fresh : Db
fresh = record {
  branches = main_branch ∷ [];
  commits = [];
  file_commits = [];
  documents = [];
  reviews = [];
  next_sequence = 1;
  drawn = 0;
}

pub fresh-IsWf : IsWf fresh
fresh-IsWf = record { rows = tt; commits = tt; branches = ((omega arith, omega arith), tt) }

abbrev pub edit : String → String → CommitRequest
edit branch path = record {
  repo = "acme/site";
  branch = branch;
  files = record { path = path; content = some (104 ∷ 105 ∷ []); content_type = "" } ∷ [];
  message = "edit";
  author = "ann";
}

-- A branch dev of main, and a commit of a file to each of the two, of a path that may be one.
abbrev pub calls : String → String → List Call
calls on_dev on_main =
    creates_branch record { repo = "acme/site"; name = "dev"; draft = false }
    ∷ (commits 5 (edit "dev" on_dev) ∷ (commits 6 (edit "main" on_main) ∷ []))

abbrev pub store : String → String → Db
store on_dev on_main = run env (calls on_dev on_main) fresh

pub store-IsWf : (on_dev on_main : String) → IsWf (store on_dev on_main)
store-IsWf on_dev on_main = (run-IsWf env (calls on_dev on_main) fresh fresh-IsWf).0

abbrev pub merge_dev : MergeRequest
merge_dev = record { repo = "acme/site"; branch = "dev"; author = "mia"; dry_run = false }

abbrev pub main_now : Branch
main_now = record main_branch { head_sequence = 2 }

abbrev pub dev_now : Branch
dev_now = record main_branch { name = "dev"; head_sequence = 1 }
