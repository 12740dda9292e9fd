-- ===== src/Gate/AutoMerge.antt =====
-- tryAutoMerge of internal/automerge/worker.go. Rows that a driver fails to read or to write are left
-- out: the calls of the store return what the store's operations return.
pub mod Guards
pub mod Conflict
use docstore.Base.{
  ℕ, String, Bool, true, false, ◌&&◌, not, Option, none, some, List, [], ◌∷◌, if◌then◌else◌,
}
use docstore.Store.Tables.{
  Db, Env, Branch, Error, merge_conflict, Result, ok, err, is_active, find_branch,
}
use docstore.Store.Branches.{set_branch_auto_merge}
use docstore.Store.Merge.{MergeRequest, MergeResponse, merge}
use docstore.Gate.Tables.{Proposal, Tables}
use docstore.Gate.Proposals.{merge_proposal}
use docstore.Gate.Policy.{World, PolicyCache, PolicyResult, evaluate_policy}

-- The events that merging emits, without the status of the branch that some carry.
pub data Event : Type 0 where
  branch_auto_merge_failed : (repo branch reason : String) → Event
  proposal_merged : (repo branch base_branch proposal_id : String) → Event
  branch_merged : (repo branch : String) (sequence : ℕ) (merged_by : String) → Event
  merge_blocked : (repo branch actor : String) (policies : List String) → Event

unfoldable pub in_db : Db → World → World
in_db db w = record w { tables = record w.tables { db = db } }

unfoldable pub proposal_events : String → String → Option Proposal → List Event
proposal_events repo branch none = []
proposal_events repo branch (some p) = proposal_merged repo branch p.base_branch p.id ∷ []

-- The open proposal of a merged branch becomes merged, and the events tell it.
unfoldable pub announce : String → String → String → ℕ → World → World × List Event
announce repo branch by sequence w =
    let (p, t) = merge_proposal repo branch w.tables in
    (
      record w { tables = t },
      append_events (proposal_events repo branch p) (branch_merged repo branch sequence by ∷ []),
    )
  where
    append_events : List Event → List Event → List Event
    append_events [] es = es
    append_events (x ∷ xs) es = x ∷ append_events xs es

unfoldable pub auto_merge_request : String → String → MergeRequest
auto_merge_request repo branch = record {
  repo = repo;
  branch = branch;
  author = "auto-merge";
  dry_run = false;
}

unfoldable pub disable : String → String → World → World
disable repo branch w = in_db (set_branch_auto_merge repo branch false w.tables.db).1 w

-- What the worker does with the answer of the merge: only a conflict disables auto-merge.
unfoldable pub after_merge :
    String → String → Result MergeResponse × Db → World → World × List Event
after_merge repo branch (ok resp, db) w =
    announce repo branch "auto-merge" resp.sequence (in_db db w)
after_merge repo branch (err (merge_conflict cs), db) w =
    (disable repo branch (in_db db w), branch_auto_merge_failed repo branch "merge conflict" ∷ [])
after_merge repo branch (err e, db) w = (in_db db w, [])

unfoldable pub merge_if_allowed :
    Env → ℕ → String → String → Option (List PolicyResult) → World → World × List Event
merge_if_allowed env now repo branch none w = (w, [])
merge_if_allowed env now repo branch (some (r ∷ rs)) w = (w, [])
merge_if_allowed env now repo branch (some []) w =
    after_merge repo branch (merge env now (auto_merge_request repo branch) w.tables.db) w

unfoldable pub is_eligible : Branch → Bool
is_eligible b = b.auto_merge && (not b.draft && is_active b.status)

unfoldable pub try_branch :
    Env → ℕ → Option PolicyCache → String → String → Option Branch → World → World × List Event
try_branch env now cache repo branch none w = (w, [])
try_branch env now cache repo branch (some b) w =
    if is_eligible b
    then merge_if_allowed env now repo branch (evaluate_policy cache w repo branch "auto-merge") w
    else (w, [])

unfoldable pub try_auto_merge :
    Env → ℕ → Option PolicyCache → String → String → World → World × List Event
try_auto_merge env now cache repo branch w =
    try_branch env now cache repo branch (find_branch repo branch w.tables.db) w
