-- ===== src/Gate/Handler.antt =====
-- handleMerge of internal/server/handlers_proposals.go, from the decoded request on. The status of the
-- branch that one of its events carries is left out, and so is the invalidation of the policy cache, of
-- which only the answer at the time of the request is an argument.
pub mod Replies
use docstore.Base.{
  ℕ, String, Bool, true, false, Option, none, some, List, [], ◌∷◌, map, ◌==◌, some_item,
  if◌then◌else◌,
}
use docstore.Store.Tables.{
  Db, Env, MergeConflict, Error, merge_conflict, repo_not_found, Result, ok, err,
}
use docstore.Store.Merge.{MergeRequest, MergeResponse, merge}
use docstore.Store.Diff.{ConflictEntry}
use docstore.Access.Roles.{Repo}
use docstore.Gate.Policy.{World, PolicyCache, PolicyResult, evaluate_policy}
use docstore.Gate.AutoMerge.{Event, merge_blocked, in_db, announce}

pub data MergeReply : Type 0 where
  bad_request : String → MergeReply
  internal_error : MergeReply
  forbidden : List PolicyResult → MergeReply
  conflict : List ConflictEntry → MergeReply
  db_error : Error → MergeReply
  accepted : MergeResponse → MergeReply

-- GetRepo finds the repo.
unfoldable pub has_repo : String → World → Bool
has_repo repo w = some_item (λ (r : Repo). r.name == repo) w.access.repos

-- The author is the identity, whatever the request says.
unfoldable pub request_of : String → String → String → Bool → MergeRequest
request_of identity repo branch dry_run = record {
  repo = repo;
  branch = branch;
  author = identity;
  dry_run = dry_run;
}

unfoldable pub api_conflict : MergeConflict → ConflictEntry
api_conflict c = record {
  path = c.path;
  main_version_id = c.main_version_id;
  branch_version_id = c.branch_version_id;
}

unfoldable pub refusal : Error → MergeReply
refusal (merge_conflict cs) = conflict (map api_conflict cs)
refusal e = db_error e

-- A dry run has no side effects but what the store's merge leaves.
unfoldable pub finish_merge :
    MergeRequest → Result MergeResponse × Db → World → MergeReply × (World × List Event)
finish_merge req (err e, db) w = (refusal e, (in_db db w, []))
finish_merge req (ok resp, db) w =
    if req.dry_run
    then (accepted resp, (in_db db w, []))
    else (accepted resp, announce req.repo req.branch req.author resp.sequence (in_db db w))

unfoldable pub merge_unless_denied :
    Env → ℕ → MergeRequest → Option (List PolicyResult) → World → MergeReply × (World × List Event)
merge_unless_denied env now req none w = (internal_error, (w, []))
merge_unless_denied env now req (some (r ∷ rs)) w = (
  forbidden (r ∷ rs),
  (
    w,
    merge_blocked req.repo req.branch req.author (map (λ (p : PolicyResult). p.name) (r ∷ rs)) ∷ [],
  ),
)
merge_unless_denied env now req (some []) w = finish_merge req (merge env now req w.tables.db) w

unfoldable pub checked_merge :
    Env → ℕ → Option PolicyCache → MergeRequest → World → MergeReply × (World × List Event)
checked_merge env now cache req w =
    if req.branch == ""
    then (bad_request "branch is required", (w, []))
    else if req.branch == "main"
    then (bad_request "cannot merge main into itself", (w, []))
    else merge_unless_denied env now req (evaluate_policy cache w req.repo req.branch req.author) w

unfoldable pub handle_merge :
    Env
    → ℕ
    → Option PolicyCache
    → String
    → String
    → String
    → Bool
    → World
    → MergeReply × (World × List Event)
handle_merge env now cache identity repo branch dry_run w =
    if has_repo repo w
    then checked_merge env now cache (request_of identity repo branch dry_run) w
    else (db_error repo_not_found, (w, []))
