-- ===== src/Examples/Shown.antt =====
-- Witnesses on trees, diffs of branches, checks, proposals and auto-merge.
use docstore.Base.{
  false, keep, length, ◌++◌, ◌≢◌, String, ◌≡◌, ◌↔◌, refl, true, none, some, List, [], ◌∷◌, All,
  arith,
}
use docstore.Examples.Tables.{env, store, merge_dev, main_now, dev_now}
use docstore.Base.Order.{lex_leb, text_leb}
use docstore.Hash.{insert_file, sort_files, commit_hash}
use docstore.Store.Branches.{
  new_branch, insert_branch, fork_main, create_branch, set_auto_merge, update_if_found,
  set_branch_auto_merge,
}
use docstore.Store.Commit.{
  place, text_or_null, find_document, insert_document, store_content, written, stored_version,
  version_for, cons_ok, add_written, write_row, and_then, write_files, results, hash_files,
  finish_commit, commit_body, commit_files,
}
use docstore.Store.Invariant.Reach.{step, run}
use docstore.Store.Merge.{
  null_str, change_at, find_conflicts, copy_changes, hash_of_document, content_hash_of,
  changes_to_hash, merge_message, conclude, merged_rows, apply_merge, merge_unless_conflict,
  merge_changes, merge_branch, merge_body, merge, MergeResponse,
}
use docstore.Store.Rows.{
  newer, newest, add_latest, distinct_latest, changed_since, latest_changes, visible, up_to,
  at_path, file_row,
}
use docstore.Store.Tables.{
  Db, Branch, Result, is_active, rolled_back, with_tx, is_branch, find_branch, ok, err,
  merge_conflict, MergeConflict,
}
use docstore.Store.Writes.{
  insert_commit, file_commit_row, insert_file_commit, update_branch, set_head, set_status,
  is_earlier, later, last_commit, hash_or_genesis, prev_of, fetch_prev_commit_hash, with_hash,
  update_commit_hash, chain_hash,
}
use docstore.Store.Tree.{
  path_leb, latest_rows, document_of, entry_with, entry_of_version, cons_some, entries_of, is_past,
  tree_of, limit_or_default, materialize_tree,
}
use docstore.Store.Diff.{
  is_binary_content_type, version_or_empty, content_type_of_document, content_type_of, diff_entry,
  conflict_entry, diff_of, diff_if_found, get_diff,
}
use docstore.Gate.Tables.{draw}
use docstore.Gate.Checks.{
  next_int16, at_sequence, has_key, add_name, names_at, checks_or_all, max_or, max_attempt_of,
  or_zero, max_attempt, retry_run, insert_retries, end_retry, retry_names, retry_if_found,
  retry_checks, listed, add_run, latest_runs, name_leb, list_check_runs,
}
use docstore.Gate.Proposals.{
  same_state, is_open_of, is_wanted_state, is_wanted_branch, list_proposals, update_proposals,
  in_state, as_merged, merge_proposal,
}
use docstore.Gate.Policy.{
  is_allowed, reason_of, denied_with, judge, eval_prepared, cons_result, evaluate, reviewed_at,
  list_reviews, changed_paths_of, review_input, check_run_input, proposal_input, actor_roles_of,
  resolved_owners, input_of, input_if_found, assemble_input, denials, evaluate_input,
  evaluate_loaded, evaluate_policy,
}
use docstore.Gate.AutoMerge.{
  Event, branch_auto_merge_failed, in_db, proposal_events, announce, auto_merge_request, disable,
  after_merge, merge_if_allowed, is_eligible, try_branch, try_auto_merge,
}
use docstore.Gate.AutoMerge.Guards.{is_merged_event}
use docstore.Base.Sorting.{insert_by, sort_by}
use docstore.Base.Text.{char_eq, after_prefix, is_some, has_prefix, or_else, trim_prefix}
use docstore.Access.Roles.{is_row, is_member, org_role, role_or_org, get_role}
use docstore.Policy.Owners.{resolve_owners}
use docstore.Store.Tree.Files.{entry_at, entry_of_row, entry_at-tree_of}
use docstore.Store.Tree.Pages.{last_path, smaller, keep-materialize_tree}
use docstore.Store.Diff.{DiffResult}
use docstore.Store.Diff.Foretells.{Foretold, get_diff_foretells}
use docstore.Gate.Tables.{CheckRun, passed, failed, Tables}
use docstore.Gate.Checks.Attempts.{
  is_retried, Above, ListedPending, retry_checks-Above, retry_checks_pending,
}
use docstore.Gate.Proposals.Single.{IsSingle, creates, merges, execute_all, execute_all-IsSingle}
use docstore.Gate.Policy.{World, PolicyCache, PreparedPolicy, has_value, bool_value}
use docstore.Gate.Policy.Allows.{Allowing, evaluate_policy-Allowing}
use docstore.Gate.AutoMerge.Guards.{says_merged, IsMerged, try_auto_merge-IsMerged}
use docstore.Gate.Handler.{
  MergeReply, accepted, has_repo, request_of, finish_merge, merge_unless_denied, checked_merge,
  handle_merge,
}
use docstore.Gate.Handler.Replies.{IsAccepted, handle_merge-IsAccepted}
use docstore.Gate.AutoMerge.Conflict.{try_auto_merge_conflict}

abbrev passed_run : CheckRun
passed_run = record {
  id = "r0";
  repo = "acme/site";
  branch = "dev";
  sequence = 1;
  check_name = "build";
  status = passed;
  reporter = "ci";
  log_url = none;
  attempt = 32769;
  metadata = none;
}

abbrev tables : String → Tables
tables on_main = record {
  db = (set_branch_auto_merge "acme/site" "dev" true (store "a" on_main)).1;
  check_runs = passed_run ∷ [];
  proposals = [];
}

-- The check has failed.
abbrev failing : Tables
failing = record (tables "b") { check_runs = record passed_run { status = failed } ∷ [] }

abbrev world : String → World
world on_main = record {
  tables = tables on_main;
  access = record { roles = []; org_members = []; repos = [] };
}

abbrev policy : PreparedPolicy
policy = record {
  name = "allow_all";
  allow_pq = λ input. has_value (bool_value true);
  reason_pq = λ input. has_value (bool_value true);
}

abbrev cache : PolicyCache
cache = record { load = λ repo. some (some (policy ∷ []), []) }

abbrev open_world : World
open_world = record (world "b") {
  access = record {
    roles = [];
    org_members = [];
    repos = record { name = "acme/site"; owner = "acme" } ∷ [];
  };
}

abbrev reply : MergeReply × (World × List Event)
reply = handle_merge env 8 (some cache) "mia" "acme/site" "dev" false open_world

abbrev dev_marked : Branch
dev_marked = record dev_now { auto_merge = true }

abbrev first_merge : String → Result MergeResponse × Db
first_merge on_main = merge env 8 (auto_merge_request "acme/site" "dev") (tables on_main).db

abbrev clash : List MergeConflict
clash = record { path = "a"; main_version_id = "u0"; branch_version_id = "u0" } ∷ []

-- What the operations do on these tables.
record Runs : Type 0 where
  main_found : find_branch "acme/site" "main" (store "a" "a") ≡ some main_now
  dev_found : find_branch "acme/site" "dev" (store "a" "a") ≡ some dev_now
  retried :
      retry_checks env "acme/site" "dev" 1 ("build" ∷ []) (tables "b")
      ≡ (ok 32770, (retry_checks env "acme/site" "dev" 1 ("build" ∷ []) (tables "b")).1)
  asked : is_retried "acme/site" "dev" 1 "build" (tables "b").check_runs ("build" ∷ []) ≡ true
  all_retried :
      retry_checks env "acme/site" "dev" 1 [] failing
      ≡ (ok 32770, (retry_checks env "acme/site" "dev" 1 [] failing).1)
  all_asked : is_retried "acme/site" "dev" 1 "build" failing.check_runs [] ≡ true
  marked_found : find_branch "acme/site" "dev" (tables "b").db ≡ some dev_marked
  clash_found : find_branch "acme/site" "dev" (tables "a").db ≡ some dev_marked
  merges_dev :
      says_merged (try_auto_merge env 8 (some cache) "acme/site" "dev" (world "b")).1 ≡ true
  eligible : is_eligible dev_marked ≡ true
  let_through : evaluate_policy (some cache) (world "a") "acme/site" "dev" "auto-merge" ≡ some []
  conflicting : first_merge "a" ≡ (err (merge_conflict clash), (first_merge "a").1)
  replied : reply ≡ (accepted record { sequence = 3 }, (reply.1.0, reply.1.1))
  page_ends : last_path "" (materialize_tree (store "a" "b") "acme/site" "main" none 1 "") ≢ ""

-- The operations, run.
runs : Runs
unfolding has_repo request_of finish_merge merge_unless_denied checked_merge handle_merge place
    text_or_null find_document insert_document store_content written stored_version version_for
    cons_ok add_written write_row and_then write_files results hash_files finish_commit commit_body
    commit_files new_branch insert_branch fork_main create_branch set_auto_merge update_if_found
    set_branch_auto_merge insert_commit file_commit_row insert_file_commit update_branch set_head
    set_status is_earlier later last_commit hash_or_genesis prev_of fetch_prev_commit_hash with_hash
    update_commit_hash chain_hash is_active rolled_back with_tx is_branch find_branch null_str
    change_at find_conflicts copy_changes hash_of_document content_hash_of changes_to_hash
    merge_message conclude merged_rows apply_merge merge_unless_conflict merge_changes merge_branch
    merge_body merge newer newest add_latest distinct_latest changed_since latest_changes visible
    up_to at_path step run insert_file sort_files commit_hash lex_leb text_leb path_leb latest_rows
    document_of entry_with entry_of_version cons_some entries_of is_past tree_of limit_or_default
    materialize_tree is_binary_content_type version_or_empty content_type_of_document
    content_type_of diff_entry conflict_entry diff_of diff_if_found get_diff draw next_int16
    at_sequence has_key add_name names_at checks_or_all max_or max_attempt_of or_zero max_attempt
    retry_run insert_retries end_retry retry_names retry_if_found retry_checks listed add_run
    latest_runs name_leb list_check_runs same_state is_open_of is_wanted_state is_wanted_branch
    list_proposals update_proposals in_state as_merged merge_proposal is_allowed reason_of
    denied_with judge eval_prepared cons_result evaluate reviewed_at list_reviews changed_paths_of
    review_input check_run_input proposal_input actor_roles_of resolved_owners input_of
    input_if_found assemble_input denials evaluate_input evaluate_loaded evaluate_policy in_db
    proposal_events announce auto_merge_request disable after_merge merge_if_allowed is_eligible
    try_branch try_auto_merge is_merged_event insert_by sort_by char_eq after_prefix is_some
    has_prefix or_else trim_prefix is_row is_member org_role role_or_org get_role resolve_owners
runs = record {
  main_found = refl;
  dev_found = refl;
  retried = refl;
  asked = refl;
  all_retried = refl;
  all_asked = refl;
  marked_found = refl;
  clash_found = refl;
  merges_dev = refl;
  eligible = refl;
  let_through = refl;
  conflicting = refl;
  page_ends = λ e. cc;
  replied = refl;
}

dev_active : is_active dev_now.status ≡ true
unfolding is_active
dev_active = refl

entry_at-tree_of_example :
    entry_at "a" (tree_of (store "a" "b") "acme/site" "dev" (some 1))
    ≡ entry_of_row
        (store "a" "b")
        "acme/site"
        (file_row (store "a" "b") "acme/site" "dev" "a" (some 1))
entry_at-tree_of_example = entry_at-tree_of (store "a" "b") "acme/site" "dev" "a" (some 1)

get_diff_foretells_example :
    (d : DiffResult) × ((get_diff (store "a" "a") "acme/site" "dev" ≡ some d)
      × Foretold d.conflicts (merge env 8 merge_dev (store "a" "a")).0)
get_diff_foretells_example =
    get_diff_foretells env 8 merge_dev (store "a" "a") main_now dev_now runs.main_found
      runs.dev_found dev_active refl

retry_checks-Above_example :
    Above env "acme/site" "dev" 1 [] failing "build" (omega arith, tt) runs.all_asked 32770
retry_checks-Above_example =
    retry_checks-Above env "acme/site" "dev" 1 [] failing "build" (omega arith, tt) runs.all_asked
      32770 (retry_checks env "acme/site" "dev" 1 [] failing).1 runs.all_retried

retry_checks_pending_example :
    ListedPending env "acme/site" "dev" 1
      ("build" ∷ [])
      (tables "b")
      "build"
      (omega arith, tt)
      runs.asked
      32770
      (retry_checks env "acme/site" "dev" 1 ("build" ∷ []) (tables "b")).1
retry_checks_pending_example =
    retry_checks_pending env "acme/site" "dev" 1 ("build" ∷ []) (tables "b") "build"
      (omega arith, tt) runs.asked 32770
      (retry_checks env "acme/site" "dev" 1 ("build" ∷ []) (tables "b")).1 runs.retried

execute_all-IsSingle_example :
    IsSingle
      (execute_all env
        (creates "acme/site" "dev" "main" "one" "" "ann"
          ∷ (creates "acme/site" "dev" "main" "two" "" "ann" ∷ (merges "acme/site" "dev" ∷ [])))
        (tables "b")).proposals
execute_all-IsSingle_example =
    execute_all-IsSingle env
      (creates "acme/site" "dev" "main" "one" "" "ann"
        ∷ (creates "acme/site" "dev" "main" "two" "" "ann" ∷ (merges "acme/site" "dev" ∷ [])))
      (tables "b") (λ repo branch. tt)

evaluate_policy-Allowing_example :
    evaluate_policy (some cache) (world "b") "acme/site" "dev" "ann" ≡ some []
    ↔ All (Allowing (input_of (world "b") "acme/site" "dev" "ann" [] dev_marked)) (policy ∷ [])
evaluate_policy-Allowing_example =
    evaluate_policy-Allowing cache (world "b") "acme/site" "dev" "ann" (policy ∷ []) [] dev_marked
      refl runs.marked_found

try_auto_merge-IsMerged_example :
    IsMerged env 8
      (some cache)
      "acme/site"
      "dev"
      (world "b")
      (try_auto_merge env 8 (some cache) "acme/site" "dev" (world "b")).0
try_auto_merge-IsMerged_example =
    try_auto_merge-IsMerged env 8 (some cache) "acme/site" "dev" (world "b") runs.merges_dev

try_auto_merge_conflict_example :
    ((try_auto_merge env 8 (some cache) "acme/site" "dev" (world "a")).1
      ≡ branch_auto_merge_failed "acme/site" "dev" "merge conflict" ∷ [])
    × (try_auto_merge env 9 none "acme/site" "dev"
          (try_auto_merge env 8 (some cache) "acme/site" "dev" (world "a")).0
        ≡ ((try_auto_merge env 8 (some cache) "acme/site" "dev" (world "a")).0, []))
try_auto_merge_conflict_example =
    try_auto_merge_conflict env 8 9 (some cache) none "acme/site" "dev" (world "a") dev_marked
      (first_merge "a").1 clash runs.clash_found runs.eligible runs.let_through runs.conflicting

keep-materialize_tree_example :
    (keep (is_past "") (tree_of (store "a" "b") "acme/site" "main" none)
      ≡ materialize_tree (store "a" "b") "acme/site" "main" none 1 ""
        ++ keep
            (is_past (last_path "" (materialize_tree (store "a" "b") "acme/site" "main" none 1 "")))
            (tree_of (store "a" "b") "acme/site" "main" none))
    × (length (materialize_tree (store "a" "b") "acme/site" "main" none 1 "")
        ≡ smaller 1 (length (keep (is_past "") (tree_of (store "a" "b") "acme/site" "main" none))))
keep-materialize_tree_example =
    keep-materialize_tree (store "a" "b") "acme/site" "main" none 1 "" runs.page_ends

handle_merge-IsAccepted_example :
    IsAccepted env 8
      (some cache)
      "mia"
      "acme/site"
      "dev"
      false
      open_world
      record { sequence = 3 }
      reply.1.0
      reply.1.1
handle_merge-IsAccepted_example =
    handle_merge-IsAccepted env 8 (some cache) "mia" "acme/site" "dev" false open_world
      record { sequence = 3 } reply.1.0 reply.1.1 runs.replied
