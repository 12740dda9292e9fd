-- ===== src/Examples/Queued.antt =====
-- Witnesses on the queue of CI jobs.
use docstore.Base.{
  ◌+◌, ◌*◌, String, ◌≡◌, refl, false, ◌||◌, ◌==◌, none, some, List, [], ◌∷◌, map, arith, some_item,
}
use docstore.Base.Text.{
  char_eq, after_prefix, is_some, has_prefix, or_else, trim_prefix, has_suffix, append, cut_step,
  cut,
}
use docstore.Ci.Jobs.{
  CiJob, NewJob, is_queued, is_claimed, update_job, with_token, store_request_token, is_text,
  is_after, has_valid_token, lookup_request_token, text_or_null, or_checks, new_job, insert_ci_job,
  get_ci_job, earlier, oldest_queued, holds_job, claim, claim_found, claim_ci_job, with_heartbeat,
  heartbeat_ci_job, complete, complete_ci_job, coalesce, is_old, is_stale, requeue, reaped,
  reap_stale_ci_jobs, count_queued_ci_jobs,
}
use docstore.Ci.Handlers.{
  claim_response, no_content, CompleteRequest, lookup_by_token, claim_reply, handle_claim, beat,
  handle_heartbeat, parse_status, finish, end_job, handle_complete,
}
use docstore.Ci.Queue.{IsDistinct}
use docstore.Ci.Claims.{Claimed, claim_ci_job_lem}
use docstore.Ci.Pods.{empty, after_step, inserts, claims, HoldsOne, Reachable-HoldsOne}
use docstore.Ci.Issue.{Unused, handle_claim_lem}
use docstore.Ci.Tokens.{Authorised, IsSpent, IsKept, handle_complete_lem, reap_stale_ci_jobs_lem}

abbrev push : NewJob
push = record {
  repo = "acme/site";
  branch = "dev";
  sequence = 1;
  trigger_type = "push";
  trigger_branch = "dev";
  trigger_base_branch = "";
  trigger_proposal_id = "";
  permissions = [];
}

abbrev queue : List CiJob
queue = insert_ci_job "j2" 9 push (insert_ci_job "j1" 4 push [])

abbrev hash_of : String → String
hash_of s = append "hash of " s

abbrev claimed_queue : List CiJob
claimed_queue = (handle_claim hash_of "secret" "pod-1" "10.0.0.1" 20 queue).1

abbrev passed_request : CompleteRequest
passed_request = record { status = "passed"; log_url = none; error_message = none }

abbrev completed_queue : List CiJob
completed_queue = (handle_complete hash_of "Bearer secret" "j1" passed_request 30 claimed_queue).1

claim_ci_job_lem_example :
    Claimed "pod-1" "10.0.0.1" 20 queue
      (claim_ci_job "pod-1" "10.0.0.1" 20 queue).0
      (claim_ci_job "pod-1" "10.0.0.1" 20 queue).1
claim_ci_job_lem_example = claim_ci_job_lem "pod-1" "10.0.0.1" 20 queue

j1_new : some_item (λ (j : CiJob). j.id == "j1") [] ≡ false
j1_new = refl

j2_new : some_item (λ (j : CiJob). j.id == "j2") (insert_ci_job "j1" 4 push []) ≡ false
unfolding is_queued is_claimed update_job with_token store_request_token is_text is_after
    has_valid_token lookup_request_token text_or_null or_checks new_job insert_ci_job get_ci_job
    earlier oldest_queued holds_job claim claim_found claim_ci_job with_heartbeat heartbeat_ci_job
    complete complete_ci_job coalesce is_old is_stale requeue reaped reap_stale_ci_jobs
    count_queued_ci_jobs lookup_by_token claim_reply handle_claim beat handle_heartbeat parse_status
    finish end_job handle_complete char_eq after_prefix is_some has_prefix or_else trim_prefix
    has_suffix append cut_step cut
j2_new = refl

Reachable-HoldsOne_example :
    IsDistinct (claim_ci_job "pod-1" "10.0.0.1" 20 queue).1
    × HoldsOne (claim_ci_job "pod-1" "10.0.0.1" 20 queue).1
Reachable-HoldsOne_example = Reachable-HoldsOne (
    after_step
      (after_step (after_step empty (inserts "j1" 4 push [] j1_new))
        (inserts "j2" 9 push (insert_ci_job "j1" 4 push []) j2_new))
      (claims "pod-1" "10.0.0.1" 20 queue))

abbrev j1_claimed : CiJob
j1_claimed = claim "pod-1" "10.0.0.1" 20 (new_job "j1" 4 push)

claim_done :
    handle_claim hash_of "secret" "pod-1" "10.0.0.1" 20 queue
    ≡ (claim_response j1_claimed "secret", claimed_queue)
unfolding is_queued is_claimed update_job with_token store_request_token is_text is_after
    has_valid_token lookup_request_token text_or_null or_checks new_job insert_ci_job get_ci_job
    earlier oldest_queued holds_job claim claim_found claim_ci_job with_heartbeat heartbeat_ci_job
    complete complete_ci_job coalesce is_old is_stale requeue reaped reap_stale_ci_jobs
    count_queued_ci_jobs lookup_by_token claim_reply handle_claim beat handle_heartbeat parse_status
    finish end_job handle_complete char_eq after_prefix is_some has_prefix or_else trim_prefix
    has_suffix append cut_step cut
claim_done = refl

nobody_has_it : Unused (hash_of "secret") queue
unfolding is_queued is_claimed update_job with_token store_request_token is_text is_after
    has_valid_token lookup_request_token text_or_null or_checks new_job insert_ci_job get_ci_job
    earlier oldest_queued holds_job claim claim_found claim_ci_job with_heartbeat heartbeat_ci_job
    complete complete_ci_job coalesce is_old is_stale requeue reaped reap_stale_ci_jobs
    count_queued_ci_jobs lookup_by_token claim_reply handle_claim beat handle_heartbeat parse_status
    finish end_job handle_complete char_eq after_prefix is_some has_prefix or_else trim_prefix
    has_suffix append cut_step cut
nobody_has_it = refl

bearer : trim_prefix "Bearer " "Bearer secret" ≡ "secret"
unfolding is_queued is_claimed update_job with_token store_request_token is_text is_after
    has_valid_token lookup_request_token text_or_null or_checks new_job insert_ci_job get_ci_job
    earlier oldest_queued holds_job claim claim_found claim_ci_job with_heartbeat heartbeat_ci_job
    complete complete_ci_job coalesce is_old is_stale requeue reaped reap_stale_ci_jobs
    count_queued_ci_jobs lookup_by_token claim_reply handle_claim beat handle_heartbeat parse_status
    finish end_job handle_complete char_eq after_prefix is_some has_prefix or_else trim_prefix
    has_suffix append cut_step cut
bearer = refl

sent : ("secret" == "" || "secret" == "Bearer secret") ≡ false
sent = refl

handle_claim_lem_example :
    (found : CiJob) × ((lookup_by_token hash_of "Bearer secret" 30 claimed_queue ≡ some found)
      × ((found.id ≡ "j1") × (found.worker_pod ≡ some "pod-1")))
unfolding claim new_job
handle_claim_lem_example =
    handle_claim_lem hash_of "secret" "pod-1" "10.0.0.1" "Bearer secret" 20 30 queue j1_claimed
      "secret" claimed_queue claim_done nobody_has_it bearer sent (omega arith)

complete_done :
    handle_complete hash_of "Bearer secret" "j1" passed_request 30 claimed_queue
    ≡ (no_content, completed_queue)
unfolding is_queued is_claimed update_job with_token store_request_token is_text is_after
    has_valid_token lookup_request_token text_or_null or_checks new_job insert_ci_job get_ci_job
    earlier oldest_queued holds_job claim claim_found claim_ci_job with_heartbeat heartbeat_ci_job
    complete complete_ci_job coalesce is_old is_stale requeue reaped reap_stale_ci_jobs
    count_queued_ci_jobs lookup_by_token claim_reply handle_claim beat handle_heartbeat parse_status
    finish end_job handle_complete char_eq after_prefix is_some has_prefix or_else trim_prefix
    has_suffix append cut_step cut
complete_done = refl

handle_complete_lem_example :
    Authorised hash_of "Bearer secret" "j1" 30 claimed_queue × IsSpent hash_of "j1" completed_queue
handle_complete_lem_example =
    handle_complete_lem hash_of "Bearer secret" "j1" passed_request 30 claimed_queue completed_queue
      complete_done

-- A second pod claims the second job long after the first pod was last heard of.
abbrev busy_queue : List CiJob
busy_queue = (handle_claim hash_of "secret 2" "pod-2" "10.0.0.2" 490 claimed_queue).1

abbrev j2_with_token : CiJob
j2_with_token =
    with_token (hash_of "secret 2") (490 + 24 * 3600)
      (claim "pod-2" "10.0.0.2" 490 (new_job "j2" 9 push))

-- The reaper takes the first job back, and only that one.
requeues_j1 : map (λ (j : CiJob). j.id) (reap_stale_ci_jobs 500 busy_queue).0 ≡ "j1" ∷ []
unfolding is_queued is_claimed update_job with_token store_request_token is_text is_after
    has_valid_token lookup_request_token text_or_null or_checks new_job insert_ci_job get_ci_job
    earlier oldest_queued holds_job claim claim_found claim_ci_job with_heartbeat heartbeat_ci_job
    complete complete_ci_job coalesce is_old is_stale requeue reaped reap_stale_ci_jobs
    count_queued_ci_jobs lookup_by_token claim_reply handle_claim beat handle_heartbeat parse_status
    finish end_job handle_complete char_eq after_prefix is_some has_prefix or_else trim_prefix
    has_suffix append cut_step cut
requeues_j1 = refl

found_after_reaping :
    lookup_by_token hash_of "Bearer secret 2" 510 (reap_stale_ci_jobs 500 busy_queue).1
    ≡ some j2_with_token
unfolding is_queued is_claimed update_job with_token store_request_token is_text is_after
    has_valid_token lookup_request_token text_or_null or_checks new_job insert_ci_job get_ci_job
    earlier oldest_queued holds_job claim claim_found claim_ci_job with_heartbeat heartbeat_ci_job
    complete complete_ci_job coalesce is_old is_stale requeue reaped reap_stale_ci_jobs
    count_queued_ci_jobs lookup_by_token claim_reply handle_claim beat handle_heartbeat parse_status
    finish end_job handle_complete char_eq after_prefix is_some has_prefix or_else trim_prefix
    has_suffix append cut_step cut
found_after_reaping = refl

reap_stale_ci_jobs_lem_example : IsKept 500 busy_queue j2_with_token
reap_stale_ci_jobs_lem_example =
    reap_stale_ci_jobs_lem hash_of "Bearer secret 2" 500 510 busy_queue j2_with_token
      found_after_reaping
