-- ===== src/Ci/Handlers.antt =====
-- The handlers of cmd/ci-scheduler/main.go on the queue: POST /claim, /jobs/{id}/heartbeat and
-- /jobs/{id}/complete. The hash of a request token (internal/citoken) is a parameter; a request
-- carries the text of its Authorization header.
use docstore.Base.{ℕ, ◌+◌, ◌*◌, String, ◌||◌, Option, none, some, List, ◌==◌, if◌then◌else◌}
use docstore.Base.Text.{trim_prefix}
use docstore.Ci.Jobs.{
  CiJob, CiJobStatus, passed, failed, claim_ci_job, store_request_token, lookup_request_token,
  heartbeat_ci_job, complete_ci_job,
}

pub data Reply : Type 0 where
  no_content unauthorized token_mismatch bad_request : Reply
  claim_response : CiJob → String → Reply

-- lookupByToken; none is ErrTokenInvalid.
unfoldable pub lookup_by_token : (String → String) → String → ℕ → List CiJob → Option CiJob
lookup_by_token hash header now jobs =
    let plaintext = trim_prefix "Bearer " header in
    if plaintext == "" || plaintext == header
    then none
    else lookup_request_token (hash plaintext) now jobs

unfoldable pub claim_reply :
    (String → String) → String → ℕ → Option CiJob × List CiJob → Reply × List CiJob
claim_reply hash plaintext now (none, jobs) = (no_content, jobs)
claim_reply hash plaintext now (some j, jobs) =
    (claim_response j plaintext, store_request_token j.id (hash plaintext) (now + 24 * 3600) jobs)

-- handleClaim, of a pod whose service account token was found valid; the plaintext is the drawn
-- request token.
unfoldable pub handle_claim :
    (String → String) → String → String → String → ℕ → List CiJob → Reply × List CiJob
handle_claim hash plaintext pod ip now jobs =
    claim_reply hash plaintext now (claim_ci_job pod ip now jobs)

unfoldable pub beat : String → ℕ → Option CiJob → List CiJob → Reply × List CiJob
beat id now none jobs = (unauthorized, jobs)
beat id now (some j) jobs =
    if j.id == id then (no_content, heartbeat_ci_job j.id now jobs) else (token_mismatch, jobs)

unfoldable pub handle_heartbeat :
    (String → String) → String → String → ℕ → List CiJob → Reply × List CiJob
handle_heartbeat hash header id now jobs = beat id now (lookup_by_token hash header now jobs) jobs

pub record CompleteRequest : Type 0 where
  pub status : String
  pub log_url : Option String
  pub error_message : Option String

unfoldable pub parse_status : String → Option CiJobStatus
parse_status s = if s == "passed" then some passed else if s == "failed" then some failed else none

unfoldable pub finish :
    String → CompleteRequest → Option CiJobStatus → List CiJob → Reply × List CiJob
finish id req none jobs = (bad_request, jobs)
finish id req (some status) jobs =
    (no_content, complete_ci_job id status req.log_url req.error_message jobs)

unfoldable pub end_job : String → CompleteRequest → Option CiJob → List CiJob → Reply × List CiJob
end_job id req none jobs = (unauthorized, jobs)
end_job id req (some j) jobs =
    if j.id == id then finish j.id req (parse_status req.status) jobs else (token_mismatch, jobs)

unfoldable pub handle_complete :
    (String → String) → String → String → CompleteRequest → ℕ → List CiJob → Reply × List CiJob
handle_complete hash header id req now jobs =
    end_job id req (lookup_by_token hash header now jobs) jobs
