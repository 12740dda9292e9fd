-- ===== src/Ci/Jobs.antt =====
-- The rows of ci_jobs and the operations of internal/db/ci_jobs.go. The time of a statement is an
-- argument; the rows are in the order in which they were inserted, newest first.
use docstore.Base.{
  ℕ, ◌+◌, String, Bool, true, false, ◌&&◌, Option, none, some, List, [], ◌∷◌, map, ◌==◌, ltb, first,
  keep, some_item, length, if◌then◌else◌,
}

pub data CiJobStatus : Type 0 where
  queued claimed passed failed : CiJobStatus

unfoldable pub is_queued : CiJobStatus → Bool
is_queued queued = true
is_queued _ = false

unfoldable pub is_claimed : CiJobStatus → Bool
is_claimed claimed = true
is_claimed _ = false

pub record CiJob : Type 0 where
  pub id : String
  pub repo : String
  pub branch : String
  pub sequence : ℕ
  pub status : CiJobStatus
  pub claimed_at : Option ℕ
  pub last_heartbeat_at : Option ℕ
  pub worker_pod : Option String
  pub worker_pod_ip : Option String
  pub log_url : Option String
  pub error_message : Option String
  pub created_at : ℕ
  pub trigger_type : String
  pub trigger_branch : String
  pub trigger_base_branch : Option String
  pub trigger_proposal_id : Option String
  pub request_token : Option String
  pub request_token_exp : Option ℕ
  pub permissions : List String

-- UPDATE ci_jobs SET … WHERE id = $1
unfoldable pub update_job : String → (CiJob → CiJob) → List CiJob → List CiJob
update_job id change jobs = map (λ j. if j.id == id then change j else j) jobs

unfoldable pub with_token : String → ℕ → CiJob → CiJob
with_token hashed exp j = record j { request_token = some hashed; request_token_exp = some exp }

unfoldable pub store_request_token : String → String → ℕ → List CiJob → List CiJob
store_request_token id hashed exp jobs = update_job id (with_token hashed exp) jobs

-- A comparison with NULL does not hold.
unfoldable pub is_text : String → Option String → Bool
is_text s none = false
is_text s (some t) = t == s

unfoldable pub is_after : ℕ → Option ℕ → Bool
is_after now none = false
is_after now (some t) = ltb now t

unfoldable pub has_valid_token : String → ℕ → CiJob → Bool
has_valid_token hashed now j =
    is_text hashed j.request_token && (is_after now j.request_token_exp && is_claimed j.status)

-- LookupRequestToken; none is ErrTokenInvalid.
unfoldable pub lookup_request_token : String → ℕ → List CiJob → Option CiJob
lookup_request_token hashed now jobs = first (has_valid_token hashed now) jobs

unfoldable pub text_or_null : String → Option String
text_or_null s = if s == "" then none else some s

unfoldable pub or_checks : List String → List String
or_checks [] = "checks" ∷ []
or_checks (p ∷ ps) = p ∷ ps

pub record NewJob : Type 0 where
  pub repo : String
  pub branch : String
  pub sequence : ℕ
  pub trigger_type : String
  pub trigger_branch : String
  pub trigger_base_branch : String
  pub trigger_proposal_id : String
  pub permissions : List String

unfoldable pub new_job : String → ℕ → NewJob → CiJob
new_job id now n = record {
  id = id;
  repo = n.repo;
  branch = n.branch;
  sequence = n.sequence;
  status = queued;
  claimed_at = none;
  last_heartbeat_at = none;
  worker_pod = none;
  worker_pod_ip = none;
  log_url = none;
  error_message = none;
  created_at = now;
  trigger_type = n.trigger_type;
  trigger_branch = n.trigger_branch;
  trigger_base_branch = text_or_null n.trigger_base_branch;
  trigger_proposal_id = text_or_null n.trigger_proposal_id;
  request_token = none;
  request_token_exp = none;
  permissions = or_checks n.permissions;
}

-- InsertCIJob; the database draws the id.
unfoldable pub insert_ci_job : String → ℕ → NewJob → List CiJob → List CiJob
insert_ci_job id now n jobs = new_job id now n ∷ jobs

unfoldable pub get_ci_job : String → List CiJob → Option CiJob
get_ci_job id jobs = first (λ (j : CiJob). j.id == id) jobs

-- Of a job and the best of the older rows, the one created first.
unfoldable pub earlier : CiJob → Option CiJob → CiJob
earlier j none = j
earlier j (some k) = if ltb j.created_at k.created_at then j else k

-- WHERE status = 'queued' ORDER BY created_at LIMIT 1
unfoldable pub oldest_queued : List CiJob → Option CiJob
oldest_queued [] = none
oldest_queued (j ∷ js) =
    let best = oldest_queued js in if is_queued j.status then some (earlier j best) else best

unfoldable pub holds_job : String → CiJob → Bool
holds_job pod j = is_text pod j.worker_pod && is_claimed j.status

unfoldable pub claim : String → String → ℕ → CiJob → CiJob
claim pod ip now j = record j {
  status = claimed;
  claimed_at = some now;
  worker_pod = some pod;
  worker_pod_ip = some ip;
}

unfoldable pub claim_found :
    String → String → ℕ → Option CiJob → List CiJob → Option CiJob × List CiJob
claim_found pod ip now none jobs = (none, jobs)
claim_found pod ip now (some j) jobs =
    (some (claim pod ip now j), update_job j.id (claim pod ip now) jobs)

-- ClaimCIJob: the oldest queued job, unless the pod holds a job already.
unfoldable pub claim_ci_job : String → String → ℕ → List CiJob → Option CiJob × List CiJob
claim_ci_job pod ip now jobs =
    claim_found pod ip now (if some_item (holds_job pod) jobs then none else oldest_queued jobs)
      jobs

unfoldable pub with_heartbeat : ℕ → CiJob → CiJob
with_heartbeat now j = record j { last_heartbeat_at = some now }

unfoldable pub heartbeat_ci_job : String → ℕ → List CiJob → List CiJob
heartbeat_ci_job id now jobs = update_job id (with_heartbeat now) jobs

unfoldable pub complete : CiJobStatus → Option String → Option String → CiJob → CiJob
complete status log_url error_message j = record j {
  status = status;
  log_url = log_url;
  error_message = error_message;
  request_token = none;
  request_token_exp = none;
}

unfoldable pub complete_ci_job :
    String → CiJobStatus → Option String → Option String → List CiJob → List CiJob
complete_ci_job id status log_url error_message jobs =
    update_job id (complete status log_url error_message) jobs

unfoldable pub coalesce : Option ℕ → Option ℕ → Option ℕ
coalesce none b = b
coalesce (some a) b = some a

-- A time is more than two minutes, of 60 seconds, before `now`.
unfoldable pub is_old : ℕ → Option ℕ → Bool
is_old now none = false
is_old now (some t) = ltb (t + 120) now

-- WHERE status = 'claimed' AND COALESCE(last_heartbeat_at, claimed_at) < now() - interval '2 minutes'
unfoldable pub is_stale : ℕ → CiJob → Bool
is_stale now j = is_claimed j.status && is_old now (coalesce j.last_heartbeat_at j.claimed_at)

unfoldable pub requeue : CiJob → CiJob
requeue j = record j {
  status = queued;
  claimed_at = none;
  last_heartbeat_at = none;
  worker_pod = none;
  worker_pod_ip = none;
  request_token = none;
  request_token_exp = none;
}

unfoldable pub reaped : ℕ → CiJob → CiJob
reaped now j = if is_stale now j then requeue j else j

-- ReapStaleCIJobs: the requeued jobs, and the table.
unfoldable pub reap_stale_ci_jobs : ℕ → List CiJob → List CiJob × List CiJob
reap_stale_ci_jobs now jobs = (map requeue (keep (is_stale now) jobs), map (reaped now) jobs)

unfoldable pub count_queued_ci_jobs : List CiJob → ℕ
count_queued_ci_jobs jobs = length (keep (λ (j : CiJob). is_queued j.status) jobs)
