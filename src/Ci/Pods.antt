-- ===== src/Ci/Pods.antt =====
-- The jobs that a pod holds, along any sequence of statements of internal/db/ci_jobs.go.
use docstore.Base.{
  ℕ, ◌≤◌, String, ◌≡◌, refl, subst, inl, inr, Bool, true, false, Option, none, some, List, [],
  arith, some_item, if◌then◌else◌, Bool-cases, ◌==◌, eq_iff,
}
use docstore.Ci.Jobs.{
  CiJob, CiJobStatus, NewJob, is_claimed, is_text, oldest_queued, holds_job, claim, claim_found,
  claim_ci_job, update_job, insert_ci_job, new_job, with_token, with_heartbeat, store_request_token,
  heartbeat_ci_job, complete, complete_ci_job, reap_stale_ci_jobs, reaped, requeue, is_stale,
}
use docstore.Ci.Queue.{
  count, has_id, IsDistinct, count-none, count-map, count-update_job, count-has_id, IsDistinct-map,
  IsDistinct-update_job,
}

-- One statement on the table. An id is drawn that no job has, and a job is completed with a status
-- other than claimed.
pub data Step : List CiJob → List CiJob → Type 0 where
  inserts :
      (id : String) (now : ℕ) (n : NewJob) (jobs : List CiJob)
      → some_item (has_id id) jobs ≡ false
      → Step jobs (insert_ci_job id now n jobs)
  claims :
      (pod ip : String) (now : ℕ) (jobs : List CiJob) → Step jobs (claim_ci_job pod ip now jobs).1
  stores_token :
      (id hashed : String) (exp : ℕ) (jobs : List CiJob)
      → Step jobs (store_request_token id hashed exp jobs)
  beats : (id : String) (now : ℕ) (jobs : List CiJob) → Step jobs (heartbeat_ci_job id now jobs)
  completes :
      (id : String) (status : CiJobStatus) (log_url error_message : Option String)
      (jobs : List CiJob)
      → is_claimed status ≡ false
      → Step jobs (complete_ci_job id status log_url error_message jobs)
  reaps : (now : ℕ) (jobs : List CiJob) → Step jobs (reap_stale_ci_jobs now jobs).1

pub data Reachable : List CiJob → Type 0 where
  empty : Reachable []
  after_step : {jobs after : List CiJob} → Reachable jobs → Step jobs after → Reachable after

abbrev pub HoldsOne : List CiJob → Type 0
HoldsOne jobs = (pod : String) → count (holds_job pod) jobs ≤ 1

-- A change to one row under which no job comes to be held does not raise what a pod holds.
count-update_job_of :
    (pod id : String) (f : CiJob → CiJob) (jobs : List CiJob)
    → ((j : CiJob) → holds_job pod j ≡ false → holds_job pod (f j) ≡ false)
    → count (holds_job pod) (update_job id f jobs) ≤ count (holds_job pod) jobs
unfolding update_job
count-update_job_of pod id f jobs h = count-map (holds_job pod) _ (λ j. either j (j.id == id)) jobs
  where
    either :
        (j : CiJob) (b : Bool)
        → holds_job pod j ≡ false
        → holds_job pod (if b then f j else j) ≡ false
    either j true e = h j e
    either j false e = e

holds_job-claim :
    (pod other ip : String) (now : ℕ) (j : CiJob)
    → (other == pod) ≡ false
    → holds_job pod (claim other ip now j) ≡ false
unfolding holds_job claim is_text
holds_job-claim pod other ip now j h = rw h refl

claim_found-HoldsOne :
    (pod ip : String) (now : ℕ) (o : Option CiJob) (jobs : List CiJob)
    → some_item (holds_job pod) jobs ≡ false
    → IsDistinct jobs
    → HoldsOne jobs
    → (other : String) → count (holds_job other) (claim_found pod ip now o jobs).1 ≤ 1
unfolding claim_found
claim_found-HoldsOne pod ip now none jobs free d h other = h other
claim_found-HoldsOne pod ip now (some j) jobs free d h other = elim (Bool-cases (pod == other)) [
  | inl e ↦
      let zero =
        count-none (holds_job other) jobs
          (subst (λ p. some_item (holds_job p) jobs ≡ false) ((eq_iff pod other).0 e) free) in
      omega (
        arith,
        count-update_job (holds_job other) j.id (claim pod ip now) jobs,
        count-has_id j.id jobs d,
        zero,
      )
  | inr e ↦ omega (
    arith,
    h other,
    count-update_job_of other j.id (claim pod ip now) jobs
        (λ k _. holds_job-claim other pod ip now k e),
  )
]

claim_found-IsDistinct :
    (pod ip : String) (now : ℕ) (o : Option CiJob) (jobs : List CiJob)
    → IsDistinct jobs
    → IsDistinct (claim_found pod ip now o jobs).1
unfolding claim_found claim
claim_found-IsDistinct pod ip now none jobs d = d
claim_found-IsDistinct pod ip now (some j) jobs d =
    IsDistinct-update_job j.id (claim pod ip now) (λ k. refl) jobs d

holds_job-complete :
    (pod : String) (status : CiJobStatus) (log_url error_message : Option String) (j : CiJob)
    → is_claimed status ≡ false
    → holds_job pod (complete status log_url error_message j) ≡ false
unfolding holds_job complete
holds_job-complete pod status log_url error_message j h =
    elim (Bool-cases (is_text pod j.worker_pod)) [ inl e ↦ rw e h | inr e ↦ rw e refl ]

reaped-id : (now : ℕ) (j : CiJob) → (reaped now j).id ≡ j.id
unfolding reaped requeue
reaped-id now j = elim (Bool-cases (is_stale now j)) [ inl e ↦ rw e refl | inr e ↦ rw e refl ]

holds_job-reaped :
    (pod : String) (now : ℕ) (j : CiJob)
    → holds_job pod j ≡ false
    → holds_job pod (reaped now j) ≡ false
unfolding reaped requeue holds_job is_text
holds_job-reaped pod now j h = elim (Bool-cases (is_stale now j)) [
  | inl e ↦ rw e refl
  | inr e ↦ rw e h
]

claim-step :
    (pod ip : String) (now : ℕ) (jobs : List CiJob)
    → IsDistinct jobs × HoldsOne jobs
    → IsDistinct (claim_ci_job pod ip now jobs).1 × HoldsOne (claim_ci_job pod ip now jobs).1
unfolding claim_ci_job claim_found
claim-step pod ip now jobs h = elim (Bool-cases (some_item (holds_job pod) jobs)) [
  | inl e ↦ rw e h
  | inr e ↦ rw e (
    claim_found-IsDistinct pod ip now (oldest_queued jobs) jobs h.0,
    claim_found-HoldsOne pod ip now (oldest_queued jobs) jobs e h.0 h.1,
  )
]

Step-HoldsOne :
    {jobs after : List CiJob}
    → Step jobs after
    → IsDistinct jobs × HoldsOne jobs
    → IsDistinct after × HoldsOne after
unfolding insert_ci_job new_job store_request_token heartbeat_ci_job complete_ci_job
    reap_stale_ci_jobs complete with_token with_heartbeat holds_job is_text
Step-HoldsOne (inserts id now n jobs fresh) h = ((fresh, h.0), h.1)
Step-HoldsOne (claims pod ip now jobs) h = claim-step pod ip now jobs h
Step-HoldsOne (stores_token id hashed exp jobs) h = (
  IsDistinct-update_job id (with_token hashed exp) (λ k. refl) jobs h.0,
  λ pod. omega (arith, h.1 pod, count-update_job_of pod id (with_token hashed exp) jobs (λ j e. e)),
)
Step-HoldsOne (beats id now jobs) h = (
  IsDistinct-update_job id (with_heartbeat now) (λ k. refl) jobs h.0,
  λ pod. omega (arith, h.1 pod, count-update_job_of pod id (with_heartbeat now) jobs (λ j e. e)),
)
Step-HoldsOne (completes id status log_url error_message jobs done) h = (
  IsDistinct-update_job id (complete status log_url error_message) (λ k. refl) jobs h.0,
  λ pod. omega (
    arith,
    h.1 pod,
    count-update_job_of pod id (complete status log_url error_message) jobs
        (λ j e. holds_job-complete pod status log_url error_message j done),
  ),
)
Step-HoldsOne (reaps now jobs) h = (
  IsDistinct-map (reaped now) (reaped-id now) jobs h.0,
  λ pod.
      omega
        (arith, h.1 pod, count-map (holds_job pod) (reaped now) (holds_job-reaped pod now) jobs),
)

-- Whatever statements run on an empty table of jobs, in whatever order, no two jobs have one id and
-- no pod holds two claimed jobs. Ids are drawn fresh, and a job is completed only with a status that
-- is not claimed.
pub Reachable-HoldsOne : {jobs : List CiJob} → Reachable jobs → IsDistinct jobs × HoldsOne jobs
Reachable-HoldsOne empty = (tt, λ pod. omega arith)
Reachable-HoldsOne (after_step r s) = Step-HoldsOne s (Reachable-HoldsOne r)
