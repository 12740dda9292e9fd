-- ===== src/Ci/Tokens.antt =====
-- Request tokens of cmd/ci-scheduler/main.go after completion and after reaping.
use mathlib.Core.List.{mem-cons_self, mem-cons_of_mem}
use docstore.Base.{
  ℕ, String, ◌≡◌, refl, subst, ap, inl, inr, Bool, true, false, ◌||◌, Option, none, some, List, [],
  ◌∷◌, Mem, map, first, Bool-cases, ◌==◌, eq_iff,
}
use docstore.Base.Text.{trim_prefix}
use docstore.Ci.Jobs.{
  CiJob, CiJobStatus, is_text, has_valid_token, lookup_request_token, update_job, complete,
  complete_ci_job, is_stale, requeue, reaped, reap_stale_ci_jobs,
}
use docstore.Ci.Queue.{first-passes}
use docstore.Ci.Handlers.{
  Reply, no_content, lookup_by_token, CompleteRequest, parse_status, finish, end_job,
  handle_complete,
}

-- When a change to the rows of one id makes them fail a test, the test finds only rows of other ids.
first-update_job :
    (p : CiJob → Bool) (id : String) (f : CiJob → CiJob)
    → ((j : CiJob) → p (f j) ≡ false)
    → (jobs : List CiJob) (x : CiJob) → first p (update_job id f jobs) ≡ some x
    → (x.id == id) ≡ false
unfolding update_job
first-update_job p id f h [] x e = cc
first-update_job p id f h (j ∷ js) x e = elim (Bool-cases (j.id == id)) [
  | inl t ↦ first-update_job p id f h js x (rw (h j) at (rw t at e))
  | inr t ↦ elim (Bool-cases (p j)) [
    | inl u ↦
        subst (λ (k : CiJob). (k.id == id) ≡ false) {x = j} {y = x} (cc (rw u at (rw t at e))) t
    | inr u ↦ first-update_job p id f h js x (rw u at (rw t at e))
  ]
]

-- What lookup_by_token finds is a row that has_valid_token accepts.
lookup_by_token-first :
    (hash : String → String) (header : String) (now : ℕ) (jobs : List CiJob) (j : CiJob)
    → lookup_by_token hash header now jobs ≡ some j
    → first (has_valid_token (hash (trim_prefix "Bearer " header)) now) jobs ≡ some j
unfolding lookup_by_token lookup_request_token
lookup_by_token-first hash header now jobs j e =
    elim (Bool-cases
      (trim_prefix "Bearer " header == "" || trim_prefix "Bearer " header == header)) [
        | inl t ↦ cc (rw t at e)
        | inr t ↦ rw t at e
      ]

has_valid_token-complete :
    (hashed : String) (now : ℕ) (status : CiJobStatus) (log_url error_message : Option String)
    (j : CiJob)
    → has_valid_token hashed now (complete status log_url error_message j) ≡ false
unfolding has_valid_token complete is_text
has_valid_token-complete hashed now status log_url error_message j = refl

-- The job that a request with this header may report on.
pub record Authorised (hash : String → String) (header id : String) (now : ℕ) (jobs : List CiJob)
    : Type 0 where
  pub job : CiJob
  pub found : lookup_by_token hash header now jobs ≡ some job
  pub named : (job.id == id) ≡ true
  pub valid : has_valid_token (hash (trim_prefix "Bearer " header)) now job ≡ true

-- No header is accepted for the job of this id, at any time.
abbrev pub IsSpent : (String → String) → String → List CiJob → Type 0
IsSpent hash id jobs =
    (header : String) (now : ℕ) (j : CiJob)
    → lookup_by_token hash header now jobs ≡ some j
    → (j.id == id) ≡ false

finish-IsSpent :
    (hash : String → String) (id : String) (req : CompleteRequest) (o : Option CiJobStatus)
    (jobs after : List CiJob)
    → finish id req o jobs ≡ (no_content, after)
    → IsSpent hash id after
unfolding finish complete_ci_job
finish-IsSpent hash id req none jobs after e = cc
finish-IsSpent hash id req (some status) jobs after e =
    subst (IsSpent hash id) (ap (λ (r : Reply × List CiJob). r.1) e) (λ header now j found.
      first-update_job (has_valid_token (hash (trim_prefix "Bearer " header)) now) id
        (complete status req.log_url req.error_message)
        (has_valid_token-complete _ now status req.log_url req.error_message) jobs j
        (lookup_by_token-first hash header now _ j found))

end_job-cases :
    (hash : String → String) (header id : String) (req : CompleteRequest) (now : ℕ)
    (o : Option CiJob) (jobs after : List CiJob)
    → lookup_by_token hash header now jobs ≡ o
    → end_job id req o jobs ≡ (no_content, after)
    → Authorised hash header id now jobs × IsSpent hash id after
unfolding end_job
end_job-cases hash header id req now none jobs after f e = cc
end_job-cases hash header id req now (some j) jobs after f e = elim (Bool-cases (j.id == id)) [
  | inl t ↦ (
    record {
      job = j;
      found = f;
      named = t;
      valid = (first-passes _ jobs j (lookup_by_token-first hash header now jobs j f)).0;
    },
    subst (λ i. IsSpent hash i after) ((eq_iff j.id id).0 t)
        (finish-IsSpent hash j.id req (parse_status req.status) jobs after (rw t at e)),
  )
  | inr t ↦ cc (rw t at e)
]

-- A completion that is accepted was allowed and is the last word: the header's token was that of a
-- claimed job of the id in the request, unexpired, and afterwards no header is accepted for a job of
-- that id, at any time, so a worker cannot report on the job again.
pub handle_complete_lem :
    (hash : String → String) (header id : String) (req : CompleteRequest) (now : ℕ)
    (jobs after : List CiJob)
    → handle_complete hash header id req now jobs ≡ (no_content, after)
    → Authorised hash header id now jobs × IsSpent hash id after
unfolding handle_complete
handle_complete_lem hash header id req now jobs after e =
    end_job-cases hash header id req now (lookup_by_token hash header now jobs) jobs after refl e

-- The row is one of these, as it stands, and is not stale.
abbrev pub IsKept : ℕ → List CiJob → CiJob → Type 0
IsKept now jobs j = (is_stale now j ≡ false) × Mem j jobs

first-reaped :
    (p : CiJob → Bool) (now : ℕ)
    → ((j : CiJob) → p (requeue j) ≡ false)
    → (jobs : List CiJob) (x : CiJob) → first p (map (reaped now) jobs) ≡ some x
    → IsKept now jobs x
unfolding reaped
first-reaped p now h [] x e = cc
first-reaped p now h (j ∷ js) x e = elim (Bool-cases (is_stale now j)) [
  | inl t ↦
      let (fresh, row) = first-reaped p now h js x (rw (h j) at (rw t at e)) in
      (fresh, mem-cons_of_mem j row)
  | inr t ↦ elim (Bool-cases (p j)) [
    | inl u ↦
        let same : j ≡ x = cc (rw u at (rw t at e)) in
        subst (IsKept now (j ∷ js)) same (t, mem-cons_self)
    | inr u ↦
        let (fresh, row) = first-reaped p now h js x (rw u at (rw t at e)) in
        (fresh, mem-cons_of_mem j row)
  ]
]

has_valid_token-requeue :
    (hashed : String) (now : ℕ) (j : CiJob) → has_valid_token hashed now (requeue j) ≡ false
unfolding has_valid_token requeue is_text
has_valid_token-requeue hashed now j = refl

-- After the reaper has run, a request token is accepted only for a row that stood in the table
-- before it ran, just as it is, and was not stale then: no requeued job has a token that is accepted,
-- so a worker that stopped sending heartbeats can report on its old job no longer.
pub reap_stale_ci_jobs_lem :
    (hash : String → String) (header : String) (now later : ℕ) (jobs : List CiJob) (j : CiJob)
    → lookup_by_token hash header later (reap_stale_ci_jobs now jobs).1 ≡ some j
    → IsKept now jobs j
unfolding reap_stale_ci_jobs
reap_stale_ci_jobs_lem hash header now later jobs j e =
    first-reaped (has_valid_token (hash (trim_prefix "Bearer " header)) later) now
      (has_valid_token-requeue _ later) jobs j (lookup_by_token-first hash header later _ j e)
