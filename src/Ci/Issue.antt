-- ===== src/Ci/Issue.antt =====
-- The request token that POST /claim of cmd/ci-scheduler issues with a job.
use docstore.Base.{
  ℕ, ◌+◌, ◌*◌, ◌<◌, String, ◌≡◌, refl, subst, inl, inr, Bool, true, false, ◌||◌, Option, none, some,
  List, [], ◌∷◌, some_item, first, Bool-cases, ◌==◌, eq_refl, eq_iff, lt→ltb, ltb,
}
use docstore.Base.Text.{trim_prefix}
use docstore.Ci.Jobs.{
  CiJob, is_claimed, is_text, is_after, has_valid_token, lookup_request_token, update_job,
  with_token, store_request_token, earlier, is_queued, oldest_queued, holds_job, claim, claim_found,
  claim_ci_job,
}
use docstore.Ci.Queue.{has_id}
use docstore.Ci.Handlers.{Reply, claim_response, lookup_by_token, claim_reply, handle_claim}

oldest_queued-has_id :
    (jobs : List CiJob) (j : CiJob)
    → oldest_queued jobs ≡ some j
    → some_item (has_id j.id) jobs ≡ true
unfolding oldest_queued earlier
oldest_queued-has_id [] j e = cc
oldest_queued-has_id (k ∷ ks) j e = elim (Bool-cases (is_queued k.status)) [
  | inr q ↦ or_right (k.id == j.id) (oldest_queued-has_id ks j (rw q at e))
  | inl q ↦ best (oldest_queued ks) (λ i. oldest_queued-has_id ks i) (rw q at e)
]
  where
    or_right : (a : Bool) {b : Bool} → b ≡ true → a || b ≡ true
    or_right true h = refl
    or_right false h = h

    same : k ≡ j → (k.id == j.id) || some_item (has_id j.id) ks ≡ true
    same h =
        subst (λ (i : CiJob). (k.id == i.id) || some_item (has_id i.id) ks ≡ true) h
          (rw (eq_refl k.id) refl)

    best :
        (o : Option CiJob)
        → ((i : CiJob) → o ≡ some i → some_item (has_id i.id) ks ≡ true)
        → some (earlier k o) ≡ some j
        → (k.id == j.id) || some_item (has_id j.id) ks ≡ true
    best none f e = same cc
    best (some i) f e = elim (Bool-cases (ltb k.created_at i.created_at)) [
      | inl t ↦ same (cc (rw t at e))
      | inr t ↦ or_right (k.id == j.id) (f j (rw t at e))
    ]

-- No job carries this token.
abbrev pub Unused : String → List CiJob → Type 0
Unused hashed jobs = some_item (λ (j : CiJob). is_text hashed j.request_token) jobs ≡ false

-- A claimed job that is given a token unused so far is found by it until it expires.
first-with_token :
    (pod ip hashed id : String) (now exp t : ℕ) (jobs : List CiJob)
    → t < exp
    → Unused hashed jobs
    → some_item (has_id id) jobs ≡ true
    → (j : CiJob) × ((first
            (has_valid_token hashed t)
            (update_job id (with_token hashed exp) (update_job id (claim pod ip now) jobs))
          ≡ some j)
        × ((j.id ≡ id) × (j.worker_pod ≡ some pod)))
unfolding update_job with_token claim has_valid_token is_text is_after is_claimed
first-with_token pod ip hashed id now exp t [] lt u h = cc
first-with_token pod ip hashed id now exp t (k ∷ ks) lt u h = elim (Bool-cases (k.id == id)) [
  | inl e ↦
      rw (e, e, eq_refl hashed, lt→ltb t exp lt)
        (with_token hashed exp (claim pod ip now k), (refl, ((eq_iff k.id id).0 e, refl)))
  | inr e ↦ elim (Bool-cases (is_text hashed k.request_token)) [
    | inl f ↦ cc (rw f at u)
    | inr f ↦
        rw (e, e, f) (first-with_token pod ip hashed id now exp t ks lt (rw f at u) (rw e at h))
  ]
]

-- The token that an answer hands out is found, with the header that carries it, to be that of the
-- answer's job, held by the pod.
abbrev Usable : (String → String) → String → String → ℕ → Reply × List CiJob → Type 0
Usable hash pod header t (claim_response j token, after) =
    trim_prefix "Bearer " header ≡ token
    → (token == "" || token == header) ≡ false
    → (found : CiJob) × ((lookup_by_token hash header t after ≡ some found)
        × ((found.id ≡ j.id) × (found.worker_pod ≡ some pod)))
Usable hash pod header t _ = Unit

claim_reply-Usable :
    (hash : String → String) (plaintext pod ip header : String) (now t : ℕ) (jobs : List CiJob)
    (o : Option CiJob)
    → ((j : CiJob) → o ≡ some j → some_item (has_id j.id) jobs ≡ true)
    → Unused (hash plaintext) jobs
    → t < now + 24 * 3600
    → Usable hash pod header t (claim_reply hash plaintext now (claim_found pod ip now o jobs))
unfolding claim_reply claim_found store_request_token lookup_by_token lookup_request_token claim
claim_reply-Usable hash plaintext pod ip header now t jobs none f u lt = tt
claim_reply-Usable hash plaintext pod ip header now t jobs (some j) f u lt = λ bearer sent.
    rw (bearer, sent)
      (first-with_token pod ip (hash plaintext) j.id now (now + 24 * 3600) t jobs lt u (f j refl))

handle_claim-Usable :
    (hash : String → String) (plaintext pod ip header : String) (now t : ℕ) (jobs : List CiJob)
    → Unused (hash plaintext) jobs
    → t < now + 24 * 3600
    → Usable hash pod header t (handle_claim hash plaintext pod ip now jobs)
unfolding handle_claim claim_ci_job
handle_claim-Usable hash plaintext pod ip header now t jobs u lt =
    elim (Bool-cases (some_item (holds_job pod) jobs)) [
      | inl b ↦
          rw b (claim_reply-Usable hash plaintext pod ip header now t jobs none (λ j e. cc) u lt)
      | inr b ↦ rw b (
          claim_reply-Usable hash plaintext pod ip header now t jobs (oldest_queued jobs)
            (oldest_queued-has_id jobs) u lt)
    ]

-- What a worker needs of the answer to its claim: a token that no other job carries is good for the
-- job handed out with it, until it expires 24 hours later. The lookup that heartbeat and completion
-- do with a Bearer header of that token finds the job, held by the pod.
pub handle_claim_lem :
    (hash : String → String) (plaintext pod ip header : String) (now t : ℕ) (jobs : List CiJob)
    (j : CiJob) (token : String) (after : List CiJob)
    → handle_claim hash plaintext pod ip now jobs ≡ (claim_response j token, after)
    → Unused (hash plaintext) jobs
    → trim_prefix "Bearer " header ≡ token
    → (token == "" || token == header) ≡ false
    → t < now + 24 * 3600
    → (found : CiJob) × ((lookup_by_token hash header t after ≡ some found)
        × ((found.id ≡ j.id) × (found.worker_pod ≡ some pod)))
handle_claim_lem hash plaintext pod ip header now t jobs j token after e u bearer sent lt =
    subst (Usable hash pod header t) e
      (handle_claim-Usable hash plaintext pod ip header now t jobs u lt) bearer sent
