-- ===== src/Ci/Claims.antt =====
-- Which job a pod is given by ClaimCIJob.
use docstore.Base.{
  ℕ, ◌≤◌, String, ◌≡◌, refl, ◌⊎◌, inl, inr, true, false, Option, none, some, List, [], ◌∷◌, Mem,
  arith, All, All-map, some_item, Bool-cases, ltb,
}
use mathlib.Core.List.{mem-cons_self, mem-cons_of_mem}
use docstore.Ci.Jobs.{
  CiJob, is_queued, earlier, oldest_queued, holds_job, claim, claim_found, claim_ci_job, update_job,
}

-- A queued job was not created before `t`.
abbrev pub NotBefore : ℕ → CiJob → Type 0
NotBefore t j = is_queued j.status ≡ true → t ≤ j.created_at

-- The job is queued and in the table, and no queued job of the table was created before it.
pub record IsOldest (jobs : List CiJob) (j : CiJob) : Type 0 where
  pub is_in : Mem j jobs
  pub waits : is_queued j.status ≡ true
  pub others : All (NotBefore j.created_at) jobs

NotBefore-mono : (s t : ℕ) → s ≤ t → (j : CiJob) → NotBefore t j → NotBefore s j
NotBefore-mono s t h j p e = omega (arith, p e)

-- What `earlier` does to the oldest of the older rows, when the new row is queued.
earlier-IsOldest :
    (j k : CiJob) (js : List CiJob)
    → is_queued j.status ≡ true
    → IsOldest js k
    → IsOldest (j ∷ js) (earlier j (some k))
unfolding earlier
earlier-IsOldest j k js q o = elim (Bool-cases (ltb j.created_at k.created_at)) [
  | inl e ↦ rw e record {
    is_in = mem-cons_self;
    waits = q;
    others = (
      λ _. omega arith,
      All-map _ _ js (NotBefore-mono j.created_at k.created_at (ground arith)) o.others,
    );
  }
  | inr e ↦ rw e record {
    is_in = mem-cons_of_mem j o.is_in;
    waits = o.waits;
    others = (λ _. ground arith, o.others);
  }
]

abbrev NoneQueued : List CiJob → Type 0
NoneQueued jobs = some_item (λ (j : CiJob). is_queued j.status) jobs ≡ false

-- The oldest queued job, or none when no job is queued.
abbrev Oldest : List CiJob → Option CiJob → Type 0
Oldest jobs none = NoneQueued jobs
Oldest jobs (some j) = IsOldest jobs j

none-Oldest :
    (j : CiJob) (js : List CiJob) → NoneQueued js → is_queued j.status ≡ true → IsOldest (j ∷ js) j
none-Oldest j js h q = record {
  is_in = mem-cons_self;
  waits = q;
  others = (λ _. omega arith, idle j.created_at js h);
}
  where
    idle : (t : ℕ) (ks : List CiJob) → NoneQueued ks → All (NotBefore t) ks
    idle t [] h = tt
    idle t (k ∷ ks) h = elim (Bool-cases (is_queued k.status)) [
      | inl e ↦ cc (rw e at h)
      | inr e ↦ (λ p. cc, idle t ks (rw e at h))
    ]

pass-Oldest :
    (j : CiJob) (js : List CiJob) (o : Option CiJob)
    → is_queued j.status ≡ false
    → Oldest js o
    → Oldest (j ∷ js) o
pass-Oldest j js none q h = rw q h
pass-Oldest j js (some k) q h = record {
  is_in = mem-cons_of_mem j h.is_in;
  waits = h.waits;
  others = (λ e. cc, h.others);
}

oldest_queued_lem : (jobs : List CiJob) → Oldest jobs (oldest_queued jobs)
unfolding oldest_queued earlier
oldest_queued_lem [] = refl
oldest_queued_lem (j ∷ js) = elim (Bool-cases (is_queued j.status)) [
  | inl q ↦ rw q (queued_first (oldest_queued js) (oldest_queued_lem js) q)
  | inr q ↦ rw q (pass-Oldest j js (oldest_queued js) q (oldest_queued_lem js))
]
  where
    queued_first :
        (o : Option CiJob)
        → Oldest js o
        → is_queued j.status ≡ true
        → IsOldest (j ∷ js) (earlier j o)
    queued_first none h q = none-Oldest j js h q
    queued_first (some k) h q = earlier-IsOldest j k js q h

-- What a claim leaves, by what it returns.
abbrev pub Claimed : String → String → ℕ → List CiJob → Option CiJob → List CiJob → Type 0
Claimed pod ip now jobs none after =
    (after ≡ jobs) × ((some_item (holds_job pod) jobs ≡ true) ⊎ NoneQueued jobs)
Claimed pod ip now jobs (some c) after =
    (some_item (holds_job pod) jobs ≡ false)
    × ((j : CiJob) × (IsOldest jobs j
          × ((c ≡ claim pod ip now j) × (after ≡ update_job j.id (claim pod ip now) jobs))))

-- ClaimCIJob gives a pod the job it should have. When it returns a job, the pod held none, and the
-- job is a queued job of the table that no other queued job precedes in time of creation, now
-- claimed in the pod's name, with the row of its id changed and no other. When it returns none, the
-- table is unchanged, and either the pod holds a job or no job is queued.
pub claim_ci_job_lem :
    (pod ip : String) (now : ℕ) (jobs : List CiJob)
    → Claimed pod ip now jobs (claim_ci_job pod ip now jobs).0 (claim_ci_job pod ip now jobs).1
unfolding claim_ci_job claim_found
claim_ci_job_lem pod ip now jobs = elim (Bool-cases (some_item (holds_job pod) jobs)) [
  | inl e ↦ rw e (refl, inl e)
  | inr e ↦ rw e (found (oldest_queued jobs) (oldest_queued_lem jobs) e)
]
  where
    found :
        (o : Option CiJob)
        → Oldest jobs o
        → some_item (holds_job pod) jobs ≡ false
        → Claimed pod ip now jobs
            (claim_found pod ip now o jobs).0
            (claim_found pod ip now o jobs).1
    found none h e = (refl, inr h)
    found (some j) h e = (e, (j, (h, (refl, refl))))
