-- ===== src/Ci/Queue.antt =====
-- Lemmas on the table of jobs: counting jobs, jobs of one id, and changes that keep the ids.
use docstore.Base.{
  ℕ, ◌+◌, ◌≤◌, String, ◌≡◌, refl, subst, inl, inr, Bool, true, false, List, [], ◌∷◌, map, ◌==◌,
  arith, keep, length, some_item, if◌then◌else◌, Bool-cases, some, none, first, Mem, eq_iff,
}
use mathlib.Core.List.{mem-cons_self, mem-cons_of_mem}
use docstore.Ci.Jobs.{CiJob, update_job}

abbrev pub count {ℓ} : {A : Type ℓ} → (A → Bool) → List A → ℕ
count p jobs = length (keep p jobs)

abbrev pub has_id : String → CiJob → Bool
has_id id j = j.id == id

-- No two jobs have the same id.
abbrev pub IsDistinct : List CiJob → Type 0
IsDistinct [] = Unit
IsDistinct (j ∷ js) = (some_item (has_id j.id) js ≡ false) × IsDistinct js

pub count-none {ℓ} :
    {A : Type ℓ} (p : A → Bool) (xs : List A) → some_item p xs ≡ false → count p xs ≡ 0
count-none p [] h = refl
count-none p (x ∷ xs) h = elim (Bool-cases (p x)) [
  | inl e ↦ cc (rw e at h)
  | inr e ↦ rw e (count-none p xs (rw e at h))
]

-- A change under which no item comes to pass the test does not raise the count.
pub count-map :
    (p : CiJob → Bool) (f : CiJob → CiJob)
    → ((j : CiJob) → p j ≡ false → p (f j) ≡ false)
    → (js : List CiJob) → count p (map f js) ≤ count p js
count-map p f h [] = omega arith
count-map p f h (j ∷ js) = elim (Bool-cases (p j)) [
  | inr e ↦ rw (e, h j e) (count-map p f h js)
  | inl e ↦ elim (Bool-cases (p (f j))) [
    | inl g ↦ rw (e, g) (omega (arith, count-map p f h js))
    | inr g ↦ rw (e, g) (omega (arith, count-map p f h js))
  ]
]

-- A change to the job of one id raises the count by the number of jobs of that id at most.
pub count-update_job :
    (p : CiJob → Bool) (id : String) (f : CiJob → CiJob) (js : List CiJob)
    → count p (update_job id f js) ≤ count p js + count (has_id id) js
unfolding update_job
count-update_job p id f [] = omega arith
count-update_job p id f (j ∷ js) =
    let le = count-update_job p id f js in
    elim (Bool-cases (j.id == id)) [
      | inl e ↦ elim (Bool-cases (p (f j))) [
        | inl g ↦
            rw (e, g)
              (elim (Bool-cases (p j)) [
                | inl k ↦ rw k (omega (arith, le))
                | inr k ↦ rw k (omega (arith, le))
              ])
        | inr g ↦
            rw (e, g)
              (elim (Bool-cases (p j)) [
                | inl k ↦ rw k (omega (arith, le))
                | inr k ↦ rw k (omega (arith, le))
              ])
      ]
      | inr e ↦
          rw e (elim (Bool-cases (p j)) [ inl k ↦ rw k (omega (arith, le)) | inr k ↦ rw k le ])
    ]

pub count-has_id : (id : String) (js : List CiJob) → IsDistinct js → count (has_id id) js ≤ 1
count-has_id id [] h = omega arith
count-has_id id (j ∷ js) h = elim (Bool-cases (j.id == id)) [
  | inl e ↦ rw e (
      omega (
        arith,
        count-none (has_id id) js
            (subst (λ i. some_item (has_id i) js ≡ false) ((eq_iff j.id id).0 e) h.0),
      ))
  | inr e ↦ rw e (count-has_id id js h.1)
]

some_item-map :
    (id : String) (f : CiJob → CiJob)
    → ((j : CiJob) → (f j).id ≡ j.id)
    → (js : List CiJob) → some_item (has_id id) (map f js) ≡ some_item (has_id id) js
some_item-map id f h [] = refl
some_item-map id f h (j ∷ js) = rw (h j, some_item-map id f h js) refl

-- A change that keeps every id keeps the ids distinct.
pub IsDistinct-map :
    (f : CiJob → CiJob)
    → ((j : CiJob) → (f j).id ≡ j.id)
    → (js : List CiJob) → IsDistinct js
    → IsDistinct (map f js)
IsDistinct-map f h [] d = tt
IsDistinct-map f h (j ∷ js) d =
    (rw (h j) (rw (some_item-map j.id f h js) d.0), IsDistinct-map f h js d.1)

pub IsDistinct-update_job :
    (id : String) (f : CiJob → CiJob)
    → ((j : CiJob) → (f j).id ≡ j.id)
    → (js : List CiJob) → IsDistinct js
    → IsDistinct (update_job id f js)
unfolding update_job
IsDistinct-update_job id f h js d = IsDistinct-map _ (λ j. either j (j.id == id)) js d
  where
    either : (j : CiJob) (b : Bool) → (if b then f j else j).id ≡ j.id
    either j true = h j
    either j false = refl

-- The first item that passes a test passes it, and is one of the items.
pub first-passes {ℓ} :
    {A : Type ℓ} (p : A → Bool) (xs : List A) (x : A)
    → first p xs ≡ some x
    → (p x ≡ true) × Mem x xs
first-passes p [] x e = cc
first-passes p (y ∷ ys) x e = elim (Bool-cases (p y)) [
  | inl t ↦
      let h = rw t at e in
      (subst (λ z. p z ≡ true) (cc h) t, subst (λ z. Mem z (y ∷ ys)) (cc h) mem-cons_self)
  | inr t ↦ let (u, m) = first-passes p ys x (rw t at e) in (u, mem-cons_of_mem y m)
]

-- A test that no item passes finds none.
pub first-none {ℓ} :
    {A : Type ℓ} (p : A → Bool) (xs : List A) → some_item p xs ≡ false → first p xs ≡ none
first-none p [] h = refl
first-none p (x ∷ xs) h = elim (Bool-cases (p x)) [
  | inl e ↦ cc (rw e at h)
  | inr e ↦ rw e (first-none p xs (rw e at h))
]
