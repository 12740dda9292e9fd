-- ===== src/Gate/Checks/Pending.antt =====
-- The rows that RetryChecks of internal/db/store.go inserts, and the runs that are listed then.
use docstore.Base.{
  ℕ, suc, ◌≤◌, String, ◌≡◌, refl, sym, ◌∙◌, ◌⊎◌, inl, inr, true, false, Option, none, some, List,
  [], ◌∷◌, ◌==◌, nat_eq, some_item, Bool-cases, Option-cases, eq_refl, le→ltb, arith,
}
use mathlib.Core.Bool.{false≢true}
use docstore.Store.Tables.{Env}
use docstore.Gate.Tables.{CheckRun, pending}
use docstore.Gate.Checks.{at_sequence, has_key, retry_run, insert_retries}
use docstore.Gate.Checks.Latest.{best_run, higher}
use docstore.Gate.Checks.Retries.{is_of, UpTo}

module _ (env : Env) (repo branch : String) (seq : ℕ) (name : String) where
  best_run-UpTo :
      (a : ℕ) (rows : List CheckRun) (q : CheckRun)
      → UpTo repo branch seq name a rows
      → best_run (is_of repo branch seq name) rows ≡ some q
      → q.attempt ≤ a
  best_run-UpTo a [] q u e = cc
  best_run-UpTo a (r ∷ rs) q u e = elim (Option-cases (best_run (is_of repo branch seq name) rs)) [
    | inl x ↦ ground (arith, x, u.0)
    | inr (b, x) ↦ ground (arith, x, u.0, best_run-UpTo a rs b u.1 x)
  ]

  -- The check's listed run is pending, with an attempt.
  abbrev pub Retried : ℕ → Option CheckRun → Type 0
  Retried a none = ⊥
  Retried a (some r) = (r.status ≡ pending) × (r.attempt ≡ a)

  higher-Retried :
      (a n : ℕ) (d : String) (o : Option CheckRun)
      → ((q : CheckRun) → o ≡ some q → q.attempt ≤ a)
      → Retried a (some (higher (retry_run env repo branch seq a d n) o))
  unfolding retry_run
  higher-Retried a n d none f = (refl, refl)
  higher-Retried a n d (some q) f = let x = f q refl in rw (le→ltb a q.attempt x) (refl, refl)

  is_of-retry_run :
      (a n : ℕ) (d : String)
      → is_of repo branch seq name (retry_run env repo branch seq a d n) ≡ (d == name)
  unfolding retry_run at_sequence
  is_of-retry_run a n d = simp (eq_refl, nat_refl)
    where
      nat_refl : (m : ℕ) → nat_eq m m ≡ true
      nat_refl m = ground arith

  inserted-Retried :
      (a n : ℕ) (d : String) (rows : List CheckRun)
      → UpTo repo branch seq name a rows
      → (d == name) ≡ true ⊎ Retried a (best_run (is_of repo branch seq name) rows)
      → Retried a
          (best_run (is_of repo branch seq name) (retry_run env repo branch seq a d n ∷ rows))
  inserted-Retried a n d rows u h = elim (Bool-cases (d == name)) [
    | inl e ↦
        rw (is_of-retry_run a n d, e)
          (higher-Retried a n d (best_run (is_of repo branch seq name) rows)
            (λ q x. best_run-UpTo a rows q u x))
    | inr e ↦ rw (is_of-retry_run a n d, e) (kept e h)
  ]
    where
      kept :
          (d == name) ≡ false
          → (d == name) ≡ true ⊎ Retried a (best_run (is_of repo branch seq name) rows)
          → Retried a (best_run (is_of repo branch seq name) rows)
      kept e (inl t) = absurd (false≢true (sym e ∙ t))
      kept e (inr t) = t

  inserted-UpTo :
      (a n : ℕ) (d : String) (rows : List CheckRun)
      → UpTo repo branch seq name a rows
      → UpTo repo branch seq name a (retry_run env repo branch seq a d n ∷ rows)
  unfolding retry_run
  inserted-UpTo a n d rows u = ((λ t. omega arith), u)

  abbrev pub AllInserted : ℕ → Option (ℕ × List CheckRun) → Type 0
  AllInserted a none = Unit
  AllInserted a (some (n, rows)) = Retried a (best_run (is_of repo branch seq name) rows)

  pub insert_retries-Retried :
      (a : ℕ) (cs : List String) (n : ℕ) (rows : List CheckRun)
      → UpTo repo branch seq name a rows
      → some_item (λ c. c == name) cs ≡ true
        ⊎ Retried a (best_run (is_of repo branch seq name) rows)
      → AllInserted a (insert_retries env repo branch seq a cs n rows)
  unfolding insert_retries
  insert_retries-Retried a [] n rows u (inl e) = cc
  insert_retries-Retried a [] n rows u (inr h) = h
  insert_retries-Retried a (c ∷ cs) n rows u h =
      let rows' = retry_run env repo branch seq a c n ∷ rows in
      elim (Bool-cases (some_item (has_key repo branch seq c a) rows)) [
        | inl e ↦ rw (e, insert_retries) tt
        | inr e ↦
            rw (e, insert_retries)
              (insert_retries-Retried a cs (suc n) rows' (inserted-UpTo a n c rows u) (next h))
      ]
    where
      next :
          some_item (λ d. d == name) (c ∷ cs) ≡ true
            ⊎ Retried a (best_run (is_of repo branch seq name) rows)
          → some_item (λ d. d == name) cs ≡ true
            ⊎ Retried a
                (best_run (is_of repo branch seq name) (retry_run env repo branch seq a c n ∷ rows))
      next (inr t) = inr (inserted-Retried a n c rows u (inr t))
      next (inl t) = elim (Bool-cases (c == name)) [
        | inl e ↦ inr (inserted-Retried a n c rows u (inl e))
        | inr e ↦ inl (rw e at t)
      ]
