-- ===== src/Gate/Checks/Retries.antt =====
-- What RetryChecks of internal/db/store.go does to the attempts of a check.
use docstore.Base.{
  ℕ, ◌≤◌, String, ◌≡◌, refl, sym, subst, inl, inr, Bool, true, false, All-map, ◌&&◌, Option, none,
  some, List, [], ◌∷◌, ◌==◌, ltb, some_item, All, Bool-cases, eq_iff, arith, if◌then◌else◌,
}
use docstore.Gate.Tables.{CheckRun}
use docstore.Gate.Checks.{at_sequence, max_or, max_attempt_of, or_zero, max_attempt}
use docstore.Gate.Checks.Latest.{of_check}

module _ (repo branch : String) (seq : ℕ) (name : String) where
  -- The rows of the check at the sequence.
  abbrev pub is_of : CheckRun → Bool
  is_of r = at_sequence repo branch seq r && of_check name r

  abbrev pub UpTo : ℕ → List CheckRun → Type 0
  UpTo a rows = All (λ r. is_of r ≡ true → r.attempt ≤ a) rows

  -- An attempt is at most a greatest one, which must be there.
  abbrev AtMost : ℕ → Option ℕ → Type 0
  AtMost a none = ⊥
  AtMost a (some m) = a ≤ m

  AtMost-max_or : (a b : ℕ) (o : Option ℕ) → AtMost a o → AtMost a (some (max_or b o))
  unfolding max_or
  AtMost-max_or a b none h = absurd h
  AtMost-max_or a b (some m) h = ground arith

  max_or-AtMost : (a : ℕ) (o : Option ℕ) → AtMost a (some (max_or a o))
  unfolding max_or
  max_or-AtMost a none = omega arith
  max_or-AtMost a (some m) = ground arith

  abbrev Covered : Option ℕ → List CheckRun → Type 0
  Covered o rows = All (λ r. is_of r ≡ true → AtMost r.attempt o) rows

  cons_selected :
      (r : CheckRun) (rs : List CheckRun)
      → is_of r ≡ true
      → max_attempt_of repo branch seq name (r ∷ rs)
        ≡ some (max_or r.attempt (max_attempt_of repo branch seq name rs))
  unfolding max_attempt_of
  cons_selected r rs e = rw e refl

  cons_skipped :
      (r : CheckRun) (rs : List CheckRun)
      → is_of r ≡ false
      → max_attempt_of repo branch seq name (r ∷ rs) ≡ max_attempt_of repo branch seq name rs
  unfolding max_attempt_of
  cons_skipped r rs e = rw e refl

  max_attempt_of-Covered :
      (rows : List CheckRun) → Covered (max_attempt_of repo branch seq name rows) rows
  max_attempt_of-Covered [] = tt
  max_attempt_of-Covered (r ∷ rs) =
      let best = max_attempt_of repo branch seq name rs in
      let ih = max_attempt_of-Covered rs in
      elim (Bool-cases (is_of r)) [
        | inl e ↦
            subst (λ o. Covered o (r ∷ rs)) (sym (cons_selected r rs e))
              (
                (λ t. max_or-AtMost r.attempt best),
                All-map _ _ rs (λ q f t. AtMost-max_or q.attempt r.attempt best (f t)) ih,
              )
        | inr e ↦ subst (λ o. Covered o (r ∷ rs)) (sym (cons_skipped r rs e)) ((λ t. cc), ih)
      ]

  AtMost-or_zero : (a : ℕ) (o : Option ℕ) → AtMost a o → a ≤ or_zero o
  unfolding or_zero
  AtMost-or_zero a none h = absurd h
  AtMost-or_zero a (some m) h = h

  pub max_attempt_grows :
      (rows : List CheckRun) (so_far : ℕ) (cs : List String)
      → so_far ≤ max_attempt repo branch seq rows so_far cs
  unfolding max_attempt
  max_attempt_grows rows so_far [] = omega arith
  max_attempt_grows rows so_far (c ∷ cs) =
      let a = or_zero (max_attempt_of repo branch seq c rows) in
      let ih = max_attempt_grows rows (if ltb so_far a then a else so_far) cs in ground arith

  max_attempt-reaches :
      (rows : List CheckRun) (so_far : ℕ) (cs : List String)
      → some_item (λ c. c == name) cs ≡ true
      → or_zero (max_attempt_of repo branch seq name rows)
        ≤ max_attempt repo branch seq rows so_far cs
  unfolding max_attempt
  max_attempt-reaches rows so_far [] h = cc
  max_attempt-reaches rows so_far (c ∷ cs) h = elim (Bool-cases (c == name)) [
    | inl e ↦
        let same = (eq_iff c name).0 e in
        let a = or_zero (max_attempt_of repo branch seq c rows) in
        let ih = max_attempt_grows rows (if ltb so_far a then a else so_far) cs in
        subst
          (λ n.
            or_zero (max_attempt_of repo branch seq n rows)
            ≤ max_attempt repo branch seq rows so_far (c ∷ cs))
          same (unfold max_attempt in ground arith)
    | inr e ↦
        let a = or_zero (max_attempt_of repo branch seq c rows) in
        max_attempt-reaches rows (if ltb so_far a then a else so_far) cs (rw e at h)
  ]

  -- No run of a retried check has a greater attempt than the greatest that the loop finds.
  pub max_attempt-UpTo :
      (rows : List CheckRun) (so_far : ℕ) (cs : List String)
      → some_item (λ c. c == name) cs ≡ true
      → UpTo (max_attempt repo branch seq rows so_far cs) rows
  max_attempt-UpTo rows so_far cs h =
      let top = max_attempt-reaches rows so_far cs h in
      All-map _ _ rows (λ q f t. let x = AtMost-or_zero q.attempt _ (f t) in omega arith)
        (max_attempt_of-Covered rows)
