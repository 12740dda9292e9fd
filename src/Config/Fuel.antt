-- ===== src/Config/Fuel.antt =====
-- The fuel of Config/Expr, for EvalIf of internal/ciconfig/expr.go.
use docstore.Base.{
  ℕ, zero, suc, ◌+◌, ◌*◌, ◌≤◌, String, ◌≡◌, ◌≢◌, ◌∙◌, refl, sym, ap, inl, inr, ◌⊎◌, Bool, ◌&&◌,
  ◌||◌, ◌==◌, arith, Bool-cases, Option-cases, true, eq_iff,
}
use docstore.Base.Text.{after_prefix}
use docstore.Config.Sizes.{
  Fits, bind-Fits, Fits-mono, size-skip_ws, size-consumed, value_comparison-Fits, closed-Fits,
}
use docstore.Config.Expr.{
  TriggerContext, Parse, done, malformed, out_of_fuel, bind, is_blank, size, skip_ws, parse_or,
  or_loop, parse_and, and_loop, parse_comparison, at_end, eval_trimmed, trim_left, trim_right,
  eval_if,
}

mutual
  unfolding parse_or or_loop parse_and and_loop parse_comparison

  parse_or-Fits :
      (ctx : TriggerContext) (n : ℕ) (s : String)
      → 3 * size s + 3 ≤ n
      → Fits (size s) (parse_or ctx n s)
  parse_or-Fits ctx zero s h = absurd (omega (arith, h))
  parse_or-Fits ctx (suc n) s h =
      bind-Fits (size s) (size s) (parse_and ctx n s) _ (parse_and-Fits ctx n s (omega (arith, h)))
        (λ left rest le.
          Fits-mono (size rest) (size s) _ le (or_loop-Fits ctx n left rest (omega (arith, h, le))))

  or_loop-Fits :
      (ctx : TriggerContext) (n : ℕ) (left : Bool) (s : String)
      → 3 * size s + 1 ≤ n
      → Fits (size s) (or_loop ctx n left s)
  or_loop-Fits ctx zero left s h = absurd (omega (arith, h))
  or_loop-Fits ctx (suc n) left s h = elim (Option-cases (after_prefix "||" (skip_ws s))) [
    | inl e ↦ rw (e, Fits) (size-skip_ws s)
    | inr (t, e) ↦
        let short = size-consumed "||" s t e in
        rw (e, Fits)
          (bind-Fits (size t) (size s) (parse_and ctx n t) _
            (parse_and-Fits ctx n t (omega (arith, h, short)))
            (λ right rest le.
              Fits-mono (size rest) (size s) _ (omega (arith, le, short))
                (or_loop-Fits ctx n (left || right) rest (omega (arith, h, short, le)))))
  ]

  parse_and-Fits :
      (ctx : TriggerContext) (n : ℕ) (s : String)
      → 3 * size s + 2 ≤ n
      → Fits (size s) (parse_and ctx n s)
  parse_and-Fits ctx zero s h = absurd (omega (arith, h))
  parse_and-Fits ctx (suc n) s h =
      bind-Fits (size s) (size s) (parse_comparison ctx n s) _
        (parse_comparison-Fits ctx n s (omega (arith, h)))
        (λ left rest le.
          Fits-mono (size rest) (size s) _ le
            (and_loop-Fits ctx n left rest (omega (arith, h, le))))

  and_loop-Fits :
      (ctx : TriggerContext) (n : ℕ) (left : Bool) (s : String)
      → 3 * size s + 1 ≤ n
      → Fits (size s) (and_loop ctx n left s)
  and_loop-Fits ctx zero left s h = absurd (omega (arith, h))
  and_loop-Fits ctx (suc n) left s h = elim (Option-cases (after_prefix "&&" (skip_ws s))) [
    | inl e ↦ rw (e, Fits) (size-skip_ws s)
    | inr (t, e) ↦
        let short = size-consumed "&&" s t e in
        rw (e, Fits)
          (bind-Fits (size t) (size s) (parse_comparison ctx n t) _
            (parse_comparison-Fits ctx n t (omega (arith, h, short)))
            (λ right rest le.
              Fits-mono (size rest) (size s) _ (omega (arith, le, short))
                (and_loop-Fits ctx n (left && right) rest (omega (arith, h, short, le)))))
  ]

  parse_comparison-Fits :
      (ctx : TriggerContext) (n : ℕ) (s : String)
      → 3 * size s + 1 ≤ n
      → Fits (size s) (parse_comparison ctx n s)
  parse_comparison-Fits ctx zero s h = absurd (omega (arith, h))
  parse_comparison-Fits ctx (suc n) s h = elim (Option-cases (after_prefix "(" (skip_ws s))) [
    | inl e ↦
        rw (e, Fits)
          (Fits-mono (size (skip_ws s)) (size s) _ (size-skip_ws s)
            (value_comparison-Fits ctx (skip_ws s)))
    | inr (t, e) ↦
        let short = size-consumed "(" s t e in
        rw (e, Fits)
          (bind-Fits (size t) (size s) (parse_or ctx n t) _
            (parse_or-Fits ctx n t (omega (arith, h, short)))
            (λ result rest le. closed-Fits result rest (size s) (omega (arith, le, short))))
  ]

-- A text of blanks only.
abbrev pub AllBlank : String → Type 0
AllBlank String.[] = Unit
AllBlank (String.◌∷◌ c s) = (is_blank c ≡ true) × AllBlank s

skip_ws-AllBlank : (s : String) → skip_ws s ≡ "" → AllBlank s
unfolding skip_ws
skip_ws-AllBlank String.[] h = tt
skip_ws-AllBlank (String.◌∷◌ c s) h = elim (Bool-cases (is_blank c)) [
  | inl e ↦ (e, skip_ws-AllBlank s (rw e at h))
  | inr e ↦ cc (rw e at h)
]

AllBlank-skip_ws : (s : String) → AllBlank s → skip_ws s ≡ ""
unfolding skip_ws
AllBlank-skip_ws String.[] h = refl
AllBlank-skip_ws (String.◌∷◌ c s) h = rw h.0 (AllBlank-skip_ws s h.1)

-- A trimmed text is empty, which is true, or the parser reads a condition off it and leaves blanks.
abbrev pub Holds : TriggerContext → String → Bool → Type 0
Holds ctx text result =
    ((text ≡ "") × (result ≡ true))
    ⊎ ((fuel : ℕ) × ((rest : String) × ((parse_or ctx fuel text ≡ done result rest)
            × AllBlank rest)))

-- A trimmed text is not empty, and the parser fails on it or leaves more than blanks.
abbrev pub Refused : TriggerContext → String → Type 0
Refused ctx text =
    (text ≢ "")
    × ((fuel : ℕ) × ((parse_or ctx fuel text ≡ malformed)
          ⊎ ((result : Bool) × ((rest : String) × ((parse_or ctx fuel text ≡ done result rest)
                  × ¬ (AllBlank rest))))))

abbrev Judged : TriggerContext → String → Parse Bool → Type 0
Judged ctx text (done result rest) = (rest ≡ "") × Holds ctx text result
Judged ctx text malformed = Refused ctx text
Judged ctx text out_of_fuel = ⊥

at_end-Judged :
    (ctx : TriggerContext) (text : String) (fuel : ℕ) (p : Parse Bool)
    → text ≢ ""
    → Fits (size text) p
    → parse_or ctx fuel text ≡ p
    → Judged ctx text (bind p at_end)
unfolding at_end bind
at_end-Judged ctx text fuel (done result rest) n f e = elim (Bool-cases (skip_ws rest == "")) [
  | inl t ↦
      rw t (refl, inr (fuel, (rest, (e, skip_ws-AllBlank rest ((eq_iff (skip_ws rest) "").0 t)))))
  | inr t ↦
      let more : ¬ (AllBlank rest) =
        λ b. cc (sym t ∙ (eq_iff (skip_ws rest) "").1 (AllBlank-skip_ws rest b)) in
      rw t (n, (fuel, inr (result, (rest, (e, more)))))
]
at_end-Judged ctx text fuel malformed n f e = (n, (fuel, inl e))
at_end-Judged ctx text fuel out_of_fuel n f e = absurd f

eval_trimmed-Judged :
    (ctx : TriggerContext) (text : String) → Judged ctx text (eval_trimmed ctx text)
unfolding eval_trimmed
eval_trimmed-Judged ctx text = elim (Bool-cases (text == "")) [
  | inl e ↦ rw e (refl, inl ((eq_iff text "").0 e, refl))
  | inr e ↦
      let fuel = 3 * size text + 3 in
      rw e (
        at_end-Judged ctx text fuel (parse_or ctx fuel text)
          (λ n. cc (sym e ∙ (eq_iff text "").1 n)) (parse_or-Fits ctx fuel text (omega arith)) refl)
]

-- Every condition has a verdict: the parser ends on every text, with true, with false, or with an
-- error. It answers only on the whole text: the text without white space at its ends is empty, which
-- is true, or a condition with that answer, and nothing but blanks behind it; and where it gives an
-- error, that text is not empty, and no condition begins it or more than blanks stands behind the one
-- that does.
pub eval_if_ends :
    (ctx : TriggerContext) (expr : String)
    → let text = trim_right (trim_left expr) in
      ((result : Bool) × ((eval_if ctx expr ≡ done result "") × Holds ctx text result))
      ⊎ ((eval_if ctx expr ≡ malformed) × Refused ctx text)
unfolding eval_if
eval_if_ends ctx expr =
    let text = trim_right (trim_left expr) in
    verdict text (eval_trimmed ctx text) refl (eval_trimmed-Judged ctx text)
  where
    verdict :
        (text : String) (p : Parse Bool)
        → eval_trimmed ctx text ≡ p
        → Judged ctx text p
        → ((result : Bool) × ((eval_trimmed ctx text ≡ done result "") × Holds ctx text result))
          ⊎ ((eval_trimmed ctx text ≡ malformed) × Refused ctx text)
    verdict text (done result rest) e h = inl (result, (e ∙ ap (λ r. done result r) h.0, h.1))
    verdict text malformed e h = inr (e, h)
    verdict text out_of_fuel e h = absurd h
