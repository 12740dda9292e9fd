-- ===== src/Config/Sizes.antt =====
-- How much of the text the parsers of values in internal/ciconfig/expr.go leave.
use docstore.Base.{
  ℕ, suc, ◌+◌, ◌≤◌, String, Char, code, ◌≡◌, refl, ap, inl, inr, Bool, Option, none, some, arith,
  nat_eq, Bool-cases, Option-cases,
}
use docstore.Base.Text.{after_prefix, char_eq}
use docstore.Config.Expr.{
  TriggerContext, Parse, done, malformed, out_of_fuel, bind, size, is_blank, skip_ws,
  is_ident_start, is_ident_char, parse_string_literal, take_ident, resolved, parse_field_ref,
  value_at, parse_value, compare_with, not_equal_or_bare, apply_op, value_comparison, closed,
}

-- Fuel was left, and what is still to read is no longer than a bound.
abbrev pub Fits {ℓ} : {A : Type ℓ} → ℕ → Parse A → Type 0
Fits bound (done a rest) = size rest ≤ bound
Fits bound malformed = Unit
Fits bound out_of_fuel = ⊥

pub bind-Fits {ℓ κ} :
    {A : Type ℓ} {B : Type κ} (m n : ℕ) (p : Parse A) (f : A → String → Parse B)
    → Fits m p
    → ((a : A) (rest : String) → size rest ≤ m → Fits n (f a rest))
    → Fits n (bind p f)
unfolding bind
bind-Fits m n (done a rest) f h g = g a rest h
bind-Fits m n malformed f h g = tt
bind-Fits m n out_of_fuel f h g = absurd h

pub Fits-mono {ℓ} : {A : Type ℓ} (m n : ℕ) (p : Parse A) → m ≤ n → Fits m p → Fits n p
Fits-mono m n (done a rest) h f = omega (arith, h, f)
Fits-mono m n malformed h f = tt
Fits-mono m n out_of_fuel h f = absurd f

pub size-skip_ws : (s : String) → size (skip_ws s) ≤ size s
unfolding skip_ws
size-skip_ws String.[] = omega arith
size-skip_ws (String.◌∷◌ c s) = elim (Bool-cases (is_blank c)) [
  | inl e ↦ rw e (omega (arith, size-skip_ws s))
  | inr e ↦ rw e (omega arith)
]

size-after_prefix : (p s t : String) → after_prefix p s ≡ some t → size p + size t ≤ size s
unfolding after_prefix
size-after_prefix String.[] s t e = let same : s ≡ t = cc in omega (arith, ap size same)
size-after_prefix (String.◌∷◌ c p) String.[] t e = cc
size-after_prefix (String.◌∷◌ c p) (String.◌∷◌ d s) t e = elim (Bool-cases (char_eq c d)) [
  | inl h ↦ omega (arith, size-after_prefix p s t (rw h at e))
  | inr h ↦ cc (rw h at e)
]

-- What follows a prefix and the blanks before it.
pub size-consumed :
    (p s t : String) → after_prefix p (skip_ws s) ≡ some t → size p + size t ≤ size s
size-consumed p s t e = omega (arith, size-after_prefix p (skip_ws s) t e, size-skip_ws s)

parse_string_literal-Fits : (q : Char) (s : String) → Fits (size s) (parse_string_literal q s)
unfolding parse_string_literal
parse_string_literal-Fits q String.[] = tt
parse_string_literal-Fits q (String.◌∷◌ c s) = elim (Bool-cases (char_eq c q)) [
  | inl e ↦ rw e (omega arith)
  | inr e ↦ rw e (
      bind-Fits (size s) (suc (size s)) (parse_string_literal q s) _ (parse_string_literal-Fits q s)
        (λ value after h. omega (arith, h)))
]

size-take_ident : (s : String) → size (take_ident s).1 ≤ size s
unfolding take_ident
size-take_ident String.[] = omega arith
size-take_ident (String.◌∷◌ c s) = elim (Bool-cases (is_ident_char c)) [
  | inl e ↦ rw e (omega (arith, size-take_ident s))
  | inr e ↦ rw e (omega arith)
]

resolved-Fits :
    (o : Option String) (n : ℕ) (rest : String) → size rest ≤ n → Fits n (resolved o rest)
unfolding resolved
resolved-Fits none n rest h = tt
resolved-Fits (some value) n rest h = h

value_at-Fits : (ctx : TriggerContext) (s : String) → Fits (size s) (value_at ctx s)
unfolding value_at parse_field_ref
value_at-Fits ctx String.[] = tt
value_at-Fits ctx (String.◌∷◌ c s) =
    let quoted =
      Fits-mono (size s) (suc (size s)) (parse_string_literal c s) (omega arith)
        (parse_string_literal-Fits c s) in
    elim (Bool-cases (nat_eq (code c) 34)) [
      | inl e ↦ rw e quoted
      | inr e ↦ elim (Bool-cases (nat_eq (code c) 39)) [
        | inl f ↦ rw (e, f) quoted
        | inr f ↦ elim (Bool-cases (is_ident_start c)) [
          | inl g ↦
              rw (e, f, g) (resolved-Fits _ (suc (size s)) _ (size-take_ident (String.◌∷◌ c s)))
          | inr g ↦ rw (e, f, g) tt
        ]
      ]
    ]

parse_value-Fits : (ctx : TriggerContext) (s : String) → Fits (size s) (parse_value ctx s)
unfolding parse_value
parse_value-Fits ctx s =
    Fits-mono (size (skip_ws s)) (size s) _ (size-skip_ws s) (value_at-Fits ctx (skip_ws s))

compare_with-Fits :
    (ctx : TriggerContext) (test : String → Bool) (s : String)
    → Fits (size s) (compare_with ctx test s)
unfolding compare_with
compare_with-Fits ctx test s =
    bind-Fits (size s) (size s) (parse_value ctx s) _ (parse_value-Fits ctx s) (λ right rest h. h)

not_equal_or_bare-Fits :
    (ctx : TriggerContext) (left : String) (o : Option String) (s : String)
    → ((t : String) → o ≡ some t → size t ≤ size s)
    → Fits (size s) (not_equal_or_bare ctx left o s)
unfolding not_equal_or_bare
not_equal_or_bare-Fits ctx left none s f = omega arith
not_equal_or_bare-Fits ctx left (some t) s f =
    Fits-mono (size t) (size s) _ (f t refl) (compare_with-Fits ctx _ t)

apply_op-Fits :
    (ctx : TriggerContext) (left : String) (o : Option String) (s : String)
    → ((t : String) → o ≡ some t → size t ≤ size s)
    → Fits (size s) (apply_op ctx left o s)
unfolding apply_op
apply_op-Fits ctx left none s f =
    not_equal_or_bare-Fits ctx left (after_prefix "!=" s) s
      (λ t e. omega (arith, size-after_prefix "!=" s t e))
apply_op-Fits ctx left (some t) s f =
    Fits-mono (size t) (size s) _ (f t refl) (compare_with-Fits ctx _ t)

pub value_comparison-Fits :
    (ctx : TriggerContext) (s : String) → Fits (size s) (value_comparison ctx s)
unfolding value_comparison
value_comparison-Fits ctx s =
    bind-Fits (size s) (size s) (parse_value ctx s) _ (parse_value-Fits ctx s) (λ left rest h.
      Fits-mono (size (skip_ws rest)) (size s) _ (omega (arith, h, size-skip_ws rest)) (
        apply_op-Fits ctx left (after_prefix "==" (skip_ws rest)) (skip_ws rest)
          (λ t e. omega (arith, size-after_prefix "==" (skip_ws rest) t e))))

pub closed-Fits :
    (result : Bool) (rest : String) (n : ℕ)
    → size rest ≤ n
    → Fits n (closed result (after_prefix ")" (skip_ws rest)))
unfolding closed
closed-Fits result rest n h = elim (Option-cases (after_prefix ")" (skip_ws rest))) [
  | inl e ↦ rw e tt
  | inr (t, e) ↦ rw e (omega (arith, h, size-consumed ")" rest t e))
]
