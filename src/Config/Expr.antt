-- ===== src/Config/Expr.antt =====
-- EvalIf of internal/ciconfig/expr.go: the value of an if: condition. The parser's position is the text
-- still to read. An error's message is left out.
use docstore.Base.{
  ℕ, zero, suc, ◌+◌, ◌*◌, String, Char, code, Bool, true, ◌&&◌, ◌||◌, not, Option, none, some, ◌==◌,
  leb, nat_eq, if◌then◌else◌,
}
use docstore.Base.Text.{after_prefix, char_eq}

pub record TriggerContext : Type 0 where
  pub type : String
  pub branch : String
  pub base_branch : String
  pub proposal_id : String

-- A value with the text after it, an error, or no fuel left.
pub data Parse {ℓ} (A : Type ℓ) : Type ℓ where
  done : A → String → Parse A
  malformed out_of_fuel : Parse A

unfoldable pub bind {ℓ κ} : {A : Type ℓ} {B : Type κ} → Parse A → (A → String → Parse B) → Parse B
bind (done a rest) f = f a rest
bind malformed f = malformed
bind out_of_fuel f = out_of_fuel

abbrev pub size : String → ℕ
size String.[] = 0
size (String.◌∷◌ c s) = suc (size s)

unfoldable pub is_between : ℕ → ℕ → Char → Bool
is_between lo hi c = leb lo (code c) && leb (code c) hi

-- ' ' and '\t'
unfoldable pub is_blank : Char → Bool
is_blank c = nat_eq (code c) 32 || nat_eq (code c) 9

unfoldable pub skip_ws : String → String
skip_ws String.[] = String.[]
skip_ws (String.◌∷◌ c s) = let rest = skip_ws s in if is_blank c then rest else String.◌∷◌ c s

unfoldable pub is_ident_start : Char → Bool
is_ident_start c = is_between 97 122 c || (is_between 65 90 c || nat_eq (code c) 95)

unfoldable pub is_ident_char : Char → Bool
is_ident_char c = is_ident_start c || (is_between 48 57 c || nat_eq (code c) 46)

-- The text up to a closing quote, and what follows the quote.
unfoldable pub parse_string_literal : Char → String → Parse String
parse_string_literal quote String.[] = malformed
parse_string_literal quote (String.◌∷◌ c s) =
    let rest = parse_string_literal quote s in
    if char_eq c quote
    then done "" s
    else bind rest (λ value after. done (String.◌∷◌ c value) after)

unfoldable pub take_ident : String → String × String
take_ident String.[] = (String.[], String.[])
take_ident (String.◌∷◌ c s) =
    let rest = take_ident s in
    if is_ident_char c then (String.◌∷◌ c rest.0, rest.1) else (String.[], String.◌∷◌ c s)

unfoldable pub resolve_field : TriggerContext → String → Option String
resolve_field ctx field =
    if field == "event.type"
    then some ctx.type
    else if field == "event.branch"
    then some ctx.branch
    else if field == "event.base_branch"
    then some ctx.base_branch
    else if field == "event.proposal_id"
    then some ctx.proposal_id
    else none

unfoldable pub resolved : Option String → String → Parse String
resolved none rest = malformed
resolved (some value) rest = done value rest

unfoldable pub parse_field_ref : TriggerContext → String → Parse String
parse_field_ref ctx s = let (field, rest) = take_ident s in resolved (resolve_field ctx field) rest

unfoldable pub value_at : TriggerContext → String → Parse String
value_at ctx String.[] = malformed
value_at ctx (String.◌∷◌ c s) =
    if nat_eq (code c) 34
    then parse_string_literal c s
    else if nat_eq (code c) 39
    then parse_string_literal c s
    else if is_ident_start c
    then parse_field_ref ctx (String.◌∷◌ c s)
    else malformed

unfoldable pub parse_value : TriggerContext → String → Parse String
parse_value ctx s = value_at ctx (skip_ws s)

-- A comparison with the value to the right of its operator.
unfoldable pub compare_with : TriggerContext → (String → Bool) → String → Parse Bool
compare_with ctx test s = bind (parse_value ctx s) (λ right rest. done (test right) rest)

unfoldable pub not_equal_or_bare : TriggerContext → String → Option String → String → Parse Bool
not_equal_or_bare ctx left (some rest) s = compare_with ctx (λ right. not (left == right)) rest
not_equal_or_bare ctx left none s = done (not (left == "")) s

unfoldable pub apply_op : TriggerContext → String → Option String → String → Parse Bool
apply_op ctx left (some rest) s = compare_with ctx (λ right. left == right) rest
apply_op ctx left none s = not_equal_or_bare ctx left (after_prefix "!=" s) s

unfoldable pub value_comparison : TriggerContext → String → Parse Bool
value_comparison ctx s =
    bind (parse_value ctx s)
      (λ left rest. apply_op ctx left (after_prefix "==" (skip_ws rest)) (skip_ws rest))

unfoldable pub closed : Bool → Option String → Parse Bool
closed result none = malformed
closed result (some rest) = done result rest

-- The parser proper, by its recursion on fuel.
unfoldable mutual
  pub parse_or : TriggerContext → ℕ → String → Parse Bool
  parse_or ctx zero s = out_of_fuel
  parse_or ctx (suc n) s = bind (parse_and ctx n s) (λ left rest. or_loop ctx n left rest)

  pub or_loop : TriggerContext → ℕ → Bool → String → Parse Bool
  or_loop ctx zero left s = out_of_fuel
  or_loop ctx (suc n) left s = elim (after_prefix "||" (skip_ws s)) [
    | none ↦ done left (skip_ws s)
    | some t ↦ bind (parse_and ctx n t) (λ right rest. or_loop ctx n (left || right) rest)
  ]

  pub parse_and : TriggerContext → ℕ → String → Parse Bool
  parse_and ctx zero s = out_of_fuel
  parse_and ctx (suc n) s = bind (parse_comparison ctx n s) (λ left rest. and_loop ctx n left rest)

  pub and_loop : TriggerContext → ℕ → Bool → String → Parse Bool
  and_loop ctx zero left s = out_of_fuel
  and_loop ctx (suc n) left s = elim (after_prefix "&&" (skip_ws s)) [
    | none ↦ done left (skip_ws s)
    | some t ↦ bind (parse_comparison ctx n t) (λ right rest. and_loop ctx n (left && right) rest)
  ]

  pub parse_comparison : TriggerContext → ℕ → String → Parse Bool
  parse_comparison ctx zero s = out_of_fuel
  parse_comparison ctx (suc n) s = elim (after_prefix "(" (skip_ws s)) [
    | none ↦ value_comparison ctx (skip_ws s)
    | some t ↦
        bind (parse_or ctx n t) (λ result rest. closed result (after_prefix ")" (skip_ws rest)))
  ]

unfoldable pub at_end : Bool → String → Parse Bool
at_end result rest = if skip_ws rest == "" then done result "" else malformed

-- The fuel grows with the text; Config/Fuel is about it.
unfoldable pub eval_trimmed : TriggerContext → String → Parse Bool
eval_trimmed ctx expr =
    if expr == "" then done true "" else bind (parse_or ctx (3 * size expr + 3) expr) at_end

-- unicode.IsSpace
unfoldable pub is_space : Char → Bool
is_space c =
    is_between 9 13 c
    || (nat_eq (code c) 32
        || (nat_eq (code c) 133
            || (nat_eq (code c) 160
                || (nat_eq (code c) 5760
                    || (is_between 8192 8202 c
                        || (is_between 8232 8233 c
                            || (nat_eq (code c) 8239
                                || (nat_eq (code c) 8287 || nat_eq (code c) 12288))))))))

unfoldable pub trim_left : String → String
trim_left String.[] = String.[]
trim_left (String.◌∷◌ c s) = let rest = trim_left s in if is_space c then rest else String.◌∷◌ c s

unfoldable pub trim_right : String → String
trim_right String.[] = String.[]
trim_right (String.◌∷◌ c s) =
    let rest = trim_right s in if rest == "" && is_space c then String.[] else String.◌∷◌ c rest

unfoldable pub eval_if : TriggerContext → String → Parse Bool
eval_if ctx expr = eval_trimmed ctx (trim_right (trim_left expr))
