-- ===== src/Base/Text.antt =====
-- Tests on the start and the end of a text, and what is left of it, as Go's package strings has them.
use Prim.Native.String.{String}
use Prim.Native.Char.{Char, code}
use text.Mathlib.TextEquality.{Char-path}
use native.Mathlib.Omega.{arith}
use mathlib.Core.Path.{◌≡◌, refl, ap}
use mathlib.Core.Logic.{inl, inr}
use mathlib.Core.Bool.{Bool, true, false, ◌||◌}
use mathlib.Core.Option.{Option, none, some}
use docstore.Base.Tests.{Bool-cases, nat_eq, if◌then◌else◌, ◌==◌}

unfoldable pub char_eq : Char → Char → Bool
char_eq c d = nat_eq (code c) (code d)

pub char_eq-path : (c d : Char) → char_eq c d ≡ true → c ≡ d
unfolding char_eq
char_eq-path c d h = Char-path c d (ground arith)

-- What follows a prefix, or none when the text does not start with it.
unfoldable pub after_prefix : String → String → Option String
after_prefix String.[] s = some s
after_prefix (String.◌∷◌ c p) String.[] = none
after_prefix (String.◌∷◌ c p) (String.◌∷◌ d s) =
    let rest = after_prefix p s in if char_eq c d then rest else none

unfoldable pub is_some {ℓ} : {A : Type ℓ} → Option A → Bool
is_some none = false
is_some (some a) = true

unfoldable pub has_prefix : String → String → Bool
has_prefix p s = is_some (after_prefix p s)

unfoldable pub or_else {ℓ} : {A : Type ℓ} → Option A → A → A
or_else none a = a
or_else (some b) a = b

unfoldable pub trim_prefix : String → String → String
trim_prefix p s = or_else (after_prefix p s) s

unfoldable pub has_suffix : String → String → Bool
has_suffix suffix String.[] = suffix == ""
has_suffix suffix (String.◌∷◌ c s) = String.◌∷◌ c s == suffix || has_suffix suffix s

unfoldable pub append : String → String → String
append String.[] t = t
append (String.◌∷◌ c s) t = String.◌∷◌ c (append s t)

-- What follows a prefix makes up the text with it.
pub append-after_prefix : (p s rest : String) → after_prefix p s ≡ some rest → append p rest ≡ s
unfolding after_prefix append
append-after_prefix String.[] s rest e = cc
append-after_prefix (String.◌∷◌ c p) String.[] rest e = cc
append-after_prefix (String.◌∷◌ c p) (String.◌∷◌ d s) rest e = elim (Bool-cases (char_eq c d)) [
  | inl h ↦ let ih = append-after_prefix p s rest (rw h at e) in let q = char_eq-path c d h in cc
  | inr h ↦ cc (rw h at e)
]

pub after_prefix-append : (p rest : String) → after_prefix p (append p rest) ≡ some rest
unfolding after_prefix append char_eq
after_prefix-append String.[] rest = refl
after_prefix-append (String.◌∷◌ c p) rest = ground (arith, after_prefix-append p rest)

pub append_assoc : (r s t : String) → append (append r s) t ≡ append r (append s t)
unfolding append
append_assoc String.[] s t = refl
append_assoc (String.◌∷◌ c r) s t = ap (String.◌∷◌ c) (append_assoc r s t)

unfoldable pub cut_step :
    Char → Option String → Option (String × String) → String → Option (String × String)
cut_step c (some rest) later sep = some ("", rest)
cut_step c none none sep = none
cut_step c none (some (before, rest)) sep = some (String.◌∷◌ c before, rest)

-- strings.Cut: what stands before and after the first occurrence of a separator that is not empty.
unfoldable pub cut : String → String → Option (String × String)
cut sep String.[] = none
cut sep (String.◌∷◌ c s) = cut_step c (after_prefix sep (String.◌∷◌ c s)) (cut sep s) sep
