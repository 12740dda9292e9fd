-- ===== src/Base/Order.antt =====
-- The order of texts by their code points, which for UTF-8 is the order of `strings.Compare`.
use Prim.Native.Nat.{ℕ}
use Prim.Native.Char.{code}
use Prim.Native.String.{String}
use mathlib.Core.Bool.{Bool, true, false, ◌&&◌, ◌||◌}
use mathlib.Core.List.{List, [], ◌∷◌}
use mathlib.Core.Path.{◌≡◌, ◌∙◌, refl}
use mathlib.Core.Logic.{inl, inr}
use native.Mathlib.Omega.{arith}
use text.Mathlib.TextEquality.{Char-path}
use docstore.Base.Tests.{ltb, nat_eq, Bool-cases}

-- The code points of a text.
abbrev pub codes : String → List ℕ
codes String.[] = []
codes (String.◌∷◌ c s) = code c ∷ codes s

unfoldable pub lex_leb : List ℕ → List ℕ → Bool
lex_leb [] ys = true
lex_leb (x ∷ xs) [] = false
lex_leb (x ∷ xs) (y ∷ ys) = ltb x y || (nat_eq x y && lex_leb xs ys)

unfoldable pub text_leb : String → String → Bool
unfolding lex_leb
text_leb a b = lex_leb (codes a) (codes b)

lex_leb-total : (xs ys : List ℕ) → lex_leb xs ys ≡ false → lex_leb ys xs ≡ true
unfolding lex_leb
lex_leb-total [] ys h = cc
lex_leb-total (x ∷ xs) [] h = refl
lex_leb-total (x ∷ xs) (y ∷ ys) h = let ih = lex_leb-total xs ys in ground arith

pub lex_leb_trans :
    (xs ys zs : List ℕ) → lex_leb xs ys ≡ true → lex_leb ys zs ≡ true → lex_leb xs zs ≡ true
unfolding lex_leb
lex_leb_trans [] ys zs h g = refl
lex_leb_trans (x ∷ xs) [] zs h g = cc
lex_leb_trans (x ∷ xs) (y ∷ ys) [] h g = cc
lex_leb_trans (x ∷ xs) (y ∷ ys) (z ∷ zs) h g = let ih = lex_leb_trans xs ys zs in ground arith

pub lex_leb-antisym : (xs ys : List ℕ) → lex_leb xs ys ≡ true → lex_leb ys xs ≡ true → xs ≡ ys
unfolding lex_leb
lex_leb-antisym [] [] h g = refl
lex_leb-antisym [] (y ∷ ys) h g = cc
lex_leb-antisym (x ∷ xs) [] h g = cc
lex_leb-antisym (x ∷ xs) (y ∷ ys) h g =
    let same : x ≡ y = ground arith in
    let rest = lex_leb-antisym xs ys (ground arith) (ground arith) in cc

pub codes-inj : (s t : String) → codes s ≡ codes t → s ≡ t
codes-inj String.[] String.[] h = refl
codes-inj String.[] (String.◌∷◌ d t) h = cc
codes-inj (String.◌∷◌ c s) String.[] h = cc
codes-inj (String.◌∷◌ c s) (String.◌∷◌ d t) h =
    let first = Char-path c d cc in let rest = codes-inj s t cc in cc

pub text_leb-total : (a b : String) → text_leb a b ≡ false → text_leb b a ≡ true
unfolding text_leb
text_leb-total a b h = lex_leb-total (codes a) (codes b) h

-- What stands after `x` stands after what is before `x`.
pub text_leb-after :
    (b a x : String) → text_leb a x ≡ true → text_leb b x ≡ false → text_leb b a ≡ false
unfolding text_leb
text_leb-after b a x h g = elim (Bool-cases (lex_leb (codes b) (codes a))) [
  | inl t ↦ cc (lex_leb_trans (codes b) (codes a) (codes x) t h ∙ refl)
  | inr t ↦ t
]

pub text_leb_trans :
    (a b c : String) → text_leb a b ≡ true → text_leb b c ≡ true → text_leb a c ≡ true
unfolding text_leb
text_leb_trans a b c h g = lex_leb_trans (codes a) (codes b) (codes c) h g

pub text_leb-antisym : (a b : String) → text_leb a b ≡ true → text_leb b a ≡ true → a ≡ b
unfolding text_leb
text_leb-antisym a b h g = codes-inj a b (lex_leb-antisym (codes a) (codes b) h g)

pub text_leb_refl : (a : String) → text_leb a a ≡ true
text_leb_refl a = elim (Bool-cases (text_leb a a)) [ inl e ↦ e | inr e ↦ text_leb-total a a e ]
