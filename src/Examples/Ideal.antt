-- ===== src/Examples/Ideal.antt =====
-- A hash for the tests: it writes a list of bytes out in unary.
use docstore.Base.{ℕ, zero, suc, String, ◌≡◌, refl, ap, List, [], ◌∷◌, arith}
use docstore.Base.Order.{codes, codes-inj}
use docstore.Hash.{Primitives}
use docstore.Hash.Lines.{NoNewline}
use docstore.Client.Chain.Tips.{IsPlain}

abbrev pub digits : ℕ → String → String
digits zero s = String.◌∷◌ "b" s
digits (suc n) s = String.◌∷◌ "a" (digits n s)

abbrev pub unary : List ℕ → String
unary [] = String.[]
unary (n ∷ ns) = digits n (unary ns)

abbrev head : List ℕ → ℕ
head [] = 0
head (x ∷ xs) = x

digits-inj :
    (m n : ℕ) (s t : String)
    → codes (digits m s) ≡ codes (digits n t)
    → (m ≡ n) × (codes s ≡ codes t)
digits-inj zero zero s t e = (refl, cc)
digits-inj zero (suc n) s t e = absurd (omega (arith, ap head e))
digits-inj (suc m) zero s t e = absurd (omega (arith, ap head e))
digits-inj (suc m) (suc n) s t e = let r = digits-inj m n s t cc in (ap suc r.0, r.1)

digits-NoNewline : (n : ℕ) (s : String) → NoNewline (codes s) → NoNewline (codes (digits n s))
digits-NoNewline zero s h = (omega arith, h)
digits-NoNewline (suc n) s h = (omega arith, digits-NoNewline n s h)

unary-NoNewline : (xs : List ℕ) → NoNewline (codes (unary xs))
unary-NoNewline [] = tt
unary-NoNewline (n ∷ ns) = digits-NoNewline n (unary ns) (unary-NoNewline ns)

abbrev pub lib : Primitives
lib = record {
  sha256_hex = unary;
  bytes_of = codes;
  format_int = λ n. digits n "";
  format_time = λ t. digits t "";
}

pub lib-IsPlain : IsPlain lib
lib-IsPlain = record {
  sha256_hex_line = unary-NoNewline;
  format_int_line = λ n. digits-NoNewline n "" tt;
  format_time_line = λ t. digits-NoNewline t "" tt;
  format_int-inj = λ m n e. (digits-inj m n "" "" (ap codes e)).0;
  bytes_of-inj = codes-inj;
}
