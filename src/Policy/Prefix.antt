-- ===== src/Policy/Prefix.antt =====
-- Directories above one path, by the length of their names, for internal/policy/owners.go.
use Prim.Native.Char.{len_utf8}
use text.Mathlib.TextPositions.{len_utf8-pos}
use docstore.Base.{
  ℕ, ◌<◌, String, ◌≡◌, ◌∙◌, refl, sym, ap, inl, inr, ◌⊎◌, true, false, some, ◌==◌, arith,
  Bool-cases, Option-cases, eq_iff,
}
use docstore.Base.Text.{
  append, has_prefix, after_prefix, char_eq, char_eq-path, is_some, append-after_prefix,
  after_prefix-append, append_assoc,
}
use docstore.Policy.Owners.{byte_len, match_len}

-- Two directories above one path whose names are equally long are one.
same_prefix :
    (k l path : String)
    → has_prefix (append k "/") path ≡ true
    → has_prefix (append l "/") path ≡ true
    → byte_len k ≡ byte_len l
    → k ≡ l
unfolding has_prefix after_prefix append byte_len is_some
same_prefix String.[] String.[] path h g e = refl
same_prefix String.[] (String.◌∷◌ d l) path h g e = absurd (omega (arith, e, (len_utf8-pos d).1))
same_prefix (String.◌∷◌ c k) String.[] path h g e = absurd (omega (arith, e, (len_utf8-pos c).1))
same_prefix (String.◌∷◌ c k) (String.◌∷◌ d l) String.[] h g e = cc
same_prefix (String.◌∷◌ c k) (String.◌∷◌ d l) (String.◌∷◌ x path) h g e =
    elim (Bool-cases (char_eq c x)) [
      | inr t ↦ cc (rw t at h)
      | inl t ↦ elim (Bool-cases (char_eq d x)) [
        | inr u ↦ cc (rw u at g)
        | inl u ↦
            let both = char_eq-path c x t ∙ sym (char_eq-path d x u) in
            let wide = ap len_utf8 both in
            let rest = same_prefix k l path (rw t at h) (rw u at g) (omega (arith, e, wide)) in cc
      ]
    ]

match_len-root : (path k : String) (n : ℕ) → (k == "") ≡ true → match_len path k ≡ some n → n ≡ 0
unfolding match_len
match_len-root path k n t h = cc (rw t at h)

match_len-below :
    (path k : String) (n : ℕ)
    → (k == "") ≡ false
    → match_len path k ≡ some n
    → (has_prefix (append k "/") path ≡ true) × (byte_len k ≡ n)
unfolding match_len
match_len-below path k n t h = elim (Bool-cases (has_prefix (append k "/") path)) [
  | inl u ↦ (u, cc (rw (t, u) at h))
  | inr u ↦ cc (rw (t, u) at h)
]

byte_len-pos : (k : String) → (k == "") ≡ false → 0 < byte_len k
unfolding byte_len
byte_len-pos String.[] h = cc
byte_len-pos (String.◌∷◌ c k) h = omega (arith, (len_utf8-pos c).1)

-- Only one directory matches a path to a given length.
pub match_len_unique :
    (path k l : String) (n : ℕ) → match_len path k ≡ some n → match_len path l ≡ some n → k ≡ l
match_len_unique path k l n h g = elim (Bool-cases (k == "")) [
  | inl t ↦ elim (Bool-cases (l == "")) [
    | inl u ↦ (eq_iff k "").0 t ∙ sym ((eq_iff l "").0 u)
    | inr u ↦ absurd (
        omega
          (arith, match_len-root path k n t h, byte_len-pos l u, (match_len-below path l n u g).1))
  ]
  | inr t ↦ elim (Bool-cases (l == "")) [
    | inl u ↦ absurd (
        omega
          (arith, match_len-root path l n u g, byte_len-pos k t, (match_len-below path k n t h).1))
    | inr u ↦
        let a = match_len-below path k n t h in
        let b = match_len-below path l n u g in same_prefix k l path a.0 b.0 (a.1 ∙ sym b.1)
  ]
]

-- A directory is the root, or it is followed by a slash in the path.
abbrev pub IsDirectoryOf : String → String → Type 0
IsDirectoryOf path k = (k ≡ "") ⊎ ((rest : String) × (append k (append "/" rest) ≡ path))

has_prefix-append : (p s : String) → has_prefix p s ≡ true → (rest : String) × (append p rest ≡ s)
unfolding has_prefix is_some
has_prefix-append p s h = elim (Option-cases (after_prefix p s)) [
  | inl e ↦ cc (rw e at h)
  | inr (rest, e) ↦ (rest, append-after_prefix p s rest e)
]

pub match_len-IsDirectoryOf :
    (path k : String) (n : ℕ) → match_len path k ≡ some n → IsDirectoryOf path k × (byte_len k ≡ n)
unfolding byte_len
match_len-IsDirectoryOf path k n h = elim (Bool-cases (k == "")) [
  | inl t ↦
      let root = (eq_iff k "").0 t in
      (inl root, ap byte_len root ∙ sym (match_len-root path k n t h))
  | inr t ↦
      let (p, e) = match_len-below path k n t h in
      let (rest, f) = has_prefix-append (append k "/") path p in
      (inr (rest, sym (append_assoc k "/" rest) ∙ f), e)
]

pub IsDirectoryOf-match_len :
    (path k : String) → IsDirectoryOf path k → match_len path k ≡ some (byte_len k)
unfolding match_len has_prefix is_some byte_len
IsDirectoryOf-match_len path k (inl e) = rw (e, match_len) refl
IsDirectoryOf-match_len path k (inr (rest, e)) = elim (Bool-cases (k == "")) [
  | inl t ↦ rw t (ap some (sym (ap byte_len ((eq_iff k "").0 t))))
  | inr t ↦
      let found =
        ap (after_prefix (append k "/")) (sym e ∙ sym (append_assoc k "/" rest))
        ∙ after_prefix-append (append k "/") rest in
      rw (t, found) refl
]
