-- ===== src/Hash/Lines.antt =====
-- What can be read back from the bytes that CommitHash of internal/hash/hash.go hashes.
use mathlib.Core.List.{append_assoc}
use docstore.Base.{
  ℕ, String, ◌≡◌, ◌≢◌, ◌∙◌, refl, sym, ap, inl, inr, ◌⊎◌, List, [], ◌∷◌, ◌++◌, map, All, nat_eq,
  Bool-cases, arith,
}
use docstore.Base.Order.{text_leb}
use docstore.Hash.{Primitives, File, insert_file, sort_files, line, file_line, file_lines}

-- No byte of a list is the newline.
abbrev pub NoNewline : List ℕ → Type 0
NoNewline bs = All (λ b. b ≢ 10) bs

-- What stands before the first newline is the same in two equal lists, and so is what follows it.
first_line :
    (xs ys rest more : List ℕ)
    → NoNewline xs
    → NoNewline ys
    → (xs ++ 10 ∷ []) ++ rest ≡ (ys ++ 10 ∷ []) ++ more
    → (xs ≡ ys) × (rest ≡ more)
first_line [] [] rest more h g e = (refl, cc)
first_line [] (y ∷ ys) rest more h g e = absurd (g.0 cc)
first_line (x ∷ xs) [] rest more h g e = absurd (h.0 cc)
first_line (x ∷ xs) (y ∷ ys) rest more h g e =
    let same : x ≡ y = cc in
    let (tails, later) = first_line xs ys rest more h.1 g.1 cc in (cc, later)

pub same_front : (xs rest more : List ℕ) → xs ++ rest ≡ xs ++ more → rest ≡ more
same_front [] rest more e = e
same_front (x ∷ xs) rest more e = same_front xs rest more cc

not_empty : (xs rest : List ℕ) → ¬ ([] ≡ (xs ++ 10 ∷ []) ++ rest)
not_empty [] rest e = cc
not_empty (x ∷ xs) rest e = cc

-- Two lists of numbers are the same or not.
pub same_or_not : (xs ys : List ℕ) → (xs ≡ ys) ⊎ (xs ≢ ys)
same_or_not [] [] = inl refl
same_or_not [] (y ∷ ys) = inr (λ e. cc)
same_or_not (x ∷ xs) [] = inr (λ e. cc)
same_or_not (x ∷ xs) (y ∷ ys) = elim (same_or_not xs ys) [
  | inr n ↦ inr (λ e. n cc)
  | inl e ↦ elim (Bool-cases (nat_eq x y)) [
    | inl t ↦ let same : x ≡ y = ground (arith, t) in inl cc
    | inr t ↦ inr (λ f. let same : x ≡ y = cc in absurd (ground (arith, t, same)))
  ]
]

All-insert_file :
    (P : File → Type 0) (f : File) (fs : List File) → P f → All P fs → All P (insert_file f fs)
unfolding insert_file
All-insert_file P f [] p h = (p, tt)
All-insert_file P f (g ∷ gs) p h = elim (Bool-cases (text_leb f.path g.path)) [
  | inl e ↦ rw e (p, h)
  | inr e ↦ rw e (h.0, All-insert_file P f gs p h.1)
]

pub All-sort_files : (P : File → Type 0) (fs : List File) → All P fs → All P (sort_files fs)
unfolding sort_files
All-sort_files P [] h = tt
All-sort_files P (f ∷ fs) h = All-insert_file P f (sort_files fs) h.0 (All-sort_files P fs h.1)

module _ (lib : Primitives) where
  -- A file as the hash spells it: the path, a colon, and the hash of the content.
  abbrev pub spelled : File → List ℕ
  spelled f = lib.bytes_of f.path ++ (58 ∷ lib.bytes_of f.content_hash)

  abbrev pub IsOneLine : File → Type 0
  IsOneLine f = NoNewline (spelled f)

  file_line-spelled :
      (f : File) (rest : List ℕ) → file_line lib f ++ rest ≡ (spelled f ++ 10 ∷ []) ++ rest
  unfolding file_line
  file_line-spelled f rest =
      ap (λ bs. bs ++ rest)
        (sym (append_assoc (lib.bytes_of f.path) (58 ∷ lib.bytes_of f.content_hash) (10 ∷ [])))

  pub file_lines-spelled :
      (fs gs : List File)
      → All IsOneLine fs
      → All IsOneLine gs
      → file_lines lib fs ≡ file_lines lib gs
      → map spelled fs ≡ map spelled gs
  unfolding file_lines
  file_lines-spelled [] [] h k e = refl
  file_lines-spelled [] (g ∷ gs) h k e =
      absurd (not_empty (spelled g) _ (e ∙ file_line-spelled g (file_lines lib gs)))
  file_lines-spelled (f ∷ fs) [] h k e =
      absurd (not_empty (spelled f) _ (sym e ∙ file_line-spelled f (file_lines lib fs)))
  file_lines-spelled (f ∷ fs) (g ∷ gs) h k e =
      let (same, later) =
        first_line (spelled f) (spelled g) (file_lines lib fs) (file_lines lib gs) h.0 k.0
          (sym (file_line-spelled f _) ∙ (e ∙ file_line-spelled g _)) in
      let rest = file_lines-spelled fs gs h.1 k.1 later in cc

  -- The bytes of two lines and what follows them.
  pub line_front :
      (s t : String) (rest more : List ℕ)
      → NoNewline (lib.bytes_of s)
      → NoNewline (lib.bytes_of t)
      → line lib s ++ rest ≡ line lib t ++ more
      → (lib.bytes_of s ≡ lib.bytes_of t) × (rest ≡ more)
  unfolding line
  line_front s t rest more h g e = first_line (lib.bytes_of s) (lib.bytes_of t) rest more h g e
