-- ===== src/Ui/Diff/Script.antt =====
-- What the edit script of internal/ui/diff.go does to the old text, and how short it is.
use docstore.Base.{
  ℕ, zero, suc, ◌+◌, ◌≤◌, String, ◌≡◌, ◌∙◌, refl, sym, ap, inl, inr, Bool, true, false, List, [],
  ◌∷◌, ◌++◌, ◌==◌, leb, length, arith, Bool-cases, eq_iff,
}
use docstore.Ui.Diff.{line_at, cell, dp, op, backtrack, reverse, lcs_edit_script}
use docstore.Ui.Diff.Lines.{
  old_lines, new_lines, kept, reverse-snoc, old_lines-reverse, new_lines-reverse, kept-reverse,
}
use docstore.Ui.Diff.Table.{dp-zero_row, dp-zero_column, dp-step}
use docstore.Ui.Diff.Longest.{Common, Common-dp}

-- The first n lines, last one first.
abbrev downto : List String → ℕ → List String
downto a zero = []
downto a (suc n) = line_at a n ∷ downto a n

cell-same : (t : Bool) (d u l : ℕ) → t ≡ true → cell t d u l ≡ d + 1
unfolding cell
cell-same t d u l e = rw e refl

cell-new : (t : Bool) (d u l : ℕ) → t ≡ false → leb u l ≡ true → cell t d u l ≡ l
unfolding cell
cell-new t d u l e h = rw e (ground arith)

cell-old : (t : Bool) (d u l : ℕ) → t ≡ false → leb u l ≡ false → cell t d u l ≡ u
unfolding cell
cell-old t d u l e h = rw e (ground arith)

-- What the loop has appended when it stops, and how many lines it kept.
old_lines-backtrack :
    (a b : List String) (fuel i j : ℕ)
    → i + j ≤ fuel
    → (old_lines (backtrack a b fuel i j) ≡ downto a i)
      × ((new_lines (backtrack a b fuel i j) ≡ downto b j)
          × (j ≤ length b → kept (backtrack a b fuel i j) ≡ dp a b i j))
unfolding backtrack op
old_lines-backtrack a b zero zero zero h = (refl, (refl, λ le. sym (dp-zero_row a b zero)))
old_lines-backtrack a b zero (suc i) j h = absurd (omega (arith, h))
old_lines-backtrack a b zero zero (suc j) h = absurd (omega (arith, h))
old_lines-backtrack a b (suc fuel) zero zero h = (refl, (refl, λ le. sym (dp-zero_row a b zero)))
old_lines-backtrack a b (suc fuel) zero (suc j) h =
    let r = old_lines-backtrack a b fuel zero j (omega (arith, h)) in
    (
      r.0,
      (
        ap (λ xs. line_at b j ∷ xs) r.1.0,
        λ le. r.1.1 (omega (arith, le)) ∙ dp-zero_row a b j ∙ sym (dp-zero_row a b (suc j)),
      ),
    )
old_lines-backtrack a b (suc fuel) (suc i) zero h =
    let r = old_lines-backtrack a b fuel i zero (omega (arith, h)) in
    (
      ap (λ xs. line_at a i ∷ xs) r.0,
      (r.1.0, λ le. r.1.1 le ∙ dp-zero_column a b i ∙ sym (dp-zero_column a b (suc i))),
    )
old_lines-backtrack a b (suc fuel) (suc i) (suc j) h =
    elim (Bool-cases (line_at a i == line_at b j)) [
      | inl e ↦
          let r = old_lines-backtrack a b fuel i j (omega (arith, h)) in
          rw e (
            ap (λ xs. line_at a i ∷ xs) r.0,
            (
              let same = (eq_iff (line_at a i) (line_at b j)).0 e in λ k. same k ∷ r.1.0 k,
              λ le.
                  ap suc (r.1.1 (omega (arith, le)))
                  ∙ omega (
                    arith,
                    dp-step a b i j (omega (arith, le)),
                    cell-same (line_at a i == line_at b j) (dp a b i j) (dp a b i (suc j))
                        (dp a b (suc i) j) e,
                  ),
            ),
          )
      | inr e ↦ elim (Bool-cases (leb (dp a b i (suc j)) (dp a b (suc i) j))) [
        | inl f ↦
            let r = old_lines-backtrack a b fuel (suc i) j (omega (arith, h)) in
            rw (e, f)
              (
                r.0,
                (
                  ap (λ xs. line_at b j ∷ xs) r.1.0,
                  λ le.
                      r.1.1 (omega (arith, le))
                      ∙ sym (
                          dp-step a b i j (omega (arith, le))
                          ∙ cell-new (line_at a i == line_at b j) (dp a b i j) (dp a b i (suc j))
                              (dp a b (suc i) j) e f),
                ),
              )
        | inr f ↦
            let r = old_lines-backtrack a b fuel i (suc j) (omega (arith, h)) in
            rw (e, f)
              (
                ap (λ xs. line_at a i ∷ xs) r.0,
                (
                  r.1.0,
                  λ le.
                      r.1.1 le
                      ∙ sym (
                          dp-step a b i j (omega (arith, le))
                          ∙ cell-old (line_at a i == line_at b j) (dp a b i j) (dp a b i (suc j))
                              (dp a b (suc i) j) e f),
                ),
              )
      ]
    ]

downto-cons : (x : String) (a : List String) (n : ℕ) → downto (x ∷ a) (suc n) ≡ downto a n ++ x ∷ []
unfolding line_at
downto-cons x a zero = refl
downto-cons x a (suc n) = ap (λ r. line_at a n ∷ r) (downto-cons x a n)

reverse-downto : (a : List String) → reverse (downto a (length a)) ≡ a
reverse-downto [] = refl
reverse-downto (x ∷ a) =
    ap reverse (downto-cons x a (length a))
    ∙ reverse-snoc (downto a (length a)) x
    ∙ ap (λ r. x ∷ r) (reverse-downto a)

-- The script leads from the old text to the new one: without its added lines it is the old text, line
-- by line, and without its deleted ones the new text.
pub lcs_edit_script-lines :
    (a b : List String)
    → (old_lines (lcs_edit_script a b) ≡ a) × (new_lines (lcs_edit_script a b) ≡ b)
unfolding lcs_edit_script
lcs_edit_script-lines a b =
    let r = old_lines-backtrack a b (length a + length b) (length a) (length b) (omega arith) in
    let os = backtrack a b (length a + length b) (length a) (length b) in
    (
      old_lines-reverse os ∙ ap reverse r.0 ∙ reverse-downto a,
      new_lines-reverse os ∙ ap reverse r.1.0 ∙ reverse-downto b,
    )

-- No script keeps more: every common subsequence of the two texts is at most as long as the number of
-- lines that the script keeps, so it adds and deletes as few lines as possible.
pub lcs_edit_script-shortest :
    (a b : List String) (k : ℕ)
    → Common a b (length a) (length b) k
    → k ≤ kept (lcs_edit_script a b)
unfolding lcs_edit_script
lcs_edit_script-shortest a b k c =
    let r = old_lines-backtrack a b (length a + length b) (length a) (length b) (omega arith) in
    omega (
      arith,
      Common-dp a b (length a) (length b) k c (omega arith),
      kept-reverse (backtrack a b (length a + length b) (length a) (length b)),
      r.1.1 (omega arith),
    )
