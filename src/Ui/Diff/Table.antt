-- ===== src/Ui/Diff/Table.antt =====
-- The entries of the table of internal/ui/diff.go, by their recurrence.
use docstore.Base.{ℕ, zero, suc, ◌<◌, String, ◌≡◌, refl, ap, List, [], ◌∷◌, ◌==◌, length, arith}
use docstore.Ui.Diff.{nth, line_at, replicate, cell, fill, dp_row, dp}

length-replicate : (n : ℕ) → length (replicate n) ≡ n
length-replicate zero = refl
length-replicate (suc n) = ap suc (length-replicate n)

nth-replicate : (n j : ℕ) → nth 0 (replicate n) j ≡ 0
nth-replicate zero j = refl
nth-replicate (suc n) zero = refl
nth-replicate (suc n) (suc j) = nth-replicate n j

length-fill :
    (x : String) (b : List String) (above : List ℕ) (left : ℕ)
    → length above ≡ suc (length b)
    → length (fill x b above left) ≡ length b
unfolding fill
length-fill x [] above left h = refl
length-fill x (y ∷ ys) [] left h = absurd (omega (arith, h))
length-fill x (y ∷ ys) (d ∷ []) left h = absurd (omega (arith, h))
length-fill x (y ∷ ys) (d ∷ (p ∷ ps)) left h =
    ap suc (length-fill x ys (p ∷ ps) _ (omega (arith, h)))

pub length-dp_row : (a b : List String) (i : ℕ) → length (dp_row a b i) ≡ suc (length b)
unfolding dp_row
length-dp_row a b zero = ap suc (length-replicate (length b))
length-dp_row a b (suc i) =
    ap suc (length-fill (line_at a i) b (dp_row a b i) 0 (length-dp_row a b i))

nth-fill :
    (x : String) (b : List String) (above : List ℕ) (left j : ℕ)
    → length above ≡ suc (length b)
    → j < length b
    → nth 0 (fill x b above left) j
      ≡ cell
          (x == nth "" b j)
          (nth 0 above j)
          (nth 0 above (suc j))
          (nth 0 (left ∷ fill x b above left) j)
unfolding fill
nth-fill x [] above left j h lt = absurd (omega (arith, lt))
nth-fill x (y ∷ ys) [] left j h lt = absurd (omega (arith, h))
nth-fill x (y ∷ ys) (d ∷ []) left j h lt = absurd (omega (arith, h))
nth-fill x (y ∷ ys) (d ∷ (p ∷ ps)) left zero h lt = refl
nth-fill x (y ∷ ys) (d ∷ (p ∷ ps)) left (suc j) h lt =
    nth-fill x ys (p ∷ ps) (cell (x == y) d p left) j (omega (arith, h)) (omega (arith, lt))

pub dp-zero_row : (a b : List String) (j : ℕ) → dp a b zero j ≡ 0
unfolding dp dp_row
dp-zero_row a b j = nth-replicate (suc (length b)) j

pub dp-zero_column : (a b : List String) (i : ℕ) → dp a b i zero ≡ 0
unfolding dp dp_row
dp-zero_column a b zero = refl
dp-zero_column a b (suc i) = refl

pub dp-step :
    (a b : List String) (i j : ℕ)
    → j < length b
    → dp a b (suc i) (suc j)
      ≡ cell (line_at a i == line_at b j) (dp a b i j) (dp a b i (suc j)) (dp a b (suc i) j)
unfolding dp dp_row line_at
dp-step a b i j lt = nth-fill (nth "" a i) b (dp_row a b i) 0 j (length-dp_row a b i) lt
