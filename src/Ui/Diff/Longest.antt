-- ===== src/Ui/Diff/Longest.antt =====
-- The table of internal/ui/diff.go and the common subsequences of the two texts.
use docstore.Base.{
  ℕ, zero, suc, ◌+◌, ◌≤◌, ◌<◌, String, ◌≡◌, refl, Bool, true, false, List, ◌==◌, length, arith,
  eq_iff,
}
use docstore.Ui.Diff.{line_at, cell, dp}
use docstore.Ui.Diff.Table.{dp-zero_row, dp-zero_column, dp-step}

-- A common subsequence of the first i old lines and the first j new lines, of a length.
pub data Common (a b : List String) : ℕ → ℕ → ℕ → Type 0 where
  neither : Common a b 0 0 0
  skip_old : {i j k : ℕ} → Common a b i j k → Common a b (suc i) j k
  skip_new : {i j k : ℕ} → Common a b i j k → Common a b i (suc j) k
  both :
      {i j k : ℕ}
      → line_at a i ≡ line_at b j
      → Common a b i j k
      → Common a b (suc i) (suc j) (suc k)

-- How an entry relates to the entries above and to the left, from the same for those.
dp-grows :
    (same : Bool) (diagonal above left here : ℕ)
    → here ≡ cell same diagonal above left
    → diagonal ≤ above
    → above ≤ diagonal + 1
    → diagonal ≤ left
    → left ≤ diagonal + 1
    → (above ≤ here) × (here ≤ above + 1) × (left ≤ here) × (here ≤ left + 1)
unfolding cell
dp-grows true d u l h e h1 h2 h3 h4 =
    (omega (arith, e, h2), omega (arith, e, h1), omega (arith, e, h4), omega (arith, e, h3))
dp-grows false d u l h e h1 h2 h3 h4 = (ground arith, ground arith, ground arith, ground arith)

-- One more line, old or new, raises an entry by one at most and never lowers it.
abbrev Down : List String → List String → ℕ → ℕ → Type 0
Down a b i j = (dp a b i j ≤ dp a b (suc i) j) × (dp a b (suc i) j ≤ dp a b i j + 1)

abbrev Right : List String → List String → ℕ → ℕ → Type 0
Right a b i j = (dp a b i j ≤ dp a b i (suc j)) × (dp a b i (suc j) ≤ dp a b i j + 1)

next-all :
    (a b : List String) (i j : ℕ)
    → j < length b
    → Down a b i j
    → Right a b i j
    → Down a b i (suc j) × Right a b (suc i) j
next-all a b i j h d r =
    let g =
      dp-grows (line_at a i == line_at b j) (dp a b i j) (dp a b i (suc j)) (dp a b (suc i) j) _
        (dp-step a b i j h) r.0 r.1 d.0 d.1 in
    ((g.0, g.1), (g.2, g.3))

Down-first : (a b : List String) (i : ℕ) → Down a b i zero
Down-first a b i =
    let e = dp-zero_column a b i in
    let f = dp-zero_column a b (suc i) in (omega (arith, e, f), omega (arith, e, f))

Right-first : (a b : List String) (j : ℕ) → Right a b zero j
Right-first a b j =
    let e = dp-zero_row a b j in
    let f = dp-zero_row a b (suc j) in (omega (arith, e, f), omega (arith, e, f))

slow : (a b : List String) (i j : ℕ) → j ≤ length b → Down a b i j × (j < length b → Right a b i j)
slow a b zero zero h = (Down-first a b zero, λ lt. Right-first a b zero)
slow a b zero (suc j) h =
    let p = slow a b zero j (omega (arith, h)) in
    (
      (next-all a b zero j (omega (arith, h)) p.0 (p.1 (omega (arith, h)))).0,
      λ lt. Right-first a b (suc j),
    )
slow a b (suc i) zero h = (
  Down-first a b (suc i),
  λ lt. let q = slow a b i zero h in (next-all a b i zero lt q.0 (q.1 lt)).1,
)
slow a b (suc i) (suc j) h =
    let p = slow a b (suc i) j (omega (arith, h)) in
    (
      (next-all a b (suc i) j (omega (arith, h)) p.0 (p.1 (omega (arith, h)))).0,
      λ lt. let q = slow a b i (suc j) h in (next-all a b i (suc j) lt q.0 (q.1 lt)).1,
    )

cell-same : (x y : String) (d u l : ℕ) → x ≡ y → cell (x == y) d u l ≡ d + 1
unfolding cell
cell-same x y d u l e = rw ((eq_iff x y).1 e) refl

-- No common subsequence is longer than the entry of its texts.
pub Common-dp : (a b : List String) (i j k : ℕ) → Common a b i j k → j ≤ length b → k ≤ dp a b i j
Common-dp a b zero zero zero neither h = omega arith
Common-dp a b (suc i) j k (skip_old c) h =
    omega (arith, Common-dp a b i j k c h, (slow a b i j h).0.0)
Common-dp a b i (suc j) k (skip_new c) h = omega (
  arith,
  Common-dp a b i j k c (omega (arith, h)),
  ((slow a b i j (omega (arith, h))).1 (omega (arith, h))).0,
)
Common-dp a b (suc i) (suc j) (suc k) (both e c) h = omega (
  arith,
  Common-dp a b i j k c (omega (arith, h)),
  dp-step a b i j (omega (arith, h)),
  cell-same (line_at a i) (line_at b j) (dp a b i j) (dp a b i (suc j)) (dp a b (suc i) j) e,
)
