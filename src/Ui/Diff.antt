-- ===== src/Ui/Diff.antt =====
-- The inline diff of two texts by lines, of internal/ui/diff.go. dp[i] is the row of the table for the
-- first i lines of the old text.
pub mod Table
pub mod Longest
pub mod Script
pub mod Lines
use docstore.Base.{
  ℕ, zero, suc, ◌+◌, ◌-◌, String, Bool, true, false, ◌&&◌, ◌||◌, not, List, [], ◌∷◌, ◌++◌, ◌==◌,
  ltb, leb, nat_eq, length, keep, if◌then◌else◌,
}

pub data EditKind : Type 0 where
  ctx add del : EditKind

pub record EditOp : Type 0 where
  pub kind : EditKind
  pub content : String

-- An item of a slice; the code never reads out of range.
abbrev pub nth {ℓ} : {A : Type ℓ} → A → List A → ℕ → A
nth d [] i = d
nth d (x ∷ xs) zero = x
nth d (x ∷ xs) (suc i) = nth d xs i

unfoldable pub line_at : List String → ℕ → String
line_at a i = nth "" a i

abbrev pub replicate : ℕ → List ℕ
replicate zero = []
replicate (suc n) = 0 ∷ replicate n

-- dp[i][j] from dp[i-1][j-1], dp[i-1][j] and dp[i][j-1].
unfoldable pub cell : Bool → ℕ → ℕ → ℕ → ℕ
cell same diagonal above left =
    if same then diagonal + 1 else if leb left above then above else left

-- The inner loop, over the new lines and the row above.
unfoldable pub fill : String → List String → List ℕ → ℕ → List ℕ
fill x [] above left = []
fill x (y ∷ ys) [] left = []
fill x (y ∷ ys) (d ∷ []) left = []
fill x (y ∷ ys) (d ∷ (p ∷ ps)) left = let c = cell (x == y) d p left in c ∷ fill x ys (p ∷ ps) c

unfoldable pub dp_row : List String → List String → ℕ → List ℕ
dp_row a b zero = replicate (suc (length b))
dp_row a b (suc i) = 0 ∷ fill (line_at a i) b (dp_row a b i) 0

unfoldable pub dp : List String → List String → ℕ → ℕ → ℕ
dp a b i j = nth 0 (dp_row a b i) j

unfoldable pub op : EditKind → String → EditOp
op kind content = record { kind = kind; content = content }

-- The backtracking loop: what is appended from position (i, j) on, in its order. Fuel is a bound on the
-- number of rounds.
unfoldable pub backtrack : List String → List String → ℕ → ℕ → ℕ → List EditOp
backtrack a b zero i j = []
backtrack a b (suc fuel) zero zero = []
backtrack a b (suc fuel) zero (suc j) = op add (line_at b j) ∷ backtrack a b fuel zero j
backtrack a b (suc fuel) (suc i) zero = op del (line_at a i) ∷ backtrack a b fuel i zero
backtrack a b (suc fuel) (suc i) (suc j) =
    let both = backtrack a b fuel i j in
    let new = backtrack a b fuel (suc i) j in
    let old = backtrack a b fuel i (suc j) in
    if line_at a i == line_at b j
    then op ctx (line_at a i) ∷ both
    else if leb (dp a b i (suc j)) (dp a b (suc i) j)
    then op add (line_at b j) ∷ new
    else op del (line_at a i) ∷ old

abbrev pub reverse {ℓ} : {A : Type ℓ} → List A → List A
reverse [] = []
reverse (x ∷ xs) = reverse xs ++ x ∷ []

unfoldable pub lcs_edit_script : List String → List String → List EditOp
lcs_edit_script a b = reverse (backtrack a b (length a + length b) (length a) (length b))
