-- ===== src/Ui/Diff/Lines.antt =====
-- The lines of the scripts of internal/ui/diff.go, and scripts turned round.
use docstore.Base.{ℕ, suc, ◌+◌, String, ◌≡◌, ◌∙◌, refl, ap, List, [], ◌∷◌, ◌++◌, arith}
use docstore.Ui.Diff.{EditKind, ctx, add, del, EditOp, reverse}

-- The lines of a script that the old text has, those that the new one has, and the number that both have.
abbrev pub in_old : EditKind → String → List String → List String
in_old add content rest = rest
in_old _ content rest = content ∷ rest

abbrev pub in_new : EditKind → String → List String → List String
in_new del content rest = rest
in_new _ content rest = content ∷ rest

abbrev pub in_both : EditKind → ℕ → ℕ
in_both ctx n = suc n
in_both _ n = n

abbrev pub old_lines : List EditOp → List String
old_lines [] = []
old_lines (o ∷ os) = in_old o.kind o.content (old_lines os)

abbrev pub new_lines : List EditOp → List String
new_lines [] = []
new_lines (o ∷ os) = in_new o.kind o.content (new_lines os)

abbrev pub kept : List EditOp → ℕ
kept [] = 0
kept (o ∷ os) = in_both o.kind (kept os)

append-nil {ℓ} : {A : Type ℓ} (xs : List A) → xs ++ [] ≡ xs
append-nil [] = refl
append-nil (x ∷ xs) = ap (λ r. x ∷ r) (append-nil xs)

in_old-append :
    (k : EditKind) (c : String) (xs ys : List String) → in_old k c (xs ++ ys) ≡ in_old k c xs ++ ys
in_old-append add c xs ys = refl
in_old-append ctx c xs ys = refl
in_old-append del c xs ys = refl

in_new-append :
    (k : EditKind) (c : String) (xs ys : List String) → in_new k c (xs ++ ys) ≡ in_new k c xs ++ ys
in_new-append add c xs ys = refl
in_new-append ctx c xs ys = refl
in_new-append del c xs ys = refl

in_both-add : (k : EditKind) (m n : ℕ) → in_both k (m + n) ≡ in_both k m + n
in_both-add add m n = refl
in_both-add ctx m n = omega arith
in_both-add del m n = refl

old_lines-append : (xs ys : List EditOp) → old_lines (xs ++ ys) ≡ old_lines xs ++ old_lines ys
old_lines-append [] ys = refl
old_lines-append (x ∷ xs) ys =
    ap (in_old x.kind x.content) (old_lines-append xs ys)
    ∙ in_old-append x.kind x.content (old_lines xs) (old_lines ys)

new_lines-append : (xs ys : List EditOp) → new_lines (xs ++ ys) ≡ new_lines xs ++ new_lines ys
new_lines-append [] ys = refl
new_lines-append (x ∷ xs) ys =
    ap (in_new x.kind x.content) (new_lines-append xs ys)
    ∙ in_new-append x.kind x.content (new_lines xs) (new_lines ys)

kept-append : (xs ys : List EditOp) → kept (xs ++ ys) ≡ kept xs + kept ys
kept-append [] ys = omega arith
kept-append (x ∷ xs) ys =
    ap (in_both x.kind) (kept-append xs ys) ∙ in_both-add x.kind (kept xs) (kept ys)

pub reverse-snoc {ℓ} : {A : Type ℓ} (xs : List A) (x : A) → reverse (xs ++ x ∷ []) ≡ x ∷ reverse xs
reverse-snoc [] x = refl
reverse-snoc (y ∷ ys) x = ap (λ r. r ++ y ∷ []) (reverse-snoc ys x)

pub old_lines-reverse : (os : List EditOp) → old_lines (reverse os) ≡ reverse (old_lines os)
old_lines-reverse [] = refl
old_lines-reverse (o ∷ os) =
    old_lines-append (reverse os) (o ∷ [])
    ∙ ap (λ r. r ++ old_lines (o ∷ [])) (old_lines-reverse os)
    ∙ turned o.kind
  where
    turned :
        (k : EditKind)
        → reverse (old_lines os) ++ in_old k o.content []
          ≡ reverse (in_old k o.content (old_lines os))
    turned add = append-nil (reverse (old_lines os))
    turned ctx = refl
    turned del = refl

pub new_lines-reverse : (os : List EditOp) → new_lines (reverse os) ≡ reverse (new_lines os)
new_lines-reverse [] = refl
new_lines-reverse (o ∷ os) =
    new_lines-append (reverse os) (o ∷ [])
    ∙ ap (λ r. r ++ new_lines (o ∷ [])) (new_lines-reverse os)
    ∙ turned o.kind
  where
    turned :
        (k : EditKind)
        → reverse (new_lines os) ++ in_new k o.content []
          ≡ reverse (in_new k o.content (new_lines os))
    turned del = append-nil (reverse (new_lines os))
    turned ctx = refl
    turned add = refl

pub kept-reverse : (os : List EditOp) → kept (reverse os) ≡ kept os
kept-reverse [] = refl
kept-reverse (o ∷ os) =
    kept-append (reverse os) (o ∷ [])
    ∙ ap (λ n. n + kept (o ∷ [])) (kept-reverse os)
    ∙ turned o.kind
  where
    turned : (k : EditKind) → kept os + in_both k 0 ≡ in_both k (kept os)
    turned ctx = omega arith
    turned add = omega arith
    turned del = omega arith
