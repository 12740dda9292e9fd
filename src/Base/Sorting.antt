-- ===== src/Base/Sorting.antt =====
-- Insertion sort by a test, for ORDER BY.
use mathlib.Core.Path.{◌≡◌, refl, sym, ◌∙◌}
use mathlib.Core.Logic.{◌⊎◌, inl, inr}
use mathlib.Core.Bool.{Bool, true, false, ◌||◌, false≢true}
use mathlib.Core.Option.{none, some}
use mathlib.Core.List.{List, [], ◌∷◌}
use native.Mathlib.Omega.{arith}
use docstore.Base.Tests.{Bool-cases, if◌then◌else◌}
use docstore.Base.Lists.{All, All-map, first, some_item}

module _ {ℓ} {A : Type ℓ} where
  unfoldable pub insert_by : (A → A → Bool) → A → List A → List A
  insert_by before x [] = x ∷ []
  insert_by before x (y ∷ ys) =
      let rest = insert_by before x ys in if before x y then x ∷ (y ∷ ys) else y ∷ rest

  unfoldable pub sort_by : (A → A → Bool) → List A → List A
  sort_by before [] = []
  sort_by before (x ∷ xs) = insert_by before x (sort_by before xs)

  pub All-insert_by {κ} :
      (P : A → Type κ) (before : A → A → Bool) (x : A) (ys : List A)
      → P x
      → All P ys
      → All P (insert_by before x ys)
  unfolding insert_by
  All-insert_by P before x [] px h = (px, tt)
  All-insert_by P before x (y ∷ ys) px h = elim (Bool-cases (before x y)) [
    | inl e ↦ rw e (px, h)
    | inr e ↦ rw e (h.0, All-insert_by P before x ys px h.1)
  ]

  pub All-sort_by {κ} :
      (P : A → Type κ) (before : A → A → Bool) (xs : List A) → All P xs → All P (sort_by before xs)
  unfolding sort_by
  All-sort_by P before [] h = tt
  All-sort_by P before (x ∷ xs) h =
      All-insert_by P before x (sort_by before xs) h.0 (All-sort_by P before xs h.1)

  -- At most one item passes a test.
  abbrev pub OnlyOne : (A → Bool) → List A → Type ℓ
  OnlyOne p [] = Unit
  OnlyOne p (x ∷ xs) = (p x ≡ true → All (λ y. p y ≡ false) xs) × OnlyOne p xs

  first-insert_by :
      (p : A → Bool) (before : A → A → Bool) (x : A) (ys : List A)
      → (p x ≡ true → All (λ y. p y ≡ false) ys)
      → first p (insert_by before x ys) ≡ (if p x then some x else first p ys)
  unfolding insert_by
  first-insert_by p before x [] f = refl
  first-insert_by p before x (y ∷ ys) f = elim (Bool-cases (before x y)) [
    | inl e ↦ rw e refl
    | inr e ↦ elim (Bool-cases (p x)) [
      | inl t ↦ rw (e, (f t).0, first-insert_by p before x ys (λ g. (f g).1), t) refl
      | inr t ↦ rw (e, first-insert_by p before x ys (λ g. (f g).1), t) refl
    ]
  ]

  -- Sorting does not change which item is found, where only one can be.
  pub first-sort_by :
      (p : A → Bool) (before : A → A → Bool) (xs : List A)
      → OnlyOne p xs
      → first p (sort_by before xs) ≡ first p xs
  unfolding sort_by
  first-sort_by p before [] h = refl
  first-sort_by p before (x ∷ xs) h =
      first-insert_by p before x (sort_by before xs)
        (λ t. All-sort_by (λ y. p y ≡ false) before xs (h.0 t))
      ∙ rw (first-sort_by p before xs h.1) refl

  OnlyOne-insert_by :
      (p : A → Bool) (before : A → A → Bool) (x : A) (ys : List A)
      → (p x ≡ true → All (λ y. p y ≡ false) ys)
      → OnlyOne p ys
      → OnlyOne p (insert_by before x ys)
  unfolding insert_by
  OnlyOne-insert_by p before x [] f h = ((λ t. tt), tt)
  OnlyOne-insert_by p before x (y ∷ ys) f h = elim (Bool-cases (before x y)) [
    | inl e ↦ rw e (f, h)
    | inr e ↦ rw e (later, OnlyOne-insert_by p before x ys (λ g. (f g).1) h.1)
  ]
    where
      differs : p y ≡ true → (p x ≡ true) ⊎ (p x ≡ false) → p x ≡ false
      differs t (inl g) = absurd (false≢true (sym (f g).0 ∙ t))
      differs t (inr g) = g

      later : p y ≡ true → All (λ z. p z ≡ false) (insert_by before x ys)
      later t = All-insert_by (λ z. p z ≡ false) before x ys (differs t (Bool-cases (p x))) (h.0 t)

  pub OnlyOne-sort_by :
      (p : A → Bool) (before : A → A → Bool) (xs : List A)
      → OnlyOne p xs
      → OnlyOne p (sort_by before xs)
  unfolding sort_by
  OnlyOne-sort_by p before [] h = tt
  OnlyOne-sort_by p before (x ∷ xs) h =
      OnlyOne-insert_by p before x (sort_by before xs)
        (λ t. All-sort_by (λ y. p y ≡ false) before xs (h.0 t)) (OnlyOne-sort_by p before xs h.1)

  pub first-none : (p : A → Bool) (xs : List A) → All (λ y. p y ≡ false) xs → first p xs ≡ none
  first-none p [] h = refl
  first-none p (x ∷ xs) h = rw h.0 (first-none p xs h.1)

  some_item-insert_by :
      (p : A → Bool) (before : A → A → Bool) (x : A) (ys : List A)
      → some_item p (insert_by before x ys) ≡ (p x || some_item p ys)
  unfolding insert_by
  some_item-insert_by p before x [] = refl
  some_item-insert_by p before x (y ∷ ys) = ground (arith, some_item-insert_by p before x ys)

  pub some_item-sort_by :
      (p : A → Bool) (before : A → A → Bool) (xs : List A)
      → some_item p (sort_by before xs) ≡ some_item p xs
  unfolding sort_by
  some_item-sort_by p before [] = refl
  some_item-sort_by p before (x ∷ xs) =
      some_item-insert_by p before x (sort_by before xs) ∙ rw (some_item-sort_by p before xs) refl

  -- Every item stands before the later ones.
  abbrev pub IsSorted : (A → A → Bool) → List A → Type ℓ
  IsSorted before [] = Unit
  IsSorted before (x ∷ xs) = All (λ y. before x y ≡ true) xs × IsSorted before xs

  module _ (before : A → A → Bool) (total : (x y : A) → before x y ≡ false → before y x ≡ true)
      (trans : (x y z : A) → before x y ≡ true → before y z ≡ true → before x z ≡ true) where
    insert_by-IsSorted :
        (x : A) (ys : List A) → IsSorted before ys → IsSorted before (insert_by before x ys)
    unfolding insert_by
    insert_by-IsSorted x [] h = (tt, tt)
    insert_by-IsSorted x (y ∷ ys) h = elim (Bool-cases (before x y)) [
      | inl e ↦ rw e ((e, All-map _ _ ys (λ z g. trans x y z e g) h.0), h)
      | inr e ↦ rw e (
        All-insert_by (λ z. before y z ≡ true) before x ys (total x y e) h.0,
        insert_by-IsSorted x ys h.1,
      )
    ]

    pub sort_by-IsSorted : (xs : List A) → IsSorted before (sort_by before xs)
    unfolding sort_by
    sort_by-IsSorted [] = tt
    sort_by-IsSorted (x ∷ xs) = insert_by-IsSorted x (sort_by before xs) (sort_by-IsSorted xs)
