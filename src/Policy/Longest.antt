-- ===== src/Policy/Longest.antt =====
-- The directory that ResolveOwners of internal/policy/owners.go finds, and the order of its loop.
use docstore.Base.{
  ℕ, ◌≤◌, String, ◌≡◌, ◌∙◌, refl, sym, ap, subst, inl, inr, Option, none, some, List, [], ◌∷◌, ◌==◌,
  ltb, arith, Bool-cases, eq_iff, eq_refl,
}
use docstore.Policy.Prefix.{
  match_len_unique, IsDirectoryOf, match_len-IsDirectoryOf, IsDirectoryOf-match_len,
}
use docstore.Policy.Owners.{
  OwnersMap, byte_len, lookup, match_len, exceeds, improve, best_match, owners_of, resolve_owners,
}

-- The best match so far: a directory with what it matches, or none.
abbrev Matches : String → String × Option ℕ → Type 0
Matches path (k, none) = Unit
Matches path (k, some n) = match_len path k ≡ some n

-- A length is within the best one.
abbrev Within : Option ℕ → Option ℕ → Type 0
Within none best = Unit
Within (some n) none = ⊥
Within (some n) (some m) = n ≤ m

Within-refl : (o : Option ℕ) → Within o o
Within-refl none = tt
Within-refl (some n) = omega arith

Within-trans : (a b c : Option ℕ) → Within a b → Within b c → Within a c
Within-trans none b c h g = tt
Within-trans (some n) none c h g = absurd h
Within-trans (some n) (some m) none h g = absurd g
Within-trans (some n) (some m) (some k) h g = omega (arith, h, g)

improve-Matches :
    (path k : String) (o : Option ℕ) (best : String × Option ℕ)
    → match_len path k ≡ o
    → Matches path best
    → Matches path (improve k o best)
unfolding improve
improve-Matches path k none best e h = h
improve-Matches path k (some n) best e h = elim (Bool-cases (exceeds n best.1)) [
  | inl t ↦ rw t e
  | inr t ↦ rw t h
]

improve-Within :
    (k : String) (o : Option ℕ) (best : String × Option ℕ)
    → Within o (improve k o best).1 × Within best.1 (improve k o best).1
unfolding improve exceeds
improve-Within k none best = (tt, Within-refl best.1)
improve-Within k (some n) (b, none) = (omega arith, tt)
improve-Within k (some n) (b, some m) = elim (Bool-cases (ltb m n)) [
  | inl t ↦ rw t (omega arith, ground arith)
  | inr t ↦ rw t (ground arith, omega arith)
]

best_match-Matches :
    (path : String) (es : OwnersMap) (best : String × Option ℕ)
    → Matches path best
    → Matches path (best_match path es best)
unfolding best_match
best_match-Matches path [] best h = h
best_match-Matches path (e ∷ es) best h =
    best_match-Matches path es _ (improve-Matches path e.0 (match_len path e.0) best refl h)

best_match-grows :
    (path : String) (es : OwnersMap) (best : String × Option ℕ)
    → Within best.1 (best_match path es best).1
unfolding best_match
best_match-grows path [] best = Within-refl best.1
best_match-grows path (e ∷ es) best =
    Within-trans best.1 _ _ (improve-Within e.0 (match_len path e.0) best).1
      (best_match-grows path es (improve e.0 (match_len path e.0) best))

-- Every directory of the map that matches is within the best one.
best_match-Within :
    (path : String) (es : OwnersMap) (best : String × Option ℕ) (k : String) (os : List String)
    → lookup k es ≡ some os
    → Within (match_len path k) (best_match path es best).1
unfolding best_match lookup
best_match-Within path [] best k os h = cc
best_match-Within path (e ∷ es) best k os h = elim (Bool-cases (e.0 == k)) [
  | inl t ↦
      let next = improve e.0 (match_len path e.0) best in
      subst (λ i. Within (match_len path i) (best_match path es next).1) ((eq_iff e.0 k).0 t)
        (Within-trans _ next.1 _ (improve-Within e.0 (match_len path e.0) best).0
          (best_match-grows path es next))
  | inr t ↦ best_match-Within path es _ k os (rw t at h)
]

-- A match that was found is of a directory that the map has.
abbrev Listed : OwnersMap → String × Option ℕ → Type 0
Listed m (k, none) = Unit
Listed m (k, some n) = (os : List String) × (lookup k m ≡ some os)

improve-Listed :
    (m : OwnersMap) (k : String) (o : Option ℕ) (best : String × Option ℕ)
    → ((os : List String) × (lookup k m ≡ some os))
    → Listed m best
    → Listed m (improve k o best)
unfolding improve
improve-Listed m k none best f h = h
improve-Listed m k (some n) best f h = elim (Bool-cases (exceeds n best.1)) [
  | inl t ↦ rw t f
  | inr t ↦ rw t h
]

-- Whatever is listed by the entries still to visit is listed by the map.
abbrev Covers : OwnersMap → OwnersMap → Type 0
Covers m es =
    (k : String)
    → ((os : List String) × (lookup k es ≡ some os))
    → (os : List String) × (lookup k m ≡ some os)

lookup-cons : (e : String × List String) (es : OwnersMap) → Covers (e ∷ es) es
unfolding lookup
lookup-cons e es k h = elim (Bool-cases (e.0 == k)) [ inl t ↦ rw t (e.1, refl) | inr t ↦ rw t h ]

lookup-head : (e : String × List String) (es : OwnersMap) → lookup e.0 (e ∷ es) ≡ some e.1
unfolding lookup
lookup-head e es = rw (eq_refl e.0) refl

best_match-Listed :
    (m : OwnersMap) (path : String) (es : OwnersMap) (best : String × Option ℕ)
    → Covers m es
    → Listed m best
    → Listed m (best_match path es best)
unfolding best_match
best_match-Listed m path [] best c h = h
best_match-Listed m path (e ∷ es) best c h =
    best_match-Listed m path es _ (λ k x. c k (lookup-cons e es k x))
      (improve-Listed m e.0 (match_len path e.0) best (c e.0 (e.1, lookup-head e es)) h)

-- The directory that ResolveOwners settles on, and what is known of it.
pub record IsBest (path : String) (m : OwnersMap) (best : String × Option ℕ) : Type 0 where
  pub matches : Matches path best
  pub listed : Listed m best
  pub longest :
      (k : String) (os : List String) → lookup k m ≡ some os → Within (match_len path k) best.1

best_match-IsBest : (path : String) (m : OwnersMap) → IsBest path m (best_match path m ("", none))
best_match-IsBest path m = record {
  matches = best_match-Matches path m ("", none) tt;
  listed = best_match-Listed m path m ("", none) (λ k x. x) tt;
  longest = best_match-Within path m ("", none);
}

-- The best match of two maps that hold the same is the same.
owners_of-IsBest :
    (path : String) (xs ys : OwnersMap) (a b : String × Option ℕ)
    → ((k : String) → lookup k xs ≡ lookup k ys)
    → IsBest path xs a
    → IsBest path ys b
    → owners_of xs a ≡ owners_of ys b
unfolding owners_of
owners_of-IsBest path xs ys (k, none) (l, none) f p q = refl
owners_of-IsBest path xs ys (k, none) (l, some m) f p q =
    absurd (subst (λ o. Within o none) q.matches (p.longest l q.listed.0 (f l ∙ q.listed.1)))
owners_of-IsBest path xs ys (k, some n) (l, none) f p q =
    absurd (subst (λ o. Within o none) p.matches (q.longest k p.listed.0 (sym (f k) ∙ p.listed.1)))
owners_of-IsBest path xs ys (k, some n) (l, some m) f p q =
    let le = subst (λ o. Within o (some n)) q.matches (p.longest l q.listed.0 (f l ∙ q.listed.1)) in
    let ge =
      subst (λ o. Within o (some m)) p.matches (q.longest k p.listed.0 (sym (f k) ∙ p.listed.1)) in
    let same : n ≡ m = omega (arith, le, ge) in
    f k ∙ ap (λ i. lookup i ys) (match_len_unique path k l m (p.matches ∙ ap some same) q.matches)

-- The owners of a path do not depend on the order in which Go's loop visits the map: two lists of
-- directories in which each directory has the same owners give the path the same owners.
pub resolve_owners-order :
    (xs ys : OwnersMap) (path : String)
    → ((k : String) → lookup k xs ≡ lookup k ys)
    → resolve_owners xs path ≡ resolve_owners ys path
unfolding resolve_owners
resolve_owners-order xs ys path f =
    owners_of-IsBest path xs ys _ _ f (best_match-IsBest path xs) (best_match-IsBest path ys)

-- What an answer says of the map: no directory of it is one of the path, or the owners are those of
-- a directory of the path, and no directory of the path that it has has a longer name.
abbrev pub Owned : OwnersMap → String → Option (List String) → Type 0
Owned m path none =
    (k : String) (os : List String) → lookup k m ≡ some os → ¬ (IsDirectoryOf path k)
Owned m path (some os) =
    (k : String) × ((lookup k m ≡ some os)
      × (IsDirectoryOf path k
          × ((l : String) (ps : List String)
              → lookup l m ≡ some ps
              → IsDirectoryOf path l
              → byte_len l ≤ byte_len k)))

owners_of-Owned :
    (path : String) (m : OwnersMap) (best : String × Option ℕ)
    → IsBest path m best
    → Owned m path (owners_of m best)
unfolding owners_of
owners_of-Owned path m (k, none) p =
    λ l os h d. subst (λ o. Within o none) (IsDirectoryOf-match_len path l d) (p.longest l os h)
owners_of-Owned path m (k, some n) p =
    let (above, len) = match_len-IsDirectoryOf path k n p.matches in
    rw p.listed.1 (
      k,
      (
        p.listed.1,
        (
          above,
          λ l ps h d.
              let le : byte_len l ≤ n =
                subst (λ o. Within o (some n)) (IsDirectoryOf-match_len path l d)
                  (p.longest l ps h) in
              omega (arith, le, len),
        ),
      ),
    )

-- The owners of a path are those of the nearest directory above it that has owners. A directory is
-- above a path when it is the root, whose name is empty, or its name followed by a slash begins the
-- path: if the answer is nil, no directory of the map is above the path, and otherwise the answer is
-- what the map holds for a directory above the path, and no other one of the map that is above the
-- path has a longer name.
pub resolve_owners-Owned : (m : OwnersMap) (path : String) → Owned m path (resolve_owners m path)
unfolding resolve_owners
resolve_owners-Owned m path = owners_of-Owned path m _ (best_match-IsBest path m)
