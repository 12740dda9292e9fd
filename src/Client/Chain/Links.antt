-- ===== src/Client/Chain/Links.antt =====
-- Which chains Verify of internal/cli/app.go accepts.
use docstore.Base.{
  ℕ, String, ◌≡◌, ◌↔◌, refl, sym, ◌∙◌, inl, inr, Bool, true, false, Option, none, some, List, [],
  ◌∷◌, ◌==◌, keep, Bool-cases, eq_iff,
}
use docstore.Hash.{Primitives, genesis_hash}
use docstore.Client.Chain.{
  ChainEntry, Line, skip_line, ok_line, fail_line, computed, Walk, start, print, first_error,
  check_hash, visit, walk, verify,
}

-- The entries of a branch.
abbrev pub own : String → List ChainEntry → List ChainEntry
own branch es = keep (λ (e : ChainEntry). e.branch == branch) es

-- The hash that the next commit of the branch starts from.
abbrev pub hash_from : Option String → String
hash_from none = genesis_hash
hash_from (some h) = h

-- A hashed entry has the hash that is computed from a previous one.
abbrev pub Extends : Primitives → String → String → ChainEntry → Option String → Type 0
Extends lib repo prev e none = Unit
Extends lib repo prev e (some h) = computed lib repo prev e ≡ h

-- Every hashed entry extends the entry before it.
abbrev pub LinkedFrom : Primitives → String → String → List ChainEntry → Type 0
LinkedFrom lib repo prev [] = Unit
LinkedFrom lib repo prev (e ∷ es) =
    Extends lib repo prev e e.commit_hash × LinkedFrom lib repo (hash_from e.commit_hash) es

-- From the first hashed entry on, which is taken on trust, every hashed entry extends the entry before
-- it.
abbrev pub IsLinked : Primitives → String → List ChainEntry → Type 0
IsLinked lib repo [] = Unit
IsLinked lib repo (e ∷ es) = elim e.commit_hash [
  | none ↦ IsLinked lib repo es
  | some h ↦ LinkedFrom lib repo h es
]

module _ (lib : Primitives) (repo branch : String) where
  abbrev state : String → Bool → Option ℕ → List Line → Walk
  state prev found verify_err printed = record {
    prev_hash = prev;
    found_first = found;
    verify_err = verify_err;
    printed = printed;
  }

  abbrev Accepted : Walk → Type 0
  Accepted w = w.verify_err ≡ none

  -- What the rest of the walk comes to once the first hash was found.
  abbrev Rest : String → Option ℕ → List ChainEntry → Type 0
  Rest prev v es = (v ≡ none) × LinkedFrom lib repo prev (own branch es)

  first_error-some : (seq : ℕ) (v : Option ℕ) → (s : ℕ) × (first_error seq v ≡ some s)
  unfolding first_error
  first_error-some seq none = (seq, refl)
  first_error-some seq (some s) = (s, refl)

  abbrev Found : List ChainEntry → Type 0
  Found es =
      (prev : String) (v : Option ℕ) (printed : List Line)
      → Accepted (walk lib repo branch es (state prev true v printed)) ↔ Rest prev v es

  -- An entry of the branch, by its hash, before entries of which the claim is known.
  visited :
      (es : List ChainEntry) (e : ChainEntry) (o : Option String) (prev : String) (v : Option ℕ)
      (printed : List Line)
      → Found es
      → Accepted (walk lib repo branch es (visit lib repo e o (state prev true v printed))) ↔ (
          (v ≡ none)
          × (Extends lib repo prev e o × LinkedFrom lib repo (hash_from o) (own branch es)))
  unfolding visit check_hash print
  visited es e none prev v printed rest =
      let r = rest genesis_hash v (skip_line e.sequence ∷ printed) in
      ((λ x. ((r.0 x).0, (tt, (r.0 x).1))), λ y. r.1 (y.0, y.1.1))
  visited es e (some h) prev v printed rest = elim (Bool-cases (computed lib repo prev e == h)) [
    | inl c ↦
        let r = rest h v (ok_line e.sequence ∷ printed) in
        let same = (eq_iff (computed lib repo prev e) h).0 c in
        rw c ((λ x. ((r.0 x).0, (same, (r.0 x).1))), λ y. r.1 (y.0, y.1.1))
    | inr c ↦
        let r = rest h (first_error e.sequence v) (fail_line e.sequence ∷ printed) in
        let (s, err) = first_error-some e.sequence v in
        rw c (
          (λ x. cc (sym err ∙ (r.0 x).0)),
          λ y. cc (sym c ∙ (eq_iff (computed lib repo prev e) h).1 y.1.0),
        )
  ]

  walk-Found : (es : List ChainEntry) → Found es
  unfolding walk
  walk-Found [] prev v printed = ((λ h. (h, tt)), λ h. h.0)
  walk-Found (e ∷ es) prev v printed = elim (Bool-cases (e.branch == branch)) [
    | inr t ↦ rw (t, walk) (walk-Found es prev v printed)
    | inl t ↦ rw (t, walk) (visited es e e.commit_hash prev v printed (walk-Found es))
  ]

  begun :
      (es : List ChainEntry) (e : ChainEntry) (o : Option String) (prev : String)
      (printed : List Line)
      → ((prev : String) (printed : List Line)
          → Accepted (walk lib repo branch es (state prev false none printed))
            ↔ IsLinked lib repo (own branch es))
      → Accepted (walk lib repo branch es (visit lib repo e o (state prev false none printed)))
        ↔ (elim o [
          | none ↦ IsLinked lib repo (own branch es)
          | some h ↦ LinkedFrom lib repo h (own branch es)
        ])
  unfolding visit print
  begun es e none prev printed rest = rest genesis_hash (skip_line e.sequence ∷ printed)
  begun es e (some h) prev printed rest =
      let r = walk-Found es h none (ok_line e.sequence ∷ printed) in
      ((λ x. (r.0 x).1), λ y. r.1 (refl, y))

  walk-IsLinked :
      (es : List ChainEntry) (prev : String) (printed : List Line)
      → Accepted (walk lib repo branch es (state prev false none printed))
        ↔ IsLinked lib repo (own branch es)
  unfolding walk
  walk-IsLinked [] prev printed = ((λ h. tt), λ h. refl)
  walk-IsLinked (e ∷ es) prev printed = elim (Bool-cases (e.branch == branch)) [
    | inr t ↦ rw (t, walk) (walk-IsLinked es prev printed)
    | inl t ↦ rw (t, walk) (begun es e e.commit_hash prev printed (walk-IsLinked es))
  ]

  -- Verify reports no error exactly for the entries of which those of the branch are linked: from the
  -- first one with a hash on, which is taken on trust, every hash is the one computed from the hash of
  -- the entry before it on the branch, or from the genesis hash after an entry without one. Entries of
  -- other branches do not matter.
  pub verify-IsLinked :
      (es : List ChainEntry) → verify lib repo branch es ≡ none ↔ IsLinked lib repo (own branch es)
  unfolding verify start
  verify-IsLinked es = walk-IsLinked es genesis_hash []
