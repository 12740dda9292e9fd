-- ===== src/Client/Chain/Pulls.antt =====
-- Which chains Pull of internal/cli/app.go accepts, and the hash that it saves.
use docstore.Base.{
  ℕ, String, ◌≡◌, ◌≢◌, ◌↔◌, sym, ap, ◌∙◌, inl, inr, false, Option, none, some, List, [], ◌∷◌, ◌==◌,
  nat_eq, Bool-cases, eq_iff, arith,
}
use docstore.Hash.{Primitives, genesis_hash}
use docstore.Client.Chain.{
  ChainEntry, computed, Pulled, trusted, integrity_error, nothing_new, next_hash, continue_with,
  follow, follow_anchor, pull_chain,
}
use docstore.Client.Chain.Links.{own, hash_from, Extends, LinkedFrom}

-- The hash of the last of some entries, from the one before them.
abbrev pub tip : String → List ChainEntry → String
tip prev [] = prev
tip prev (e ∷ es) = tip (hash_from e.commit_hash) es

abbrev hash_of : Pulled → String → String
hash_of (trusted h) d = h
hash_of (integrity_error seq) d = d
hash_of nothing_new d = d

module _ (lib : Primitives) (repo branch : String) where
  -- The entries are linked from a hash and end in another.
  abbrev pub Leads : String → String → List ChainEntry → Type 0
  Leads prev h es = LinkedFrom lib repo prev es × (tip prev es ≡ h)

  followed :
      (es : List ChainEntry) (e : ChainEntry) (o : Option String) (prev h : String)
      → ((prev : String)
          → follow lib repo branch es prev ≡ trusted h ↔ Leads prev h (own branch es))
      → continue_with e.sequence (λ g. follow lib repo branch es g) (next_hash lib repo e o prev)
          ≡ trusted h
        ↔ ((Extends lib repo prev e o × LinkedFrom lib repo (hash_from o) (own branch es))
            × (tip (hash_from o) (own branch es) ≡ h))
  unfolding next_hash continue_with
  followed es e none prev h rest =
      let r = rest genesis_hash in ((λ x. ((tt, (r.0 x).0), (r.0 x).1)), λ y. r.1 (y.0.1, y.1))
  followed es e (some g) prev h rest = elim (Bool-cases (computed lib repo prev e == g)) [
    | inl c ↦
        let r = rest g in
        let same = (eq_iff (computed lib repo prev e) g).0 c in
        rw (c, continue_with) ((λ x. ((same, (r.0 x).0), (r.0 x).1)), λ y. r.1 (y.0.1, y.1))
    | inr c ↦
        rw (c, continue_with)
          ((λ x. cc x), λ y. cc (sym c ∙ (eq_iff (computed lib repo prev e) g).1 y.0.0))
  ]

  follow-Leads :
      (es : List ChainEntry) (prev h : String)
      → follow lib repo branch es prev ≡ trusted h ↔ Leads prev h (own branch es)
  unfolding follow continue_with
  follow-Leads [] prev h = ((λ x. (tt, ap (λ p. hash_of p h) x)), λ y. ap trusted y.1)
  follow-Leads (e ∷ es) prev h = elim (Bool-cases (e.branch == branch)) [
    | inr t ↦ rw (t, follow) (follow-Leads es prev h)
    | inl t ↦ rw (t, follow) (followed es e e.commit_hash prev h (λ p. follow-Leads es p h))
  ]

  -- Where the client has stored a hash, new sequences have come, and the server's first entry, at the
  -- stored sequence, has a hash, Pull accepts the rest and saves a hash exactly when the first entry has
  -- the stored hash, the later entries of the branch are linked from it, an entry without a hash
  -- starting anew from the genesis hash, and the saved hash is the last one of them.
  pub pull_chain-Leads :
      (stored at_anchor h : String) (old_sequence new_sequence : ℕ) (anchor : ChainEntry)
      (es : List ChainEntry)
      → old_sequence ≢ new_sequence
      → anchor.commit_hash ≡ some at_anchor
      → pull_chain lib repo branch stored old_sequence new_sequence (anchor ∷ es) ≡ trusted h
        ↔ ((at_anchor ≡ stored) × Leads stored h (own branch es))
  unfolding pull_chain follow_anchor
  pull_chain-Leads stored at_anchor h old_sequence new_sequence anchor es new hashed =
      rw (differs, hashed)
        (elim (Bool-cases (at_anchor == stored)) [
          | inl c ↦
              let r = follow-Leads es stored h in
              let same = (eq_iff at_anchor stored).0 c in rw c ((λ x. (same, r.0 x)), λ y. r.1 y.1)
          | inr c ↦ rw c ((λ x. cc x), λ y. cc (sym c ∙ (eq_iff at_anchor stored).1 y.0))
        ])
    where
      differs : nat_eq old_sequence new_sequence ≡ false
      differs = ground (arith, new)
