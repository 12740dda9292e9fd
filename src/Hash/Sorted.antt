-- ===== src/Hash/Sorted.antt =====
-- The order of the files that CommitHash of internal/hash/hash.go is given.
use mathlib.Core.List.{Permᴰ}
use docstore.Base.{
  ℕ, String, ◌≡◌, ◌∙◌, refl, sym, ap, subst, inl, inr, true, List, [], ◌∷◌, All, Bool-cases,
  if◌then◌else◌,
}
use docstore.Base.Order.{text_leb, text_leb-total, text_leb-after, text_leb-antisym}
use docstore.Hash.{Primitives, File, insert_file, sort_files, hash_input, commit_hash}

module _ (content : String → String) where
  -- The file holds what the tree has at its path.
  abbrev pub IsFrom : File → Type 0
  IsFrom f = f.content_hash ≡ content f.path

  both_ways :
      (a b : File)
      → IsFrom a
      → IsFrom b
      → text_leb a.path b.path ≡ true
      → text_leb b.path a.path ≡ true
      → a ≡ b
  both_ways a b p q h g =
      let path = text_leb-antisym a.path b.path h g in
      let hash = p ∙ ap content path ∙ sym q in λ i. record { path = path i; content_hash = hash i }

  two_in_order :
      (a b : File) (fs : List File)
      → IsFrom a
      → IsFrom b
      → (if text_leb a.path b.path then a ∷ (b ∷ fs) else b ∷ (a ∷ fs))
        ≡ (if text_leb b.path a.path then b ∷ (a ∷ fs) else a ∷ (b ∷ fs))
  two_in_order a b fs p q = elim (Bool-cases (text_leb a.path b.path)) [
    | inr h ↦ rw (h, text_leb-total a.path b.path h) refl
    | inl h ↦ elim (Bool-cases (text_leb b.path a.path)) [
      | inr g ↦ rw (h, g) refl
      | inl g ↦ rw (h, g) (let e = both_ways a b p q h g in cc)
    ]
  ]

  insert_file_comm :
      (a b : File) (fs : List File)
      → IsFrom a
      → IsFrom b
      → insert_file a (insert_file b fs) ≡ insert_file b (insert_file a fs)
  unfolding insert_file
  insert_file_comm a b [] p q = two_in_order a b [] p q
  insert_file_comm a b (x ∷ fs) p q = elim (Bool-cases (text_leb a.path x.path)) [
    | inl h ↦ elim (Bool-cases (text_leb b.path x.path)) [
      | inl g ↦ rw (h, g) (rw h (two_in_order a b (x ∷ fs) p q))
      | inr g ↦ rw (h, g) (rw (h, text_leb-after b.path a.path x.path h g) refl)
    ]
    | inr h ↦ elim (Bool-cases (text_leb b.path x.path)) [
      | inl g ↦ rw (h, g) (rw (text_leb-after a.path b.path x.path g h, h) refl)
      | inr g ↦ rw (h, g) (rw h (ap (λ r. x ∷ r) (insert_file_comm a b fs p q)))
    ]
  ]

  All-Perm : {fs gs : List File} → Permᴰ fs gs → All IsFrom fs → All IsFrom gs
  All-Perm Permᴰ.nil h = tt
  All-Perm (Permᴰ.cons e p) h = (subst IsFrom e h.0, All-Perm p h.1)
  All-Perm (Permᴰ.swap e f) h = (subst IsFrom f h.1.0, (subst IsFrom e h.0, h.1.1))
  All-Perm (Permᴰ.trans p q) h = All-Perm q (All-Perm p h)

  sort_files-Perm :
      {fs gs : List File} → Permᴰ fs gs → All IsFrom fs → sort_files fs ≡ sort_files gs
  unfolding sort_files
  sort_files-Perm Permᴰ.nil h = refl
  sort_files-Perm (Permᴰ.cons e p) h = (λ i. insert_file (e i) (sort_files-Perm p h.1 i))
  sort_files-Perm (Permᴰ.swap {a} {b} {a'} {b'} {l} e f) h =
      insert_file_comm a b (sort_files l) h.0 h.1.0
      ∙ (λ i. insert_file (f i) (insert_file (e i) (sort_files l)))
  sort_files-Perm (Permᴰ.trans p q) h = sort_files-Perm p h ∙ sort_files-Perm q (All-Perm p h)

-- Caller order does not matter, as the comment of CommitHash says, when files of one path have one
-- content: if every file of the list has the content hash that some tree gives its path, any other
-- order of the list has the same hash. So the server, which hashes the files as it wrote them, and a client that
-- has the same files from a listing compute one hash.
pub commit_hash-Perm :
    (lib : Primitives) (content : String → String) (prev : String) (seq : ℕ)
    (repo branch author message : String) (created_at : ℕ) (fs gs : List File)
    → Permᴰ fs gs
    → All (IsFrom content) fs
    → commit_hash lib prev seq repo branch author message created_at fs
      ≡ commit_hash lib prev seq repo branch author message created_at gs
unfolding commit_hash
commit_hash-Perm lib content prev seq repo branch author message created_at fs gs p h =
    ap
      (λ sorted.
        lib.sha256_hex (hash_input lib prev seq repo branch author message created_at sorted))
      (sort_files-Perm content p h)
