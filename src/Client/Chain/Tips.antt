-- ===== src/Client/Chain/Tips.antt =====
-- What the hash of a tip says of the commits before it, for the chain that the client of
-- internal/cli/app.go follows with CommitHash of internal/hash/hash.go.
use docstore.Base.{ℕ, String, ◌≡◌, ◌≢◌, ◌⊎◌, none, List, [], ◌∷◌, map, All}
use docstore.Hash.{Primitives, hash_input, sort_files, commit_hash}
use docstore.Hash.Lines.{NoNewline, spelled, IsOneLine}
use docstore.Client.Chain.{ChainEntry}
use docstore.Client.Chain.Links.{hash_from}

-- What Go's standard library says of the texts that are hashed: hashes, numbers and times are written
-- without a newline, two numbers are written differently, and two texts have different bytes.
pub record IsPlain (lib : Primitives) : Type 0 where
  pub sha256_hex_line : (x : List ℕ) → NoNewline (lib.bytes_of (lib.sha256_hex x))
  pub format_int_line : (n : ℕ) → NoNewline (lib.bytes_of (lib.format_int n))
  pub format_time_line : (t : ℕ) → NoNewline (lib.bytes_of (lib.format_time t))
  pub format_int-inj : (m n : ℕ) → lib.format_int m ≡ lib.format_int n → m ≡ n
  pub bytes_of-inj : (s t : String) → lib.bytes_of s ≡ lib.bytes_of t → s ≡ t

-- An entry that has a hash, with branch, author, message, paths and content hashes of one line.
pub record IsHashed (lib : Primitives) (e : ChainEntry) : Type 0 where
  pub hashed : e.commit_hash ≢ none
  pub branch : NoNewline (lib.bytes_of e.branch)
  pub author : NoNewline (lib.bytes_of e.author)
  pub message : NoNewline (lib.bytes_of e.message)
  pub files : All (IsOneLine lib) e.files

-- Two entries say the same: the number, the branch, the author, the message, the time as written, and
-- the files in the order of their paths, each with its content hash.
pub record IsSame (lib : Primitives) (e f : ChainEntry) : Type 0 where
  pub sequence : e.sequence ≡ f.sequence
  pub branch : e.branch ≡ f.branch
  pub author : e.author ≡ f.author
  pub message : e.message ≡ f.message
  pub time : lib.format_time e.created_at ≡ lib.format_time f.created_at
  pub files : map (spelled lib) (sort_files e.files) ≡ map (spelled lib) (sort_files f.files)

module _ (lib : Primitives) (repo : String) where
  -- What CommitHash hashes for an entry.
  abbrev pub bytes_of_entry : String → ChainEntry → List ℕ
  bytes_of_entry prev e =
      hash_input lib prev e.sequence repo e.branch e.author e.message e.created_at
        (sort_files e.files)

  -- Two histories say the same, entry by entry.
  abbrev pub SameHistory : List ChainEntry → List ChainEntry → Type 0
  SameHistory [] [] = Unit
  SameHistory [] (f ∷ fs) = ⊥
  SameHistory (e ∷ es) [] = ⊥
  SameHistory (e ∷ es) (f ∷ fs) = IsSame lib e f × SameHistory es fs

  -- Somewhere in the two histories SHA-256 gives one hash to two entries that were not hashed from the
  -- same bytes.
  abbrev pub Collide : String → String → List ChainEntry → List ChainEntry → Type 0
  Collide p q [] fs = ⊥
  Collide p q (e ∷ es) [] = ⊥
  Collide p q (e ∷ es) (f ∷ fs) =
      ((bytes_of_entry p e ≢ bytes_of_entry q f)
        × (lib.sha256_hex (bytes_of_entry p e) ≡ lib.sha256_hex (bytes_of_entry q f)))
      ⊎ Collide (hash_from e.commit_hash) (hash_from f.commit_hash) es fs
