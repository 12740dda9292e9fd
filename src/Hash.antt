-- ===== src/Hash.antt =====
-- internal/hash/hash.go: the chain hash of a commit, which the server (internal/db) and the client
-- (internal/cli) compute alike.
pub mod Lines
pub mod Sorted
use docstore.Base.{ℕ, String, Bool, List, [], ◌∷◌, ◌++◌, if◌then◌else◌}
use docstore.Base.Order.{text_leb}

-- What hash.go takes from Go's standard library: SHA-256 in hexadecimal, the bytes of a string, and
-- the decimal and RFC 3339 forms of a number and of a time.
pub record Primitives : Type 0 where
  pub sha256_hex : List ℕ → String
  pub bytes_of : String → List ℕ
  pub format_int : ℕ → String
  pub format_time : ℕ → String

abbrev pub genesis_hash : String
genesis_hash = "0000000000000000000000000000000000000000000000000000000000000000"

pub record File : Type 0 where
  pub path : String
  pub content_hash : String

unfoldable pub insert_file : File → List File → List File
insert_file f [] = f ∷ []
insert_file f (g ∷ gs) =
    let rest = insert_file f gs in if text_leb f.path g.path then f ∷ (g ∷ gs) else g ∷ rest

-- slices.SortFunc by path; of files with one path, whose order Go leaves open, the order is kept.
unfoldable pub sort_files : List File → List File
unfolding insert_file
sort_files [] = []
sort_files (f ∷ fs) = insert_file f (sort_files fs)

module _ (lib : Primitives) where
  -- []byte(s + "\n")
  unfoldable pub line : String → List ℕ
  line s = lib.bytes_of s ++ 10 ∷ []

  -- []byte(f.Path + ":" + f.ContentHash + "\n")
  unfoldable pub file_line : File → List ℕ
  file_line f = lib.bytes_of f.path ++ (58 ∷ (lib.bytes_of f.content_hash ++ 10 ∷ []))

  unfoldable pub file_lines : List File → List ℕ
  file_lines [] = []
  file_lines (f ∷ fs) = file_line f ++ file_lines fs

  -- The bytes that CommitHash writes into the hash, in order.
  unfoldable pub hash_input :
      String → ℕ → String → String → String → String → ℕ → List File → List ℕ
  hash_input prev seq repo branch author message created_at sorted =
      line prev
      ++ (line (lib.format_int seq)
          ++ (line repo
              ++ (line branch
                  ++ (line author
                      ++ (line message
                          ++ (line (lib.format_time created_at) ++ file_lines sorted))))))

  unfoldable pub commit_hash :
      String → ℕ → String → String → String → String → ℕ → List File → String
  unfolding line file_line file_lines hash_input
  commit_hash prev seq repo branch author message created_at files =
      lib.sha256_hex (hash_input prev seq repo branch author message created_at (sort_files files))
