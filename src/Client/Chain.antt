-- ===== src/Client/Chain.antt =====
-- How the client checks the chain of commits that the server returns: the loops of Verify and Pull of
-- internal/cli/app.go. What is printed is a list of lines, without messages and hashes.
pub mod Links
pub mod Pulls
pub mod Tips
use docstore.Base.{
  ℕ, String, Bool, true, false, Option, none, some, List, [], ◌∷◌, ◌==◌, nat_eq, if◌then◌else◌,
}
use docstore.Hash.{Primitives, File, commit_hash, genesis_hash}

pub record ChainEntry : Type 0 where
  pub sequence : ℕ
  pub branch : String
  pub author : String
  pub message : String
  pub created_at : ℕ
  pub commit_hash : Option String
  pub files : List File

pub data Line : Type 0 where
  skip_line ok_line fail_line note_line : ℕ → Line

-- hash.CommitHash(prevHash, e.Sequence, cfg.Repo, e.Branch, …)
unfoldable pub computed : Primitives → String → String → ChainEntry → String
computed lib repo prev e =
    commit_hash lib prev e.sequence repo e.branch e.author e.message e.created_at e.files

-- The state of the loop of Verify.
pub record Walk : Type 0 where
  pub prev_hash : String
  pub found_first : Bool
  pub verify_err : Option ℕ
  pub printed : List Line

unfoldable pub start : Walk
start = record { prev_hash = genesis_hash; found_first = false; verify_err = none; printed = [] }

unfoldable pub print : Line → Walk → Walk
print l w = record w { printed = l ∷ w.printed }

-- The first error is kept.
unfoldable pub first_error : ℕ → Option ℕ → Option ℕ
first_error seq none = some seq
first_error seq (some s) = some s

unfoldable pub check_hash : Primitives → String → ChainEntry → String → Walk → Walk
check_hash lib repo e h w =
    if computed lib repo w.prev_hash e == h
    then print (ok_line e.sequence) (record w { prev_hash = h })
    else print (fail_line e.sequence)
        (record w { prev_hash = h; verify_err = first_error e.sequence w.verify_err })

-- An entry of the branch.
unfoldable pub visit : Primitives → String → ChainEntry → Option String → Walk → Walk
visit lib repo e none w = print (skip_line e.sequence) (record w { prev_hash = genesis_hash })
visit lib repo e (some h) w =
    if w.found_first
    then check_hash lib repo e h w
    else print (ok_line e.sequence) (record w { found_first = true; prev_hash = h })

unfoldable pub walk : Primitives → String → String → List ChainEntry → Walk → Walk
walk lib repo branch [] w = w
walk lib repo branch (e ∷ es) w =
    walk lib repo branch es (if e.branch == branch then visit lib repo e e.commit_hash w else w)

-- Verify of the entries from 1 to the head: none is nil, and some is the sequence of the error that it
-- returns.
unfoldable pub verify : Primitives → String → String → List ChainEntry → Option ℕ
verify lib repo branch entries = (walk lib repo branch entries start).verify_err

-- How the check of Pull ends: the tip's hash to save, an error at a sequence, or nothing to check.
pub data Pulled : Type 0 where
  trusted : String → Pulled
  integrity_error : ℕ → Pulled
  nothing_new : Pulled

-- What an entry of the branch makes of the hash so far: none ends the loop with an error.
unfoldable pub next_hash : Primitives → String → ChainEntry → Option String → String → Option String
next_hash lib repo e none prev = some genesis_hash
next_hash lib repo e (some h) prev = if computed lib repo prev e == h then some h else none

unfoldable pub continue_with : ℕ → (String → Pulled) → Option String → Pulled
continue_with seq rest none = integrity_error seq
continue_with seq rest (some h) = rest h

-- The loop of Pull after the anchor; an entry of another branch is passed over.
unfoldable pub follow : Primitives → String → String → List ChainEntry → String → Pulled
follow lib repo branch [] prev = trusted prev
follow lib repo branch (e ∷ es) prev =
    continue_with e.sequence (λ h. follow lib repo branch es h)
      (if e.branch == branch then next_hash lib repo e e.commit_hash prev else some prev)

-- The anchor, which must have the hash that was stored, or none.
unfoldable pub follow_anchor :
    Primitives → String → String → String → ChainEntry → Option String → List ChainEntry → Pulled
follow_anchor lib repo branch stored anchor none es = follow lib repo branch es genesis_hash
follow_anchor lib repo branch stored anchor (some h) es =
    if h == stored then follow lib repo branch es stored else integrity_error anchor.sequence

-- The check of Pull with a stored hash, on the entries from the stored sequence to the new head.
unfoldable pub pull_chain : Primitives → String → String → String → ℕ → ℕ → List ChainEntry → Pulled
pull_chain lib repo branch stored old_sequence new_sequence entries =
    if nat_eq old_sequence new_sequence then nothing_new else elim entries [
      | [] ↦ nothing_new
      | anchor ∷ es ↦ follow_anchor lib repo branch stored anchor anchor.commit_hash es
    ]
