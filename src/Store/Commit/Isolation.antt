-- ===== src/Store/Commit/Isolation.antt =====
-- What other branches, and the past, show after a commit of internal/db/store.go.
use docstore.Base.{
  ℕ, ◌<◌, String, ◌≡◌, refl, sym, ap, ◌∙◌, ◌⊎◌, inl, inr, Bool, false, ◌&&◌, Option, none, some,
  List, arith, Bool-cases, Option-cases, ◌==◌, lt→leb,
}
use docstore.Store.Tables.{
  Db, Env, Branch, FileCommit, Result, ok, err, is_active, find_branch, with_tx, rolled_back,
}
use docstore.Store.Rows.{newest, visible, at_path, up_to, version_of, file_version}
use docstore.Store.Writes.{
  insert_commit, insert_file_commit, file_commit_row, update_branch, update_commit_hash,
}
use docstore.Store.Commit.{
  CommitRequest, Written, write_files, write_row, finish_commit, commit_body, commit_files,
}
use docstore.Store.Commit.Documents.{branches-write_files, write_files_keep}
use docstore.Store.Commit.Shows.{finished_base}
use docstore.Store.Invariant.{IsWf, find_branch-BranchBelow}
use docstore.Store.Lookup.{newest-skip, base_of, base_of_branches, shows, row_at, file_row-row_at}

abbrev pub is_same : CommitRequest → String → String → Bool
is_same req repo branch = req.repo == repo && req.branch == branch

and-false : (a b : Bool) → (a && (b && false)) ≡ false
and-false a b = ground arith

-- Where a commit to a branch is not seen: on another branch, or before its sequence.
abbrev pub Apart : CommitRequest → ℕ → String → String → Option ℕ → Type 0
Apart req seq repo branch at =
    ((is_same req repo branch) ≡ false) ⊎ ((k : ℕ) × (at ≡ some k) × (k < seq))

shows-new_row :
    (req : CommitRequest) (seq : ℕ) (repo branch : String) (at : Option ℕ) (base : ℕ)
    (path : String) (r : FileCommit)
    → Apart req seq repo branch at
    → base < seq
    → r.repo ≡ req.repo
    → r.branch ≡ req.branch
    → r.sequence ≡ seq
    → shows repo branch base path at r ≡ false
unfolding visible at_path up_to
shows-new_row req seq repo branch at base path r (inl other) lt e1 e2 e3 =
    ground (arith, lt→leb r.sequence base)
shows-new_row req seq repo branch at base path r (inr (k, e, past)) lt e1 e2 e3 =
    rw (e, lt→leb r.sequence k (omega (arith))) (and-false _ _)

-- The tables show a branch alike at a path.
abbrev Alike : String → String → String → Option ℕ → Db → Db → Type 0
Alike repo branch path at a b =
    file_version a repo branch path at ≡ file_version b repo branch path at

alike :
    (a b : Db) (repo branch path : String) (at : Option ℕ)
    → row_at repo branch path at a.file_commits (base_of (find_branch repo branch a))
      ≡ row_at repo branch path at b.file_commits (base_of (find_branch repo branch b))
    → Alike repo branch path at a b
unfolding file_version
alike a b repo branch path at e =
    ap version_of
      (file_row-row_at a repo branch path at ∙ (e ∙ sym (file_row-row_at b repo branch path at)))

module _ (env : Env) (req : CommitRequest) (seq : ℕ) (repo branch path : String) (at : Option ℕ)
    (base : ℕ) (apart : Apart req seq repo branch at) (lt : base < seq) where
  newest-apart :
      (w : Written) (db : Db)
      → newest (shows repo branch base path at) (write_row env req seq w db).file_commits
        ≡ newest (shows repo branch base path at) db.file_commits
  unfolding write_row insert_file_commit file_commit_row
  newest-apart w db =
      newest-skip (shows repo branch base path at) _ db.file_commits
        (shows-new_row req seq repo branch at base path _ apart lt refl refl refl)

  newest-write_files_apart :
      (db : Db)
      → newest
          (shows repo branch base path at)
          (write_files env req seq req.files db).1.file_commits
        ≡ newest (shows repo branch base path at) db.file_commits
  newest-write_files_apart db =
      write_files_keep env req seq
        (λ d.
          newest (shows repo branch base path at) d.file_commits
          ≡ newest (shows repo branch base path at) db.file_commits)
        (λ d d' s h. ap (newest (shows repo branch base path at)) s.rows ∙ h)
        (λ w d h. newest-apart w d ∙ h) req.files db refl

-- The rows of a commit's loop change nothing that a branch shows apart from it.
rows-Alike :
    (env : Env) (req : CommitRequest) (seq : ℕ) (repo branch path : String) (at base : Option ℕ)
    (db : Db)
    → Apart req seq repo branch at
    → ((n : ℕ) → base ≡ some n → n < seq)
    → row_at repo branch path at (write_files env req seq req.files db).1.file_commits base
      ≡ row_at repo branch path at db.file_commits base
rows-Alike env req seq repo branch path at none db apart lt = refl
rows-Alike env req seq repo branch path at (some n) db apart lt =
    newest-write_files_apart env req seq repo branch path at n apart (lt n refl) db

module _ (env : Env) (now : ℕ) (req : CommitRequest) (seq : ℕ) (repo branch path : String)
    (at : Option ℕ) where
  finish_commit-Alike :
      (db : Db) (o : Result (List Written) × Db)
      → o.1.branches ≡ db.branches
      → row_at repo branch path at o.1.file_commits (base_of (find_branch repo branch db))
        ≡ row_at repo branch path at db.file_commits (base_of (find_branch repo branch db))
      → Alike repo branch path at (with_tx db (finish_commit env now req seq o)).1 db
  unfolding finish_commit with_tx update_branch update_commit_hash
  finish_commit-Alike db (err e, d) same rows =
      alike _ db repo branch path at
        (ap (row_at repo branch path at db.file_commits) (base_of_branches _ db repo branch refl))
  finish_commit-Alike db (ok ws, d) same rows = alike _ db repo branch path at (
      ap (row_at repo branch path at d.file_commits)
        (finished_base req.repo req.branch repo branch seq _ d db same)
      ∙ rows)

base_below :
    (db : Db) (repo branch : String) (o : Option Branch) (n : ℕ)
    → IsWf db
    → find_branch repo branch db ≡ o
    → base_of o ≡ some n
    → n < db.next_sequence
base_below db repo branch none n w e h = cc
base_below db repo branch (some b) n w e h =
    ground (arith, find_branch-BranchBelow repo branch db b w e)

-- A commit, successful or not, changes nothing that is shown at any path on another branch, of the
-- same repo or another, and nothing that its own branch shows at a sequence given out before.
pub file_version-commit-Apart :
    (env : Env) (now : ℕ) (req : CommitRequest) (db : Db) (repo branch path : String)
    (at : Option ℕ)
    → IsWf db
    → Apart req db.next_sequence repo branch at
    → file_version (commit_files env now req db).1 repo branch path at
      ≡ file_version db repo branch path at
unfolding commit_files commit_body insert_commit with_tx rolled_back
file_version-commit-Apart env now req db repo branch path at w apart =
    elim (Option-cases (find_branch req.repo req.branch db)) [
      | inl e ↦ rw (e, commit_body) unchanged
      | inr (b, e) ↦ elim (Bool-cases (is_active b.status)) [
        | inl a ↦
            rw (e, commit_body)
              (rw a (
                finish_commit-Alike env now req db.next_sequence repo branch path at db _
                  (branches-write_files env req db.next_sequence req.files _)
                  (rows-Alike env req db.next_sequence repo branch path at
                    (base_of (find_branch repo branch db))
                    (insert_commit db req.repo req.branch req.message req.author now) apart
                    (λ n h. base_below db repo branch _ n w refl h))))
        | inr a ↦ rw (e, commit_body) (rw a unchanged)
      ]
    ]
  where
    unchanged : Alike repo branch path at (rolled_back db db) db
    unchanged =
        alike _ db repo branch path at
          (ap (row_at repo branch path at db.file_commits) (base_of_branches _ db repo branch refl))
