-- ===== src/Store/Commit/Shows.antt =====
-- What every branch shows after a commit of internal/db/store.go.
use docstore.Base.{ℕ, String, ◌≡◌, refl, ◌∙◌, none, ◌==◌}
use docstore.Base.Sorting.{OnlyOne}
use docstore.Store.Tables.{Db, Result, ok, err, is_branch, find_branch}
use docstore.Store.Rows.{file_version}
use docstore.Store.Writes.{insert_commit, update_branch, set_head, update_commit_hash}
use docstore.Store.Commit.{FileChange, CommitRequest, CommitResponse}
use docstore.Store.Commit.Reads.{committed}
use docstore.Store.Lookup.{base_of, base_of_branches, base-update_branch}

pub finished_base :
    (repo branch repo' branch' : String) (seq : ℕ) (hash : String) (d db : Db)
    → d.branches ≡ db.branches
    → base_of (
        find_branch repo' branch'
          (update_commit_hash (update_branch repo branch (set_head seq) d) repo seq hash))
      ≡ base_of (find_branch repo' branch' db)
unfolding update_commit_hash set_head is_branch
finished_base repo branch repo' branch' seq hash d db e =
    base_of_branches _ _ repo' branch' refl
    ∙ (base-update_branch repo branch repo' branch' (set_head seq) d (λ b. refl) (λ b. refl)
        ∙ base_of_branches d db repo' branch' e)

abbrev Shown : Db → CommitRequest → Result CommitResponse × Db → Type 0
Shown db req (ok resp, after) =
    (path : String)
    → OnlyOne (λ (c : FileChange). c.path == path) req.files
    → file_version after req.repo req.branch path none
      ≡ committed path resp.files (file_version db req.repo req.branch path none)
Shown db req (err e, after) = Unit

-- insert_commit leaves branches and rows alone.
pub begun_branches :
    (db : Db) (repo branch message author : String) (now : ℕ)
    → (insert_commit db repo branch message author now).branches ≡ db.branches
unfolding insert_commit
begun_branches db repo branch message author now = refl
