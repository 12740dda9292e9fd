-- ===== src/Store/Invariant/Reach.antt =====
-- Sequences of calls of the store of internal/db/store.go, failing ones included.
use docstore.Base.{
  ℕ, ◌≤◌, ◌<◌, String, inl, inr, Bool, ◌&&◌, Option, none, some, List, [], ◌∷◌, ◌++◌, All,
  All-append, All-map, arith, Option-cases, ◌==◌,
}
use docstore.Store.Tables.{Db, Env, Branch, Review, is_active, find_branch, abandoned}
use docstore.Store.Writes.{update_branch}
use docstore.Store.Commit.{CommitRequest, commit_files}
use docstore.Store.Branches.{
  CreateBranchRequest, new_branch, insert_branch, fork_main, create_branch, set_draft,
  set_auto_merge, update_if_found, update_branch_draft, set_branch_auto_merge, abandon,
  delete_branch, has_authored, review_branch, create_review,
}
use docstore.Store.Merge.{MergeRequest, merge}
use docstore.Store.Rebase.{RebaseRequest, rebase}
use docstore.Store.Invariant.{
  IsWf, Extends, Extends-refl, update_branch-Extends, with_tx-Extends, find_branch-BranchBelow,
}
use docstore.Store.Invariant.Within.{if-Extends, set_status-Extends}
use docstore.Store.Invariant.Commits.{commit_files-Extends}
use docstore.Store.Invariant.Answers.{sequences, sequences-commit_files, sequences-merge}
use docstore.Store.Invariant.Merges.{merge-Extends, rebase-Extends}

insert_branch-Extends :
    (req : CreateBranchRequest) (main_head : ℕ) (o : Option Branch) (db : Db)
    → main_head < db.next_sequence
    → Extends db (insert_branch req main_head o db).1
unfolding insert_branch new_branch
insert_branch-Extends req main_head (some b) db h = Extends-refl db
insert_branch-Extends req main_head none db h = record {
  wf =
      λ w. record { rows = w.rows; commits = w.commits; branches = ((omega arith, h), w.branches) };
  grows = omega arith;
}

fork_main-Extends :
    (req : CreateBranchRequest) (db : Db)
    → IsWf db
    → Extends db (fork_main req (find_branch req.repo "main" db) db).1
unfolding fork_main
fork_main-Extends req db w = elim (Option-cases (find_branch req.repo "main" db)) [
  | inl e ↦ rw (e, fork_main) (Extends-refl db)
  | inr (main, e) ↦
      rw (e, fork_main)
        (insert_branch-Extends req main.head_sequence _ db
          (find_branch-BranchBelow req.repo "main" db main w e).1)
]

create_branch-Extends :
    (req : CreateBranchRequest) (db : Db) → IsWf db → Extends db (create_branch req db).1
unfolding create_branch
create_branch-Extends req db w = with_tx-Extends db _ (fork_main-Extends req db w)

update_if_found-Extends :
    (repo name : String) (change : Branch → Branch) (db : Db)
    → Extends db (update_branch repo name change db)
    → Extends db (update_if_found repo name change db).1
unfolding update_if_found
update_if_found-Extends repo name change db x = elim (Option-cases (find_branch repo name db)) [
  | inl e ↦ rw (e, update_if_found) x
  | inr (b, e) ↦ rw (e, update_if_found) x
]

update_branch_draft-Extends :
    (repo name : String) (draft : Bool) (db : Db)
    → Extends db (update_branch_draft repo name draft db).1
unfolding update_branch_draft set_draft
update_branch_draft-Extends repo name draft db =
    update_if_found-Extends repo name (set_draft draft) db
      (update_branch-Extends repo name (set_draft draft) db (λ b h. h))

set_branch_auto_merge-Extends :
    (repo name : String) (on : Bool) (db : Db)
    → Extends db (set_branch_auto_merge repo name on db).1
unfolding set_branch_auto_merge set_auto_merge
set_branch_auto_merge-Extends repo name on db =
    update_if_found-Extends repo name (set_auto_merge on) db
      (update_branch-Extends repo name (set_auto_merge on) db (λ b h. h))

abandon-Extends :
    (repo name : String) (o : Option Branch) (db : Db) → Extends db (abandon repo name o db).1
unfolding abandon
abandon-Extends repo name none db = Extends-refl db
abandon-Extends repo name (some b) db =
    if-Extends db (is_active b.status) _ _ (set_status-Extends repo name abandoned db)
      (Extends-refl db)

delete_branch-Extends : (repo name : String) (db : Db) → Extends db (delete_branch repo name db).1
unfolding delete_branch
delete_branch-Extends repo name db =
    if-Extends db (name == "main") _ _ (Extends-refl db)
      (with_tx-Extends db _ (abandon-Extends repo name _ db))

-- A new row of `reviews` concerns no other table.
reviewed-Extends :
    (db : Db) (rs : List Review) (k : ℕ) → Extends db (record db { reviews = rs; drawn = k })
reviewed-Extends db rs k = record {
  wf = λ w. record { rows = w.rows; commits = w.commits; branches = w.branches };
  grows = omega arith;
}

review_branch-Extends :
    (env : Env) (db : Db) (repo branch reviewer status body : String) (o : Option Branch)
    → Extends db (review_branch env db repo branch reviewer status body o).1
unfolding review_branch
review_branch-Extends env db repo branch reviewer status body none =
    reviewed-Extends db db.reviews _
review_branch-Extends env db repo branch reviewer status body (some b) =
    if-Extends db (status == "approved" && has_authored db repo branch b.base_sequence reviewer) _ _
      (reviewed-Extends db db.reviews _) (reviewed-Extends db _ _)

create_review-Extends :
    (env : Env) (repo branch reviewer status body : String) (db : Db)
    → Extends db (create_review env repo branch reviewer status body db).1
unfolding create_review
create_review-Extends env repo branch reviewer status body db =
    with_tx-Extends db _ (review_branch-Extends env db repo branch reviewer status body _)

-- A call of the store, with the time at which its transaction starts.
pub data Call : Type 0 where
  commits : ℕ → CommitRequest → Call
  creates_branch : CreateBranchRequest → Call
  sets_draft sets_auto_merge : String → String → Bool → Call
  merges : ℕ → MergeRequest → Call
  rebases : ℕ → RebaseRequest → Call
  deletes_branch : String → String → Call
  -- the repo, branch, reviewer, status and body
  reviews : String → String → String → String → String → Call

unfoldable pub step : Env → Call → Db → Db
step env (commits now req) db = (commit_files env now req db).1
step env (creates_branch req) db = (create_branch req db).1
step env (sets_draft repo name draft) db = (update_branch_draft repo name draft db).1
step env (sets_auto_merge repo name on) db = (set_branch_auto_merge repo name on db).1
step env (merges now req) db = (merge env now req db).1
step env (rebases now req) db = (rebase env now req db).1
step env (deletes_branch repo name) db = (delete_branch repo name db).1
step env (reviews repo branch reviewer status body) db =
    (create_review env repo branch reviewer status body db).1

pub step-Extends : (env : Env) (c : Call) (db : Db) → IsWf db → Extends db (step env c db)
unfolding step
step-Extends env (commits now req) db w = commit_files-Extends env now req db
step-Extends env (creates_branch req) db w = create_branch-Extends req db w
step-Extends env (sets_draft repo name draft) db w = update_branch_draft-Extends repo name draft db
step-Extends env (sets_auto_merge repo name on) db w = set_branch_auto_merge-Extends repo name on db
step-Extends env (merges now req) db w = merge-Extends env now req db
step-Extends env (rebases now req) db w = rebase-Extends env now req db w
step-Extends env (deletes_branch repo name) db w = delete_branch-Extends repo name db
step-Extends env (reviews repo branch reviewer status body) db w =
    create_review-Extends env repo branch reviewer status body db

unfoldable pub run : Env → List Call → Db → Db
run env [] db = db
run env (c ∷ cs) db = run env cs (step env c db)

-- The sequences that the answer of a call names, and those of a run: a commit's and a merge's, dry
-- runs included.
abbrev pub answered : Env → Call → Db → List ℕ
answered env (commits now req) db = sequences (λ r. r.sequence) (commit_files env now req db)
answered env (creates_branch req) db = []
answered env (sets_draft repo name draft) db = []
answered env (sets_auto_merge repo name on) db = []
answered env (merges now req) db = sequences (λ r. r.sequence) (merge env now req db)
answered env (rebases now req) db = []
answered env (deletes_branch repo name) db = []
answered env (reviews repo branch reviewer status body) db = []

abbrev pub all_answered : Env → List Call → Db → List ℕ
all_answered env [] db = []
all_answered env (c ∷ cs) db = answered env c db ++ all_answered env cs (step env c db)

answered_below :
    (env : Env) (c : Call) (db : Db)
    → IsWf db
    → All (λ s. s < (step env c db).next_sequence) (answered env c db)
unfolding step
answered_below env (commits now req) db w = sequences-commit_files env now req db
answered_below env (creates_branch req) db w = tt
answered_below env (sets_draft repo name draft) db w = tt
answered_below env (sets_auto_merge repo name on) db w = tt
answered_below env (merges now req) db w = sequences-merge env now req db w
answered_below env (rebases now req) db w = tt
answered_below env (deletes_branch repo name) db w = tt
answered_below env (reviews repo branch reviewer status body) db w = tt

pub run-IsWf :
    (env : Env) (cs : List Call) (db : Db)
    → IsWf db
    → IsWf (run env cs db)
      × ((db.next_sequence ≤ (run env cs db).next_sequence)
          × All (λ s. s < (run env cs db).next_sequence) (all_answered env cs db))
unfolding run
run-IsWf env [] db w = (w, (omega arith, tt))
run-IsWf env (c ∷ cs) db w =
    let x = step-Extends env c db w in
    let (v, (le, below)) = run-IsWf env cs (step env c db) (x.wf w) in
    (
      v,
      (
        omega (arith, x.grows, le),
        All-append _ (answered env c db) _
            (All-map _ _ (answered env c db) (λ s h. omega (arith, h, le))
              (answered_below env c db w))
            below,
      ),
    )
