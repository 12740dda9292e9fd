-- ===== src/Store/Merge/Closed.antt =====
-- The branch after Merge of internal/db/store.go, and Commit to it.
use docstore.Base.{
  ℕ, String, ◌≡◌, ◌∙◌, refl, sym, ap, subst, inl, inr, Bool, true, false, some, List, [], ◌∷◌,
  Bool-cases, first, if◌then◌else◌,
}
use docstore.Store.Tables.{
  Db, Env, Branch, FileCommit, MergeConflict, Result, ok, err, branch_not_active, merged, is_active,
  with_tx, is_branch, find_branch,
}
use docstore.Store.Writes.{insert_commit, update_branch, set_head, set_status, update_commit_hash}
use docstore.Store.Commit.{CommitRequest, commit_body, commit_files}
use docstore.Store.Merge.{
  MergeRequest, MergeResponse, conclude, merged_rows, apply_merge, merge_unless_conflict,
  merge_changes, merge_branch, merge,
}
use docstore.Store.Lookup.{updated, find_branch-update}
use docstore.Store.Merge.Copies.{branches-copy_changes}
use docstore.Store.Merge.ThreeWay.{merge_body-found}

-- The branch is there and takes no more commits.
abbrev pub Closed : Db → String → String → Type 0
Closed db repo name =
    (b : Branch) × ((find_branch repo name db ≡ some b) × (is_active b.status ≡ false))

abbrev Found : Db → String → String → Type 0
Found db repo name = (b : Branch) × (find_branch repo name db ≡ some b)

first-passes :
    (p : Branch → Bool) (bs : List Branch) (b : Branch) → first p bs ≡ some b → p b ≡ true
first-passes p [] b e = cc
first-passes p (x ∷ xs) b e = elim (Bool-cases (p x)) [
  | inl t ↦ subst (λ y. p y ≡ true) {x = x} {y = b} (cc (rw t at e)) t
  | inr t ↦ first-passes p xs b (rw t at e)
]

pub find_branch-passes :
    (repo name : String) (db : Db) (b : Branch)
    → find_branch repo name db ≡ some b
    → is_branch repo name b ≡ true
unfolding find_branch
find_branch-passes repo name db b e = first-passes (is_branch repo name) db.branches b e

set_status-Closed :
    (repo name : String) (db : Db)
    → Found db repo name
    → Closed (update_branch repo name (set_status merged) db) repo name
unfolding set_status is_branch is_active
set_status-Closed repo name db (b, e) = (
  set_status merged b,
  (
    find_branch-update repo name (set_status merged) db repo name (λ x. refl)
        ∙ ap (updated (is_branch repo name) (set_status merged)) e
        ∙ ap (λ t. some (if t then set_status merged b else b))
            (find_branch-passes repo name db b e),
    refl,
  ),
)

set_status-Found :
    (repo name other : String) (db : Db)
    → Found db repo other
    → Found (update_branch repo name (set_status merged) db) repo other
unfolding set_status is_branch
set_status-Found repo name other db (b, e) = (
  (if is_branch repo name b then set_status merged b else b),
  find_branch-update repo name (set_status merged) db repo other (λ x. refl)
      ∙ ap (updated (is_branch repo name) (set_status merged)) e,
)

set_head-Found :
    (repo name main : String) (seq : ℕ) (db : Db)
    → Found db repo name
    → Found (update_branch repo main (set_head seq) db) repo name
unfolding set_head is_branch
set_head-Found repo name main seq db (b, e) = (
  (if is_branch repo main b then set_head seq b else b),
  find_branch-update repo main (set_head seq) db repo name (λ x. refl)
      ∙ ap (updated (is_branch repo main) (set_head seq)) e,
)

find_branch-branches :
    (a b : Db) (repo name : String)
    → a.branches ≡ b.branches
    → find_branch repo name a ≡ find_branch repo name b
unfolding find_branch
find_branch-branches a b repo name e = ap (first (is_branch repo name)) e

-- The branch is there and closed, and main is there.
abbrev Ended : Db → String → String → Type 0
Ended db repo name = Closed db repo name × Found db repo "main"

set_status-Ended :
    (repo name : String) (db : Db)
    → Found db repo name
    → Found db repo "main"
    → Ended (update_branch repo name (set_status merged) db) repo name
set_status-Ended repo name db found main =
    (set_status-Closed repo name db found, set_status-Found repo name "main" db main)

merged_rows-Ended :
    (env : Env) (now : ℕ) (req : MergeRequest) (changes : List FileCommit) (db : Db)
    → Found db req.repo req.branch
    → Found db req.repo "main"
    → Ended (merged_rows env now req changes db) req.repo req.branch
unfolding merged_rows insert_commit
merged_rows-Ended env now req changes db (b, e) (main, f) =
    let same = branches-copy_changes env req.repo db.next_sequence "main" changes _ in
    set_status-Ended req.repo req.branch _
      (set_head-Found req.repo req.branch "main" db.next_sequence _
        (b, find_branch-branches _ db req.repo req.branch same ∙ e))
      (set_head-Found req.repo "main" "main" db.next_sequence _
        (main, find_branch-branches _ db req.repo "main" same ∙ f))

update_commit_hash-Ended :
    (db : Db) (repo name repo' : String) (seq : ℕ) (hash : String)
    → Ended db repo name
    → Ended (update_commit_hash db repo' seq hash) repo name
unfolding update_commit_hash find_branch
update_commit_hash-Ended db repo name repo' seq hash h = h

-- What a merge leaves of its branch, if it succeeds.
abbrev Closes : MergeRequest → Result MergeResponse × Db → Type 0
Closes req (ok resp, after) = Ended after req.repo req.branch
Closes req (err x, after) = Unit

module _ (env : Env) (now : ℕ) (req : MergeRequest) (db : Db) (main b : Branch)
    (found : find_branch req.repo "main" db ≡ some main)
    (e : find_branch req.repo req.branch db ≡ some b) (wet : req.dry_run ≡ false) where
  merge_unless_conflict-Closes :
      (changes : List FileCommit) (conflicts : List MergeConflict)
      → Closes req (with_tx db (merge_unless_conflict env now req changes conflicts db))
  unfolding merge_unless_conflict apply_merge conclude with_tx
  merge_unless_conflict-Closes changes [] = simp wet (
      update_commit_hash-Ended _ req.repo req.branch req.repo db.next_sequence _
        (merged_rows-Ended env now req changes db (b, e) (main, found)))
  merge_unless_conflict-Closes changes (c ∷ cs) = tt

  merge_changes-Closes :
      (changes : List FileCommit)
      → Closes req (with_tx db (merge_changes env now req main b changes db))
  unfolding merge_changes conclude with_tx
  merge_changes-Closes [] = simp wet (set_status-Ended req.repo req.branch db (b, e) (main, found))
  merge_changes-Closes (r ∷ rs) = merge_unless_conflict-Closes (r ∷ rs) _

  merge-Closes : Closes req (merge env now req db)
  unfolding merge
  merge-Closes =
      rw (merge_body-found env now req db main b found e)
        (merge_branch-Closes (is_active b.status) refl b.draft refl)
    where
      merge_branch-Closes :
          (live : Bool)
          → is_active b.status ≡ live
          → (draft : Bool) → b.draft ≡ draft
          → Closes req (with_tx db (merge_branch env now req main (some b) db))
      merge_branch-Closes true a true t = unfold merge_branch with_tx in simp (a, t) tt
      merge_branch-Closes true a false t =
          unfold merge_branch in simp (a, t) (merge_changes-Closes _)
      merge_branch-Closes false a _ t = unfold merge_branch with_tx in simp a tt

commit_files-Closed :
    (env : Env) (now : ℕ) (req : CommitRequest) (db : Db)
    → Closed db req.repo req.branch
    → (commit_files env now req db).0 ≡ err branch_not_active
unfolding commit_files commit_body with_tx
commit_files-Closed env now req db (b, (e, done)) = rw (e, commit_body) (rw done refl)

merge-Ended :
    (env : Env) (now : ℕ) (req : MergeRequest) (db : Db)
    → Ended db req.repo req.branch
    → (merge env now req db).0 ≡ err branch_not_active
unfolding merge merge_branch with_tx
merge-Ended env now req db ((b, (e, done)), (main, f)) =
    rw (merge_body-found env now req db main b f e) (rw (done, merge_branch) refl)

-- A branch is merged once: after a successful merge that is no dry run, the branch is there and no
-- longer active, and a commit to it, whatever its files, and a second merge of it, real or a dry
-- run, are refused with ErrBranchNotActive.
pub merge-Closed :
    (env : Env) (now : ℕ) (req : MergeRequest) (db after : Db) (resp : MergeResponse)
    (main b : Branch)
    → find_branch req.repo "main" db ≡ some main
    → find_branch req.repo req.branch db ≡ some b
    → req.dry_run ≡ false
    → merge env now req db ≡ (ok resp, after)
    → Closed after req.repo req.branch
      × (((later : ℕ) (commit_req : CommitRequest)
            → commit_req.repo ≡ req.repo
            → commit_req.branch ≡ req.branch
            → (commit_files env later commit_req after).0 ≡ err branch_not_active)
          × ((later : ℕ) (again : MergeRequest)
              → again.repo ≡ req.repo
              → again.branch ≡ req.branch
              → (merge env later again after).0 ≡ err branch_not_active))
merge-Closed env now req db after resp main b found e wet done =
    let ended = subst (Closes req) done (merge-Closes env now req db main b found e wet) in
    (
      ended.0,
      (
        λ later commit_req same_repo same_branch. commit_files-Closed env later commit_req after (
            subst (λ r. Closed after r commit_req.branch) (sym same_repo)
              (subst (λ n. Closed after req.repo n) (sym same_branch) ended.0)),
        λ later again same_repo same_branch. merge-Ended env later again after (
            subst (λ r. Ended after r again.branch) (sym same_repo)
              (subst (λ n. Ended after req.repo n) (sym same_branch) ended)),
      ),
    )
