-- ===== src/Store/Rebase.antt =====
-- Store.Rebase of internal/db/store.go.
pub mod Groups
use Prim.Native.String.{◌++◌ as text_append}
use docstore.Base.{
  ℕ, String, Bool, ◌&&◌, ◌||◌, Option, none, some, List, [], ◌∷◌, ◌==◌, ltb, nat_eq, length, keep,
  if◌then◌else◌,
}
use docstore.Base.Order.{text_leb}
use docstore.Store.Tables.{
  Db, Env, Branch, FileCommit, MergeConflict, Outcome, commit, fail, Result, err, branch_not_found,
  branch_not_active, rebase_conflict, failed, is_active, find_branch, with_tx,
}
use docstore.Store.Rows.{changed_since, latest_changes}
use docstore.Store.Writes.{
  insert_commit, update_branch, set_base_and_head, update_commit_hash, chain_hash,
}
use docstore.Store.Merge.{find_conflicts, copy_changes, changes_to_hash}

pub record RebaseRequest : Type 0 where
  pub repo : String
  pub branch : String
  pub author : String

pub record RebaseResponse : Type 0 where
  pub new_base_sequence : ℕ
  pub new_head_sequence : ℕ
  pub commits_replayed : ℕ

-- The rows of one commit.
pub record RebaseGroup : Type 0 where
  pub seq : ℕ
  pub files : List FileCommit

-- ORDER BY sequence ASC, path ASC
unfoldable pub row_leb : FileCommit → FileCommit → Bool
row_leb r q = ltb r.sequence q.sequence || (nat_eq r.sequence q.sequence && text_leb r.path q.path)

unfoldable pub insert_row : FileCommit → List FileCommit → List FileCommit
insert_row r [] = r ∷ []
insert_row r (q ∷ qs) = let rest = insert_row r qs in if row_leb r q then r ∷ (q ∷ qs) else q ∷ rest

unfoldable pub sort_rows : List FileCommit → List FileCommit
sort_rows [] = []
sort_rows (r ∷ rs) = insert_row r (sort_rows rs)

unfoldable pub add_to_group : FileCommit → List RebaseGroup → List RebaseGroup
add_to_group r [] = record { seq = r.sequence; files = r ∷ [] } ∷ []
add_to_group r (g ∷ gs) =
    if nat_eq g.seq r.sequence
    then record g { files = r ∷ g.files } ∷ gs
    else record { seq = r.sequence; files = r ∷ [] } ∷ (g ∷ gs)

-- Neighbours with one sequence form a group.
unfoldable pub group_rows : List FileCommit → List RebaseGroup
group_rows [] = []
group_rows (r ∷ rs) = add_to_group r (group_rows rs)

unfoldable pub branch_commit_groups : Db → String → String → ℕ → List RebaseGroup
branch_commit_groups db repo branch base =
    group_rows (sort_rows (keep (changed_since repo branch base) db.file_commits))

unfoldable pub author_or_system : String → String
author_or_system author = if author == "" then "system" else author

unfoldable pub rebase_message : Env → ℕ → String
rebase_message env seq = text_append "rebase: replay sequence " (env.lib.format_int seq)

-- One replayed commit, with its rows and its hash.
unfoldable pub replay_group : Env → ℕ → RebaseRequest → RebaseGroup → Db → Db
replay_group env now req g db =
    let seq = db.next_sequence in
    let author = author_or_system req.author in
    let message = rebase_message env g.seq in
    let db' =
      copy_changes env req.repo seq req.branch g.files
        (insert_commit db req.repo req.branch message author now) in
    update_commit_hash db' req.repo seq
      (chain_hash env db' req.repo req.branch seq author message now (changes_to_hash db' g.files))

-- The loop over the groups: the last sequence that it gave out, and the tables.
unfoldable pub replay : Env → ℕ → RebaseRequest → List RebaseGroup → ℕ → Db → ℕ × Db
replay env now req [] last db = (last, db)
replay env now req (g ∷ gs) last db =
    replay env now req gs db.next_sequence (replay_group env now req g db)

unfoldable pub finish_rebase : RebaseRequest → ℕ → ℕ → ℕ × Db → Outcome RebaseResponse × Db
finish_rebase req main_head count (last, db) = (
  commit (record {
    new_base_sequence = main_head;
    new_head_sequence = last;
    commits_replayed = count;
  }),
  update_branch req.repo req.branch (set_base_and_head main_head last) db,
)

unfoldable pub replay_unless_conflict :
    Env
    → ℕ
    → RebaseRequest
    → ℕ
    → List RebaseGroup
    → List MergeConflict
    → Db
    → Outcome RebaseResponse × Db
replay_unless_conflict env now req main_head groups [] db =
    finish_rebase req main_head (length groups) (replay env now req groups 0 db)
replay_unless_conflict env now req main_head groups (c ∷ cs) db =
    (fail (rebase_conflict (c ∷ cs)), db)

unfoldable pub rebase_changes :
    Env → ℕ → RebaseRequest → ℕ → Branch → List FileCommit → Db → Outcome RebaseResponse × Db
rebase_changes env now req main_head b [] db = finish_rebase req main_head 0 (main_head, db)
rebase_changes env now req main_head b (r ∷ rs) db =
    replay_unless_conflict env now req main_head
      (branch_commit_groups db req.repo req.branch b.base_sequence)
      (find_conflicts (r ∷ rs) (latest_changes db req.repo "main" b.base_sequence)) db

unfoldable pub rebase_branch :
    Env → ℕ → RebaseRequest → ℕ → Option Branch → Db → Outcome RebaseResponse × Db
rebase_branch env now req main_head none db = (fail branch_not_found, db)
rebase_branch env now req main_head (some b) db =
    if is_active b.status
    then rebase_changes env now req main_head b
        (latest_changes db req.repo req.branch b.base_sequence) db
    else (fail branch_not_active, db)

unfoldable pub rebase_body : Env → ℕ → RebaseRequest → Db → Outcome RebaseResponse × Db
rebase_body env now req db = elim (find_branch req.repo "main" db) [
  | none ↦ (fail (failed "lock main"), db)
  | some main ↦ rebase_branch env now req main.head_sequence (find_branch req.repo req.branch db) db
]

unfoldable pub rebase : Env → ℕ → RebaseRequest → Db → Result RebaseResponse × Db
rebase env now req db =
    if req.branch == "main"
    then (err branch_not_active, db)
    else with_tx db (rebase_body env now req db)
