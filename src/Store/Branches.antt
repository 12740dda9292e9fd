-- ===== src/Store/Branches.antt =====
-- CreateBranch, UpdateBranchDraft, SetBranchAutoMerge, DeleteBranch and CreateReview of
-- internal/db/store.go.
pub mod Reviews
use docstore.Base.{
  ℕ, ◌+◌, String, Bool, false, ◌&&◌, Option, none, some, ◌∷◌, ◌==◌, ltb, some_item, if◌then◌else◌,
}
use docstore.Store.Tables.{
  Db, Env, Branch, Commit, Review, active, abandoned, Outcome, commit, fail, Result, ok, err,
  branch_not_found, branch_not_active, branch_exists, repo_not_found, self_approval, is_active,
  find_branch, with_tx,
}
use docstore.Store.Writes.{update_branch, set_status}

pub record CreateBranchRequest : Type 0 where
  pub repo : String
  pub name : String
  pub draft : Bool

pub record CreateBranchResponse : Type 0 where
  pub name : String
  pub base_sequence : ℕ
  pub draft : Bool

unfoldable pub new_branch : CreateBranchRequest → ℕ → Branch
new_branch req main_head = record {
  repo = req.repo;
  name = req.name;
  head_sequence = main_head;
  base_sequence = main_head;
  status = active;
  draft = req.draft;
  auto_merge = false;
}

unfoldable pub insert_branch :
    CreateBranchRequest → ℕ → Option Branch → Db → Outcome CreateBranchResponse × Db
insert_branch req main_head (some b) db = (fail branch_exists, db)
insert_branch req main_head none db = (
  commit (record { name = req.name; base_sequence = main_head; draft = req.draft }),
  record db { branches = new_branch req main_head ∷ db.branches },
)

unfoldable pub fork_main :
    CreateBranchRequest → Option Branch → Db → Outcome CreateBranchResponse × Db
fork_main req none db = (fail repo_not_found, db)
fork_main req (some main) db =
    insert_branch req main.head_sequence (find_branch req.repo req.name db) db

-- The head of main is read before the unique key refuses a name that is taken.
unfoldable pub create_branch : CreateBranchRequest → Db → Result CreateBranchResponse × Db
create_branch req db = with_tx db (fork_main req (find_branch req.repo "main" db) db)

unfoldable pub set_draft : Bool → Branch → Branch
set_draft draft b = record b { draft = draft }

unfoldable pub set_auto_merge : Bool → Branch → Branch
set_auto_merge auto_merge b = record b { auto_merge = auto_merge }

-- An UPDATE that reports whether it met the row.
unfoldable pub update_if_found : String → String → (Branch → Branch) → Db → Result (Unit {0}) × Db
update_if_found repo name change db = elim (find_branch repo name db) [
  | none ↦ (err branch_not_found, update_branch repo name change db)
  | some b ↦ (ok tt, update_branch repo name change db)
]

unfoldable pub update_branch_draft : String → String → Bool → Db → Result (Unit {0}) × Db
update_branch_draft repo name draft db = update_if_found repo name (set_draft draft) db

unfoldable pub set_branch_auto_merge : String → String → Bool → Db → Result (Unit {0}) × Db
set_branch_auto_merge repo name auto_merge db =
    update_if_found repo name (set_auto_merge auto_merge) db

unfoldable pub abandon : String → String → Option Branch → Db → Outcome (Unit {0}) × Db
abandon repo name none db = (fail branch_not_found, db)
abandon repo name (some b) db =
    if is_active b.status
    then (commit tt, update_branch repo name (set_status abandoned) db)
    else (fail branch_not_active, db)

unfoldable pub delete_branch : String → String → Db → Result (Unit {0}) × Db
delete_branch repo name db =
    if name == "main"
    then (err branch_not_active, db)
    else with_tx db (abandon repo name (find_branch repo name db) db)

-- WHERE repo = $1 AND branch = $2 AND sequence > $3 AND author = $4
unfoldable pub authored_since : String → String → ℕ → String → Commit → Bool
authored_since repo branch base author c =
    c.repo == repo && (c.branch == branch && (ltb base c.sequence && c.author == author))

unfoldable pub new_review : Env → Db → String → String → String → ℕ → String → String → Review
new_review env db repo branch reviewer seq status body = record {
  id = env.uuid db.drawn;
  repo = repo;
  branch = branch;
  reviewer = reviewer;
  sequence = seq;
  status = status;
  body = if body == "" then none else some body;
}

-- The reviewer wrote one of the commits of the branch since its base.
unfoldable pub has_authored : Db → String → String → ℕ → String → Bool
has_authored db repo branch base reviewer =
    some_item (authored_since repo branch base reviewer) db.commits

-- A review stands at the head of its branch; its id is drawn before the transaction begins.
unfoldable pub review_branch :
    Env → Db → String → String → String → String → String → Option Branch → Outcome Review × Db
review_branch env db repo branch reviewer status body none =
    (fail branch_not_found, record db { drawn = db.drawn + 1 })
review_branch env db repo branch reviewer status body (some b) =
    if status == "approved" && has_authored db repo branch b.base_sequence reviewer
    then (fail self_approval, record db { drawn = db.drawn + 1 })
    else (let review = new_review env db repo branch reviewer b.head_sequence status body in
        (commit review, record db { reviews = review ∷ db.reviews; drawn = db.drawn + 1 }))

unfoldable pub create_review :
    Env → String → String → String → String → String → Db → Result Review × Db
create_review env repo branch reviewer status body db =
    with_tx db (review_branch env db repo branch reviewer status body (find_branch repo branch db))
