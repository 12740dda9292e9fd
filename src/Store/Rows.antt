-- ===== src/Store/Rows.antt =====
-- The queries over `file_commits`: the newest row of each path, for internal/db/store.go
-- (latestChanges, branchCommitGroups) and internal/store/store.go (MaterializeTree, GetFile).
use docstore.Base.{
  ℕ, String, Bool, true, ◌&&◌, ◌||◌, Option, none, some, List, [], ◌∷◌, ◌==◌, ltb, leb,
  if◌then◌else◌,
}
use docstore.Store.Tables.{Db, FileCommit, find_branch}

-- Of a row and the best of the rows after it, the one with the greater sequence.
unfoldable pub newer : FileCommit → Option FileCommit → FileCommit
newer r none = r
newer r (some q) = if ltb r.sequence q.sequence then q else r

-- ORDER BY sequence DESC LIMIT 1, over the rows that pass a test. Where two rows have one sequence,
-- which SQL leaves open, this takes the one that was written last.
unfoldable pub newest : (FileCommit → Bool) → List FileCommit → Option FileCommit
unfolding newer
newest p [] = none
newest p (r ∷ rs) = let best = newest p rs in if p r then some (newer r best) else best

-- SELECT DISTINCT ON (path) … ORDER BY path, sequence DESC: a row takes the place of the newest row
-- of its path.
unfoldable pub add_latest : FileCommit → List FileCommit → List FileCommit
unfolding newer
add_latest r [] = r ∷ []
add_latest r (q ∷ qs) =
    let rest = add_latest r qs in if q.path == r.path then newer r (some q) ∷ qs else q ∷ rest

unfoldable pub distinct_latest : (FileCommit → Bool) → List FileCommit → List FileCommit
unfolding add_latest
distinct_latest p [] = []
distinct_latest p (r ∷ rs) =
    let rest = distinct_latest p rs in if p r then add_latest r rest else rest

-- WHERE repo = $1 AND branch = $2 AND sequence > $3
unfoldable pub changed_since : String → String → ℕ → FileCommit → Bool
changed_since repo branch base r = r.repo == repo && (r.branch == branch && ltb base r.sequence)

-- The newest row of each path that changed on a branch since a base sequence.
unfoldable pub latest_changes : Db → String → String → ℕ → List FileCommit
latest_changes db repo branch base =
    distinct_latest (changed_since repo branch base) db.file_commits

-- WHERE repo = $1 AND (branch = $2 OR (branch = 'main' AND sequence <= base_sequence))
unfoldable pub visible : String → String → ℕ → FileCommit → Bool
visible repo branch base r =
    r.repo == repo && (r.branch == branch || (r.branch == "main" && leb r.sequence base))

-- AND ($4 IS NULL OR sequence <= $4)
unfoldable pub up_to : Option ℕ → FileCommit → Bool
up_to none r = true
up_to (some at) r = leb r.sequence at

unfoldable pub at_path : String → FileCommit → Bool
at_path path r = r.path == path

-- The row that GetFile reads, and MaterializeTree lists, for a path; a branch that does not exist
-- has none.
unfoldable pub file_row : Db → String → String → String → Option ℕ → Option FileCommit
file_row db repo branch path at = elim (find_branch repo branch db) [
  | none ↦ none
  | some b ↦
      newest (λ r. visible repo branch b.base_sequence r && (at_path path r && up_to at r))
        db.file_commits
]

-- The version that a branch shows at a path: none if there is no row, or it records a deletion.
unfoldable pub version_of : Option FileCommit → Option String
version_of none = none
version_of (some r) = r.version_id

unfoldable pub file_version : Db → String → String → String → Option ℕ → Option String
file_version db repo branch path at = version_of (file_row db repo branch path at)
