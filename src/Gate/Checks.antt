-- ===== src/Gate/Checks.antt =====
-- CreateCheckRun, RetryChecks and ListCheckRuns of internal/db/store.go.
pub mod Latest
pub mod Pending
pub mod Retries
pub mod Attempts
use Prim.Native.Nat.{◌%◌}
use docstore.Base.{
  ℕ, suc, ◌+◌, String, Bool, true, ◌&&◌, Option, none, some, List, [], ◌∷◌, map, ◌==◌, nat_eq, ltb,
  keep, first, some_item, if◌then◌else◌,
}
use docstore.Base.Order.{text_leb}
use docstore.Base.Sorting.{sort_by}
use docstore.Store.Tables.{
  Env, Branch, Error, Result, ok, err, branch_not_found, failed as failed_to, find_branch,
}
use docstore.Gate.Tables.{CheckRunStatus, pending, CheckRun, Tables, draw}

-- 0, as an int16.
abbrev pub int16_zero : ℕ
int16_zero = 32768

-- a + 1, as an int16.
unfoldable pub next_int16 : ℕ → ℕ
next_int16 a = (a + 1) % 65536

-- The arguments of CreateCheckRun.
pub record CheckReport : Type 0 where
  pub repo : String
  pub branch : String
  pub check_name : String
  pub status : CheckRunStatus
  pub reporter : String
  pub log_url : Option String
  pub at_sequence : Option ℕ
  pub attempt : ℕ
  pub metadata : Option String

-- WHERE repo = $1 AND branch = $2 AND sequence = $3
unfoldable pub at_sequence : String → String → ℕ → CheckRun → Bool
at_sequence repo branch seq r = r.repo == repo && (r.branch == branch && nat_eq r.sequence seq)

-- The key of check_runs_unique: repo, branch, sequence, check_name, attempt.
unfoldable pub has_key : String → String → ℕ → String → ℕ → CheckRun → Bool
has_key repo branch seq name attempt r =
    at_sequence repo branch seq r && (r.check_name == name && nat_eq r.attempt attempt)

unfoldable pub coalesce_text : Option String → Option String → Option String
coalesce_text none old = old
coalesce_text (some s) old = some s

-- ON CONFLICT … DO UPDATE
unfoldable pub on_conflict : CheckRun → CheckRun → CheckRun
on_conflict excluded r = record r {
  status = excluded.status;
  reporter = excluded.reporter;
  log_url = coalesce_text excluded.log_url r.log_url;
  metadata = coalesce_text excluded.metadata r.metadata;
}

unfoldable pub conflicts_with : CheckRun → CheckRun → Bool
conflicts_with new r = has_key new.repo new.branch new.sequence new.check_name new.attempt r

unfoldable pub upsert_run : CheckRun → List CheckRun → List CheckRun
upsert_run new rows =
    if some_item (conflicts_with new) rows
    then map (λ r. if conflicts_with new r then on_conflict new r else r) rows
    else new ∷ rows

-- RETURNING id
unfoldable pub id_or : String → Option CheckRun → String
id_or id none = id
id_or id (some r) = r.id

unfoldable pub head_or : Option ℕ → ℕ → ℕ
head_or none head = head
head_or (some seq) head = seq

unfoldable pub new_run : Env → CheckReport → Branch → Tables → CheckRun
new_run env rep b t = record {
  id = env.uuid t.db.drawn;
  repo = rep.repo;
  branch = rep.branch;
  sequence = head_or rep.at_sequence b.head_sequence;
  check_name = rep.check_name;
  status = rep.status;
  reporter = rep.reporter;
  log_url = rep.log_url;
  attempt = rep.attempt;
  metadata = rep.metadata;
}

-- The id is drawn before the transaction.
unfoldable pub record_run : Env → CheckReport → Option Branch → Tables → Result CheckRun × Tables
record_run env rep none t = (err branch_not_found, draw (suc t.db.drawn) t)
record_run env rep (some b) t =
    let new = new_run env rep b t in
    (
      ok record new { id = id_or new.id (first (conflicts_with new) t.check_runs) },
      record (draw (suc t.db.drawn) t) { check_runs = upsert_run new t.check_runs },
    )

unfoldable pub create_check_run : Env → CheckReport → Tables → Result CheckRun × Tables
create_check_run env rep t = record_run env rep (find_branch rep.repo rep.branch t.db) t

-- SELECT DISTINCT ON (check_name) check_name … ORDER BY check_name
unfoldable pub add_name : String → List String → List String
add_name name [] = name ∷ []
add_name name (n ∷ ns) = let rest = add_name name ns in if n == name then n ∷ ns else n ∷ rest

unfoldable pub names_at : String → String → ℕ → List CheckRun → List String
names_at repo branch seq [] = []
names_at repo branch seq (r ∷ rs) =
    let rest = names_at repo branch seq rs in
    if at_sequence repo branch seq r then add_name r.check_name rest else rest

-- The checks of the request, or every check at the sequence.
unfoldable pub checks_or_all : String → String → ℕ → List CheckRun → List String → List String
checks_or_all repo branch seq rows [] = sort_by text_leb (names_at repo branch seq rows)
checks_or_all repo branch seq rows (c ∷ cs) = c ∷ cs

-- MAX(attempt), none being NULL.
unfoldable pub max_or : ℕ → Option ℕ → ℕ
max_or a none = a
max_or a (some b) = if ltb a b then b else a

unfoldable pub max_attempt_of : String → String → ℕ → String → List CheckRun → Option ℕ
max_attempt_of repo branch seq name [] = none
max_attempt_of repo branch seq name (r ∷ rs) =
    let rest = max_attempt_of repo branch seq name rs in
    if at_sequence repo branch seq r && r.check_name == name
    then some (max_or r.attempt rest)
    else rest

-- COALESCE(…, 0)
unfoldable pub or_zero : Option ℕ → ℕ
or_zero none = int16_zero
or_zero (some a) = a

-- The loop over the checks, from the greatest attempt so far.
unfoldable pub max_attempt : String → String → ℕ → List CheckRun → ℕ → List String → ℕ
max_attempt repo branch seq rows so_far [] = so_far
max_attempt repo branch seq rows so_far (c ∷ cs) =
    let a = or_zero (max_attempt_of repo branch seq c rows) in
    max_attempt repo branch seq rows (if ltb so_far a then a else so_far) cs

unfoldable pub retry_run : Env → String → String → ℕ → ℕ → String → ℕ → CheckRun
retry_run env repo branch seq attempt name n = record {
  id = env.uuid n;
  repo = repo;
  branch = branch;
  sequence = seq;
  check_name = name;
  status = pending;
  reporter = "system";
  log_url = none;
  attempt = attempt;
  metadata = none;
}

-- One INSERT for each check, none when one violates check_runs_unique.
unfoldable pub insert_retries :
    Env → String → String → ℕ → ℕ → List String → ℕ → List CheckRun → Option (ℕ × List CheckRun)
insert_retries env repo branch seq attempt [] n rows = some (n, rows)
insert_retries env repo branch seq attempt (c ∷ cs) n rows =
    let rest =
      insert_retries env repo branch seq attempt cs (suc n)
        (retry_run env repo branch seq attempt c n ∷ rows) in
    if some_item (has_key repo branch seq c attempt) rows then none else rest

-- A failed transaction leaves the rows as they were; the UUIDs of its inserts have been drawn, of
-- which the model counts none, since nothing holds them.
unfoldable pub end_retry : ℕ → Tables → Option (ℕ × List CheckRun) → Result ℕ × Tables
end_retry attempt t none = (err (failed_to "insert retry check_run"), t)
end_retry attempt t (some (n, rows)) = (ok attempt, record (draw n t) { check_runs = rows })

unfoldable pub retry_names : Env → String → String → ℕ → List String → Tables → Result ℕ × Tables
retry_names env repo branch seq [] t = (err (failed_to "no checks to retry"), t)
retry_names env repo branch seq (c ∷ cs) t =
    let attempt = next_int16 (max_attempt repo branch seq t.check_runs int16_zero (c ∷ cs)) in
    end_retry attempt t
      (insert_retries env repo branch seq attempt (c ∷ cs) t.db.drawn t.check_runs)

unfoldable pub retry_if_found :
    Env → String → String → ℕ → List String → Option Branch → Tables → Result ℕ × Tables
retry_if_found env repo branch seq checks none t = (err branch_not_found, t)
retry_if_found env repo branch seq checks (some b) t =
    retry_names env repo branch seq (checks_or_all repo branch seq t.check_runs checks) t

unfoldable pub retry_checks : Env → String → String → ℕ → List String → Tables → Result ℕ × Tables
retry_checks env repo branch seq checks t =
    retry_if_found env repo branch seq checks (find_branch repo branch t.db) t

-- WHERE repo = $1 AND branch = $2, and AND sequence = $3 if there is one.
unfoldable pub listed : String → String → Option ℕ → CheckRun → Bool
listed repo branch none r = r.repo == repo && r.branch == branch
listed repo branch (some seq) r = at_sequence repo branch seq r

-- DISTINCT ON (check_name) … ORDER BY check_name, attempt DESC, created_at DESC: of the rows of one
-- name the one with the greatest attempt, and of those the newest.
unfoldable pub add_run : CheckRun → List CheckRun → List CheckRun
add_run r [] = r ∷ []
add_run r (q ∷ qs) =
    let rest = add_run r qs in
    if q.check_name == r.check_name
    then (if ltb r.attempt q.attempt then q else r) ∷ qs
    else q ∷ rest

unfoldable pub latest_runs : (CheckRun → Bool) → List CheckRun → List CheckRun
latest_runs p [] = []
latest_runs p (r ∷ rs) = let rest = latest_runs p rs in if p r then add_run r rest else rest

unfoldable pub name_leb : CheckRun → CheckRun → Bool
name_leb r q = text_leb r.check_name q.check_name

unfoldable pub list_check_runs : String → String → Option ℕ → Bool → List CheckRun → List CheckRun
list_check_runs repo branch at_seq history rows =
    if history
    then keep (listed repo branch at_seq) rows
    else sort_by name_leb (latest_runs (listed repo branch at_seq) rows)
