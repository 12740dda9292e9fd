-- ===== src/Gate/Policy.antt =====
-- AssembleInput and EvaluatePolicy of internal/merge/policy.go, with the evaluation of prepared
-- policies of internal/policy/engine.go and ListReviews of internal/db/store.go. A query prepared by
-- OPA is a function from the input to its answer.
pub mod Allows
use docstore.Base.{
  ℕ, String, Bool, true, false, ◌&&◌, not, Option, none, some, List, [], ◌∷◌, map, ◌==◌, nat_eq,
  keep, if◌then◌else◌,
}
use docstore.Store.Tables.{Db, Branch, Review, find_branch}
use docstore.Store.Diff.{DiffEntry, DiffResult, get_diff}
use docstore.Access.Roles.{AccessDb, RoleType, get_role}
use docstore.Policy.Owners.{OwnersMap, resolve_owners}
use docstore.Gate.Tables.{CheckRun, CheckRunStatus, Proposal, ProposalState, proposal_open, Tables}
use docstore.Gate.Checks.{list_check_runs}
use docstore.Gate.Proposals.{list_proposals}

pub record ReviewInput : Type 0 where
  pub reviewer : String
  pub status : String
  pub sequence : ℕ

pub record CheckRunInput : Type 0 where
  pub check_name : String
  pub status : CheckRunStatus
  pub sequence : ℕ

pub record ProposalInput : Type 0 where
  pub id : String
  pub base_branch : String
  pub title : String
  pub state : ProposalState

pub record Input : Type 0 where
  pub actor : String
  pub actor_roles : List RoleType
  pub action : String
  pub repo : String
  pub branch : String
  pub draft : Bool
  pub changed_paths : List String
  pub reviews : List ReviewInput
  pub check_runs : List CheckRunInput
  pub owners : List (String × Option (List String))
  pub head_seq : ℕ
  pub base_seq : ℕ
  pub proposal : Option ProposalInput

-- The value of the first expression of an answer.
pub data Value : Type 0 where
  bool_value : Bool → Value
  string_value : String → Value
  other_value : Value

-- An answer of a prepared query: an error, no result or no expression, or a value.
pub data EvalResult : Type 0 where
  eval_error no_value : EvalResult
  has_value : Value → EvalResult

pub record PreparedPolicy : Type 0 where
  pub name : String
  pub allow_pq : Input → EvalResult
  pub reason_pq : Input → EvalResult

pub record PolicyResult : Type 0 where
  pub name : String
  pub pass : Bool
  pub reason : String

-- A type assertion to bool, false where it fails.
unfoldable pub is_allowed : EvalResult → Option Bool
is_allowed eval_error = none
is_allowed no_value = some false
is_allowed (has_value (bool_value b)) = some b
is_allowed (has_value (string_value s)) = some false
is_allowed (has_value other_value) = some false

unfoldable pub reason_of : EvalResult → Option String
reason_of eval_error = none
reason_of no_value = some "policy denied"
reason_of (has_value (bool_value b)) = some "policy denied"
reason_of (has_value (string_value s)) = some (if s == "" then "policy denied" else s)
reason_of (has_value other_value) = some "policy denied"

unfoldable pub denied_with : String → Option String → Option PolicyResult
denied_with name none = none
denied_with name (some reason) = some record { name = name; pass = false; reason = reason }

unfoldable pub judge : PreparedPolicy → Input → Option Bool → Option PolicyResult
judge p input none = none
judge p input (some true) = some record { name = p.name; pass = true; reason = "" }
judge p input (some false) = denied_with p.name (reason_of (p.reason_pq input))

-- none is an error of a query.
unfoldable pub eval_prepared : PreparedPolicy → Input → Option PolicyResult
eval_prepared p input = judge p input (is_allowed (p.allow_pq input))

unfoldable pub cons_result :
    Option PolicyResult → Option (List PolicyResult) → Option (List PolicyResult)
cons_result none rs = none
cons_result (some r) none = none
cons_result (some r) (some rs) = some (r ∷ rs)

-- An engine is a list of prepared policies; Evaluate stops at the first error.
unfoldable pub evaluate : List PreparedPolicy → Input → Option (List PolicyResult)
evaluate [] input = some []
evaluate (p ∷ ps) input = cons_result (eval_prepared p input) (evaluate ps input)

-- The tables that a policy's input is read from.
pub record World : Type 0 where
  pub tables : Tables
  pub access : AccessDb

unfoldable pub reviewed_at : String → String → Option ℕ → Review → Bool
reviewed_at repo branch none r = r.repo == repo && r.branch == branch
reviewed_at repo branch (some seq) r =
    r.repo == repo && (r.branch == branch && nat_eq r.sequence seq)

unfoldable pub list_reviews : String → String → Option ℕ → Db → List Review
list_reviews repo branch at_seq db = keep (reviewed_at repo branch at_seq) db.reviews

unfoldable pub changed_paths_of : Option DiffResult → List String
changed_paths_of none = []
changed_paths_of (some d) = map (λ (e : DiffEntry). e.path) d.branch_changes

unfoldable pub review_input : Review → ReviewInput
review_input r = record { reviewer = r.reviewer; status = r.status; sequence = r.sequence }

unfoldable pub check_run_input : CheckRun → CheckRunInput
check_run_input r = record { check_name = r.check_name; status = r.status; sequence = r.sequence }

-- The first of the open proposals.
unfoldable pub proposal_input : List Proposal → Option ProposalInput
proposal_input [] = none
proposal_input (p ∷ ps) =
    some record { id = p.id; base_branch = p.base_branch; title = p.title; state = p.state }

unfoldable pub actor_roles_of : Option RoleType → List RoleType
actor_roles_of none = []
actor_roles_of (some role) = role ∷ []

-- A map from paths as a list of the pairs that the loop stores.
unfoldable pub resolved_owners : OwnersMap → List String → List (String × Option (List String))
resolved_owners owners paths = map (λ p. (p, resolve_owners owners p)) paths

unfoldable pub input_of : World → String → String → String → OwnersMap → Branch → Input
input_of w repo branch actor owners b =
    let paths = changed_paths_of (get_diff w.tables.db repo branch) in
    record {
      actor = actor;
      actor_roles = actor_roles_of (get_role repo actor w.access);
      action = "merge";
      repo = repo;
      branch = branch;
      draft = b.draft;
      changed_paths = paths;
      reviews = map review_input (list_reviews repo branch (some b.head_sequence) w.tables.db);
      check_runs =
          map check_run_input
            (list_check_runs repo branch (some b.head_sequence) false w.tables.check_runs);
      owners = resolved_owners owners paths;
      head_seq = b.head_sequence;
      base_seq = b.base_sequence;
      proposal =
          proposal_input
            (list_proposals repo (some proposal_open) (some branch) w.tables.proposals);
    }

unfoldable pub input_if_found :
    World → String → String → String → OwnersMap → Option Branch → Option Input
input_if_found w repo branch actor owners none = none
input_if_found w repo branch actor owners (some b) = some (input_of w repo branch actor owners b)

-- none is nil, where the branch does not exist.
unfoldable pub assemble_input : World → String → String → String → OwnersMap → Option Input
assemble_input w repo branch actor owners =
    input_if_found w repo branch actor owners (find_branch repo branch w.tables.db)

-- The interface PolicyCache: what Load answers for a repo, none being an error, and no engine the
-- bootstrap mode.
pub record PolicyCache : Type 0 where
  pub load : String → Option (Option (List PreparedPolicy) × OwnersMap)

unfoldable pub denials : Option (List PolicyResult) → Option (List PolicyResult)
denials none = none
denials (some results) = some (keep (λ (r : PolicyResult). not r.pass) results)

unfoldable pub evaluate_input : List PreparedPolicy → Option Input → Option (List PolicyResult)
evaluate_input engine none = some []
evaluate_input engine (some input) = denials (evaluate engine input)

unfoldable pub evaluate_loaded :
    Option (Option (List PreparedPolicy) × OwnersMap)
    → World
    → String
    → String
    → String
    → Option (List PolicyResult)
evaluate_loaded none w repo branch actor = none
evaluate_loaded (some (none, owners)) w repo branch actor = some []
evaluate_loaded (some (some engine, owners)) w repo branch actor =
    evaluate_input engine (assemble_input w repo branch actor owners)

-- The policies that deny a merge; none is an error, and there is no cache when the cache or the read
-- store is nil.
unfoldable pub evaluate_policy :
    Option PolicyCache → World → String → String → String → Option (List PolicyResult)
evaluate_policy none w repo branch actor = some []
evaluate_policy (some cache) w repo branch actor =
    evaluate_loaded (cache.load repo) w repo branch actor
