-- ===== src/Gate/Tables.antt =====
-- The rows of check_runs and proposals beside those of the store, as internal/db/store.go reads and
-- writes them. Rows stand newest first, which is ORDER BY created_at DESC.
use docstore.Base.{ℕ, String, Option, List}
use docstore.Store.Tables.{Db}

pub data CheckRunStatus : Type 0 where
  pending passed failed : CheckRunStatus

-- An attempt is an int16: the number here is its value plus 2 ^ 15.
pub record CheckRun : Type 0 where
  pub id : String
  pub repo : String
  pub branch : String
  pub sequence : ℕ
  pub check_name : String
  pub status : CheckRunStatus
  pub reporter : String
  pub log_url : Option String
  pub attempt : ℕ
  pub metadata : Option String

pub data ProposalState : Type 0 where
  proposal_open proposal_closed proposal_merged : ProposalState

pub record Proposal : Type 0 where
  pub id : String
  pub repo : String
  pub branch : String
  pub base_branch : String
  pub title : String
  pub description : Option String
  pub author : String
  pub state : ProposalState

pub record Tables : Type 0 where
  pub db : Db
  pub check_runs : List CheckRun
  pub proposals : List Proposal

-- A UUID was drawn.
unfoldable pub draw : ℕ → Tables → Tables
draw n t = record t { db = record t.db { drawn = n } }
