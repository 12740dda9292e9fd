-- ===== src/Gate/Proposals.antt =====
-- CreateProposal, GetProposal, ListProposals, UpdateProposal, CloseProposal and MergeProposal of
-- internal/db/store.go.
pub mod Single
use docstore.Base.{
  suc, String, Bool, true, false, ◌&&◌, Option, none, some, List, [], ◌∷◌, map, ◌==◌, keep, first,
  some_item, if◌then◌else◌,
}
use docstore.Store.Tables.{Env, Branch, find_branch}
use docstore.Gate.Tables.{
  ProposalState, proposal_open, proposal_closed, proposal_merged, Proposal, Tables, draw,
}

pub data ProposalError : Type 0 where
  proposal_exists proposal_not_found branch_missing : ProposalError

pub data Answer {ℓ} (A : Type ℓ) : Type ℓ where
  found : A → Answer A
  refused : ProposalError → Answer A

unfoldable pub same_state : ProposalState → ProposalState → Bool
same_state proposal_open proposal_open = true
same_state proposal_closed proposal_closed = true
same_state proposal_merged proposal_merged = true
same_state _ _ = false

-- The key of the index proposals_one_open_per_branch.
unfoldable pub is_open_of : String → String → Proposal → Bool
is_open_of repo branch p =
    p.repo == repo && (p.branch == branch && same_state p.state proposal_open)

unfoldable pub new_proposal :
    Env → String → String → String → String → String → String → Tables → Proposal
new_proposal env repo branch base_branch title description author t = record {
  id = env.uuid t.db.drawn;
  repo = repo;
  branch = branch;
  base_branch = base_branch;
  title = title;
  description = if description == "" then none else some description;
  author = author;
  state = proposal_open;
}

unfoldable pub insert_if_branch : Option Branch → Proposal → Tables → Answer Proposal × Tables
insert_if_branch none p t = (refused branch_missing, t)
insert_if_branch (some b) p t = (found p, record t { proposals = p ∷ t.proposals })

-- The unique index is looked at before the foreign key, which is at the end of the statement.
unfoldable pub insert_proposal : Option Branch → Proposal → Tables → Answer Proposal × Tables
insert_proposal branch p t =
    if some_item (is_open_of p.repo p.branch) t.proposals
    then (refused proposal_exists, t)
    else insert_if_branch branch p t

-- The id is drawn first, whether the row is inserted or not.
unfoldable pub create_proposal :
    Env → String → String → String → String → String → String → Tables → Answer Proposal × Tables
create_proposal env repo branch base_branch title description author t =
    insert_proposal (find_branch repo branch t.db)
      (new_proposal env repo branch base_branch title description author t)
      (draw (suc t.db.drawn) t)

-- WHERE repo = $1 AND id = $2
unfoldable pub is_proposal : String → String → Proposal → Bool
is_proposal repo id p = p.repo == repo && p.id == id

unfoldable pub or_not_found : Option Proposal → Answer Proposal
or_not_found none = refused proposal_not_found
or_not_found (some p) = found p

unfoldable pub get_proposal : String → String → Tables → Answer Proposal
get_proposal repo id t = or_not_found (first (is_proposal repo id) t.proposals)

unfoldable pub is_wanted_state : Option ProposalState → Proposal → Bool
is_wanted_state none p = true
is_wanted_state (some state) p = same_state p.state state

unfoldable pub is_wanted_branch : Option String → Proposal → Bool
is_wanted_branch none p = true
is_wanted_branch (some branch) p = p.branch == branch

unfoldable pub list_proposals :
    String → Option ProposalState → Option String → List Proposal → List Proposal
list_proposals repo state branch rows =
    keep (λ p. p.repo == repo && (is_wanted_state state p && is_wanted_branch branch p)) rows

-- UPDATE proposals SET … WHERE …
unfoldable pub update_proposals :
    (Proposal → Bool) → (Proposal → Proposal) → List Proposal → List Proposal
update_proposals test change rows = map (λ p. if test p then change p else p) rows

unfoldable pub or_keep : Option String → String → String
or_keep none old = old
or_keep (some new) old = new

unfoldable pub or_keep_text : Option String → Option String → Option String
or_keep_text none old = old
or_keep_text (some new) old = some new

unfoldable pub retitled : Option String → Option String → Proposal → Proposal
retitled title description p = record p {
  title = or_keep title p.title;
  description = or_keep_text description p.description;
}

-- Without a title and a description this is GetProposal, and the UPDATE leaves every row as it is.
unfoldable pub update_proposal :
    String → String → Option String → Option String → Tables → Answer Proposal × Tables
update_proposal repo id title description t =
    let rows = update_proposals (is_proposal repo id) (retitled title description) t.proposals in
    (or_not_found (first (is_proposal repo id) rows), record t { proposals = rows })

unfoldable pub in_state : ProposalState → Proposal → Proposal
in_state state p = record p { state = state }

-- Whatever the state of the proposal; none is ErrProposalNotFound.
unfoldable pub close_proposal : String → String → Tables → Answer (Unit {0}) × Tables
close_proposal repo id t = (
  (if some_item (is_proposal repo id) t.proposals then found tt else refused proposal_not_found),
  record t {
    proposals = update_proposals (is_proposal repo id) (in_state proposal_closed) t.proposals;
  },
)

unfoldable pub as_merged : Option Proposal → Option Proposal
as_merged none = none
as_merged (some p) = some (in_state proposal_merged p)

-- none when the branch has no open proposal.
unfoldable pub merge_proposal : String → String → Tables → Option Proposal × Tables
merge_proposal repo branch t = (
  as_merged (first (is_open_of repo branch) t.proposals),
  record t {
    proposals = update_proposals (is_open_of repo branch) (in_state proposal_merged) t.proposals;
  },
)
