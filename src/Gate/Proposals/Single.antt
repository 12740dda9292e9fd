-- ===== src/Gate/Proposals/Single.antt =====
-- The open proposals of a branch, under the statements of internal/db/store.go.
use docstore.Base.{
  suc, String, ◌≡◌, subst, inl, inr, Bool, true, false, Option, none, some, List, [], ◌∷◌,
  some_item, All, Bool-cases, eq_iff, arith, if◌then◌else◌,
}
use docstore.Base.Sorting.{OnlyOne}
use docstore.Store.Tables.{Env, Branch, find_branch}
use docstore.Gate.Tables.{proposal_closed, proposal_merged, Proposal, Tables, draw}
use docstore.Gate.Proposals.{
  same_state, is_open_of, new_proposal, insert_if_branch, insert_proposal, create_proposal,
  is_proposal, update_proposals, retitled, update_proposal, in_state, close_proposal,
  merge_proposal,
}

-- A branch of a repo has at most one open proposal.
abbrev pub IsSingle : List Proposal → Type 0
IsSingle rows = (repo branch : String) → OnlyOne (is_open_of repo branch) rows

-- The statements on proposals.
pub data Statement : Type 0 where
  creates : String → String → String → String → String → String → Statement
  updates : String → String → Option String → Option String → Statement
  closes merges : String → String → Statement

unfoldable pub execute : Env → Statement → Tables → Tables
execute env (creates repo branch base_branch title description author) t =
    (create_proposal env repo branch base_branch title description author t).1
execute env (updates repo id title description) t = (update_proposal repo id title description t).1
execute env (closes repo id) t = (close_proposal repo id t).1
execute env (merges repo branch) t = (merge_proposal repo branch t).1

unfoldable pub execute_all : Env → List Statement → Tables → Tables
execute_all env [] t = t
execute_all env (s ∷ ss) t = execute_all env ss (execute env s t)

-- A change that opens nothing.
abbrev OpensNone : (Proposal → Proposal) → Type 0
OpensNone change =
    (repo branch : String) (p : Proposal)
    → is_open_of repo branch p ≡ false
    → is_open_of repo branch (change p) ≡ false

none_open :
    (repo branch : String) (test : Proposal → Bool) (change : Proposal → Proposal)
    (rows : List Proposal)
    → OpensNone change
    → All (λ p. is_open_of repo branch p ≡ false) rows
    → All (λ p. is_open_of repo branch p ≡ false) (update_proposals test change rows)
unfolding update_proposals
none_open repo branch test change [] f h = tt
none_open repo branch test change (p ∷ ps) f h =
    (ground (arith, h.0, f repo branch p), none_open repo branch test change ps f h.1)

update_proposals-OnlyOne :
    (repo branch : String) (test : Proposal → Bool) (change : Proposal → Proposal)
    (rows : List Proposal)
    → OpensNone change
    → OnlyOne (is_open_of repo branch) rows
    → OnlyOne (is_open_of repo branch) (update_proposals test change rows)
unfolding update_proposals
update_proposals-OnlyOne repo branch test change [] f h = tt
update_proposals-OnlyOne repo branch test change (p ∷ ps) f h = (
  (λ e. none_open repo branch test change ps f (h.0 (was_open e))),
  update_proposals-OnlyOne repo branch test change ps f h.1,
)
  where
    was_open :
        is_open_of repo branch (if test p then change p else p) ≡ true
        → is_open_of repo branch p ≡ true
    was_open e = elim (Bool-cases (is_open_of repo branch p)) [
      | inl x ↦ x
      | inr x ↦ ground (arith, e, x, f repo branch p x)
    ]

retitled-OpensNone : (title description : Option String) → OpensNone (retitled title description)
unfolding retitled is_open_of
retitled-OpensNone title description repo branch p h = h

closed-OpensNone : OpensNone (in_state proposal_closed)
unfolding in_state is_open_of same_state
closed-OpensNone repo branch p h = ground arith

merged-OpensNone : OpensNone (in_state proposal_merged)
unfolding in_state is_open_of same_state
merged-OpensNone repo branch p h = ground arith

no_item :
    (p : Proposal → Bool) (rows : List Proposal)
    → some_item p rows ≡ false
    → All (λ q. p q ≡ false) rows
no_item p [] h = tt
no_item p (q ∷ qs) h = (ground arith, no_item p qs (ground arith))

is_open_of-keys :
    (repo branch : String) (p : Proposal)
    → is_open_of repo branch p ≡ true
    → (p.repo ≡ repo) × (p.branch ≡ branch)
unfolding is_open_of
is_open_of-keys repo branch p x =
    (ground (arith, x, eq_iff p.repo repo), ground (arith, x, eq_iff p.branch branch))

inserted-IsSingle :
    (o : Option Branch) (p : Proposal) (t : Tables)
    → IsSingle t.proposals
    → IsSingle (insert_proposal o p t).1.proposals
unfolding insert_proposal insert_if_branch
inserted-IsSingle o p t h repo branch =
    elim (Bool-cases (some_item (is_open_of p.repo p.branch) t.proposals)) [
      | inl e ↦ rw e (h repo branch)
      | inr e ↦ rw e (at_branch o e)
    ]
  where
    at_branch :
        (o : Option Branch)
        → some_item (is_open_of p.repo p.branch) t.proposals ≡ false
        → OnlyOne (is_open_of repo branch) (insert_if_branch o p t).1.proposals
    at_branch none e = h repo branch
    at_branch (some b) e = (
      (λ x.
          subst (λ r. All (λ q. is_open_of r branch q ≡ false) t.proposals)
            (is_open_of-keys repo branch p x).0
            (subst (λ b. All (λ q. is_open_of p.repo b q ≡ false) t.proposals)
              (is_open_of-keys repo branch p x).1
              (no_item (is_open_of p.repo p.branch) t.proposals e))),
      h repo branch,
    )

execute-IsSingle :
    (env : Env) (s : Statement) (t : Tables)
    → IsSingle t.proposals
    → IsSingle (execute env s t).proposals
unfolding execute create_proposal update_proposal close_proposal merge_proposal draw
execute-IsSingle env (creates repo branch base_branch title description author) t h =
    inserted-IsSingle (find_branch repo branch t.db)
      (new_proposal env repo branch base_branch title description author t)
      (draw (suc t.db.drawn) t) h
execute-IsSingle env (updates repo id title description) t h = λ repo' branch.
    update_proposals-OnlyOne repo' branch (is_proposal repo id) (retitled title description)
      t.proposals (retitled-OpensNone title description) (h repo' branch)
execute-IsSingle env (closes repo id) t h = λ repo' branch.
    update_proposals-OnlyOne repo' branch (is_proposal repo id) (in_state proposal_closed)
      t.proposals closed-OpensNone (h repo' branch)
execute-IsSingle env (merges repo branch) t h = λ repo' branch'.
    update_proposals-OnlyOne repo' branch' (is_open_of repo branch) (in_state proposal_merged)
      t.proposals merged-OpensNone (h repo' branch')

-- Any sequence of statements on proposals keeps it so that a branch of a repo has at most one open
-- proposal, whatever the other tables hold.
pub execute_all-IsSingle :
    (env : Env) (ss : List Statement) (t : Tables)
    → IsSingle t.proposals
    → IsSingle (execute_all env ss t).proposals
unfolding execute_all
execute_all-IsSingle env [] t h = h
execute_all-IsSingle env (s ∷ ss) t h =
    execute_all-IsSingle env ss (execute env s t) (execute-IsSingle env s t h)
