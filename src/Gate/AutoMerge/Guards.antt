-- ===== src/Gate/AutoMerge/Guards.antt =====
-- When tryAutoMerge of internal/automerge/worker.go merges, and what a conflict does.
use docstore.Base.{
  ℕ, String, ◌≡◌, refl, sym, ap, inl, inr, Bool, true, false, Option, none, some, List, [], ◌∷◌,
  some_item, Bool-cases, arith,
}
use docstore.Store.Tables.{
  Db, Env, Branch, Error, branch_not_found, branch_not_active, branch_exists, branch_draft,
  repo_not_found, self_approval, merge_conflict, rebase_conflict, failed, Result, ok, err,
  find_branch,
}
use docstore.Store.Merge.{MergeResponse, merge}
use docstore.Gate.Tables.{Proposal, proposal_merged as merged_state}
use docstore.Gate.Proposals.{same_state, is_open_of, update_proposals, in_state, merge_proposal}
use docstore.Gate.Policy.{World, PolicyCache, PolicyResult, evaluate_policy}
use docstore.Gate.Policy.Allows.{IsLetThrough}
use docstore.Gate.AutoMerge.{
  Event, branch_auto_merge_failed, proposal_merged, branch_merged, merge_blocked, in_db, announce,
  auto_merge_request, after_merge, merge_if_allowed, is_eligible, try_branch, try_auto_merge,
}

unfoldable pub is_merged_event : Event → Bool
is_merged_event (branch_merged repo branch sequence by) = true
is_merged_event (branch_auto_merge_failed repo branch reason) = false
is_merged_event (proposal_merged repo branch base id) = false
is_merged_event (merge_blocked repo branch actor policies) = false

-- The worker says that it merged a branch.
abbrev pub says_merged : List Event → Bool
says_merged es = some_item is_merged_event es

pub some_item-merged :
    (repo branch : String) (rows : List Proposal)
    → some_item
        (is_open_of repo branch)
        (update_proposals (is_open_of repo branch) (in_state merged_state) rows)
      ≡ false
unfolding update_proposals
some_item-merged repo branch [] = refl
some_item-merged repo branch (p ∷ ps) = ground (arith, some_item-merged repo branch ps, closes p)
  where
    closes : (p : Proposal) → is_open_of repo branch (in_state merged_state p) ≡ false
    closes p = unfold is_open_of in_state same_state in ground arith

module _ (env : Env) (now : ℕ) (cache : Option PolicyCache) (repo branch : String) (w : World) where
  abbrev pub attempted : Result MergeResponse × Db
  attempted = merge env now (auto_merge_request repo branch) w.tables.db

  -- The branch is marked for auto-merge, published and active, the policies let it through, the merge
  -- succeeded, and the tables are those that it left, without an open proposal of the branch.
  pub record IsMerged (after : World) : Type 0 where
    pub b : Branch
    pub resp : MergeResponse
    pub found : find_branch repo branch w.tables.db ≡ some b
    pub eligible : is_eligible b ≡ true
    pub let_through : IsLetThrough cache w repo branch "auto-merge"
    pub done : attempted.0 ≡ ok resp
    pub stored : after.tables.db ≡ attempted.1
    pub none_open : some_item (is_open_of repo branch) after.tables.proposals ≡ false

  abbrev Fits : World × List Event → Type 0
  Fits (after, es) = says_merged es ≡ true → IsMerged after

  module _ (b : Branch) (e : find_branch repo branch w.tables.db ≡ some b)
      (eligible : is_eligible b ≡ true)
      (through : IsLetThrough cache w repo branch "auto-merge") where
    erred :
        (db : Db) (x : Error)
        → attempted ≡ (err x, db)
        → Fits (after_merge repo branch (err x, db) w)
    unfolding after_merge is_merged_event
    erred db branch_not_found same h = cc
    erred db branch_not_active same h = cc
    erred db branch_exists same h = cc
    erred db branch_draft same h = cc
    erred db repo_not_found same h = cc
    erred db self_approval same h = cc
    erred db (merge_conflict cs) same h = cc
    erred db (rebase_conflict cs) same h = cc
    erred db (failed s) same h = cc

    answered : (o : Result MergeResponse × Db) → attempted ≡ o → Fits (after_merge repo branch o w)
    answered (ok resp, db) same h =
        unfold after_merge announce in_db merge_proposal in
        record {
          b = b;
          resp = resp;
          found = e;
          eligible = eligible;
          let_through = through;
          done = ap (λ o. o.0) same;
          stored = sym (ap (λ o. o.1) same);
          none_open = some_item-merged repo branch w.tables.proposals;
        }
    answered (err x, db) same h = erred db x same h

  allowed :
      (b : Branch)
      → find_branch repo branch w.tables.db ≡ some b
      → is_eligible b ≡ true
      → (o : Option (List PolicyResult)) → evaluate_policy cache w repo branch "auto-merge" ≡ o
      → Fits (merge_if_allowed env now repo branch o w)
  unfolding merge_if_allowed
  allowed b e eligible none same h = cc
  allowed b e eligible (some (r ∷ rs)) same h = cc
  allowed b e eligible (some []) same h = answered b e eligible same attempted refl h

  tried :
      (o : Option Branch)
      → find_branch repo branch w.tables.db ≡ o
      → Fits (try_branch env now cache repo branch o w)
  unfolding try_branch
  tried none e = λ h. cc
  tried (some b) e = elim (Bool-cases (is_eligible b)) [
    | inl t ↦
        rw (t, try_branch) (allowed b e t (evaluate_policy cache w repo branch "auto-merge") refl)
    | inr t ↦ rw (t, try_branch) (λ h. cc)
  ]

  -- When the worker reports a branch as merged, the branch was marked for auto-merge, published and
  -- active, the merge policies let it through, the merge by `auto-merge` succeeded and the store is as
  -- that merge left it, and the branch has no open proposal any more.
  pub try_auto_merge-IsMerged :
      says_merged (try_auto_merge env now cache repo branch w).1 ≡ true
      → IsMerged (try_auto_merge env now cache repo branch w).0
  unfolding try_auto_merge
  try_auto_merge-IsMerged = tried (find_branch repo branch w.tables.db) refl
