-- ===== src/Gate/Handler/Replies.antt =====
-- When handleMerge of internal/server/handlers_proposals.go answers that a branch was merged.
use docstore.Base.{
  ℕ, String, ◌≡◌, ◌≢◌, refl, sym, ap, subst, ◌∙◌, inl, inr, Bool, true, false, Option, none, some,
  List, [], ◌∷◌, ◌==◌, some_item, Bool-cases, eq_iff,
}
use docstore.Store.Tables.{
  Db, Env, Error, branch_not_found, branch_not_active, branch_exists, branch_draft, repo_not_found,
  self_approval, merge_conflict, rebase_conflict, failed, Result, ok, err,
}
use docstore.Store.Merge.{MergeResponse, merge}
use docstore.Gate.Proposals.{is_open_of, merge_proposal}
use docstore.Gate.Policy.{World, PolicyCache, PolicyResult, evaluate_policy}
use docstore.Gate.Policy.Allows.{IsLetThrough}
use docstore.Gate.AutoMerge.{Event, in_db, announce}
use docstore.Gate.AutoMerge.Guards.{some_item-merged}
use docstore.Gate.Handler.{
  MergeReply, bad_request, internal_error, forbidden, conflict, db_error, accepted, has_repo,
  request_of, refusal, finish_merge, merge_unless_denied, checked_merge, handle_merge,
}

module _ (env : Env) (now : ℕ) (cache : Option PolicyCache) (identity repo branch : String)
    (dry_run : Bool) (w : World) where
  abbrev pub performed : Result MergeResponse × Db
  performed = merge env now (request_of identity repo branch dry_run) w.tables.db

  -- After a dry run there is no event and proposals are as before; after a merge the branch has no open
  -- proposal.
  abbrev pub Settled : Bool → World → List Event → Type 0
  Settled true after es = (es ≡ []) × (after.tables.proposals ≡ w.tables.proposals)
  Settled false after es = some_item (is_open_of repo branch) after.tables.proposals ≡ false

  -- The repo exists, the branch is not main, the policies let the identity's merge through, the store
  -- merged in the identity's name, and its tables are the ones that it left.
  pub record IsAccepted (resp : MergeResponse) (after : World) (es : List Event) : Type 0 where
    pub known : has_repo repo w ≡ true
    pub not_main : branch ≢ "main"
    pub let_through : IsLetThrough cache w repo branch identity
    pub done : performed.0 ≡ ok resp
    pub stored : after.tables.db ≡ performed.1
    pub settled : Settled dry_run after es

  abbrev Fits : MergeReply × (World × List Event) → Type 0
  Fits (accepted resp, (after, es)) = IsAccepted resp after es
  Fits (bad_request s, rest) = Unit
  Fits (internal_error, rest) = Unit
  Fits (forbidden rs, rest) = Unit
  Fits (conflict cs, rest) = Unit
  Fits (db_error e, rest) = Unit

  refused : (e : Error) (rest : World × List Event) → Fits (refusal e, rest)
  unfolding refusal
  refused branch_not_found rest = tt
  refused branch_not_active rest = tt
  refused branch_exists rest = tt
  refused branch_draft rest = tt
  refused repo_not_found rest = tt
  refused self_approval rest = tt
  refused (merge_conflict cs) rest = tt
  refused (rebase_conflict cs) rest = tt
  refused (failed s) rest = tt

  module _ (known : has_repo repo w ≡ true) (not_main : branch ≢ "main") where
    finished :
        (o : Result MergeResponse × Db)
        → IsLetThrough cache w repo branch identity
        → performed ≡ o
        → (dry : Bool) → dry_run ≡ dry
        → Fits (finish_merge (request_of identity repo branch dry) o w)
    unfolding finish_merge
    finished (err e, db) through same dry d = refused e (in_db db w, [])
    finished (ok resp, db) through same true d =
        unfold request_of in_db in
        record {
          known = known;
          not_main = not_main;
          let_through = through;
          done = ap (λ o. o.0) same;
          stored = sym (ap (λ o. o.1) same);
          settled = rw d (refl, refl);
        }
    finished (ok resp, db) through same false d =
        unfold request_of announce in_db merge_proposal in
        record {
          known = known;
          not_main = not_main;
          let_through = through;
          done = ap (λ o. o.0) same;
          stored = sym (ap (λ o. o.1) same);
          settled = rw d (some_item-merged repo branch w.tables.proposals);
        }

    judged :
        (o : Option (List PolicyResult))
        → evaluate_policy cache w repo branch identity ≡ o
        → Fits (merge_unless_denied env now (request_of identity repo branch dry_run) o w)
    unfolding merge_unless_denied
    judged none e = tt
    judged (some (r ∷ rs)) e = tt
    judged (some []) e = finished performed e refl dry_run refl

  checked :
      has_repo repo w ≡ true
      → Fits (checked_merge env now cache (request_of identity repo branch dry_run) w)
  unfolding checked_merge request_of
  checked known = elim (Bool-cases (branch == "")) [
    | inl e ↦ rw e tt
    | inr e ↦ elim (Bool-cases (branch == "main")) [
      | inl f ↦ rw (e, f) tt
      | inr f ↦
          rw (e, f)
            (judged known (λ same. cc (sym f ∙ (eq_iff branch "main").1 same))
              (evaluate_policy cache w repo branch identity) refl)
    ]
  ]

  handle_merge-Fits : Fits (handle_merge env now cache identity repo branch dry_run w)
  unfolding handle_merge
  handle_merge-Fits = elim (Bool-cases (has_repo repo w)) [
    | inl e ↦ rw (e, Fits) (checked e)
    | inr e ↦ rw (e, Fits) tt
  ]

  -- The handler answers with the sequence of a merge only where the repo exists, the branch is not main,
  -- the policies let a merge by the identity through, and the store's merge in the identity's name
  -- returned that sequence; the tables are as it left them. After a dry run there is no event, and the
  -- proposals are as before; otherwise the branch has no open proposal any more.
  pub handle_merge-IsAccepted :
      (resp : MergeResponse) (after : World) (es : List Event)
      → handle_merge env now cache identity repo branch dry_run w ≡ (accepted resp, (after, es))
      → IsAccepted resp after es
  handle_merge-IsAccepted resp after es done = subst Fits done handle_merge-Fits
