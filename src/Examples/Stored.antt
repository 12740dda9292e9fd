-- ===== src/Examples/Stored.antt =====
-- Witnesses on the store.
use docstore.Base.{
  ℕ, ◌<◌, eq_iff, String, ◌≡◌, refl, inr, true, false, none, some, List, [], ◌∷◌, ◌++◌, arith,
}
use docstore.Examples.Tables.{env, edit, calls, store, store-IsWf, merge_dev, main_now, dev_now}
use docstore.Base.Order.{lex_leb, text_leb}
use docstore.Hash.{insert_file, sort_files, commit_hash}
use docstore.Store.Branches.{
  new_branch, insert_branch, fork_main, create_branch, set_draft, set_auto_merge, update_if_found,
  update_branch_draft, set_branch_auto_merge, abandon, delete_branch, authored_since, new_review,
  has_authored, review_branch, create_review,
}
use docstore.Store.Commit.{
  place, text_or_null, find_document, insert_document, store_content, written, stored_version,
  version_for, cons_ok, add_written, write_row, and_then, write_files, results, hash_files,
  finish_commit, commit_body, commit_files,
}
use docstore.Store.Invariant.Reach.{Call, merges, step, run}
use docstore.Store.Merge.{
  null_str, change_at, find_conflicts, copy_changes, hash_of_document, content_hash_of,
  changes_to_hash, merge_message, conclude, merged_rows, apply_merge, merge_unless_conflict,
  merge_changes, merge_branch, merge_body, merge, MergeRequest, MergeResponse,
}
use docstore.Store.Rebase.{
  row_leb, insert_row, sort_rows, add_to_group, group_rows, branch_commit_groups, author_or_system,
  rebase_message, replay_group, replay, finish_rebase, replay_unless_conflict, rebase_changes,
  rebase_branch, rebase_body, rebase,
}
use docstore.Store.Rows.{
  newer, newest, add_latest, distinct_latest, changed_since, latest_changes, visible, up_to,
  at_path, file_row, version_of, file_version,
}
use docstore.Store.Branches.Reviews.{NotAuthored, Records, create_review-Recorded}
use docstore.Store.Merge.Closed.{Closed, merge-Closed}
use docstore.Store.Commit.{CommitRequest, CommitResponse}
use docstore.Store.Tables.{
  Branch, Review, branch_not_active, is_active, rolled_back, with_tx, is_branch, find_branch, ok,
  err, merge_conflict, MergeConflict,
}
use docstore.Store.Writes.{
  insert_commit, file_commit_row, insert_file_commit, update_branch, set_head, set_status,
  set_base_and_head, is_earlier, later, last_commit, hash_or_genesis, prev_of,
  fetch_prev_commit_hash, with_hash, update_commit_hash, chain_hash,
}
use docstore.Store.Commit.Isolation.{file_version-commit-Apart}
use docstore.Store.Changes.Shown.{changed}
use docstore.Store.Merge.ThreeWay.{three_way, file_version-merge}
use docstore.Store.Merge.Conflicts.{merge_conflicting, merge_clean}
use docstore.Store.Merge.DryRun.{with_dry_run, dry_run_foretells}

abbrev commit_reply : CommitResponse
commit_reply = record {
  sequence = 3;
  files = record { path = "c"; version_id = some "u0" } ∷ [];
  commit_hash = "hash";
}

abbrev approved : String
approved = "approved"

abbrev bobs_review : Review
bobs_review = record {
  id = "u2";
  repo = "acme/site";
  branch = "dev";
  reviewer = "bob";
  sequence = 1;
  status = "approved";
  body = none;
}

-- What the operations do on the store of the tests.
record Runs : Type 0 where
  main_found : find_branch "acme/site" "main" (store "a" "b") ≡ some main_now
  dev_found : find_branch "acme/site" "dev" (store "a" "b") ≡ some dev_now
  conflict_main : find_branch "acme/site" "main" (store "a" "a") ≡ some main_now
  conflict_dev : find_branch "acme/site" "dev" (store "a" "a") ≡ some dev_now
  commit_done :
      commit_files env 7 (edit "dev" "c") (store "a" "b")
      ≡ (ok commit_reply, (commit_files env 7 (edit "dev" "c") (store "a" "b")).1)
  merge_done :
      merge env 8 merge_dev (store "a" "b")
      ≡ (ok record { sequence = 3 }, (merge env 8 merge_dev (store "a" "b")).1)
  review_done : create_review env "acme/site" "dev" "bob" "approved" "" (store "a" "b") ≡ (
    ok bobs_review,
    (create_review env "acme/site" "dev" "bob" "approved" "" (store "a" "b")).1,
  )
  changed_on_dev : changed (store "a" "a") "acme/site" "dev" 0 "a" ≡ true
  changed_on_main : changed (store "a" "a") "acme/site" "main" 0 "a" ≡ true
  next_is : 1 < (store "a" "b").next_sequence

-- The operations, run.
runs : Runs
unfolding place text_or_null find_document insert_document store_content written stored_version
    version_for cons_ok add_written write_row and_then write_files results hash_files finish_commit
    commit_body commit_files new_branch insert_branch fork_main create_branch set_draft
    set_auto_merge update_if_found update_branch_draft set_branch_auto_merge abandon delete_branch
    authored_since new_review has_authored review_branch create_review row_leb insert_row sort_rows
    add_to_group group_rows branch_commit_groups author_or_system rebase_message replay_group replay
    finish_rebase replay_unless_conflict rebase_changes rebase_branch rebase_body rebase
    insert_commit file_commit_row insert_file_commit update_branch set_head set_status
    set_base_and_head is_earlier later last_commit hash_or_genesis prev_of fetch_prev_commit_hash
    with_hash update_commit_hash chain_hash is_active rolled_back with_tx is_branch find_branch
    null_str change_at find_conflicts copy_changes hash_of_document content_hash_of changes_to_hash
    merge_message conclude merged_rows apply_merge merge_unless_conflict merge_changes merge_branch
    merge_body merge newer newest add_latest distinct_latest changed_since latest_changes visible
    up_to at_path file_row version_of file_version step run insert_file sort_files commit_hash
    lex_leb text_leb
runs = record {
  main_found = refl;
  dev_found = refl;
  conflict_main = refl;
  conflict_dev = refl;
  commit_done = refl;
  merge_done = refl;
  review_done = refl;
  changed_on_dev = refl;
  changed_on_main = refl;
  next_is = omega arith;
}

dev_active : is_active dev_now.status ≡ true
unfolding is_active
dev_active = refl

-- On dev nothing changed but the file that its commit wrote.
only_a :
    (path : String)
    → changed (store "a" "b") "acme/site" "dev" 0 path ≡ true
    → changed (store "a" "b") "acme/site" "main" 0 path ≡ false
unfolding place text_or_null find_document insert_document store_content written stored_version
    version_for cons_ok add_written write_row and_then write_files results hash_files finish_commit
    commit_body commit_files new_branch insert_branch fork_main create_branch set_draft
    set_auto_merge update_if_found update_branch_draft set_branch_auto_merge abandon delete_branch
    authored_since new_review has_authored review_branch create_review row_leb insert_row sort_rows
    add_to_group group_rows branch_commit_groups author_or_system rebase_message replay_group replay
    finish_rebase replay_unless_conflict rebase_changes rebase_branch rebase_body rebase
    insert_commit file_commit_row insert_file_commit update_branch set_head set_status
    set_base_and_head is_earlier later last_commit hash_or_genesis prev_of fetch_prev_commit_hash
    with_hash update_commit_hash chain_hash is_active rolled_back with_tx is_branch find_branch
    null_str change_at find_conflicts copy_changes hash_of_document content_hash_of changes_to_hash
    merge_message conclude merged_rows apply_merge merge_unless_conflict merge_changes merge_branch
    merge_body merge newer newest add_latest distinct_latest changed_since latest_changes visible
    up_to at_path file_row version_of file_version step run insert_file sort_files commit_hash
    lex_leb text_leb
only_a path h = ground (arith, eq_iff "a" path, eq_iff "b" path, eq_iff "b" "a")

file_version-commit-Apart_example :
    file_version
      (commit_files env 7 (edit "dev" "c") (store "a" "b")).1
      "acme/site"
      "dev"
      "a"
      (some 1)
    ≡ file_version (store "a" "b") "acme/site" "dev" "a" (some 1)
file_version-commit-Apart_example =
    file_version-commit-Apart env 7 (edit "dev" "c") (store "a" "b") "acme/site" "dev" "a" (some 1)
      (store-IsWf "a" "b") (inr (1, refl, runs.next_is))

file_version-merge_example :
    file_version (merge env 8 merge_dev (store "a" "b")).1 "acme/site" "main" "a" none
    ≡ three_way (store "a" "b") "acme/site" "dev" 0 "a"
file_version-merge_example =
    file_version-merge env 8 merge_dev (store "a" "b") (merge env 8 merge_dev (store "a" "b")).1
      record { sequence = 3 } main_now dev_now "a" (store-IsWf "a" "b") runs.main_found
      runs.dev_found refl runs.merge_done

merge_conflicting_example :
    (c : MergeConflict) × (cs : List MergeConflict) × (merge env 8 merge_dev (store "a" "a")
      ≡ (err (merge_conflict (c ∷ cs)), store "a" "a"))
merge_conflicting_example =
    merge_conflicting env 8 merge_dev (store "a" "a") main_now dev_now runs.conflict_main
      runs.conflict_dev dev_active refl "a" runs.changed_on_dev runs.changed_on_main

merge_clean_example : (resp : MergeResponse) × ((merge env 8 merge_dev (store "a" "b")).0 ≡ ok resp)
merge_clean_example =
    merge_clean env 8 merge_dev (store "a" "b") main_now dev_now runs.main_found runs.dev_found
      dev_active refl only_a

dry_run_foretells_example :
    ((merge env 8 (with_dry_run true merge_dev) (store "a" "b")).0
      ≡ (merge env 8 (with_dry_run false merge_dev) (store "a" "b")).0)
    × ((merge env 8 (with_dry_run true merge_dev) (store "a" "b")).1 ≡ record (store "a" "b") {
      next_sequence = (merge env 8 (with_dry_run true merge_dev) (store "a" "b")).1.next_sequence;
      drawn = (merge env 8 (with_dry_run true merge_dev) (store "a" "b")).1.drawn;
    })
dry_run_foretells_example = dry_run_foretells env 8 merge_dev (store "a" "b")

-- A merge of the branch that is only tried.
abbrev calls_and_dry_run : List Call
calls_and_dry_run = calls "a" "b" ++ (merges 8 (record merge_dev { dry_run = true }) ∷ [])

merge-Closed_example :
    Closed (merge env 8 merge_dev (store "a" "b")).1 "acme/site" "dev"
    × (((later : ℕ) (commit_req : CommitRequest)
          → commit_req.repo ≡ "acme/site"
          → commit_req.branch ≡ "dev"
          → (commit_files env later commit_req (merge env 8 merge_dev (store "a" "b")).1).0
            ≡ err branch_not_active)
        × ((later : ℕ) (again : MergeRequest)
            → again.repo ≡ "acme/site"
            → again.branch ≡ "dev"
            → (merge env later again (merge env 8 merge_dev (store "a" "b")).1).0
              ≡ err branch_not_active))
merge-Closed_example =
    merge-Closed env 8 merge_dev (store "a" "b") (merge env 8 merge_dev (store "a" "b")).1
      record { sequence = 3 } main_now dev_now runs.main_found runs.dev_found refl runs.merge_done

create_review-Recorded_example :
    (b : Branch) × ((find_branch "acme/site" "dev" (store "a" "b") ≡ some b)
      × (Records "acme/site" "dev" "bob" "approved" "" b bobs_review
          × (((create_review env "acme/site" "dev" "bob" "approved" "" (store "a" "b")).1.reviews
                ≡ bobs_review ∷ (store "a" "b").reviews)
              × (approved ≡ "approved"
                  → NotAuthored (store "a" "b") "acme/site" "dev" b.base_sequence "bob"))))
create_review-Recorded_example =
    create_review-Recorded env "acme/site" "dev" "bob" "approved" "" (store "a" "b")
      (create_review env "acme/site" "dev" "bob" "approved" "" (store "a" "b")).1 bobs_review
      runs.review_done
