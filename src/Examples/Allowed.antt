-- ===== src/Examples/Allowed.antt =====
-- Tests and witnesses on roles, paths, owners, hashes and conditions.
use mathlib.Core.List.{Permᴰ}
use docstore.Base.{
  Bool, String, ◌≡◌, ◌⊎◌, refl, true, false, ◌&&◌, ◌==◌, some, [], ◌∷◌, arith, eq_iff,
}
use docstore.Base.Text.{
  char_eq, after_prefix, is_some, has_prefix, or_else, trim_prefix, has_suffix, append, cut_step,
  cut,
}
use docstore.Hash.{File, commit_hash}
use docstore.Hash.Sorted.{commit_hash-Perm}
use docstore.Access.Roles.{
  reader, writer, maintainer, admin, AccessDb, is_admin, is_row, is_member, org_role, role_or_org,
  get_role, upsert, set_role, delete_role, has_admin,
}
use docstore.Access.Rbac.{
  Request, cut_repo, repo_of_rest, split_repo_path, endpoint_only, repo_and_sub_path, admin_only,
  maintainer_up, writer_up, branch_rules, maintainer_rules, issue_rules, proposal_rules,
  writer_rules, release_rules, role_allows, role_decision, is_bootstrap, scoped, rbac,
}
use docstore.Access.Bootstrap.{rbac-set_role}
use docstore.Access.Order.{role_allows_mono}
use docstore.Access.Lookup.{get_role-set_role}
use docstore.Access.Urls.{Spells, split_repo_path-Spells}
use docstore.Policy.Owners.{
  OwnersMap, byte_len, lookup, match_len, exceeds, improve, best_match, owners_of, resolve_owners,
}
use docstore.Policy.Longest.{Owned, resolve_owners-Owned, resolve_owners-order}
use docstore.Config.Expr.{
  TriggerContext, done, malformed, bind, is_between, is_blank, skip_ws, is_ident_start,
  is_ident_char, parse_string_literal, take_ident, resolve_field, resolved, parse_field_ref,
  value_at, parse_value, compare_with, not_equal_or_bare, apply_op, value_comparison, closed,
  at_end, eval_trimmed, is_space, trim_left, trim_right, eval_if, parse_or, or_loop, parse_and,
  and_loop, parse_comparison,
}
use docstore.Config.Fuel.{Holds, Refused, eval_if_ends}
use docstore.Examples.Tables.{env}

abbrev access : AccessDb
access = record {
  roles = record { repo = "acme/site"; identity = "ann"; role = writer } ∷ [];
  org_members = record { org = "acme"; identity = "bob"; role = "owner" } ∷ [];
  repos = record { name = "acme/site"; owner = "acme" } ∷ [];
}

abbrev commit_request : Request
commit_request = record { method = "POST"; path = "/repos/acme/site/-/commit"; identity = "ann" }

rbac-set_role_example :
    rbac "root" commit_request
      (set_role (repo_and_sub_path "/repos/acme/site/-/commit").0 "bob" admin access)
    ≡ rbac "" commit_request
        (set_role (repo_and_sub_path "/repos/acme/site/-/commit").0 "bob" admin access)
rbac-set_role_example = rbac-set_role "root" "bob" commit_request access

writer_commits : role_allows writer "POST" "commit" ≡ true
unfolding is_admin is_row is_member org_role role_or_org get_role upsert set_role delete_role
    has_admin cut_repo repo_of_rest split_repo_path endpoint_only repo_and_sub_path admin_only
    maintainer_up writer_up branch_rules maintainer_rules issue_rules proposal_rules writer_rules
    release_rules role_allows role_decision is_bootstrap scoped rbac char_eq after_prefix is_some
    has_prefix or_else trim_prefix has_suffix append cut_step cut byte_len lookup match_len exceeds
    improve best_match owners_of resolve_owners
writer_commits = refl

role_allows_mono_example : role_allows maintainer "POST" "commit" ≡ true
role_allows_mono_example =
    role_allows_mono writer maintainer "POST" "commit" (omega arith) writer_commits

get_role-set_role_example :
    (get_role "acme/site" "cat" (set_role "acme/site" "cat" reader access) ≡ some reader)
    × ((repo' identity' : String)
        → ("acme/site" == repo' && "cat" == identity') ≡ false
        → get_role repo' identity' (set_role "acme/site" "cat" reader access)
          ≡ get_role repo' identity' access)
get_role-set_role_example = get_role-set_role "acme/site" "cat" reader access

split_done : split_repo_path "/repos/acme/site/-/commit" ≡ some ("acme/site", "commit")
unfolding is_admin is_row is_member org_role role_or_org get_role upsert set_role delete_role
    has_admin cut_repo repo_of_rest split_repo_path endpoint_only repo_and_sub_path admin_only
    maintainer_up writer_up branch_rules maintainer_rules issue_rules proposal_rules writer_rules
    release_rules role_allows role_decision is_bootstrap scoped rbac char_eq after_prefix is_some
    has_prefix or_else trim_prefix has_suffix append cut_step cut byte_len lookup match_len exceeds
    improve best_match owners_of resolve_owners
split_done = refl

abbrev commit_endpoint : String
commit_endpoint = "commit"

split_repo_path-Spells_example : Spells "/repos/acme/site/-/commit" "acme/site" commit_endpoint
split_repo_path-Spells_example =
    split_repo_path-Spells "/repos/acme/site/-/commit" "acme/site" "commit" split_done

abbrev owners : OwnersMap
owners = ("", "root@acme" ∷ []) ∷ (("src", "dev@acme" ∷ []) ∷ [])

abbrev owners_reversed : OwnersMap
owners_reversed = ("src", "dev@acme" ∷ []) ∷ (("", "root@acme" ∷ []) ∷ [])

resolve_owners-Owned_example : Owned owners "src/a.go" (resolve_owners owners "src/a.go")
resolve_owners-Owned_example = resolve_owners-Owned owners "src/a.go"

same_owners : (k : String) → lookup k owners ≡ lookup k owners_reversed
unfolding lookup
same_owners k = ground (arith, eq_iff "" k, eq_iff "src" k, eq_iff "src" "")

resolve_owners-order_example :
    resolve_owners owners "src/a.go" ≡ resolve_owners owners_reversed "src/a.go"
resolve_owners-order_example = resolve_owners-order owners owners_reversed "src/a.go" same_owners

abbrev file_a : File
file_a = record { path = "a"; content_hash = "hash of a" }

abbrev file_b : File
file_b = record { path = "b"; content_hash = "hash of b" }

abbrev content : String → String
content path = append "hash of " path

from_a : file_a.content_hash ≡ content "a"
unfolding append
from_a = refl

from_b : file_b.content_hash ≡ content "b"
unfolding append
from_b = refl

commit_hash-Perm_example :
    commit_hash env.lib "prev" 3 "acme/site" "dev" "ann" "edit" 7 (file_b ∷ (file_a ∷ []))
    ≡ commit_hash env.lib "prev" 3 "acme/site" "dev" "ann" "edit" 7 (file_a ∷ (file_b ∷ []))
commit_hash-Perm_example =
    commit_hash-Perm env.lib content "prev" 3 "acme/site" "dev" "ann" "edit" 7
      (file_b ∷ (file_a ∷ [])) (file_a ∷ (file_b ∷ [])) (Permᴰ.swap refl refl)
      (from_b, (from_a, tt))

abbrev push_event : TriggerContext
push_event = record { type = "push"; branch = "main"; base_branch = ""; proposal_id = "" }

unknown_field :
    eval_if push_event " event.type == 'push' && (event.branch != \"dev\" || false_)" ≡ malformed
unfolding bind is_between is_blank skip_ws is_ident_start is_ident_char parse_string_literal
    take_ident resolve_field resolved parse_field_ref value_at parse_value compare_with
    not_equal_or_bare apply_op value_comparison closed at_end eval_trimmed is_space trim_left
    trim_right eval_if parse_or or_loop parse_and and_loop parse_comparison char_eq after_prefix
unknown_field = refl

condition_passes :
    eval_if push_event " event.type == 'push' && (event.branch != \"dev\" || '') " ≡ done true ""
unfolding bind is_between is_blank skip_ws is_ident_start is_ident_char parse_string_literal
    take_ident resolve_field resolved parse_field_ref value_at parse_value compare_with
    not_equal_or_bare apply_op value_comparison closed at_end eval_trimmed is_space trim_left
    trim_right eval_if parse_or or_loop parse_and and_loop parse_comparison char_eq after_prefix
condition_passes = refl

eval_if_ends_example :
    let text = trim_right (trim_left "(event.type == 'push'") in
    ((result : Bool) × ((eval_if push_event "(event.type == 'push'" ≡ done result "")
        × Holds push_event text result))
    ⊎ ((eval_if push_event "(event.type == 'push'" ≡ malformed) × Refused push_event text)
eval_if_ends_example = eval_if_ends push_event "(event.type == 'push'"
