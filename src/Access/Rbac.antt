-- ===== src/Access/Rbac.antt =====
-- RBACMiddleware of internal/server/middleware.go, and splitRepoPath of internal/server/url.go. A
-- request is its method, its path and the identity that authentication gave it.
use docstore.Base.{
  String, Bool, true, false, ◌&&◌, ◌||◌, not, Option, none, some, ◌==◌, if◌then◌else◌,
}
use docstore.Base.Text.{after_prefix, has_prefix, has_suffix, cut}
use docstore.Access.Roles.{RoleType, reader, writer, admin, AccessDb, get_role, has_admin}

pub record Request : Type 0 where
  pub method : String
  pub path : String
  pub identity : String

unfoldable pub cut_repo : String → Option (String × String) → String × String
cut_repo rest none = (rest, "")
cut_repo rest (some (repo, endpoint)) = (repo, endpoint)

unfoldable pub repo_of_rest : Option String → Option (String × String)
repo_of_rest none = none
repo_of_rest (some rest) = if rest == "" then none else some (cut_repo rest (cut "/-/" rest))

-- splitRepoPath; none is a path for which it is not ok.
unfoldable pub split_repo_path : String → Option (String × String)
split_repo_path path = repo_of_rest (after_prefix "/repos/" path)

unfoldable pub endpoint_only : Option (String × String) → String × String
endpoint_only none = ("", "")
endpoint_only (some (repo, sub_path)) = if sub_path == "" then ("", "") else (repo, sub_path)

unfoldable pub repo_and_sub_path : String → String × String
repo_and_sub_path path = endpoint_only (split_repo_path path)

unfoldable pub admin_only : RoleType → Bool
admin_only admin = true
admin_only _ = false

unfoldable pub maintainer_up : RoleType → Bool
maintainer_up reader = false
maintainer_up writer = false
maintainer_up _ = true

unfoldable pub writer_up : RoleType → Bool
writer_up reader = false
writer_up _ = true

-- The rules of roleAllows, of which the first that matches decides, from the last ones to the first.
unfoldable pub branch_rules : RoleType → String → String → Bool
branch_rules role method sub_path =
    if method == "DELETE" && has_prefix "branch/" sub_path
    then maintainer_up role
    else if method == "PATCH" && has_prefix "branch/" sub_path
    then writer_up role
    else if method == "POST" && sub_path == "ci/run"
    then writer_up role
    else false

unfoldable pub maintainer_rules : RoleType → String → String → Bool
maintainer_rules role method sub_path =
    if method == "POST" && (sub_path == "branch" || (sub_path == "merge" || sub_path == "rebase"))
    then maintainer_up role
    else if method == "POST" && sub_path == "checks/retry"
    then maintainer_up role
    else if has_prefix "branch/" sub_path && has_suffix "/auto-merge" sub_path
    then writer_up role
    else branch_rules role method sub_path

unfoldable pub issue_rules : RoleType → String → String → Bool
issue_rules role method sub_path =
    if method == "POST" && sub_path == "issues"
    then writer_up role
    else if method == "POST" && has_prefix "issues/" sub_path
    then writer_up role
    else if method == "PATCH" && has_prefix "issues/" sub_path
    then writer_up role
    else if method == "DELETE" && has_prefix "issues/" sub_path
    then maintainer_up role
    else maintainer_rules role method sub_path

unfoldable pub proposal_rules : RoleType → String → String → Bool
proposal_rules role method sub_path =
    if method == "POST" && sub_path == "proposals"
    then writer_up role
    else if method == "PATCH" && has_prefix "proposals/" sub_path
    then writer_up role
    else if method == "POST" && (has_prefix "proposals/" sub_path && has_suffix "/close" sub_path)
    then writer_up role
    else issue_rules role method sub_path

unfoldable pub writer_rules : RoleType → String → String → Bool
writer_rules role method sub_path =
    if method == "POST" && sub_path == "commit"
    then writer_up role
    else if method == "POST" && sub_path == "review"
    then writer_up role
    else if method == "POST" && sub_path == "comment"
    then writer_up role
    else if method == "DELETE" && has_prefix "comment/" sub_path
    then writer_up role
    else if method == "POST" && sub_path == "check"
    then writer_up role
    else proposal_rules role method sub_path

unfoldable pub release_rules : RoleType → String → String → Bool
release_rules role method sub_path =
    if method == "POST" && sub_path == "releases"
    then maintainer_up role
    else if method == "GET"
    then true
    else writer_rules role method sub_path

unfoldable pub role_allows : RoleType → String → String → Bool
role_allows role method sub_path =
    if sub_path == "roles" || has_prefix "roles/" sub_path
    then admin_only role
    else if sub_path == "secrets" && not (method == "GET")
    then admin_only role
    else if has_prefix "secrets/" sub_path && (method == "PUT" || method == "DELETE")
    then admin_only role
    else if method == "DELETE" && has_prefix "releases/" sub_path
    then admin_only role
    else release_rules role method sub_path

-- What the middleware does with a request: pass it on without a role, pass it on with one in its
-- context, or answer 403.
pub data Decision : Type 0 where
  unscoped forbidden : Decision
  granted : RoleType → Decision

unfoldable pub role_decision : String → String → Option RoleType → Decision
role_decision method sub_path none = forbidden
role_decision method sub_path (some role) =
    if role_allows role method sub_path then granted role else forbidden

unfoldable pub is_bootstrap : String → String → String → AccessDb → Bool
is_bootstrap bootstrap_admin repo identity db =
    (not (bootstrap_admin == "") && identity == bootstrap_admin) && not (has_admin repo db)

unfoldable pub scoped : String → Request → String → String → AccessDb → Decision
scoped bootstrap_admin r repo sub_path db =
    if repo == "" || sub_path == ""
    then unscoped
    else if is_bootstrap bootstrap_admin repo r.identity db
    then granted admin
    else role_decision r.method sub_path (get_role repo r.identity db)

unfoldable pub rbac : String → Request → AccessDb → Decision
rbac bootstrap_admin r db =
    let (repo, sub_path) = repo_and_sub_path r.path in scoped bootstrap_admin r repo sub_path db
