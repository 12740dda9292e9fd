-- ===== src/Access/Bootstrap.antt =====
-- What the RBAC middleware lets through, and the end of the bootstrap admin's access.
use docstore.Base.{String, ◌≡◌, ◌≢◌, ◌⊎◌, true, false, Option, some, arith}
use docstore.Access.Roles.{RoleType, admin, AccessDb, get_role, set_role, has_admin}
use docstore.Access.Rbac.{
  Request, Decision, granted, unscoped, forbidden, is_bootstrap, scoped, rbac, repo_and_sub_path,
  role_allows,
}
use docstore.Access.Lookup.{has_admin-set_role}

-- Why a request was granted a role: it is the identity's role and allows the request, or the
-- identity is the bootstrap admin, one is configured, and the repo has no admin.
abbrev pub Grounds : String → Request → AccessDb → RoleType → Type 0
Grounds bootstrap_admin r db role =
    let (repo, sub_path) = repo_and_sub_path r.path in
    ((get_role repo r.identity db ≡ some role) × (role_allows role r.method sub_path ≡ true))
    ⊎ (((bootstrap_admin ≢ "") × ((r.identity ≡ bootstrap_admin) × (has_admin repo db ≡ false)))
        × (role ≡ admin))

-- How a decision came about, by what it is.
abbrev FromRole : String → String → Option RoleType → Decision → Type 0
FromRole method sub_path o (granted role) =
    (o ≡ some role) × (role_allows role method sub_path ≡ true)
FromRole method sub_path o unscoped = ⊥
FromRole method sub_path o forbidden = Unit

scoped-closed :
    (bootstrap_admin : String) (r : Request) (repo sub_path : String) (db : AccessDb)
    → has_admin repo db ≡ true
    → scoped bootstrap_admin r repo sub_path db ≡ scoped "" r repo sub_path db
unfolding scoped is_bootstrap
scoped-closed b r repo sub_path db h = rw h (ground arith)

-- Once an admin is set for a repo, by SetRole, the bootstrap admin is nobody special there: the
-- middleware decides every request on the repo as it does without a bootstrap admin.
pub rbac-set_role :
    (bootstrap_admin identity : String) (r : Request) (db : AccessDb)
    → let repo = (repo_and_sub_path r.path).0 in
      rbac bootstrap_admin r (set_role repo identity admin db)
      ≡ rbac "" r (set_role repo identity admin db)
unfolding rbac
rbac-set_role b identity r db =
    let (repo, sub_path) = repo_and_sub_path r.path in
    scoped-closed b r repo sub_path (set_role repo identity admin db)
      (has_admin-set_role repo identity db)
