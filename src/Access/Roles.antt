-- ===== src/Access/Roles.antt =====
-- The tables of roles and of members of organisations, and the operations of internal/db/store.go
-- on them.
use docstore.Base.{
  String, Bool, true, false, ◌&&◌, Option, none, some, List, [], ◌∷◌, ◌==◌, first, keep, some_item,
  not, if◌then◌else◌,
}

pub data RoleType : Type 0 where
  reader writer maintainer admin : RoleType

unfoldable pub is_admin : RoleType → Bool
is_admin admin = true
is_admin _ = false

pub record RoleRow : Type 0 where
  pub repo : String
  pub identity : String
  pub role : RoleType

pub record OrgMember : Type 0 where
  pub org : String
  pub identity : String
  pub role : String

pub record Repo : Type 0 where
  pub name : String
  pub owner : String

pub record AccessDb : Type 0 where
  pub roles : List RoleRow
  pub org_members : List OrgMember
  pub repos : List Repo

unfoldable pub is_row : String → String → RoleRow → Bool
is_row repo identity r = r.repo == repo && r.identity == identity

-- The member that a join with the repos of this name gives.
unfoldable pub is_member : List Repo → String → String → OrgMember → Bool
is_member repos repo identity m =
    m.identity == identity && some_item (λ (r : Repo). r.owner == m.org && r.name == repo) repos

unfoldable pub org_role : Option OrgMember → Option RoleType
org_role none = none
org_role (some m) =
    if m.role == "owner" then some admin else if m.role == "member" then some reader else none

unfoldable pub role_or_org : Option RoleRow → Option OrgMember → Option RoleType
role_or_org (some r) m = some r.role
role_or_org none m = org_role m

-- GetRole; none is ErrRoleNotFound.
unfoldable pub get_role : String → String → AccessDb → Option RoleType
get_role repo identity db =
    role_or_org (first (is_row repo identity) db.roles)
      (first (is_member db.repos repo identity) db.org_members)

unfoldable pub upsert : RoleRow → List RoleRow → List RoleRow
upsert new [] = new ∷ []
upsert new (r ∷ rs) =
    let rest = upsert new rs in if is_row new.repo new.identity r then new ∷ rs else r ∷ rest

unfoldable pub set_role : String → String → RoleType → AccessDb → AccessDb
set_role repo identity role db = record db {
  roles = upsert record { repo = repo; identity = identity; role = role } db.roles;
}

-- DeleteRole; false is ErrRoleNotFound.
unfoldable pub delete_role : String → String → AccessDb → Bool × AccessDb
delete_role repo identity db = (
  some_item (is_row repo identity) db.roles,
  record db { roles = keep (λ r. not (is_row repo identity r)) db.roles },
)

unfoldable pub has_admin : String → AccessDb → Bool
has_admin repo db = some_item (λ (r : RoleRow). r.repo == repo && is_admin r.role) db.roles
