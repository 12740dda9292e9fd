-- ===== src/Access/Lookup.antt =====
-- Looking up a role after SetRole and DeleteRole of internal/db/store.go.
use docstore.Base.{
  String, ◌≡◌, refl, inl, inr, Bool, true, false, ◌&&◌, not, none, some, List, [], ◌∷◌, arith,
  first, keep, some_item, Bool-cases, ◌==◌, eq_refl, eq_iff,
}
use docstore.Access.Roles.{
  RoleType, admin, RoleRow, AccessDb, is_admin, is_row, is_member, org_role, role_or_org, get_role,
  upsert, set_role, delete_role, has_admin,
}

is_row-own : (r : RoleRow) → is_row r.repo r.identity r ≡ true
unfolding is_row
is_row-own r = rw (eq_refl r.repo, eq_refl r.identity) refl

-- Rows of one repo and identity are not rows of another.
is_row-apart :
    (repo identity repo' identity' : String) (r : RoleRow)
    → (repo == repo' && identity == identity') ≡ false
    → is_row repo identity r ≡ true
    → is_row repo' identity' r ≡ false
unfolding is_row
is_row-apart repo identity repo' identity' r h e = ground (
  arith,
  eq_iff r.repo repo,
  eq_iff r.repo repo',
  eq_iff repo repo',
  eq_iff r.identity identity,
  eq_iff r.identity identity',
  eq_iff identity identity',
)

first-upsert :
    (new : RoleRow) (rs : List RoleRow)
    → first (is_row new.repo new.identity) (upsert new rs) ≡ some new
unfolding upsert
first-upsert new [] = rw (is_row-own new) refl
first-upsert new (r ∷ rs) = elim (Bool-cases (is_row new.repo new.identity r)) [
  | inl e ↦ rw (e, is_row-own new) refl
  | inr e ↦ rw (e, e) (first-upsert new rs)
]

first-upsert_apart :
    (new : RoleRow) (repo identity : String) (rs : List RoleRow)
    → (new.repo == repo && new.identity == identity) ≡ false
    → first (is_row repo identity) (upsert new rs) ≡ first (is_row repo identity) rs
unfolding upsert
first-upsert_apart new repo identity [] h =
    rw (is_row-apart new.repo new.identity repo identity new h (is_row-own new)) refl
first-upsert_apart new repo identity (r ∷ rs) h =
    elim (Bool-cases (is_row new.repo new.identity r)) [
      | inl e ↦
          rw
            (
              e,
              is_row-apart new.repo new.identity repo identity new h (is_row-own new),
              is_row-apart new.repo new.identity repo identity r h e,
            )
            refl
      | inr e ↦ rw (e, first-upsert_apart new repo identity rs h) refl
    ]

-- SetRole decides what GetRole answers for the identity in the repo, whatever its role was and
-- whatever the organisation of the repo says, and what it answers for another pair is as before.
pub get_role-set_role :
    (repo identity : String) (role : RoleType) (db : AccessDb)
    → (get_role repo identity (set_role repo identity role db) ≡ some role)
      × ((repo' identity' : String)
          → (repo == repo' && identity == identity') ≡ false
          → get_role repo' identity' (set_role repo identity role db) ≡ get_role repo' identity' db)
unfolding get_role set_role role_or_org
get_role-set_role repo identity role db =
    let new : RoleRow = record { repo = repo; identity = identity; role = role } in
    (
      rw (first-upsert new db.roles) refl,
      λ repo' identity' h. rw (first-upsert_apart new repo' identity' db.roles h) refl,
    )

first-keep-not :
    (p : RoleRow → Bool) (rs : List RoleRow) → first p (keep (λ r. not (p r)) rs) ≡ none
first-keep-not p [] = refl
first-keep-not p (r ∷ rs) = elim (Bool-cases (p r)) [
  | inl e ↦ rw e (first-keep-not p rs)
  | inr e ↦ rw (e, e) (first-keep-not p rs)
]

first-keep_apart :
    (repo identity repo' identity' : String) (rs : List RoleRow)
    → (repo == repo' && identity == identity') ≡ false
    → first (is_row repo' identity') (keep (λ r. not (is_row repo identity r)) rs)
      ≡ first (is_row repo' identity') rs
first-keep_apart repo identity repo' identity' [] h = refl
first-keep_apart repo identity repo' identity' (r ∷ rs) h =
    let rest = first-keep_apart repo identity repo' identity' rs h in
    elim (Bool-cases (is_row repo identity r)) [
      | inl e ↦ rw (e, is_row-apart repo identity repo' identity' r h e) rest
      | inr e ↦ rw (e, rest) refl
    ]

-- After DeleteRole, GetRole answers for the identity in the repo what membership in the repo's
-- organisation gives, and for another pair what it answered before.
pub get_role-delete_role :
    (repo identity : String) (db : AccessDb)
    → (get_role repo identity (delete_role repo identity db).1
        ≡ org_role (first (is_member db.repos repo identity) db.org_members))
      × ((repo' identity' : String)
          → (repo == repo' && identity == identity') ≡ false
          → get_role repo' identity' (delete_role repo identity db).1 ≡ get_role repo' identity' db)
unfolding get_role delete_role role_or_org
get_role-delete_role repo identity db = (
  rw (first-keep-not (is_row repo identity) db.roles) refl,
  λ repo' identity' h. rw (first-keep_apart repo identity repo' identity' db.roles h) refl,
)

pub has_admin-set_role :
    (repo identity : String) (db : AccessDb)
    → has_admin repo (set_role repo identity admin db) ≡ true
unfolding has_admin set_role upsert is_admin
has_admin-set_role repo identity db = upserted db.roles
  where
    new : RoleRow
    new = record { repo = repo; identity = identity; role = admin }

    upserted :
        (rs : List RoleRow)
        → some_item (λ (r : RoleRow). r.repo == repo && is_admin r.role) (upsert new rs) ≡ true
    upserted [] = rw (eq_refl repo) refl
    upserted (r ∷ rs) = elim (Bool-cases (is_row repo identity r)) [
      | inl e ↦ rw (e, eq_refl repo) refl
      | inr e ↦ rw e (ground (arith, upserted rs))
    ]
