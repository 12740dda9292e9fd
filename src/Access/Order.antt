-- ===== src/Access/Order.antt =====
-- How the roles of internal/server/middleware.go compare.
use docstore.Base.{ℕ, ◌≤◌, String, ◌≡◌, refl, Bool, true, false, ◌==◌, if◌then◌else◌, arith}
use docstore.Access.Roles.{RoleType, reader, writer, maintainer, admin}
use docstore.Access.Rbac.{
  admin_only, maintainer_up, writer_up, branch_rules, maintainer_rules, issue_rules, proposal_rules,
  writer_rules, release_rules, role_allows,
}

abbrev pub rank : RoleType → ℕ
rank reader = 0
rank writer = 1
rank maintainer = 2
rank admin = 3

abbrev Implies : Bool → Bool → Type 0
Implies a b = a ≡ true → b ≡ true

if-Implies :
    {a a' b b' : Bool} (c : Bool)
    → Implies a a'
    → Implies b b'
    → Implies (if c then a else b) (if c then a' else b')
if-Implies true f g = f
if-Implies false f g = g

admin_only_mono : (r s : RoleType) → rank r ≤ rank s → Implies (admin_only r) (admin_only s)
unfolding admin_only
admin_only_mono admin admin h = λ e. e
admin_only_mono admin reader h = λ e. absurd (omega (arith, h))
admin_only_mono admin writer h = λ e. absurd (omega (arith, h))
admin_only_mono admin maintainer h = λ e. absurd (omega (arith, h))
admin_only_mono reader s h = λ e. cc
admin_only_mono writer s h = λ e. cc
admin_only_mono maintainer s h = λ e. cc

maintainer_up_mono :
    (r s : RoleType) → rank r ≤ rank s → Implies (maintainer_up r) (maintainer_up s)
unfolding maintainer_up
maintainer_up_mono reader s h = λ e. cc
maintainer_up_mono writer s h = λ e. cc
maintainer_up_mono r maintainer h = λ e. refl
maintainer_up_mono r admin h = λ e. refl
maintainer_up_mono maintainer reader h = λ e. absurd (omega (arith, h))
maintainer_up_mono maintainer writer h = λ e. absurd (omega (arith, h))
maintainer_up_mono admin reader h = λ e. absurd (omega (arith, h))
maintainer_up_mono admin writer h = λ e. absurd (omega (arith, h))

writer_up_mono : (r s : RoleType) → rank r ≤ rank s → Implies (writer_up r) (writer_up s)
unfolding writer_up
writer_up_mono reader s h = λ e. cc
writer_up_mono r writer h = λ e. refl
writer_up_mono r maintainer h = λ e. refl
writer_up_mono r admin h = λ e. refl
writer_up_mono writer reader h = λ e. absurd (omega (arith, h))
writer_up_mono maintainer reader h = λ e. absurd (omega (arith, h))
writer_up_mono admin reader h = λ e. absurd (omega (arith, h))

branch_rules_mono :
    (r s : RoleType) (method sub_path : String)
    → rank r ≤ rank s
    → Implies (branch_rules r method sub_path) (branch_rules s method sub_path)
unfolding branch_rules
branch_rules_mono r s method sub_path h e =
    let a = admin_only_mono r s h in
    let m = maintainer_up_mono r s h in let w = writer_up_mono r s h in ground arith

maintainer_rules_mono :
    (r s : RoleType) (method sub_path : String)
    → rank r ≤ rank s
    → Implies (maintainer_rules r method sub_path) (maintainer_rules s method sub_path)
unfolding maintainer_rules
maintainer_rules_mono r s method sub_path h e =
    let a = admin_only_mono r s h in
    let m = maintainer_up_mono r s h in
    let w = writer_up_mono r s h in
    let rest = branch_rules_mono r s method sub_path h in ground arith

issue_rules_mono :
    (r s : RoleType) (method sub_path : String)
    → rank r ≤ rank s
    → Implies (issue_rules r method sub_path) (issue_rules s method sub_path)
unfolding issue_rules
issue_rules_mono r s method sub_path h e =
    let a = admin_only_mono r s h in
    let m = maintainer_up_mono r s h in
    let w = writer_up_mono r s h in
    let rest = maintainer_rules_mono r s method sub_path h in ground arith

proposal_rules_mono :
    (r s : RoleType) (method sub_path : String)
    → rank r ≤ rank s
    → Implies (proposal_rules r method sub_path) (proposal_rules s method sub_path)
unfolding proposal_rules
proposal_rules_mono r s method sub_path h e =
    let a = admin_only_mono r s h in
    let m = maintainer_up_mono r s h in
    let w = writer_up_mono r s h in
    let rest = issue_rules_mono r s method sub_path h in ground arith

writer_rules_mono :
    (r s : RoleType) (method sub_path : String)
    → rank r ≤ rank s
    → Implies (writer_rules r method sub_path) (writer_rules s method sub_path)
unfolding writer_rules
writer_rules_mono r s method sub_path h e =
    let a = admin_only_mono r s h in
    let m = maintainer_up_mono r s h in
    let w = writer_up_mono r s h in
    let rest = proposal_rules_mono r s method sub_path h in ground arith

release_rules_mono :
    (r s : RoleType) (method sub_path : String)
    → rank r ≤ rank s
    → Implies (release_rules r method sub_path) (release_rules s method sub_path)
unfolding release_rules
release_rules_mono r s method sub_path h e =
    let a = admin_only_mono r s h in
    let m = maintainer_up_mono r s h in
    let w = writer_up_mono r s h in
    let rest = writer_rules_mono r s method sub_path h in ground arith

-- Roles are ordered: whatever request a role may make, every higher role may make too, over reader,
-- writer, maintainer and admin in this order.
pub role_allows_mono :
    (r s : RoleType) (method sub_path : String)
    → rank r ≤ rank s
    → Implies (role_allows r method sub_path) (role_allows s method sub_path)
unfolding role_allows
role_allows_mono r s method sub_path h e =
    let a = admin_only_mono r s h in
    let m = maintainer_up_mono r s h in
    let w = writer_up_mono r s h in
    let rest = release_rules_mono r s method sub_path h in ground arith

branch_rules-reader : (method sub_path : String) → branch_rules reader method sub_path ≡ false
unfolding branch_rules maintainer_up writer_up
branch_rules-reader method sub_path = ground arith

maintainer_rules-reader :
    (method sub_path : String) → maintainer_rules reader method sub_path ≡ false
unfolding maintainer_rules maintainer_up writer_up
maintainer_rules-reader method sub_path =
    let rest = branch_rules-reader method sub_path in ground arith

issue_rules-reader : (method sub_path : String) → issue_rules reader method sub_path ≡ false
unfolding issue_rules maintainer_up writer_up
issue_rules-reader method sub_path =
    let rest = maintainer_rules-reader method sub_path in ground arith

proposal_rules-reader : (method sub_path : String) → proposal_rules reader method sub_path ≡ false
unfolding proposal_rules maintainer_up writer_up
proposal_rules-reader method sub_path =
    let rest = issue_rules-reader method sub_path in ground arith

writer_rules-reader : (method sub_path : String) → writer_rules reader method sub_path ≡ false
unfolding writer_rules maintainer_up writer_up
writer_rules-reader method sub_path =
    let rest = proposal_rules-reader method sub_path in ground arith

release_rules-reader :
    (method sub_path : String) → Implies (release_rules reader method sub_path) (method == "GET")
unfolding release_rules admin_only maintainer_up
release_rules-reader method sub_path e =
    let rest = writer_rules-reader method sub_path in ground arith

-- A reader changes nothing: the requests that a reader may make are GET requests.
pub role_allows-reader :
    (method sub_path : String) → Implies (role_allows reader method sub_path) (method == "GET")
unfolding role_allows admin_only maintainer_up
role_allows-reader method sub_path e =
    let rest = release_rules-reader method sub_path in ground arith
