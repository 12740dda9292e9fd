-- ===== src/Access.antt =====
-- Who may do what: the roles of a repo and the middleware that enforces them.
pub mod Roles
pub mod Rbac
pub mod Lookup
pub mod Order
pub mod Bootstrap
pub mod Urls
