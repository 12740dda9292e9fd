-- ===== src/Policy.antt =====
-- The owners of files, of internal/policy/owners.go.
pub mod Owners
pub mod Prefix
pub mod Longest
