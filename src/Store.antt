-- ===== src/Store.antt =====
-- The document store: the tables of internal/db and the transactions of internal/db/store.go,
-- with the queries of internal/store/store.go. Operations stand in Tables, Rows, Commit, Branches,
-- Merge, Rebase; what is proved of them stands below those and in Invariant.
pub mod Tables
pub mod Rows
pub mod Writes
pub mod Commit
pub mod Branches
pub mod Merge
pub mod Rebase
pub mod Invariant
pub mod Tree
pub mod Diff
pub mod Lookup
pub mod Changes
