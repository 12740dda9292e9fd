-- ===== src/Gate.antt =====
-- What decides whether a branch may be merged: check runs, proposals, the policies, and the
-- auto-merge worker.
pub mod Tables
pub mod Checks
pub mod Proposals
pub mod Policy
pub mod AutoMerge
pub mod Handler
