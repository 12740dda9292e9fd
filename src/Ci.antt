-- ===== src/Ci.antt =====
-- The job queue of the CI scheduler, of internal/db/ci_jobs.go.
pub mod Jobs
pub mod Handlers
pub mod Queue
pub mod Claims
pub mod Tokens
pub mod Issue
pub mod Pods
