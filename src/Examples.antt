-- ===== src/Examples.antt =====
-- Tests: the operations run on small tables, and the theorems applied to them.
pub mod Tables
pub mod Ideal
pub mod Stored
pub mod Queued
pub mod Allowed
pub mod Shown
pub mod Sent
