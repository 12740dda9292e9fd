-- ===== src/Ui.antt =====
-- The web UI, of internal/ui.
pub mod Diff
