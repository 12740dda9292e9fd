-- ===== src/Client.antt =====
-- The command-line client.
pub mod Chain
