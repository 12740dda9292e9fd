-- ===== src/Config.antt =====
-- The configuration of CI, of internal/ciconfig.
pub mod Expr
pub mod Sizes
pub mod Fuel
