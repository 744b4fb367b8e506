-- ===== src/Examples.antt =====
-- The example programs.
pub mod Server
pub mod Settings
