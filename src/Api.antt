-- ===== src/Api.antt =====
-- service/api: the calls between nodes.
pub mod Client
pub mod Server
