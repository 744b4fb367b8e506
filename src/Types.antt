-- ===== src/Types.antt =====
-- pkg/types: what is sent to clients, between nodes and to groups.
pub mod Response
pub mod Message
pub mod Server
