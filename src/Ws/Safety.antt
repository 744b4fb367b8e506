-- ===== src/Ws/Safety.antt =====
-- What holds of a node between two events, whatever happened before.
pub mod Invariant
pub mod Groups
pub mod LateJoin
pub mod LateNote
pub mod Leaving
pub mod Quiet
pub mod Queueing
pub mod Sends
pub mod Steps
pub mod Requests
pub mod Hooks
