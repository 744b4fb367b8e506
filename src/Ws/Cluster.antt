-- ===== src/Ws/Cluster.antt =====
-- Nodes together: a call of another node, and a group message that all nodes get.
pub mod Remote
pub mod Arrival
pub mod Publish
pub mod Groups
