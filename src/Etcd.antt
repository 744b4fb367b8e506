-- ===== src/Etcd.antt =====
-- pkg/etcd_registry: a node enters itself in etcd, and follows the entries of the others.
pub mod Register
pub mod Discovery
