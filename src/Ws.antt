-- ===== src/Ws.antt =====
-- service/ws: the websocket service of one node.
pub mod TGroup
pub mod Config
pub mod External
pub mod Node
pub mod Cache
pub mod Client
pub mod ClientManager
pub mod Broadcast
pub mod LocalProxy
pub mod RedisProxy
pub mod Proxy
pub mod SubMsgs
pub mod SubQueue
pub mod Handler
pub mod Safety
pub mod Cluster
