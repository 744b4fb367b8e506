-- ===== src/Start.antt =====
-- server.go, with `InitWs` and `CloseServer` of service/ws and of service/api: how a node starts and
-- stops. The libraries that are started on the way are parameters.
pub mod Stages
pub mod Stopping
pub mod Connections
use gim.Base.{
  ℕ, String, ◌<>◌, Bool, true, false, Option, none, some, List, [], ◌==◌, string_eq, if◌then◌else◌,
}
use gim.ImErr.{Err, Result, ok, err}
use gim.Etcd.Discovery.{KeyValue, watch_service}
use gim.Etcd.Register.{Etcd, ServiceRegister, new_service_register, close}
use gim.Api.Client.{init_clients, on_register, on_unregister}
use gim.Api.Server.{server_name, rpc_addr, entry_of}
use gim.Ws.Config.{WsConfig, RunMode, local, redis, other_mode, init_config}
use gim.Ws.External.{External}
use gim.Ws.Node.{Node, new_client_manager}
use gim.Ws.SubQueue.{WorkerPool, ProxyMsgQueue, new_proxy_msg_queue, stop_worker_m}
use gim.Ws.TGroup.{new_t_group_manager}

-- The configuration, which is not nil, and whether its pointers to library objects are set.
pub record StartConfig : Type 0 where
  pub ws : WsConfig
  pub has_option : Bool
  pub has_redis_client : Bool
  pub has_etcd_client : Bool

pub data Panic : Type 0 where
  no_logger no_option no_redis_client no_etcd_client no_rpc_port : Panic
  logger_failed registration_failed : Err → Panic
  not_started closed_twice : Panic

-- The variables of the packages. `cancelled` is none before the context is made; `serving` is
-- whether the rpc server was started, and not stopped since.
pub record Service (E : External) (C : Etcd) : Type 0 where
  pub is_init_logger : Bool
  pub run_mode : RunMode
  pub cancelled : Option Bool
  pub node : Node E
  pub queue : Option ProxyMsgQueue
  pub register : Option ServiceRegister
  pub serving : Bool
  pub etcd : C.State

-- A call returns, or panics and leaves what it did before.
pub data Ended (E : External) (C : Etcd) : Type 0 where
  returns : Service E C → Ended E C
  panics : Panic → Service E C → Ended E C

module _ {E : External} {C : Etcd} where
  abbrev pub and_then : Ended E C → (Service E C → Ended E C) → Ended E C
  and_then (panics p s) next = panics p s
  and_then (returns s) next = next s

  -- `InitLogger`, with the result of the logger.
  unfoldable pub init_logger : Option Err → Service E C → Ended E C
  init_logger (some e) s = panics (logger_failed e) s
  init_logger none s = returns (record s { is_init_logger = true })

  -- `NewProxyMsgQueue` subscribes in every mode, and dereferences the redis client for it.
  unfoldable pub init_proxy_msg_queue : WorkerPool → StartConfig → Service E C → Ended E C
  init_proxy_msg_queue pool c s =
      if c.has_redis_client
      then returns (record s { queue = some (new_proxy_msg_queue pool) })
      else panics no_redis_client s

  -- `InitWs`, with the address of the machine. The proxy follows the mode of the configuration.
  unfoldable pub init_ws : WorkerPool → String → StartConfig → Service E C → Ended E C
  unfolding init_proxy_msg_queue
  init_ws pool server_ip c s =
      if c.has_option
      then init_proxy_msg_queue pool c (record s {
        node = record (s.node) {
          config = init_config c.ws;
          server_ip = server_ip;
          client_m = new_client_manager;
          t_group_m = new_t_group_manager;
        };
      })
      else panics no_option s

  unfoldable pub registered_as : Result ServiceRegister × C.State → Service E C → Ended E C
  registered_as (err e, etcd) s =
      panics (registration_failed e) (record s { etcd = etcd; serving = true })
  registered_as (ok r, etcd) s =
      returns (record s { etcd = etcd; serving = true; register = some r })

  -- `InitServer` of the rpc server: the node enters itself under a lease of 5 seconds.
  unfoldable pub init_rpc_server : String → String → Service E C → Ended E C
  unfolding registered_as
  init_rpc_server name ip_addr s =
      registered_as
        (new_service_register C (entry_of name ip_addr).key (entry_of name ip_addr).val 5 s.etcd) s

  -- `InitClient`: an error of the first read is dropped, and then nothing is watched. The later
  -- events come one by one.
  unfoldable pub init_rpc_client : String → Result (List KeyValue) → Service E C → Service E C
  init_rpc_client name known s = record s {
    node =
        (watch_service (λ kv. on_register kv.key kv.val) (λ kv. on_unregister kv.key) known []
          (record (s.node) { rpc_clients = init_clients name })).1;
  }

  -- What `InitServer` does in a cluster.
  unfoldable pub join_cluster : StartConfig → Result (List KeyValue) → Service E C → Ended E C
  unfolding init_rpc_server
  join_cluster c known s =
      let name = server_name c.ws.redis_prefix in
      if c.has_etcd_client
      then (if c.ws.rpc_port == ""
          then panics no_rpc_port s
          else and_then (init_rpc_server name (rpc_addr s.node.server_ip c.ws.rpc_port) s)
              (λ s'. returns (init_rpc_client name known s')))
      else panics no_etcd_client s

  unfoldable pub of_mode : RunMode → StartConfig → Result (List KeyValue) → Service E C → Ended E C
  of_mode local c known s = returns s
  of_mode redis c known s = join_cluster c known s
  of_mode (other_mode k) c known s = returns s

  unfoldable pub init_server :
      WorkerPool → String → StartConfig → Result (List KeyValue) → Service E C → Ended E C
  init_server pool server_ip c known s =
      if s.is_init_logger
      then and_then (init_ws pool server_ip c (record s { cancelled = some false }))
          (λ s'. of_mode c.ws.run_mode c known (record s' { run_mode = c.ws.run_mode }))
      else panics no_logger s

  -- `ws.CloseServer`
  unfoldable pub stop_proxy_wm : WorkerPool → Option ProxyMsgQueue → Service E C → Ended E C
  stop_proxy_wm pool none s = returns s
  stop_proxy_wm pool (some q) s = elim (stop_worker_m pool q) [
    | none ↦ panics closed_twice s
    | some q' ↦ returns (record s { queue = some q' })
  ]

  -- `OnShutdown` of the rpc server; the error of the register is dropped.
  unfoldable pub on_shutdown : Option ServiceRegister → Service E C → Ended E C
  on_shutdown none s = panics not_started s
  on_shutdown (some r) s =
      let (e, r', etcd) = close C r s.etcd in
      returns (record s { register = some r'; etcd = etcd; serving = false })

  unfoldable pub shutdown_of_mode : RunMode → Service E C → Ended E C
  shutdown_of_mode local s = returns s
  shutdown_of_mode redis s = on_shutdown s.register s
  shutdown_of_mode (other_mode k) s = returns s

  -- `CloseServer`, but for the etcd client, the log files and the pause at its end.
  unfoldable pub close_server : WorkerPool → Service E C → Ended E C
  close_server pool s = elim s.cancelled [
    | none ↦ panics not_started s
    | some b ↦
        and_then (stop_proxy_wm pool s.queue (record s { cancelled = some true }))
          (λ s'. shutdown_of_mode s'.run_mode s')
  ]
