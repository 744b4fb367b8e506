-- ===== src/Start/Stages.antt =====
-- server.go: what a start and a stop leave.
use gim.Base.{
  ℕ, ◌≢◌, arith, ◌≡◌, refl, sym, ap, ◌∙◌, String, ◌<>◌, true, false, if_either, some, List, ◌==◌,
  string_eq,
}
use text.Mathlib.TextEquality.{eq_iff}
use gim.ImErr.{Err, Result, ok, err}
use gim.Etcd.Discovery.{KeyValue}
use gim.Etcd.Register.{Etcd, ServiceRegister, registered, new_service_register}
use gim.Etcd.Register.Close.{new_service_register-registered}
use gim.Api.Client.{init_clients}
use gim.Api.Client.Registry.{watch_service-SameClients}
use gim.Api.Server.{server_name, rpc_addr, entry_of}
use gim.Ws.Config.{RunMode, local, redis, other_mode, init_config}
use gim.Ws.External.{External}
use gim.Ws.Node.{Node}
use gim.Ws.Safety.Invariant.{NodeInv, new_node-NodeInv, same-NodeInv}
use gim.Ws.SubQueue.{WorkerPool, new_proxy_msg_queue}
use gim.Start.{
  StartConfig, Panic, no_logger, no_option, no_redis_client, no_etcd_client, no_rpc_port,
  registration_failed, Service, Ended, returns, panics, init_proxy_msg_queue, init_ws,
  registered_as, init_rpc_server, and_then, init_rpc_client, join_cluster, of_mode, init_server,
}

-- The address of the node's rpc server, and the key of its entry.
abbrev addr_with : String → StartConfig → String
addr_with server_ip c = rpc_addr server_ip c.ws.rpc_port

abbrev name_with : String → StartConfig → String
name_with server_ip c = server_name c.ws.redis_prefix <> addr_with server_ip c

module _ {E : External} {C : Etcd} (pool : WorkerPool) where
  -- A node that is ready: its configuration is complete, the invariant holds, the subscription has a
  -- new queue, and the context is not cancelled.
  pub record IsReady (server_ip : String) (c : StartConfig) (s : Service E C) : Type 0 where
    pub invariant : NodeInv s.node
    pub completed : s.node.config ≡ init_config c.ws
    pub address : s.node.server_ip ≡ server_ip
    pub subscribed : s.queue ≡ some (new_proxy_msg_queue pool)
    pub going : s.cancelled ≡ some false
    pub mode : s.run_mode ≡ c.ws.run_mode
    pub logged : s.is_init_logger ≡ true
    pub optioned : c.has_option ≡ true
    pub reached : c.has_redis_client ≡ true

  -- A node of a cluster has started its rpc server and has its entry in etcd.
  pub record IsEntered (server_ip : String) (c : StartConfig) (s : Service E C) : Type 0 where
    pub register : ServiceRegister
    pub held : s.register ≡ some register
    pub status : register.status ≡ registered
    pub name : register.name ≡ name_with server_ip c
    pub addr : register.addr ≡ addr_with server_ip c
    pub serving : s.serving ≡ true
    pub has_client : c.has_etcd_client ≡ true
    pub has_port : c.ws.rpc_port ≢ ""

  -- What a panic of the start says.
  pub data Because (server_ip : String) (c : StartConfig) (s : Service E C) : Panic → Type 0 where
    logger_missing : s.is_init_logger ≡ false → Because server_ip c s no_logger
    option_missing : c.has_option ≡ false → Because server_ip c s no_option
    redis_missing : c.has_redis_client ≡ false → Because server_ip c s no_redis_client
    etcd_missing :
        c.ws.run_mode ≡ redis → c.has_etcd_client ≡ false → Because server_ip c s no_etcd_client
    port_missing : c.ws.run_mode ≡ redis → c.ws.rpc_port ≡ "" → Because server_ip c s no_rpc_port
    not_registered :
        (e : Err)
        → c.ws.run_mode ≡ redis
        → (new_service_register C (name_with server_ip c) (addr_with server_ip c) 5 s.etcd).0
          ≡ err e
        → Because server_ip c s (registration_failed e)

  pub data Started (server_ip : String) (c : StartConfig) (s : Service E C)
      : Ended E C → Type 0 where
    fails :
        (p : Panic) (s' : Service E C)
        → Because server_ip c s p
        → Started server_ip c s (panics p s')
    alone :
        (s' : Service E C)
        → c.ws.run_mode ≡ local
        → IsReady server_ip c s'
        → Started server_ip c s (returns s')
    apart :
        (s' : Service E C) (k : ℕ)
        → c.ws.run_mode ≡ other_mode k
        → IsReady server_ip c s'
        → s'.register ≡ s.register
        → s'.etcd ≡ s.etcd
        → Started server_ip c s (returns s')
    in_cluster :
        (s' : Service E C)
        → c.ws.run_mode ≡ redis
        → IsReady server_ip c s'
        → IsEntered server_ip c s'
        → Started server_ip c s (returns s')

  init_rpc_client-IsReady :
      (name server_ip : String) (known : Result (List KeyValue)) (c : StartConfig) (s : Service E C)
      → IsReady server_ip c s
      → IsReady server_ip c (init_rpc_client name known s)
  unfolding init_rpc_client
  init_rpc_client-IsReady name server_ip known c s h =
      let n : Node E = record (s.node) { rpc_clients = init_clients name } in
      let same = watch_service-SameClients known n in
      record {
        invariant = same-NodeInv s.node _ same.0 same.1 h.invariant;
        completed = same.2 ∙ h.completed;
        address = same.3 ∙ h.address;
        subscribed = h.subscribed;
        going = h.going;
        mode = h.mode;
        logged = h.logged;
        optioned = h.optioned;
        reached = h.reached;
      }

  registered-Started :
      (server_ip : String) (c : StartConfig) (known : Result (List KeyValue)) (s s0 : Service E C)
      (x : Result ServiceRegister × C.State)
      → x ≡ new_service_register C (name_with server_ip c) (addr_with server_ip c) 5 s0.etcd
      → c.ws.run_mode ≡ redis
      → c.has_etcd_client ≡ true
      → c.ws.rpc_port ≢ ""
      → IsReady server_ip c s
      → Started server_ip c s0 (
          and_then
            (registered_as x s)
            (λ s'. returns (init_rpc_client (server_name c.ws.redis_prefix) known s')))
  unfolding registered_as init_rpc_client
  registered-Started server_ip c known s s0 (err e, etcd) same mode client port h =
      fails _ _ (not_registered e mode (ap (λ y. y.0) (sym same)))
  registered-Started server_ip c known s s0 (ok r, etcd) same mode client port h =
      let (up, named, at) =
        new_service_register-registered C (name_with server_ip c) (addr_with server_ip c) 5 s0.etcd
          r (ap (λ y. y.0) (sym same)) in
      in_cluster _ mode
        (init_rpc_client-IsReady (server_name c.ws.redis_prefix) server_ip known c
          (record s { etcd = etcd; serving = true; register = some r })
          (record {
            invariant = h.invariant;
            completed = h.completed;
            address = h.address;
            subscribed = h.subscribed;
            going = h.going;
            mode = h.mode;
            logged = h.logged;
            optioned = h.optioned;
            reached = h.reached;
          }))
        (record {
          register = r;
          held = refl;
          status = up;
          name = named;
          addr = at;
          serving = refl;
          has_client = client;
          has_port = port;
        })

  join_cluster-Started :
      (server_ip : String) (c : StartConfig) (known : Result (List KeyValue)) (s s0 : Service E C)
      → s.etcd ≡ s0.etcd
      → c.ws.run_mode ≡ redis
      → IsReady server_ip c s
      → Started server_ip c s0 (join_cluster c known s)
  unfolding join_cluster init_rpc_server entry_of
  join_cluster-Started server_ip c known s s0 same mode h =
      if_either (Started server_ip c s0) c.has_etcd_client _ _
        (λ e.
          if_either (Started server_ip c s0) (c.ws.rpc_port == "") _ _
            (λ f. fails _ _ (port_missing mode ((eq_iff c.ws.rpc_port "").0 f)))
            (λ f.
              registered-Started server_ip c known s s0 _
                (ap (λ ip. new_service_register C (name_with ip c) (addr_with ip c) 5 s.etcd)
                    h.address
                  ∙ ap (new_service_register C (name_with server_ip c) (addr_with server_ip c) 5)
                      same)
                mode e (λ g. ground (arith, f, g, eq_iff c.ws.rpc_port "")) h))
        (λ e. fails _ _ (etcd_missing mode e))

  of_mode-Started :
      (mode : RunMode) (server_ip : String) (c : StartConfig) (known : Result (List KeyValue))
      (s s0 : Service E C)
      → c.ws.run_mode ≡ mode
      → s.etcd ≡ s0.etcd
      → s.register ≡ s0.register
      → IsReady server_ip c s
      → Started server_ip c s0 (of_mode mode c known s)
  unfolding of_mode
  of_mode-Started local server_ip c known s s0 e same held h = alone s e h
  of_mode-Started redis server_ip c known s s0 e same held h =
      join_cluster-Started server_ip c known s s0 same e h
  of_mode-Started (other_mode k) server_ip c known s s0 e same held h = apart s k e h held same

  -- InitServer of a configuration that is not nil, on every branch: it panics because the logger,
  -- the option or, in every mode, the redis client is missing, or, in mode redis, the etcd client
  -- or the rpc port is missing or the registration fails; otherwise it leaves a node whose
  -- configuration is complete, that holds the invariant, with a new queue of the subscription and
  -- a context, and in mode redis has started the rpc server and has a register in status
  -- registered under the address of the node. With a mode above redis the node leaves etcd and the
  -- register as they are: it has not entered the cluster.
  pub init_server-Started :
      (server_ip : String) (c : StartConfig) (known : Result (List KeyValue)) (s : Service E C)
      → Started server_ip c s (init_server pool server_ip c known s)
  unfolding init_server init_ws init_proxy_msg_queue
  init_server-Started server_ip c known s =
      if_either (Started server_ip c s) s.is_init_logger _ _
        (λ e.
          if_either
            (λ x. Started server_ip c s (
              and_then x
                (λ s'. of_mode c.ws.run_mode c known (record s' { run_mode = c.ws.run_mode }))))
            c.has_option _ _
            (λ f.
              if_either
                (λ x. Started server_ip c s (
                  and_then x
                    (λ s'. of_mode c.ws.run_mode c known (record s' { run_mode = c.ws.run_mode }))))
                c.has_redis_client _ _
                (λ g. of_mode-Started c.ws.run_mode server_ip c known _ s refl refl refl (record {
                  invariant =
                      new_node-NodeInv (init_config c.ws) server_ip s.node.rpc_clients s.node.ext;
                  completed = refl;
                  address = refl;
                  subscribed = refl;
                  going = refl;
                  mode = refl;
                  logged = e;
                  optioned = f;
                  reached = g;
                }))
                (λ g. fails _ _ (redis_missing g)))
            (λ f. fails _ _ (option_missing f)))
        (λ e. fails _ _ (logger_missing e))
