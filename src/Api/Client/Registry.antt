-- ===== src/Api/Client/Registry.antt =====
-- service/api/client/client.go: the rpc clients and the entries of etcd.
use gim.Base.{
  Bool-cases, inl, inr, ℕ, ◌≡◌, refl, ◌∙◌, ap, String, ◌<>◌, true, Option, none, some, List, [],
  ◌∷◌, arith, ◌==◌, string_eq, if◌then◌else◌,
}
use gim.Base.Dict.{lookup, lookup-insert, lookup-erase}
use text.Mathlib.TextEquality.{eq_iff}
use gim.ImErr.{Result, ok, err}
use gim.Ws.External.{External}
use gim.Ws.Node.{Node, RpcClient}
use gim.Etcd.Discovery.{
  KeyValue, Event, put, delete, watch_events, handle_event, register_all, watch_service,
}
use gim.Types.Server.{new_server, server_string}
use gim.Api.Server.{server_name, rpc_addr, entry_of}
use gim.Api.Client.{
  on_register, on_unregister, is_current, put_rpc_client, found_client, get_client_by_addr,
}

-- The address that an entry of the map has.
abbrev pub addr_of : Option RpcClient → Option String
addr_of none = none
addr_of (some c) = some c.addr

-- What etcd holds under a key after the events.
pub replay : String → Option String → List Event → Option String
replay key now [] = now
replay key now (put kv ∷ rest) = replay key (if kv.key == key then some kv.val else now) rest
replay key now (delete kv ∷ rest) = replay key (if kv.key == key then none else now) rest

module _ {E : External} where
  abbrev pub addr_at : String → Node E → Option String
  addr_at key n = addr_of (lookup key n.rpc_clients.clients)

  -- The two callbacks, as `InitClient` hands them to the discovery.
  abbrev pub registers : KeyValue → Node E → Node E
  registers kv n = on_register kv.key kv.val n

  abbrev pub unregisters : KeyValue → Node E → Node E
  unregisters kv n = on_unregister kv.key n

current_addr :
    (o : Option RpcClient) (addr : String) → is_current o addr ≡ true → addr_of o ≡ some addr
unfolding is_current
current_addr none addr h = cc
current_addr (some c) addr h = ap some ((eq_iff c.addr addr).0 h)

none_not_some : (addr : String) → ◌≡◌ {A = Option String} none (some addr) → ⊥
none_not_some addr h = cc

found_of_addr :
    (o : Option RpcClient) (addr : String)
    → addr_of o ≡ some addr
    → (c : RpcClient) × (found_client o ≡ ok c) × (c.addr ≡ addr)
unfolding found_client
found_of_addr none addr h = elim (none_not_some addr h) [ ]
found_of_addr (some c) addr h = (c, refl, ground arith)

-- Every address gets a client.
abbrev pub AlwaysConnects : External → Type 0
AlwaysConnects E =
    (addr : String) (s : E.State)
    → (cli : ℕ) × (s' : E.State) × (E.new_rpc_client addr s ≡ (ok cli, s'))

module _ {E : External} where
  put_at :
      (cli : ℕ) (s : E.State) (r : Result ℕ × E.State) (key addr : String) (n : Node E) (j : String)
      → r ≡ (ok cli, s)
      → addr_at j (put_rpc_client key addr r n) ≡ (if key == j then some addr else addr_at j n)
  unfolding put_rpc_client
  put_at cli s r key addr n j e = rw e (
      ground (arith, lookup-insert key j (record { cli = cli; addr = addr }) n.rpc_clients.clients))

  on_register_at :
      AlwaysConnects E
      → (key addr : String) (n : Node E) (j : String)
      → addr_at j (on_register key addr n) ≡ (if key == j then some addr else addr_at j n)
  unfolding on_register
  on_register_at up key addr n j =
      let (cli, s, e) = up addr n.ext in
      ground (
        arith,
        eq_iff key j,
        current_addr (lookup key n.rpc_clients.clients) addr,
        put_at cli s (E.new_rpc_client addr n.ext) key addr n j e,
      )

  on_unregister_at :
      (key : String) (n : Node E) (j : String)
      → addr_at j (on_unregister key n) ≡ (if key == j then none else addr_at j n)
  unfolding on_unregister
  on_unregister_at key n j = ground (arith, lookup-erase key j n.rpc_clients.clients)

  -- While every address gets a client, the clients have for each key the address that etcd has
  -- for it after the same events.
  pub addr_at-watch_events :
      AlwaysConnects E
      → (events : List Event) (n : Node E) (key : String)
      → addr_at key (watch_events registers unregisters events n)
        ≡ replay key (addr_at key n) events
  unfolding watch_events replay handle_event
  addr_at-watch_events up [] n key = refl
  addr_at-watch_events up (put kv ∷ rest) n key =
      addr_at-watch_events up rest (on_register kv.key kv.val n) key
      ∙ ap (λ o. replay key o rest) (on_register_at up kv.key kv.val n key)
  addr_at-watch_events up (delete kv ∷ rest) n key =
      addr_at-watch_events up rest (on_unregister kv.key n) key
      ∙ ap (λ o. replay key o rest) (on_unregister_at kv.key n key)

  service_kept :
      (key addr : String) (n : Node E)
      → (on_register key addr n).rpc_clients.service_name ≡ n.rpc_clients.service_name
  unfolding on_register put_rpc_client
  service_kept key addr n = ground arith

  -- A node that enters itself is found under the address that its users' records give.
  pub get_client_by_addr-on_register :
      AlwaysConnects E
      → (redis_prefix ip port : String) (n : Node E)
      → n.rpc_clients.service_name ≡ server_name redis_prefix
      → let n' = registers (entry_of (server_name redis_prefix) (rpc_addr ip port)) n in
        (c : RpcClient) × (get_client_by_addr (server_string (some (new_server ip port))) n' ≡ ok c)
        × (c.addr ≡ server_string (some (new_server ip port)))
  unfolding get_client_by_addr server_string new_server rpc_addr entry_of
  get_client_by_addr-on_register up redis_prefix ip port n same =
      let addr : String = ip <> (":" <> port) in
      let key : String = server_name redis_prefix <> addr in
      let n' : Node E = on_register key addr n in
      found_of_addr _ addr (
        ap (λ t. addr_at (t <> addr) n') (service_kept key addr n ∙ same)
        ∙ (on_register_at up key addr n key ∙ ground (arith, eq_iff key key)))

module _ {E : External} where
  -- All of a node but its rpc clients and what lies outside.
  abbrev pub SameClients : Node E → Node E → Type 0
  SameClients n n' =
      (n'.client_m ≡ n.client_m)
      × (n'.t_group_m ≡ n.t_group_m)
      × (n'.config ≡ n.config)
      × (n'.server_ip ≡ n.server_ip)

  put_rpc_client-SameClients :
      (key addr : String) (x : Result ℕ × E.State) (n : Node E)
      → SameClients n (put_rpc_client key addr x n)
  unfolding put_rpc_client
  put_rpc_client-SameClients key addr (err e, s) n = (refl, refl, refl, refl)
  put_rpc_client-SameClients key addr (ok cli, s) n = (refl, refl, refl, refl)

  on_register-SameClients :
      (key addr : String) (n : Node E) → SameClients n (on_register key addr n)
  unfolding on_register
  on_register-SameClients key addr n =
      elim (Bool-cases (is_current (lookup key n.rpc_clients.clients) addr)) [
        | inl e ↦ rw (e, on_register) (refl, refl, refl, refl)
        | inr e ↦ rw (e, on_register) (put_rpc_client-SameClients key addr _ n)
      ]

  register_all-SameClients :
      (kvs : List KeyValue) (n : Node E) → SameClients n (register_all registers unregisters kvs n)
  unfolding register_all
  register_all-SameClients [] n = (refl, refl, refl, refl)
  register_all-SameClients (kv ∷ rest) n =
      let a = on_register-SameClients kv.key kv.val n in
      let b = register_all-SameClients rest (registers kv n) in
      (b.0 ∙ a.0, b.1 ∙ a.1, b.2 ∙ a.2, b.3 ∙ a.3)

  -- The first read of the entries.
  pub watch_service-SameClients :
      (known : Result (List KeyValue)) (n : Node E)
      → SameClients n (watch_service registers unregisters known [] n).1
  unfolding watch_service watch_events
  watch_service-SameClients (err e) n = (refl, refl, refl, refl)
  watch_service-SameClients (ok kvs) n = register_all-SameClients kvs n
