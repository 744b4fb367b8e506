-- ===== src/Tests/Registries.antt =====
-- Registration, discovery, the sums over the nodes and the address at concrete inputs.
use gim.Base.{ℕ, suc, ◌≡◌, ◌≢◌, refl, true, false, none, some, List, [], ◌∷◌, arith, inl}
use gim.ImErr.{ok}
use gim.Types.Server.{SysInfo, SycCollectInfo, server_string, new_server}
use gim.Ws.Node.{Node, RpcClient}
use gim.Etcd.Discovery.{Event, put, delete, watch_events}
use gim.Etcd.Register.{
  Etcd, ServiceRegister, registered, closed, put_key_with_lease, closing, close, retry, Other,
}
use gim.Etcd.Register.Close.{Accepts, retry_ends, retry_undoes_close}
use gim.Api.Server.{server_name, rpc_addr, entry_of}
use gim.Api.Client.{get_client_by_addr}
use gim.Api.Client.Registry.{
  addr_at, registers, unregisters, replay, AlwaysConnects, addr_at-watch_events,
  get_client_by_addr-on_register,
}
use gim.Sys.{Machine, get_sys_collect_info}
use gim.Sys.Totals.{Totals}
use gim.Sys.Cluster.{IsAnswering, start_of, get_sys_collect_info-Totals}
use gim.Helper.{get_server_ip}
use gim.Helper.Address.{get_server_ip-nil}
use gim.Tests.Fixtures.{world, node}

world-AlwaysConnects : AlwaysConnects world
world-AlwaysConnects addr s = (3, s, refl)

abbrev events : List Event
events =
    put (record { key = "a"; val = "10.0.0.2:90" })
    ∷ put (record { key = "b"; val = "10.0.0.3:90" })
    ∷ delete (record { key = "a"; val = "" })
    ∷ []

addr_at-watch_events_example :
    addr_at "b" (watch_events registers unregisters events node)
    ≡ replay "b" (addr_at "b" node) events
addr_at-watch_events_example = addr_at-watch_events world-AlwaysConnects events node "b"

abbrev entering : Node world
entering = record node { rpc_clients = record { service_name = server_name "gim"; clients = [] } }

get_client_by_addr-on_register_example :
    let n' = registers (entry_of (server_name "gim") (rpc_addr "10.0.0.1" "90")) entering in
    (c : RpcClient) × (get_client_by_addr (server_string (some (new_server "10.0.0.1" "90"))) n'
      ≡ ok c)
    × (c.addr ≡ server_string (some (new_server "10.0.0.1" "90")))
get_client_by_addr-on_register_example =
    get_client_by_addr-on_register world-AlwaysConnects "gim" "10.0.0.1" "90" entering refl

-- The state counts the leases.
abbrev store : Etcd
store = record {
  State = ℕ;
  grant = λ lease s. (ok s, suc s);
  put = λ name addr id s. (none, s);
  keep_alive = λ id s. (ok id, s);
  revoke = λ id s. (none, s);
  close_client = λ s. (none, s);
}

abbrev register : ServiceRegister
register = record {
  lease = 5;
  status = registered;
  lease_id = 1;
  keep_alive_chan = none;
  name = "/rpc/";
  addr = "10.0.0.1:90";
}

abbrev idle : ℕ → Other store
idle round p = p

abbrev closes : ℕ → Other store
closes round p = closing store p

store-Accepts : (r : ServiceRegister) (s : ℕ) → Accepts store r s
unfolding put_key_with_lease
store-Accepts r s = refl

retry_ends_example : retry store idle idle 3 register 2 ≢ none
retry_ends_example =
    retry_ends store idle idle 3 1 register 2 (omega arith) (λ r s. store-Accepts r s)

retry_undoes_close_example :
    (r' : ServiceRegister) × (s' : ℕ) × (retry store closes idle 2 register 2 ≡ some (true, r', s'))
    × ((close store register 2).1.status ≡ closed)
    × (r'.status ≡ registered)
retry_undoes_close_example =
    retry_undoes_close store closes idle 1 register 2 (λ e. cc) (λ p. refl)
      (store-Accepts (closing store (register, 2)).0 (closing store (register, 2)).1)

abbrev report : SysInfo ℕ
report = record {
  num_goroutine = 10;
  cpu_percent = 3;
  mem_percent = 4;
  num_cpu = 8;
  manager_info = some (record { clients_len = 2; t_group_len = 1 });
  sub_msg_list = none;
  name = "a";
  version = "1";
}

abbrev machine : Machine
machine = record {
  Percent = ℕ;
  zero_percent = 0;
  num_goroutine = 4;
  num_cpu = 2;
  cpu_percent = ok 1;
  mem_percent = ok 2;
  workers = none;
  server_name = "1:80";
  rpc_get_sys_info = λ cli. ok (6 ∷ []);
  marshal_sys_info = λ i. ok (6 ∷ []);
  unmarshal_sys_info = λ bytes. (report, none);
}

machine-IsAnswering : IsAnswering machine
machine-IsAnswering = record {
  report = λ cli. report;
  text_of = λ cli. 6 ∷ [];
  marshals = λ cli. refl;
  unmarshals = λ cli. refl;
  answers = λ cli. refl;
  managed = λ cli e. cc;
}

abbrev member : Node world
member = record node {
  rpc_clients = record {
    service_name = "gim/rpc/";
    clients =
        ("gim/rpc/10.0.0.1:90", record { cli = 1; addr = "10.0.0.1:90" })
        ∷ ("gim/rpc/10.0.0.2:90", record { cli = 2; addr = "10.0.0.2:90" })
        ∷ [];
  };
}

get_sys_collect_info-Totals_example :
    (c' : SycCollectInfo ℕ) × (get_sys_collect_info machine member ≡ some c')
    × Totals (start_of machine-IsAnswering (report ∷ report ∷ [])) c' (report ∷ report ∷ [])
unfolding machine-IsAnswering
get_sys_collect_info-Totals_example =
    get_sys_collect_info-Totals machine-IsAnswering member refl (λ e. cc)

get_server_ip-nil_example :
    get_server_ip (λ ip. "") (ok (record { up = false; loopback = false; addrs = ok [] } ∷ []))
    ≡ "<nil>"
get_server_ip-nil_example =
    get_server_ip-nil (λ ip. "") (record { up = false; loopback = false; addrs = ok [] } ∷ [])
      (inl refl, tt)
