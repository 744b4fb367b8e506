-- ===== src/Tests/Starts.antt =====
-- A node of a cluster that starts and stops.
use gim.Base.{ℕ, suc, ◌≡◌, refl, true, false, none, some, [], arith}
use gim.ImErr.{ok}
use gim.Etcd.Register.{Etcd, registered}
use gim.Ws.Config.{local, redis}
use gim.Ws.SubQueue.{new_proxy_msg_queue}
use gim.Examples.Settings.{ws_conf}
use gim.Start.{StartConfig, Service, returns, panics, closed_twice, init_server, close_server}
use gim.Start.Stages.{Started, init_server-Started}
use gim.Start.Stopping.{IsRunning, IsStopped, close_server-IsRunning}
use gim.Tests.Fixtures.{world, node}
use gim.Tests.Queues.{plain_pool, plain_pool-IsPool}

abbrev leases : Etcd
leases = record {
  State = ℕ;
  grant = λ lease s. (ok s, suc s);
  put = λ name addr id s. (none, s);
  keep_alive = λ id s. (ok id, s);
  revoke = λ id s. (none, s);
  close_client = λ s. (none, s);
}

-- The logger is ready, and nothing else.
abbrev fresh : Service world leases
fresh = record {
  is_init_logger = true;
  run_mode = local;
  cancelled = none;
  node = node;
  queue = none;
  register = none;
  serving = false;
  etcd = 1;
}

abbrev start_config : StartConfig
start_config = ws_conf

init_server-Started_example :
    Started plain_pool "10.0.0.1" start_config fresh
      (init_server plain_pool "10.0.0.1" start_config (ok []) fresh)
init_server-Started_example = init_server-Started plain_pool "10.0.0.1" start_config (ok []) fresh

abbrev running : Service world leases
running = record fresh {
  run_mode = redis;
  cancelled = some false;
  queue = some (new_proxy_msg_queue plain_pool);
  register = some (record {
    lease = 5;
    status = registered;
    lease_id = 1;
    keep_alive_chan = none;
    name = "gim/rpc/10.0.0.1:90";
    addr = "10.0.0.1:90";
  });
  serving = true;
}

running-IsRunning : IsRunning running
unfolding new_proxy_msg_queue
running-IsRunning = record {
  was = false;
  context = refl;
  queue = new_proxy_msg_queue plain_pool;
  had = refl;
  sized = record { size = refl; bound = omega arith };
  taking = refl;
  entered = λ e. (_, refl);
}

close_server-IsRunning_example :
    (s' : Service world leases) × (close_server plain_pool running ≡ returns s')
    × IsStopped s'
    × (close_server plain_pool s' ≡ panics closed_twice s')
close_server-IsRunning_example = close_server-IsRunning plain_pool-IsPool running running-IsRunning
