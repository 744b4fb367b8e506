-- ===== src/Tests/Beats.antt =====
-- A heartbeat of `ann`.
use gim.Base.{ℕ, ◌+◌, refl, pos, true, Option, none, some, [], ◌∷◌, arith, string_eq, nat_eq}
use gim.ImErr.{ok}
use gim.Tests.Fixtures.{world, config, ann}
use gim.Tests.Stores.{bob_online}
use gim.Types.Response.{text as said}
use gim.Ws.Cache.{get_user_online_key}
use gim.Ws.Client.{heartbeat}
use gim.Ws.Client.Lifetime.{IsTimed, IsOutlived, heartbeat-IsOutlived}
use gim.Ws.External.{External, missing}
use gim.Ws.Node.{Node}
use gim.Ws.TGroup.{new_t_group_manager}

-- The state is the time, when the record goes, and when the connection is dropped. An EXPIRE takes a
-- second.
abbrev timed_world : External
timed_world = record {
  State = ℕ × Option ℕ × Option ℕ;
  write_message = λ socket code msg s. (none, s);
  close_conn = λ socket s. s;
  set_read_deadline = λ socket t s. (s.0, s.1, some (s.0 + t));
  session_uid = λ socket s. some (said "bob");
  remote_addr = λ socket s. "10.0.0.9:4000";
  unix_time = λ s. 5;
  unix_milli = λ s. pos 5;
  unique_id = λ s. ("01H", s);
  redis_get_set = λ key v s. (missing, s);
  redis_get = λ key s. (missing, s);
  redis_expire = λ key t s. (none, (s.0 + 1, some (s.0 + t), s.2));
  redis_del = λ key s. (none, s);
  redis_publish = λ key v s. (none, s);
  new_rpc_client = λ addr s. (ok 3, s);
  rpc_send_msg_to_user = λ cli uid msg s. (ok 200, s);
  rpc_send_msg_to_user_by_tgid = λ cli uid tgid msg s. (ok 200, s);
  rpc_stop_user_client = λ cli uid s. (ok true, s);
  rpc_join_group = λ cli uid tgid s. (ok true, s);
  rpc_out_group = λ cli uid tgid s. (ok true, s);
  marshal_response = λ r. world.marshal_response r;
  unmarshal_request = λ bytes. world.unmarshal_request bytes;
  marshal_user_online = λ u. ok (3 ∷ []);
  unmarshal_user_online = λ bytes. (bob_online, none);
  marshal_sub_msg = λ m. world.marshal_sub_msg m;
  unmarshal_sub_msg = λ bytes. world.unmarshal_sub_msg bytes;
}

timed : IsTimed timed_world
timed = record {
  now = λ s. s.0;
  expires = λ s k. s.1;
  limit = λ s socket. s.2;
  expire_sets = λ k t x s h later. refl;
  deadline_sets = λ socket t s. refl;
  deadline_expires = λ socket t s k. refl;
}

abbrev beating : Node timed_world
beating = record {
  config = config;
  server_ip = "10.0.0.1";
  client_m = record {
    clients = ("ann", 0) ∷ [];
    conn_client_idx = (7, 0) ∷ [];
    heap = λ p. ann;
    next = 1;
  };
  t_group_m = new_t_group_manager;
  rpc_clients = record { service_name = "ws/gim/"; clients = [] };
  ext = (100, some 120, some 110);
}

heartbeat-IsOutlived_example :
    IsOutlived timed (get_user_online_key "ann" beating) 7 (heartbeat 0 beating).ext
unfolding timed
heartbeat-IsOutlived_example =
    heartbeat-IsOutlived timed 0 120 beating (λ e. ground (arith, e)) refl (omega arith)
