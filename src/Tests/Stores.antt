-- ===== src/Tests/Stores.antt =====
-- A redis that keeps its values, and what it holds after logins and closes.
use gim.Base.{
  ℕ, ◌==◌, if◌then◌else◌, ◌≡◌, refl, pos, String, true, none, some, [], ◌∷◌, arith, string_eq,
  nat_eq,
}
use text.Mathlib.TextEquality.{eq_iff}
use gim.Base.Dict.{Dict, lookup, insert, erase, lookup-insert, lookup-erase}
use gim.ImErr.{ok}
use gim.Types.Message.{Bytes}
use gim.Types.Response.{text as said}
use gim.Types.Server.{new_server}
use gim.Ws.External.{External, UserOnline}
use gim.Ws.External.Laws.{IsRedis, IsJson, reply_of}
use gim.Ws.Node.{Node}
use gim.Ws.ClientManager.{get_client}
use gim.Ws.Cache.{get_set_user_online_info, after_get_set, get_user_online_key, get_user_rpc_server}
use gim.Ws.TGroup.{new_t_group_manager}
use gim.Ws.Client.{on_close}
use gim.Ws.Client.Record.{on_close-record}
use gim.Ws.Handler.{unique_login, login, decide, new_user_online}
use gim.Ws.Handler.Online.{
  Recorded, StopForgets, unique_login-Recorded, get_user_rpc_server-unique_login,
}
use gim.Ws.Handler.Forgets.{redis_proxy-StopForgets}
use gim.Ws.Proxy.{redis_proxy}
use gim.Tests.Fixtures.{world, config, ann}

abbrev pub bob_online : UserOnline
bob_online = record {
  acc_ip = "10.0.0.1";
  client_arr = "10.0.0.9:4000";
  acc_port = "80";
  rpc_port = "90";
  user_id = "bob";
  rand_uuid = "01H";
}

-- The state is what redis holds.
abbrev pub store_world : External
store_world = record {
  State = Dict String Bytes;
  write_message = λ socket code msg s. (none, s);
  close_conn = λ socket s. s;
  set_read_deadline = λ socket t s. s;
  session_uid = λ socket s. some (said "bob");
  remote_addr = λ socket s. "10.0.0.9:4000";
  unix_time = λ s. 5;
  unix_milli = λ s. pos 5;
  unique_id = λ s. ("01H", s);
  redis_get_set = λ key v s. (reply_of (lookup key s), insert key v s);
  redis_get = λ key s. (reply_of (lookup key s), s);
  redis_expire = λ key t s. (none, if t == 0 then erase key s else s);
  redis_del = λ key s. (none, erase key s);
  redis_publish = λ key v s. (none, s);
  new_rpc_client = λ addr s. (ok 3, s);
  rpc_send_msg_to_user = λ cli uid msg s. (ok 200, s);
  rpc_send_msg_to_user_by_tgid = λ cli uid tgid msg s. (ok 200, s);
  rpc_stop_user_client = λ cli uid s. (ok true, s);
  rpc_join_group = λ cli uid tgid s. (ok true, s);
  rpc_out_group = λ cli uid tgid s. (ok true, s);
  marshal_response = λ r. world.marshal_response r;
  unmarshal_request = λ bytes. world.unmarshal_request bytes;
  marshal_user_online = λ u. ok (3 ∷ []);
  unmarshal_user_online = λ bytes. (bob_online, none);
  marshal_sub_msg = λ m. world.marshal_sub_msg m;
  unmarshal_sub_msg = λ bytes. world.unmarshal_sub_msg bytes;
}

-- An EXPIRE with the time 0 removes the key.
pub expired :
    (t : ℕ) (k j : String) (s : Dict String Bytes)
    → lookup j (if t == 0 then erase k s else s)
      ≡ (if t == 0 then (if k == j then none else lookup j s) else lookup j s)
expired t k j s = ground (arith, lookup-erase k j s)

store_world-IsRedis : IsRedis store_world
store_world-IsRedis = record {
  holds = λ s k. lookup k s;
  get_set_reply = λ k v s. refl;
  get_set_holds = λ k v s j. lookup-insert k j v s;
  get_reply = λ k s. refl;
  get_holds = λ k s j. refl;
  expire_holds = λ k t s j. expired t k j s;
  del_holds = λ k s j. lookup-erase k j s;
  unique_id_holds = λ s j. refl;
  close_conn_holds = λ socket s j. refl;
}

store_world-IsJson : IsJson store_world
store_world-IsJson = record { written = λ u. 3 ∷ []; marshals = λ u. refl }

-- A node with `ann`, whose record redis holds.
abbrev stored : Node store_world
stored = record {
  config = config;
  server_ip = "10.0.0.1";
  client_m = record {
    clients = ("ann", 0) ∷ [];
    conn_client_idx = (7, 0) ∷ [];
    heap = λ p. ann;
    next = 1;
  };
  t_group_m = new_t_group_manager;
  rpc_clients = record { service_name = "ws/gim/"; clients = [] };
  ext = ("gim_mws:user:online:ann", 3 ∷ []) ∷ [];
}

on_close-record_example :
    store_world-IsRedis.holds (on_close none 0 stored).1.ext "gim_mws:user:online:ann" ≡ none
unfolding get_user_online_key
on_close-record_example = on_close-record store_world-IsRedis 0 stored refl refl

forgets : StopForgets store_world-IsRedis store_world-IsJson (redis_proxy store_world)
forgets = redis_proxy-StopForgets store_world-IsRedis store_world-IsJson (λ cli uid s j h. h)

unique_login-Recorded_example :
    Recorded store_world-IsRedis store_world-IsJson
      (redis_proxy store_world)
      "bob"
      stored
      (unique_login (redis_proxy store_world) "bob" 8 stored)
unique_login-Recorded_example =
    unique_login-Recorded store_world-IsRedis store_world-IsJson (redis_proxy store_world) forgets
      "bob" 8 stored

-- Another node, once `bob` is logged in on the first one.
abbrev other_node : Node store_world
other_node = record stored {
  server_ip = "10.0.0.5";
  ext = (unique_login (redis_proxy store_world) "bob" 8 stored).1.ext;
}

bob_logs_in : (unique_login (redis_proxy store_world) "bob" 8 stored).0 ≡ ok bob_online
unfolding unique_login login decide get_client get_set_user_online_info after_get_set
    get_user_online_key new_user_online lookup
bob_logs_in = refl

get_user_rpc_server-unique_login_example :
    (get_user_rpc_server "bob" other_node).0 ≡ ok (new_server "10.0.0.1" "90")
get_user_rpc_server-unique_login_example =
    get_user_rpc_server-unique_login store_world-IsRedis store_world-IsJson
      (redis_proxy store_world) forgets "bob" 8 stored other_node bob_online bob_logs_in refl refl
      refl (λ e. ground (arith, e, eq_iff "10.0.0.1" "")) (λ e. ground (arith, e, eq_iff "90" ""))
