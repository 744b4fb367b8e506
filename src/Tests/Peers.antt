-- ===== src/Tests/Peers.antt =====
-- A node that shares its redis with the node of `ann`, and calls it.
use gim.Base.{
  ◌==◌, if◌then◌else◌, ◌≡◌, refl, pos, String, true, false, none, some, [], ◌∷◌, arith, string_eq,
  nat_eq,
}
use text.Mathlib.TextEquality.{eq_iff}
use gim.Base.Dict.{Dict, lookup, insert, erase, lookup-insert, lookup-erase}
use gim.ImErr.{ok}
use gim.Types.Message.{Bytes}
use gim.Types.Server.{new_server, server_string}
use gim.Api.Client.{get_client_by_addr}
use gim.Api.Server as Server
use gim.Ws.External.{External, UserOnline}
use gim.Ws.External.Laws.{IsRedis, IsJson, reply_of}
use gim.Ws.Node.{Node, client_at, put_client}
use gim.Ws.TGroup.{new_t_group_manager}
use gim.Ws.Cache.{get_user_online_key, get_user_rpc_server, get_user_online_info}
use gim.Ws.Client.Sending.{with_queued}
use gim.Ws.ClientManager.{has_user, get_client}
use gim.Ws.RedisProxy as Redis
use gim.Ws.Proxy.{redis_proxy}
use gim.Ws.LocalProxy as Local
use gim.Ws.Cluster.Remote.{IsPeer, IsRouted, IsRemote, answer_of, send_msg_to_user_by_tgid-IsRemote}
use gim.Ws.Cluster.Arrival.{Names, HasRoom, send_msg_to_user-arrives}
use gim.Tests.Fixtures.{world, config, node}
use gim.Tests.Stores.{expired}

abbrev ann_online : UserOnline
ann_online = record {
  acc_ip = "10.0.0.1";
  client_arr = "10.0.0.9:4000";
  acc_port = "80";
  rpc_port = "90";
  user_id = "ann";
  rand_uuid = "01F";
}

-- What redis holds, and the node with `ann`.
abbrev pub shared_world : External
shared_world = record {
  State = Dict String Bytes × Node world;
  write_message = λ socket code msg s. (none, s);
  close_conn = λ socket s. s;
  set_read_deadline = λ socket t s. s;
  session_uid = λ socket s. none;
  remote_addr = λ socket s. "10.0.0.9:4000";
  unix_time = λ s. 5;
  unix_milli = λ s. pos 5;
  unique_id = λ s. ("01H", s);
  redis_get_set = λ key v s. (reply_of (lookup key s.0), (insert key v s.0, s.1));
  redis_get = λ key s. (reply_of (lookup key s.0), s);
  redis_expire = λ key t s. (none, (if t == 0 then erase key s.0 else s.0, s.1));
  redis_del = λ key s. (none, (erase key s.0, s.1));
  redis_publish = λ key v s. (none, s);
  new_rpc_client = λ addr s. (ok 3, s);
  rpc_send_msg_to_user = λ cli uid msg s.
      let (a, there) = Server.send_msg_to_user (redis_proxy world) uid msg s.1 in
      (answer_of (λ e. e) a, (s.0, there));
  rpc_send_msg_to_user_by_tgid = λ cli uid tgid msg s.
      let (a, there) = Server.send_msg_to_user_by_tgid (redis_proxy world) uid tgid msg s.1 in
      (answer_of (λ e. e) a, (s.0, there));
  rpc_stop_user_client = λ cli uid s. (ok true, s);
  rpc_join_group = λ cli uid tgid s. elim (Server.join_group (redis_proxy world) uid tgid s.1) [
    | none ↦ (ok false, s)
    | some (b, there) ↦ (ok b, (s.0, there))
  ];
  rpc_out_group = λ cli uid tgid s.
      let (b, there) = Server.out_group (redis_proxy world) uid tgid s.1 in (ok b, (s.0, there));
  marshal_response = λ r. world.marshal_response r;
  unmarshal_request = λ bytes. world.unmarshal_request bytes;
  marshal_user_online = λ u. ok (3 ∷ []);
  unmarshal_user_online = λ bytes. (ann_online, none);
  marshal_sub_msg = λ m. world.marshal_sub_msg m;
  unmarshal_sub_msg = λ bytes. world.unmarshal_sub_msg bytes;
}

shared_world-IsRedis : IsRedis shared_world
shared_world-IsRedis = record {
  holds = λ s k. lookup k s.0;
  get_set_reply = λ k v s. refl;
  get_set_holds = λ k v s j. lookup-insert k j v s.0;
  get_reply = λ k s. refl;
  get_holds = λ k s j. refl;
  expire_holds = λ k t s j. expired t k j s.0;
  del_holds = λ k s j. lookup-erase k j s.0;
  unique_id_holds = λ s j. refl;
  close_conn_holds = λ socket s j. refl;
}

shared_world-IsJson : IsJson shared_world
shared_world-IsJson = record { written = λ u. 3 ∷ []; marshals = λ u. refl }

unfoldable pub shared_world-IsPeer : IsPeer shared_world world 3
shared_world-IsPeer = record {
  node_at = λ s. s.1;
  wire = λ e. e;
  redis_get_apart = λ k s. refl;
  send_runs = λ uid msg s. refl;
  send_answers = λ uid msg s. refl;
  send_by_tgid_runs = λ uid tgid msg s. refl;
  send_by_tgid_answers = λ uid tgid msg s. refl;
}

abbrev pub sender : Node shared_world
sender = record {
  config = config;
  server_ip = "10.0.0.5";
  client_m = record { clients = []; conn_client_idx = []; heap = node.client_m.heap; next = 0 };
  t_group_m = new_t_group_manager;
  rpc_clients = record {
    service_name = "ws/gim/";
    clients = ("ws/gim/10.0.0.1:90", record { cli = 3; addr = "10.0.0.1:90" }) ∷ [];
  };
  ext = (("gim_mws:user:online:ann", 3 ∷ []) ∷ [], node);
}

ann-Names :
    Names shared_world-IsPeer shared_world-IsRedis shared_world-IsJson "ann" ann_online sender
unfolding has_user get_client lookup get_user_online_key new_server server_string get_client_by_addr
    shared_world-IsRedis shared_world-IsJson
ann-Names = record {
  client = record { cli = 3; addr = "10.0.0.1:90" };
  away = refl;
  recorded = refl;
  reads_back = refl;
  has_ip = λ e. ground (arith, e, eq_iff "10.0.0.1" "");
  has_port = λ e. ground (arith, e, eq_iff "90" "");
  known = refl;
  same = refl;
}

ann-HasRoom : HasRoom "ann" 0 node
unfolding lookup
ann-HasRoom = record { entry = refl; is_online = refl; opened = refl; room = omega arith }

send_msg_to_user-arrives_example :
    ((Redis.send_msg_to_user "ann" (1 ∷ []) sender).0 ≡ none)
    × ((Redis.send_msg_to_user "ann" (1 ∷ []) sender).1.ext.1
        ≡ put_client 0 (with_queued (client_at 0 node) (1 ∷ [])) node)
unfolding shared_world-IsPeer
send_msg_to_user-arrives_example =
    send_msg_to_user-arrives shared_world-IsPeer shared_world-IsRedis shared_world-IsJson "ann"
      (1 ∷ []) ann_online 0 sender ann-Names ann-HasRoom

pub ann-IsRouted : IsRouted shared_world-IsPeer "ann" sender
unfolding has_user get_client lookup get_user_online_key get_user_rpc_server get_user_online_info
    new_server server_string get_client_by_addr
ann-IsRouted = record {
  server = new_server "10.0.0.1" "90";
  client = record { cli = 3; addr = "10.0.0.1:90" };
  away = refl;
  found = refl;
  known = refl;
  same = refl;
}

send_msg_to_user_by_tgid-IsRemote_example :
    IsRemote shared_world-IsPeer
      (Redis.send_msg_to_user_by_tgid "ann" "team" (1 ∷ []) sender)
      (Local.send_msg_to_local_user_by_tgid "ann" "team" (1 ∷ []) node)
unfolding shared_world-IsPeer
send_msg_to_user_by_tgid-IsRemote_example =
    send_msg_to_user_by_tgid-IsRemote shared_world-IsPeer "ann" "team" (1 ∷ []) sender ann-IsRouted
