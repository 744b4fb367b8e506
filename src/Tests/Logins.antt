-- ===== src/Tests/Logins.antt =====
-- `bob` logs in twice at once.
use gim.Base.{◌≡◌, refl, none, some, [], ◌∷◌, arith, string_eq, nat_eq}
use text.Mathlib.TextEquality.{eq_iff}
use gim.Base.Dict.{lookup, insert, lookup-insert, lookup-erase}
use gim.ImErr.{ok}
use gim.Tests.Fixtures.{config}
use gim.Tests.Stores.{bob_online, expired, store_world}
use gim.Ws.Cache.{get_set_user_online_info, after_get_set, get_user_online_key}
use gim.Ws.ClientManager.{get_client}
use gim.Ws.Config.{get_user_online_exp_time}
use gim.Ws.External.{External, text_frame}
use gim.Ws.External.Laws.{IsRedis, IsJson}
use gim.Ws.Handler.{get_uid, handler_up, start_client, unique_login, login, decide, new_user_online}
use gim.Ws.Handler.Online.{StopForgets}
use gim.Ws.Handler.Forgets.{redis_proxy-StopForgets}
use gim.Ws.Handler.Race.{IsUnrecorded, handler_up-IsUnrecorded}
use gim.Ws.Handler.Stops.{redis_proxy-StopKeeps}
use gim.Ws.Node.{Node, new_client_manager}
use gim.Ws.Proxy.{redis_proxy}
use gim.Ws.TGroup.{new_t_group_manager}

-- Whoever asks for an id after `bob` has a record gets another one.
abbrev twice_world : External
twice_world = record store_world {
  unique_id = λ s. (elim (lookup "gim_mws:user:online:bob" s) [ none ↦ "01H" | some _ ↦ "01J" ], s);
}

twice-IsRedis : IsRedis twice_world
twice-IsRedis = record {
  holds = λ s k. lookup k s;
  get_set_reply = λ k v s. refl;
  get_set_holds = λ k v s j. lookup-insert k j v s;
  get_reply = λ k s. refl;
  get_holds = λ k s j. refl;
  expire_holds = λ k t s j. expired t k j s;
  del_holds = λ k s j. lookup-erase k j s;
  unique_id_holds = λ s j. refl;
  close_conn_holds = λ socket s j. refl;
}

twice-IsJson : IsJson twice_world
twice-IsJson = record { written = λ u. 3 ∷ []; marshals = λ u. refl }

abbrev fresh : Node twice_world
fresh = record {
  config = config;
  server_ip = "10.0.0.1";
  client_m = record {
    clients = [];
    conn_client_idx = [];
    heap = new_client_manager.heap;
    next = 0;
  };
  t_group_m = new_t_group_manager;
  rpc_clients = record { service_name = "ws/gim/"; clients = [] };
  ext = [];
}

abbrev once : Node twice_world
once = (unique_login (redis_proxy twice_world) "bob" 8 fresh).1

first_passes : (unique_login (redis_proxy twice_world) "bob" 8 fresh).0 ≡ ok bob_online
unfolding unique_login login decide get_client get_set_user_online_info after_get_set
    get_user_online_key new_user_online lookup
first_passes = refl

second_id : (twice_world.unique_id once.ext).0 ≡ "01J"
unfolding unique_login login decide get_client get_set_user_online_info after_get_set
    get_user_online_key get_user_online_exp_time new_user_online lookup insert
second_id = refl

second_uid : get_uid 9 once ≡ "bob"
unfolding get_uid
second_uid = refl

forgets : StopForgets twice-IsRedis twice-IsJson (redis_proxy twice_world)
forgets = redis_proxy-StopForgets twice-IsRedis twice-IsJson (λ cli uid s j h. h)

handler_up-IsUnrecorded_example :
    IsUnrecorded twice-IsRedis twice-IsJson (redis_proxy twice_world) "bob" fresh (
      start_client
        (redis_proxy twice_world)
        8
        "bob"
        text_frame
        (ok bob_online, handler_up (redis_proxy twice_world) 9 "1" once))
unfolding lookup twice-IsJson
handler_up-IsUnrecorded_example =
    handler_up-IsUnrecorded twice-IsRedis twice-IsJson (redis_proxy twice_world)
      redis_proxy-StopKeeps forgets (λ socket t s j. refl) "bob" 8 9 text_frame "1" bob_online fresh
      (λ e. ground (arith, e, eq_iff "bob" "")) refl first_passes (λ e. ground arith) refl
      second_uid (λ e. ground (arith, e, second_id, eq_iff "01H" "01J"))
