-- ===== src/Ws/Proxy.antt =====
-- service/ws/proxy.go: the interface that the service is used through, and its two implementations.
pub mod Agreement
use gim.Base.{ℕ, String, Bool, Option, none, some}
use gim.ImErr.{Err}
use gim.Types.Response.{ResponseData}
use gim.Types.Message.{Bytes, GroupMsg}
use gim.Ws.Config.{RunMode, local, redis, other_mode}
use gim.Ws.External.{External, UserOnline}
use gim.Ws.Node.{Node}
use gim.Ws.LocalProxy as Local
use gim.Ws.RedisProxy as Redis

-- A call gives its result and the node that it leaves. Where it may have to wait, `none` is that
-- wait.
pub record RunProxy (E : External) : Type 0 where
  pub send_res_data_to_user : String → ResponseData → Node E → Option Err × Node E
  pub send_res_data_to_local_user : String → ResponseData → Node E → Option Err × Node E
  pub send_res_data_to_user_by_tgid : String → String → ResponseData → Node E → Option Err × Node E
  pub send_res_data_to_local_user_by_tgid :
      String → String → ResponseData → Node E → Option Err × Node E
  pub send_res_data_to_group :
      String → ResponseData → String → Node E → Option (Option Err × Node E)
  pub send_res_data_to_local_group :
      String → ResponseData → String → Node E → Option (Option Err × Node E)
  pub send_msg_to_local_group : String → GroupMsg → Node E → Option (Option Err × Node E)
  pub send_msg_to_user : String → Bytes → Node E → Option Err × Node E
  pub send_msg_to_local_user : String → Bytes → Node E → Option Err × Node E
  pub send_msg_to_user_by_tgid : String → String → Bytes → Node E → Option Err × Node E
  pub send_msg_to_local_user_by_tgid : String → String → Bytes → Node E → Option Err × Node E
  pub stop_local_user_client : String → Node E → Node E
  pub stop_user_client : UserOnline → Node E → Node E
  pub join_lock_group : String → String → Node E → Option (Bool × Node E)
  pub join_group : String → String → Node E → Option (Bool × Node E)
  pub out_lock_group : String → String → Node E → Bool × Node E
  pub out_group : String → String → Node E → Bool × Node E

module _ (E : External) where
  -- The calls with a local variant are that variant.
  abbrev pub local_proxy : RunProxy E
  local_proxy = record {
    send_res_data_to_user = Local.send_res_data_to_local_user;
    send_res_data_to_local_user = Local.send_res_data_to_local_user;
    send_res_data_to_user_by_tgid = Local.send_res_data_to_local_user_by_tgid;
    send_res_data_to_local_user_by_tgid = Local.send_res_data_to_local_user_by_tgid;
    send_res_data_to_group = Local.send_res_data_to_local_group;
    send_res_data_to_local_group = Local.send_res_data_to_local_group;
    send_msg_to_local_group = Local.send_msg_to_local_group;
    send_msg_to_user = Local.send_msg_to_local_user;
    send_msg_to_local_user = Local.send_msg_to_local_user;
    send_msg_to_user_by_tgid = Local.send_msg_to_local_user_by_tgid;
    send_msg_to_local_user_by_tgid = Local.send_msg_to_local_user_by_tgid;
    stop_local_user_client = Local.stop_local_user_client;
    stop_user_client = Local.stop_user_client;
    join_lock_group = Local.join_lock_group;
    join_group = Local.join_lock_group;
    out_lock_group = Local.out_lock_group;
    out_group = Local.out_lock_group;
  }

  -- `RedisProxy` embeds `LocalProxy`, whose local calls it keeps.
  abbrev pub redis_proxy : RunProxy E
  redis_proxy = record {
    send_res_data_to_user = Redis.send_res_data_to_user;
    send_res_data_to_local_user = Local.send_res_data_to_local_user;
    send_res_data_to_user_by_tgid = Redis.send_res_data_to_user_by_tgid;
    send_res_data_to_local_user_by_tgid = Local.send_res_data_to_local_user_by_tgid;
    send_res_data_to_group =
        λ gid res_data except_uid n. some (Redis.send_res_data_to_group gid res_data except_uid n);
    send_res_data_to_local_group = Local.send_res_data_to_local_group;
    send_msg_to_local_group = Local.send_msg_to_local_group;
    send_msg_to_user = Redis.send_msg_to_user;
    send_msg_to_local_user = Local.send_msg_to_local_user;
    send_msg_to_user_by_tgid = Redis.send_msg_to_user_by_tgid;
    send_msg_to_local_user_by_tgid = Local.send_msg_to_local_user_by_tgid;
    stop_local_user_client = Local.stop_local_user_client;
    stop_user_client = Redis.stop_user_client;
    join_lock_group = Local.join_lock_group;
    join_group = Redis.join_group;
    out_lock_group = Local.out_lock_group;
    out_group = Redis.out_group;
  }

  unfoldable pub init_proxy : RunMode → RunProxy E
  init_proxy local = local_proxy
  init_proxy redis = redis_proxy
  init_proxy (other_mode k) = redis_proxy
