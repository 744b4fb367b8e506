-- ===== src/Ws/RedisProxy.antt =====
-- service/ws/redis_proxy.go, and `PublishGlobalMsg` of proxy_msg_queue.go: the proxy of a node of a
-- cluster. A user of another node is reached by rpc, a group by the subscription channel.
use gim.Base.{String, ◌<>◌, Bool, false, ◌&&◌, Option, some, [], ◌==◌, string_eq, if◌then◌else◌}
use gim.ImErr.{Err, Result, ok, err}
use gim.Types.Response.{Response, ResponseData, new_response, msg_type_u2u, msg_type_group}
use gim.Types.Message.{Bytes, SubMsg}
use gim.Types.Server.{Server, new_server}
use gim.Api.Client as Rpc
use gim.Ws.External.{External, UserOnline}
use gim.Ws.Node.{Node, with_ext}
use gim.Ws.Cache.{get_user_rpc_server}
use gim.Ws.ClientManager
use gim.Ws.ClientManager.{has_user}
use gim.Ws.LocalProxy as Local

module _ {E : External} where
  unfoldable pub global_key : Node E → String
  global_key n = n.config.redis_prefix <> "_gim:sub:global"

  unfoldable pub publish_global_msg : SubMsg → Node E → Option Err × Node E
  unfolding global_key
  publish_global_msg sub_msg n = elim (E.marshal_sub_msg sub_msg) [
    | err e ↦ (some e, n)
    | ok bytes ↦ let (e, s) = E.redis_publish (global_key n) bytes n.ext in (e, with_ext s n)
  ]

  -- Of the response only the data is published, not its status.
  unfoldable pub group_sub_msg : String → ResponseData → String → Node E → SubMsg
  group_sub_msg gid res_data except_uid n = record {
    tgid = gid;
    tgid_list = [];
    mol = "";
    ctrl = "";
    content = res_data.a;
    except_uid = except_uid;
    c_time = E.unix_milli n.ext;
    msg_type = msg_type_group;
    to_uid = "";
  }

  unfoldable pub send_res_data_to_group :
      String → ResponseData → String → Node E → Option Err × Node E
  unfolding group_sub_msg publish_global_msg
  send_res_data_to_group gid res_data except_uid n =
      publish_global_msg (group_sub_msg gid res_data except_uid n) n

  -- Only the error of a call to another node is returned.
  dropped : (Bool × Option Err) × Node E → Option Err × Node E
  dropped ((b, e), n) = (e, n)

  with_server :
      (Server → Node E → Option Err × Node E) → Result Server × Node E → Option Err × Node E
  with_server call (err e, n) = (some e, n)
  with_server call (ok server, n) = call server n

  remote_msg : String → Bytes → Node E → Option Err × Node E
  unfolding with_server dropped
  remote_msg uid msg n =
      with_server (λ server m. dropped (Rpc.send_msg_to_user server uid msg m))
        (get_user_rpc_server uid n)

  remote_msg_by_tgid : String → String → Bytes → Node E → Option Err × Node E
  unfolding with_server dropped
  remote_msg_by_tgid uid tgid msg n =
      with_server (λ server m. dropped (Rpc.send_msg_to_user_by_tgid server uid tgid msg m))
        (get_user_rpc_server uid n)

  unfoldable pub send_msg_to_user : String → Bytes → Node E → Option Err × Node E
  unfolding remote_msg has_user
  send_msg_to_user uid msg n =
      if has_user uid n then Local.send_msg_to_local_user uid msg n else remote_msg uid msg n

  unfoldable pub send_msg_to_user_by_tgid : String → String → Bytes → Node E → Option Err × Node E
  unfolding remote_msg_by_tgid has_user
  send_msg_to_user_by_tgid uid tgid msg n =
      if has_user uid n
      then ClientManager.send_msg_to_user_by_tgid uid tgid msg n
      else remote_msg_by_tgid uid tgid msg n

  -- The server is looked up before the response is marshalled.
  remote_data : String → Response → Server → Node E → Option Err × Node E
  unfolding dropped
  remote_data uid response server m = elim (E.marshal_response response) [
    | err e ↦ (some e, m)
    | ok bytes ↦ dropped (Rpc.send_msg_to_user server uid bytes m)
  ]

  unfoldable pub send_res_data_to_user : String → ResponseData → Node E → Option Err × Node E
  unfolding remote_data with_server has_user new_response
  send_res_data_to_user uid res_data n =
      if has_user uid n
      then Local.send_res_data_to_local_user uid res_data n
      else with_server (remote_data uid (new_response "" "" msg_type_u2u (some res_data)))
          (get_user_rpc_server uid n)

  -- Here the response is marshalled first.
  remote_data_by_tgid : String → String → Response → Node E → Option Err × Node E
  unfolding remote_msg_by_tgid
  remote_data_by_tgid uid tgid response n = elim (E.marshal_response response) [
    | err e ↦ (some e, n)
    | ok bytes ↦ remote_msg_by_tgid uid tgid bytes n
  ]

  unfoldable pub send_res_data_to_user_by_tgid :
      String → String → ResponseData → Node E → Option Err × Node E
  unfolding remote_data_by_tgid has_user new_response
  send_res_data_to_user_by_tgid uid tgid res_data n =
      if has_user uid n
      then Local.send_res_data_to_local_user_by_tgid uid tgid res_data n
      else remote_data_by_tgid uid tgid (new_response "" "" msg_type_u2u (some res_data)) n

  -- service/ws/handler_ws.go: whether the record is of this node.
  unfoldable pub user_is_local : UserOnline → Node E → Bool
  user_is_local u n = u.acc_ip == n.server_ip && u.acc_port == n.config.ws_port

  unfoldable pub stop_user_client : UserOnline → Node E → Node E
  unfolding user_is_local new_server
  stop_user_client u n =
      if user_is_local u n
      then Local.stop_local_user_client u.user_id n
      else if u.rpc_port == ""
      then n
      else (Rpc.stop_user_client (new_server u.acc_ip u.rpc_port) u.user_id n).1

  -- The error of the call is dropped: it answers `false`.
  kept : (Bool × Option Err) × Node E → Bool × Node E
  kept ((b, e), n) = (b, n)

  on_server : (Server → Node E → Bool × Node E) → Result Server × Node E → Bool × Node E
  on_server call (err e, n) = (false, n)
  on_server call (ok server, n) = call server n

  unfoldable pub join_group : String → String → Node E → Option (Bool × Node E)
  unfolding kept on_server has_user
  join_group uid tgid n =
      if has_user uid n
      then Local.join_lock_group uid tgid n
      else some (
          on_server (λ server m. kept (Rpc.join_group server uid tgid m))
            (get_user_rpc_server uid n))

  unfoldable pub out_group : String → String → Node E → Bool × Node E
  unfolding kept on_server has_user
  out_group uid tgid n =
      if has_user uid n
      then Local.out_lock_group uid tgid n
      else on_server (λ server m. kept (Rpc.out_group server uid tgid m))
          (get_user_rpc_server uid n)
