-- ===== src/Ws/LocalProxy.antt =====
-- service/ws/local_proxy.go: the proxy of a node that runs alone.
use gim.Base.{ℕ, String, Bool, true, false, Option, none, some}
use gim.ImErr.{Err, ok, err}
use gim.Types.Response.{ResponseData, new_response, msg_type_u2u}
use gim.Types.Message.{Bytes, GroupMsg, get_res_data_group_msg}
use gim.Ws.External.{External, UserOnline}
use gim.Ws.Node.{Node}
use gim.Ws.TGroup.{Sending, returned, blocked, send_message_to_t_group}
use gim.Ws.Client.{in_t_group, out_t_group}
use gim.Ws.ClientManager
use gim.Ws.ClientManager.{get_client}

module _ {E : External} where
  unfoldable pub group_sent : Sending → Node E → Option (Option Err × Node E)
  group_sent blocked n = none
  group_sent (returned g) n = some (none, record n { t_group_m = g })

  -- `none`: the channel of the group is full, and the caller waits for its listener.
  unfoldable pub send_msg_to_local_group : String → GroupMsg → Node E → Option (Option Err × Node E)
  unfolding group_sent
  send_msg_to_local_group gid msg n = group_sent (send_message_to_t_group gid msg n.t_group_m) n

  unfoldable pub send_res_data_to_local_group :
      String → ResponseData → String → Node E → Option (Option Err × Node E)
  unfolding send_msg_to_local_group
  send_res_data_to_local_group gid res_data except_uid n =
      elim (get_res_data_group_msg E.marshal_response res_data except_uid) [
        | err e ↦ some (some e, n)
        | ok msg ↦ send_msg_to_local_group gid msg n
      ]

  unfoldable pub send_res_data_to_local_user : String → ResponseData → Node E → Option Err × Node E
  unfolding new_response
  send_res_data_to_local_user uid res_data n =
      ClientManager.send_response_to_user uid (new_response "" "" msg_type_u2u (some res_data)) n

  unfoldable pub send_res_data_to_local_user_by_tgid :
      String → String → ResponseData → Node E → Option Err × Node E
  unfolding new_response
  send_res_data_to_local_user_by_tgid uid tgid res_data n =
      ClientManager.send_response_to_user_by_tgid uid tgid
        (new_response "" "" msg_type_u2u (some res_data)) n

  unfoldable pub send_msg_to_local_user : String → Bytes → Node E → Option Err × Node E
  send_msg_to_local_user uid msg n = ClientManager.send_msg_to_user uid msg n

  unfoldable pub send_msg_to_local_user_by_tgid :
      String → String → Bytes → Node E → Option Err × Node E
  send_msg_to_local_user_by_tgid uid tgid msg n =
      ClientManager.send_msg_to_user_by_tgid uid tgid msg n

  unfoldable pub stop_local_user_client : String → Node E → Node E
  stop_local_user_client uid n = ClientManager.stop_client uid n

  unfoldable pub stop_user_client : UserOnline → Node E → Node E
  stop_user_client user_online n = stop_local_user_client user_online.user_id n

  unfoldable pub join_found : Option ℕ → String → Node E → Option (Bool × Node E)
  join_found none tgid n = some (false, n)
  join_found (some p) tgid n = elim (in_t_group p tgid n) [
    | none ↦ none
    | some n' ↦ some (true, n')
  ]

  -- `none` would be a join that never ends.
  unfoldable pub join_lock_group : String → String → Node E → Option (Bool × Node E)
  unfolding join_found get_client
  join_lock_group uid tgid n = join_found (get_client uid n) tgid n

  unfoldable pub out_found : Option ℕ → String → Node E → Bool × Node E
  out_found none gid n = (false, n)
  out_found (some p) gid n = (true, out_t_group p gid n)

  unfoldable pub out_lock_group : String → String → Node E → Bool × Node E
  unfolding out_found get_client
  out_lock_group uid gid n = out_found (get_client uid n) gid n
