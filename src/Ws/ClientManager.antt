-- ===== src/Ws/ClientManager.antt =====
-- service/ws/client_manager.go: finding clients, closing them, and sending to a user.
use gim.Base.{
  ℕ, String, Bool, Option, none, some, length, is_some, if◌then◌else◌, string_eq, nat_eq,
}
use gim.Base.Dict.{lookup}
use gim.ImErr.{Err, im_err, err_user_offline}
use gim.Types.Response.{Response}
use gim.Types.Message.{Bytes}
use gim.Types.Server.{WsManagerInfo}
use gim.Ws.External.{External}
use gim.Ws.Node.{Node}
use gim.Ws.Client.{close, is_in_t_group, send_response_msg, safe_send_msg}

module _ {E : External} where
  unfoldable pub get_client : String → Node E → Option ℕ
  get_client uid n = lookup uid n.client_m.clients

  unfoldable pub get_client_by_conn : ℕ → Node E → Option ℕ
  get_client_by_conn conn n = lookup conn n.client_m.conn_client_idx

  unfoldable pub close_found : Option ℕ → Node E → Node E
  close_found none n = n
  close_found (some p) n = close p n

  unfoldable pub close_client : String → Node E → Node E
  unfolding get_client close_found
  close_client uid n = close_found (get_client uid n) n

  unfoldable pub stop_client : String → Node E → Node E
  unfolding get_client close_found
  stop_client uid n = close_found (get_client uid n) n

  unfoldable pub send_response_to_user : String → Response → Node E → Option Err × Node E
  unfolding get_client
  send_response_to_user uid response n = elim (get_client uid n) [
    | none ↦ (some (im_err err_user_offline), n)
    | some p ↦ send_response_msg response 2 p n
  ]

  unfoldable pub send_response_to_user_by_tgid :
      String → String → Response → Node E → Option Err × Node E
  unfolding get_client
  send_response_to_user_by_tgid uid tgid response n = elim (get_client uid n) [
    | none ↦ (some (im_err err_user_offline), n)
    | some p ↦ if is_in_t_group p tgid n then send_response_msg response 2 p n else (none, n)
  ]

  unfoldable pub send_msg_to_user : String → Bytes → Node E → Option Err × Node E
  unfolding get_client
  send_msg_to_user uid msg n = elim (get_client uid n) [
    | none ↦ (some (im_err err_user_offline), n)
    | some p ↦ safe_send_msg msg 2 p n
  ]

  unfoldable pub send_msg_to_user_by_tgid : String → String → Bytes → Node E → Option Err × Node E
  unfolding get_client
  send_msg_to_user_by_tgid uid tgid msg n = elim (get_client uid n) [
    | none ↦ (some (im_err err_user_offline), n)
    | some p ↦ if is_in_t_group p tgid n then safe_send_msg msg 2 p n else (none, n)
  ]

  unfoldable pub has_user : String → Node E → Bool
  unfolding get_client
  has_user uid n = is_some (get_client uid n)

  unfoldable pub get_clients_len : Node E → ℕ
  get_clients_len n = length n.client_m.clients

  unfoldable pub get_manager_info : Node E → WsManagerInfo
  unfolding get_clients_len
  get_manager_info n = record {
    clients_len = get_clients_len n;
    t_group_len = length n.t_group_m.t_groups;
  }
