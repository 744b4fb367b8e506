-- ===== src/Ws/Handler.antt =====
-- service/ws/handler_ws.go: the events of a connection, and the login of a user.
pub mod Forgets
pub mod Answers
pub mod Login
pub mod Online
pub mod Stops
pub mod Race
pub mod Free
use gim.Base.{
  ℕ, pos, String, Bool, true, false, Option, none, some, [], ◌==◌, string_eq, nat_eq, if◌then◌else◌,
}
use gim.ImErr.{
  Err, error, new_im_error, im_err, err_no_handle_msg, err_json, err_user_online, Result, ok, err,
}
use gim.Types.Response.{Any, text, AData, Request, new_response_data, msg_type_response}
use gim.Types.Message.{Bytes}
use gim.Ws.External.{External, Opcode, text_frame, binary_frame, UserOnline}
use gim.Ws.Node.{Node, client_at, with_ext}
use gim.Ws.Cache.{get_set_user_online_info, del_user_online_info}
use gim.Ws.Client.{
  CloseHook, close, heartbeat, on_close, send_err, send_response_data, new_client, init_start,
}
use gim.Ws.ClientManager.{get_client, get_client_by_conn}
use gim.Ws.Proxy.{RunProxy}

-- What the application makes of a request; a panic of it is recovered.
pub data Handled (E : External) : Type 0 where
  answer : Option AData → Node E → Handled E
  refuse : Err → Node E → Handled E
  panics : Node E → Handled E

abbrev pub RequestHook : External → Type 0
RequestHook E = Option (ℕ → Request → Node E → Handled E)

-- `uid.(string)`, and the empty text for whatever is no text.
uid_of : Option Any → String
uid_of (some (text uid)) = uid
uid_of _ = ""

pub msg_code_of : String → Opcode
msg_code_of get_msg_code = if get_msg_code == "1" then text_frame else binary_frame

module _ {E : External} where
  unfoldable pub get_uid : ℕ → Node E → String
  unfolding uid_of
  get_uid socket n = uid_of (E.session_uid socket n.ext)

  unfoldable pub close_conn : ℕ → Node E → Node E
  close_conn socket n = with_ext (E.close_conn socket n.ext) n

  unfoldable pub on_ping : ℕ → Node E → Node E
  unfolding get_uid close_conn get_client
  on_ping socket n = elim (get_client (get_uid socket n) n) [
    | none ↦ close_conn socket n
    | some p ↦ heartbeat p n
  ]

  -- `OnPong` does nothing.
  unfoldable pub on_pong : ℕ → Node E → Node E
  on_pong socket n = n

  unfoldable pub respond : ℕ → Request → Handled E → Node E
  respond p request (panics n) = n
  respond p request (refuse e n) = (send_err (error e) (pos 0) request.seq request.cmd p n).1
  respond p request (answer a_data n) =
      (send_response_data (new_response_data a_data []) request.seq request.cmd msg_type_response p
        n).1

  unfoldable pub handle_request :
      (ℕ → Request → Node E → Handled E) → ℕ → Request × Option Err → Node E → Node E
  unfolding respond
  handle_request hook p (request, some e) n =
      (send_err (new_im_error err_json).msg (pos 0) request.seq request.cmd p n).1
  handle_request hook p (request, none) n = respond p request (hook p request n)

  unfoldable pub handle_message : RequestHook E → Bytes → ℕ → Node E → Node E
  unfolding handle_request
  handle_message none message p n =
      (send_err (new_im_error err_no_handle_msg).msg (pos 0) "" "" p n).1
  handle_message (some hook) message p n = handle_request hook p (E.unmarshal_request message) n

  unfoldable pub on_message : RequestHook E → ℕ → Bytes → Node E → Node E
  unfolding handle_message close_conn get_client_by_conn
  on_message hook socket message n = elim (get_client_by_conn socket n) [
    | none ↦ close_conn socket n
    | some p ↦ handle_message hook message p n
  ]

  -- `Handler.OnClose`: the client is found by the user id of the connection.
  unfoldable pub handler_on_close : CloseHook E → ℕ → Node E → Bool × Node E
  unfolding get_uid get_client
  handler_on_close hook socket n = elim (get_client (get_uid socket n) n) [
    | none ↦ (false, n)
    | some p ↦ on_close hook p n
  ]

  unfoldable pub new_user_online : String → String → String → Node E → UserOnline
  new_user_online uid rand_uuid client_addr n = record {
    acc_ip = n.server_ip;
    client_arr = client_addr;
    acc_port = n.config.ws_port;
    rpc_port = n.config.rpc_port;
    user_id = uid;
    rand_uuid = rand_uuid;
  }

module _ {E : External} (proxy : RunProxy E) where
  abbrev is_other : UserOnline → UserOnline → Bool
  is_other old online = if old.rand_uuid == online.rand_uuid then false else true

  -- After the exchange in redis: an error, or a record of another login, refuses this one.
  unfoldable pub decide :
      String → UserOnline → (Option UserOnline × Option Err) × Node E → Result UserOnline × Node E
  decide uid online ((old, some e), n) = (err e, (del_user_online_info uid n).1)
  decide uid online ((none, none), n) = (ok online, n)
  decide uid online ((some old, none), n) =
      if is_other old online
      then (err (im_err err_user_online), proxy.stop_user_client old (del_user_online_info uid n).1)
      else (ok online, n)

  unfoldable pub login : String → ℕ → Node E → Result UserOnline × Node E
  unfolding decide new_user_online
  login uid socket n =
      let (rand_uuid, s) = E.unique_id n.ext in
      let online = new_user_online uid rand_uuid (E.remote_addr socket s) n in
      decide uid online (get_set_user_online_info uid online (with_ext s n))

  -- A user of this node is refused, and the old connection is closed as well.
  unfoldable pub unique_login : String → ℕ → Node E → Result UserOnline × Node E
  unfolding login get_client
  unique_login uid socket n = elim (get_client uid n) [
    | some p ↦ (err (im_err err_user_online), close p n)
    | none ↦ login uid socket n
  ]

  pub start_client : ℕ → String → Opcode → Result UserOnline × Node E → Node E
  unfolding new_client init_start close_conn
  start_client socket uid msg_code (err e, n) = close_conn socket n
  start_client socket uid msg_code (ok online, n) =
      let (p, made) = new_client socket uid online.rand_uuid msg_code n in init_start p made

  -- `HandlerUp` after the upgrade of the connection; `get_msg_code` is the parameter `msg_code`.
  unfoldable pub handler_up : ℕ → String → Node E → Node E
  unfolding get_uid start_client unique_login msg_code_of close_conn
  handler_up socket get_msg_code n =
      let uid = get_uid socket n in
      let done = start_client socket uid (msg_code_of get_msg_code) (unique_login uid socket n) in
      if uid == "" then close_conn socket n else done
