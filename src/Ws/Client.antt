-- ===== src/Ws/Client.antt =====
-- service/ws/client.go: one connection of a user, and service/ws/client_manager.go's registers,
-- which a client leaves when its connection is closed.
pub mod Loop
pub mod Leaving
pub mod Lifecycle
pub mod Lifetime
pub mod Record
pub mod Replying
pub mod Sending
pub mod Users
pub mod Writing
use gim.Base.{
  ℕ, zero, suc, ℤ, pos, String, Bool, true, false, Option, none, some, List, [], ◌∷◌, ◌==◌, nat_eq,
  string_eq, if◌then◌else◌, update, length,
}
use gim.Base.Dict.{Dict, lookup, insert, erase, keys, has}
use gim.Base.Chan.{
  Chan, Sent, sent, full, panicked, Received, received, waiting, finished, make, send,
  close as close_chan, receive,
}
use gim.ImErr.{Err, Result, ok, err, im_err, err_user_offline, err_send_chan_full}
use gim.Types.Response.{
  Response, ResponseData, new_response, new_response_data, new_err_a_data, msg_type_response,
}
use gim.Types.Message.{Bytes}
use gim.Ws.Config.{capacity, conn_keep_time}
use gim.Ws.External.{External, Opcode}
use gim.Ws.TGroup.{TGroupManager, user_join_t_group, user_out_t_group}
use gim.Ws.TGroup.Joins.{alone}
use gim.Ws.Cache.{reset_user_online_exp_time, del_user_online_info}
use gim.Ws.Node.{
  Node, Client, ClientManager, ClientState, online, offline, client_at, put_client, with_ext,
}

-- `OnConnect`: the client is entered under its user id and under its connection.
unfoldable pub add_client : ℕ → ClientManager → ClientManager
add_client p m = record m { clients = insert (m.heap p).user_id p m.clients }

unfoldable pub add_client_conn : ℕ → ClientManager → ClientManager
add_client_conn p m = record m { conn_client_idx = insert (m.heap p).socket p m.conn_client_idx }

unfoldable pub on_connect : ℕ → ClientManager → ClientManager
unfolding add_client add_client_conn
on_connect p m = add_client_conn p (add_client p m)

unfoldable pub del_client : String → ClientManager → ClientManager
del_client uid m = record m { clients = erase uid m.clients }

unfoldable pub del_client_conn : ℕ → ClientManager → ClientManager
del_client_conn p m = record m { conn_client_idx = erase (m.heap p).socket m.conn_client_idx }

module _ {E : External} where
  -- `NewClient`: a new object, in no register yet.
  unfoldable pub new_client : ℕ → String → String → Opcode → Node E → ℕ × Node E
  new_client socket uid rand_uuid msg_code n = (
    n.client_m.next,
    record n {
      client_m = record (n.client_m) {
        heap = update n.client_m.heap n.client_m.next (record {
          socket = socket;
          user_id = uid;
          rand_uuid = rand_uuid;
          state = online;
          first_time = E.unix_time n.ext;
          heartbeat_time = E.unix_time n.ext;
          t_group = [];
          msg_code = msg_code;
          send_chan = make (capacity n.config.client_msg_chan_max);
          close_once = false;
        });
        next = suc n.client_m.next;
      };
    },
  )

  unfoldable pub set_conn_dead_line : ℕ → Node E → Node E
  set_conn_dead_line p n =
      if conn_keep_time n.config == 0
      then n
      else with_ext (E.set_read_deadline (client_at p n).socket (conn_keep_time n.config) n.ext) n

  -- `InitStart`, but for the goroutine of `SendMsgLoop`, whose rounds are `send_msg_round`.
  unfoldable pub init_start : ℕ → Node E → Node E
  unfolding on_connect set_conn_dead_line
  init_start p n = set_conn_dead_line p (record n { client_m = on_connect p n.client_m })

  unfoldable pub get_key : ℕ → Node E → String
  get_key p n = (client_at p n).user_id

  unfoldable pub is_in_t_group : ℕ → String → Node E → Bool
  is_in_t_group p group_id n = has group_id (client_at p n).t_group

  unfoldable pub note_group : ℕ → String → Node E → Node E
  note_group p group_id n =
      put_client p
        (record (client_at p n) { t_group = insert group_id true (client_at p n).t_group }) n

  unfoldable pub joined_group : ℕ → String → Option TGroupManager → Node E → Option (Node E)
  unfolding note_group
  joined_group p group_id none n = none
  joined_group p group_id (some g) n = some (note_group p group_id (record n { t_group_m = g }))

  -- `InTGroup`. One round of the join is enough while nobody else is at the groups.
  unfoldable pub in_t_group : ℕ → String → Node E → Option (Node E)
  unfolding joined_group
  in_t_group p group_id n =
      joined_group p group_id
        (user_join_t_group alone 1 (capacity n.config.group_msg_chan_max) group_id
          (client_at p n).user_id n.t_group_m)
        n

  unfoldable pub forget_group : ℕ → String → Node E → Node E
  forget_group p group_id n =
      put_client p (record (client_at p n) { t_group = erase group_id (client_at p n).t_group }) n

  -- `OutTGroup`, and `_outTGroup`, which is the same under a lock that is held already.
  unfoldable pub out_t_group : ℕ → String → Node E → Node E
  unfolding forget_group
  out_t_group p group_id n =
      forget_group p group_id
        (record n { t_group_m = (user_out_t_group group_id (client_at p n).user_id n.t_group_m).1 })

  unfoldable pub out_groups : List String → ℕ → Node E → Node E
  unfolding out_t_group
  out_groups [] p n = n
  out_groups (group_id ∷ rest) p n = out_groups rest p (out_t_group p group_id n)

  unfoldable pub out_all_t_group : ℕ → Node E → Node E
  unfolding out_groups keys
  out_all_t_group p n = out_groups (keys (client_at p n).t_group) p n

  unfoldable pub close_in : ClientState → ℕ → Node E → Node E
  close_in offline p n = n
  close_in online p n =
      with_ext (E.close_conn (client_at p n).socket n.ext)
        (put_client p (record (client_at p n) { state = offline }) n)

  unfoldable pub close : ℕ → Node E → Node E
  unfolding close_in
  close p n = close_in (client_at p n).state p n

  queue_msg : ℕ → Sent Bytes → Node E → Option Err × Node E
  unfolding close
  queue_msg p (sent ch) n = (none, put_client p (record (client_at p n) { send_chan = ch }) n)
  queue_msg p full n = (some (im_err err_send_chan_full), close p n)
  queue_msg p panicked n = (none, close p n)

  write_now : ℕ → Bytes → Node E → Option Err × Node E
  write_now p msg n = (
    none,
    with_ext (E.write_message (client_at p n).socket (client_at p n).msg_code msg n.ext).1 n,
  )

  abbrev send_online : Bytes → ℕ → ℕ → Node E → Option Err × Node E
  send_online msg send_type p n =
      if send_type == 1
      then write_now p msg n
      else queue_msg p (send (client_at p n).send_chan msg) n

  send_in : ClientState → Bytes → ℕ → ℕ → Node E → Option Err × Node E
  unfolding write_now queue_msg
  send_in offline msg send_type p n = (some (im_err err_user_offline), n)
  send_in online msg send_type p n = send_online msg send_type p n

  -- A send on the closed channel panics: it is recovered, the client is closed, and the error is nil.
  unfoldable pub safe_send_msg : Bytes → ℕ → ℕ → Node E → Option Err × Node E
  unfolding send_in
  safe_send_msg msg send_type p n = send_in (client_at p n).state msg send_type p n

  unfoldable pub send_msg : Bytes → ℕ → Node E → Option Err × Node E
  send_msg msg p n = safe_send_msg msg 1 p n

  unfoldable pub send_msg_async : Bytes → ℕ → Node E → Option Err × Node E
  send_msg_async msg p n = safe_send_msg msg 2 p n

  unfoldable pub send_marshalled : Result Bytes → ℕ → ℕ → Node E → Option Err × Node E
  send_marshalled (err e) sync p n = (some e, n)
  send_marshalled (ok bytes) sync p n = safe_send_msg bytes sync p n

  unfoldable pub send_response_msg : Response → ℕ → ℕ → Node E → Option Err × Node E
  unfolding send_marshalled
  send_response_msg response sync p n = send_marshalled (E.marshal_response response) sync p n

  unfoldable pub send_response_data :
      ResponseData → String → String → ℤ → ℕ → Node E → Option Err × Node E
  unfolding send_response_msg new_response
  send_response_data r_data seq cmd msg_type p n =
      send_response_msg (new_response seq cmd msg_type (some r_data)) 1 p n

  unfoldable pub send_err : String → ℤ → String → String → ℕ → Node E → Option Err × Node E
  unfolding send_response_data new_response_data new_err_a_data
  send_err err_msg err_type seq cmd p n =
      send_response_data (new_response_data (some (new_err_a_data err_msg err_type)) []) seq cmd
        msg_type_response p n

module _ {E : External} where
  unfoldable pub heartbeat : ℕ → Node E → Node E
  unfolding reset_user_online_exp_time set_conn_dead_line
  heartbeat p n =
      let n' = set_conn_dead_line p (reset_user_online_exp_time (client_at p n).user_id n).1 in
      put_client p (record (client_at p n') { heartbeat_time = E.unix_time n'.ext }) n'

-- What the application does when a client is gone; `false` is a panic, which is recovered.
abbrev pub CloseHook : External → Type 0
CloseHook E = Option (ℕ → Node E → Bool × Node E)

module _ {E : External} where
  run_hook : CloseHook E → ℕ → Node E → Bool × Node E
  run_hook none p n = (true, n)
  run_hook (some f) p n = f p n

  -- The channel is closed before the hook; a second close would panic.
  close_send_chan : CloseHook E → ℕ → Option (Chan Bytes) → Node E → Bool × Node E
  unfolding run_hook
  close_send_chan hook p none n = (false, n)
  close_send_chan hook p (some ch) n =
      run_hook hook p (put_client p (record (client_at p n) { send_chan = ch }) n)

  unfoldable pub leave_node : ℕ → Node E → Node E
  unfolding del_client del_client_conn del_user_online_info
  leave_node p n =
      let left = out_all_t_group p (put_client p (record (client_at p n) { state = offline }) n) in
      let m = del_client_conn p (del_client (client_at p left).user_id left.client_m) in
      (del_user_online_info (client_at p left).user_id (record left { client_m = m })).1

  closing : CloseHook E → Bool → ℕ → Node E → Bool × Node E
  unfolding leave_node close_send_chan
  closing hook true p n = (false, n)
  closing hook false p n =
      let once = put_client p (record (client_at p n) { close_once = true }) n in
      let gone = leave_node p once in
      close_send_chan hook p (close_chan (client_at p gone).send_chan) gone

  -- `OnClose`, whose body runs once for a client.
  unfoldable pub on_close : CloseHook E → ℕ → Node E → Bool × Node E
  unfolding closing
  on_close hook p n = closing hook (client_at p n).close_once p n
