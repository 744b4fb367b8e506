-- ===== src/Ws/Broadcast.antt =====
-- service/ws/tgroup.go: the listener of a group, and how a group message reaches the clients.
pub mod Sparing
pub mod Delivery
pub mod Listening
use gim.Base.{
  ℕ, zero, suc, String, Bool, true, false, Option, none, some, List, [], ◌∷◌, ◌==◌, nat_eq,
  string_eq, if◌then◌else◌,
}
use gim.Base.Dict.{keys}
use gim.Base.Chan.{Chan, Received, received, waiting, finished, receive}
use gim.ImErr.{Err}
use gim.Types.Message.{Bytes, GroupMsg}
use gim.Ws.External.{External}
use gim.Ws.Node.{Node}
use gim.Ws.TGroup.{TGroup, GroupState, normal, deleted, put, delete_t_group}
use gim.Ws.Client.{safe_send_msg}
use gim.Ws.Client.Loop.{Round, next_round, waits, ends}
use gim.Ws.ClientManager.{get_client}

module _ {E : External} where
  unfoldable pub send_found : Bytes → Option ℕ → Node E → Node E
  send_found msg none n = n
  send_found msg (some p) n = (safe_send_msg msg 2 p n).1

  -- One user of the group: the error of the send is dropped.
  unfoldable pub send_one : GroupMsg → String → Node E → Node E
  unfolding send_found get_client
  send_one m uid n = if uid == m.except_uid then n else send_found m.msg (get_client uid n) n

  unfoldable pub send_each : GroupMsg → List String → Node E → Node E
  send_each m [] n = n
  send_each m (uid ∷ rest) n = send_each m rest (send_one m uid n)

  unfoldable pub send_in : GroupState → GroupMsg → List String → Node E → Node E
  unfolding send_each
  send_in deleted m uids n = n
  send_in normal m uids n = send_each m uids n

  -- Go's order over a map is not fixed; the users are taken in the order of the list.
  unfoldable pub send_to_users : ℕ → GroupMsg → Node E → Node E
  unfolding send_in keys
  send_to_users p m n = send_in (n.t_group_m.heap p).state m (keys (n.t_group_m.heap p).users) n

  unfoldable pub heard : ℕ → Received GroupMsg → Node E → Round × Node E
  unfolding send_to_users
  heard p waiting n = (waits, n)
  heard p finished n = (ends, record n { t_group_m = delete_t_group p n.t_group_m })
  heard p (received m ch) n =
      let taken = put p (record (n.t_group_m.heap p) { send = ch }) n.t_group_m in
      (next_round, send_to_users p m (record n { t_group_m = taken }))

  -- A round of `ListenSendChan`; `DeleteTGroup` is deferred to the end of the loop.
  unfoldable pub listen_send_chan : ℕ → Node E → Round × Node E
  unfolding heard
  listen_send_chan p n = heard p (receive (n.t_group_m.heap p).send) n

  -- `ListenSendChan` up to its end, or to a wait, on fuel.
  unfoldable pub listen_loop : ℕ → ℕ → Node E → Option (Round × Node E)
  listen_loop zero p n = none
  listen_loop (suc fuel) p n =
      let (round, n') = listen_send_chan p n in
      elim round [
        | next_round ↦ listen_loop fuel p n'
        | waits ↦ some (waits, n')
        | ends ↦ some (ends, n')
      ]
