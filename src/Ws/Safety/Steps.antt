-- ===== src/Ws/Safety/Steps.antt =====
-- The events of a node, one after the other, and what holds after any of them.
use gim.Base.{
  ℕ, ◌≡◌, inl, inr, ap, sym, subst, ◌∙◌, String, Bool, Option, none, some, string_eq, Option-cases,
}
use gim.Base.Dict.{lookup}
use gim.ImErr.{Err}
use gim.Types.Message.{Bytes, GroupMsg}
use gim.Ws.Broadcast.{listen_send_chan}
use gim.Ws.Config.{WsConfig}
use gim.Ws.External.{External}
use gim.Ws.Node.{Node, RpcClients}
use gim.Ws.Client.{safe_send_msg}
use gim.Ws.Client.Loop.{send_msg_round}
use gim.Ws.Client.Lifecycle.{IsGone}
use gim.Ws.ClientManager.{get_client, stop_client}
use gim.Ws.LocalProxy.{join_lock_group, out_lock_group, send_msg_to_local_group}
use gim.Ws.Proxy.{RunProxy}
use gim.Ws.Handler.{get_uid, handler_up, handler_on_close, on_ping, close_conn}
use gim.Ws.Handler.Login.{SameRegisters, StopKeeps}
use gim.Ws.Handler.Stops.{close_found-SameRegisters}
use gim.Ws.Safety.Invariant.{
  NodeInv, new_node, new_node-NodeInv, SameRegisters-NodeInv, handler_up-NodeInv,
}
use gim.Ws.Safety.Groups.{join_lock_group-NodeInv, out_lock_group-NodeInv}
use gim.Ws.Safety.Leaving.{on_close-NodeInv}
use gim.Ws.Safety.Queueing.{
  any_send-SameRegisters, close_conn-SameRegisters, listen_send_chan-NodeInv,
  send_msg_to_local_group-NodeInv,
}
use gim.Ws.Safety.Quiet.{send_msg_round-SameRegisters, on_ping-SameRegisters}

module _ {E : External} where
  -- One event of the node: a login, the end of a connection, a ping, a join or a leave of a group,
  -- a stop, a send to a client or to a group, and a round of the loop that writes or of the listener
  -- of a group; the service drops a connection without a client; and whatever else spares the
  -- registers, the groups and the notes of the clients, as redis, other nodes and sends do.
  pub data Step (proxy : RunProxy E) (n : Node E) : Node E → Type 0 where
    logs_in :
        (socket : ℕ) (get_msg_code : String) → Step proxy n (handler_up proxy socket get_msg_code n)
    closes : (socket : ℕ) → Step proxy n (handler_on_close none socket n).1
    pings : (socket : ℕ) → Step proxy n (on_ping socket n)
    joins :
        (uid gid : String) (b : Bool) (n' : Node E)
        → join_lock_group uid gid n ≡ some (b, n')
        → Step proxy n n'
    leaves : (uid gid : String) → Step proxy n (out_lock_group uid gid n).1
    stops : (uid : String) → Step proxy n (stop_client uid n)
    sends : (msg : Bytes) (send_type p : ℕ) → Step proxy n (safe_send_msg msg send_type p n).1
    queues :
        (gid : String) (m : GroupMsg) (e : Option Err) (n' : Node E)
        → send_msg_to_local_group gid m n ≡ some (e, n')
        → Step proxy n n'
    listens : (p : ℕ) → Step proxy n (listen_send_chan p n).1
    drops : (socket : ℕ) → Step proxy n (close_conn socket n)
    writes : (p : ℕ) → Step proxy n (send_msg_round p n).1
    spares : (n' : Node E) → SameRegisters n n' → Step proxy n n'

  pub data Reaches (proxy : RunProxy E) (n : Node E) : Node E → Type 0 where
    here : Reaches proxy n n
    then_one : {m k : Node E} → Reaches proxy n m → Step proxy m k → Reaches proxy n k

  closed-NodeInv :
      (socket : ℕ) (n : Node E) → NodeInv n → NodeInv (handler_on_close none socket n).1
  unfolding handler_on_close get_client
  closed-NodeInv socket n v = elim (Option-cases (lookup (get_uid socket n) n.client_m.clients)) [
    | inl e ↦ rw (e, handler_on_close) v
    | inr (p, e) ↦ rw (e, handler_on_close) (on_close-NodeInv (get_uid socket n) p n v e).1
  ]

  abbrev node_in : Node E → Option (Bool × Node E) → Node E
  node_in n none = n
  node_in n (some (b, n')) = n'

  joined_is :
      (uid gid : String) (n : Node E) (b : Bool) (n' : Node E)
      → NodeInv n
      → join_lock_group uid gid n ≡ some (b, n')
      → NodeInv n'
  joined_is uid gid n b n' v e =
      let (c, m, done, w) = join_lock_group-NodeInv uid gid n v in
      subst NodeInv (ap (node_in n) (sym done ∙ e)) w

module _ {E : External} (proxy : RunProxy E) (keeps : StopKeeps proxy) where
  step-NodeInv : (n n' : Node E) → Step proxy n n' → NodeInv n → NodeInv n'
  unfolding stop_client
  step-NodeInv n _ (logs_in socket code) v = handler_up-NodeInv proxy keeps socket code n v
  step-NodeInv n _ (closes socket) v = closed-NodeInv socket n v
  step-NodeInv n _ (pings socket) v = SameRegisters-NodeInv n _ (on_ping-SameRegisters socket n) v
  step-NodeInv n _ (joins uid gid b n' e) v = joined_is uid gid n b n' v e
  step-NodeInv n _ (leaves uid gid) v = out_lock_group-NodeInv uid gid n v
  step-NodeInv n _ (stops uid) v = SameRegisters-NodeInv n _ (close_found-SameRegisters _ n) v
  step-NodeInv n _ (sends msg k p) v =
      SameRegisters-NodeInv n _ (any_send-SameRegisters msg k p n) v
  step-NodeInv n _ (queues gid m e n' done) v = send_msg_to_local_group-NodeInv gid m n e n' v done
  step-NodeInv n _ (listens p) v = listen_send_chan-NodeInv p n v
  step-NodeInv n _ (drops socket) v =
      SameRegisters-NodeInv n _ (close_conn-SameRegisters socket n) v
  step-NodeInv n _ (spares n' same) v = SameRegisters-NodeInv n n' same v
  step-NodeInv n _ (writes p) v = SameRegisters-NodeInv n _ (send_msg_round-SameRegisters p n) v

  -- With a proxy whose stop leaves the registers alone: from a node that holds the invariant, every
  -- node that its events reach holds it.
  pub Reaches-NodeInv : (n n' : Node E) → Reaches proxy n n' → NodeInv n → NodeInv n'
  Reaches-NodeInv n _ here v = v
  Reaches-NodeInv n n' (then_one {m = m} r s) v = step-NodeInv m n' s (Reaches-NodeInv n m r v)

  -- With a proxy whose stop leaves the registers alone: after any events of a node that started
  -- empty, the end of a registered user's connection takes the user off the node, and touches
  -- nobody else: see `IsGone`.
  pub Reaches-IsGone :
      (config : WsConfig) (server_ip : String) (rpc_clients : RpcClients) (ext : E.State)
      (n : Node E) (socket p : ℕ)
      → Reaches proxy (new_node config server_ip rpc_clients ext) n
      → lookup (get_uid socket n) n.client_m.clients ≡ some p
      → IsGone p n (handler_on_close none socket n).1
  unfolding handler_on_close get_client
  Reaches-IsGone config server_ip rpc_clients ext n socket p r e =
      let start : Node E = new_node config server_ip rpc_clients ext in
      let v = Reaches-NodeInv start n r (new_node-NodeInv config server_ip rpc_clients ext) in
      rw (e, handler_on_close) (on_close-NodeInv (get_uid socket n) p n v e).0
