-- ===== src/Ws/Safety/Quiet.antt =====
-- service/ws: sends, writes and pings, the registers, the groups and the notes of a client.
use gim.Base.{
  ℕ, ◌≡◌, refl, ◌∙◌, String, Bool, true, false, Option, none, some, arith, ◌==◌, nat_eq,
  if◌then◌else◌,
}
use gim.Base.Chan.{Received, received, waiting, finished, receive, receive-closed}
use gim.ImErr.{Err}
use gim.Types.Message.{Bytes}
use gim.Ws.External.{External}
use gim.Ws.Config.{conn_keep_time}
use gim.Ws.Cache.{reset_user_online_exp_time}
use gim.Ws.Node.{Node, Client, client_at, put_client, with_ext}
use gim.Ws.Client.{safe_send_msg, heartbeat, set_conn_dead_line}
use gim.Ws.Client.Loop.{send_msg_round, round_of, after_write}
use gim.Ws.Client.Sending.{
  with_queued, AsyncSend, refused, queued, overflowed, lost, safe_send_msg-AsyncSend,
}
use gim.Ws.ClientManager.{get_client}
use gim.Ws.Handler.{on_ping, get_uid, close_conn}
use gim.Ws.Handler.Login.{SameRegisters, close-SameRegisters, notes}

module _ {E : External} where
  -- A client may be replaced by one with the same notes.
  put-SameRegisters :
      (p : ℕ) (c : Client) (n : Node E)
      → c.user_id ≡ (client_at p n).user_id
      → c.t_group ≡ (client_at p n).t_group
      → c.close_once ≡ (client_at p n).close_once
      → c.send_chan.closed ≡ (client_at p n).send_chan.closed
      → SameRegisters n (put_client p c n)
  unfolding notes
  put-SameRegisters p c n a b d e = (refl, refl, refl, refl, λ i q. at_each q i)
    where
      at_each : (q : ℕ) → notes (put_client p c n) q ≡ notes n q
      at_each q = ground (arith, a, b, d, e)

  pub trans-SameRegisters :
      (n m k : Node E) → SameRegisters n m → SameRegisters m k → SameRegisters n k
  trans-SameRegisters n m k a b = (b.0 ∙ a.0, b.1 ∙ a.1, b.2 ∙ a.2, b.3 ∙ a.3, b.4 ∙ a.4)

  sent-SameRegisters :
      (msg : Bytes) (p : ℕ) (n : Node E) {r : Option Err × Node E}
      → AsyncSend msg p n r
      → SameRegisters n r.1
  sent-SameRegisters msg p n (refused a e) = rw e (refl, refl, refl, refl, refl)
  sent-SameRegisters msg p n (queued a b c e) =
      rw e (put-SameRegisters p (with_queued (client_at p n) msg) n refl refl refl refl)
  sent-SameRegisters msg p n (overflowed a b c e) = rw e (close-SameRegisters p n)
  sent-SameRegisters msg p n (lost a b e) = rw e (close-SameRegisters p n)

  pub safe_send_msg-SameRegisters :
      (msg : Bytes) (p : ℕ) (n : Node E) → SameRegisters n (safe_send_msg msg 2 p n).1
  safe_send_msg-SameRegisters msg p n = sent-SameRegisters msg p n (safe_send_msg-AsyncSend msg p n)

  write-SameRegisters :
      (p : ℕ) (w : Option Err × E.State) (n : Node E) → SameRegisters n (after_write p w n).1
  unfolding after_write notes
  write-SameRegisters p (none, s) n = (refl, refl, refl, refl, refl)
  write-SameRegisters p (some e, s) n = close-SameRegisters p (with_ext s n)

  round-SameRegisters :
      (p : ℕ) (r : Received Bytes) (n : Node E)
      → receive (client_at p n).send_chan ≡ r
      → SameRegisters n (round_of p r n).1
  unfolding round_of
  round-SameRegisters p waiting n h = (refl, refl, refl, refl, refl)
  round-SameRegisters p finished n h = close-SameRegisters p n
  round-SameRegisters p (received msg ch) n h =
      let taken : Node E = put_client p (record (client_at p n) { send_chan = ch }) n in
      trans-SameRegisters n taken _
        (put-SameRegisters p (record (client_at p n) { send_chan = ch }) n refl refl refl
          (receive-closed (client_at p n).send_chan msg ch h))
        (write-SameRegisters p
          (E.write_message (client_at p n).socket (client_at p n).msg_code msg n.ext) taken)

  pub send_msg_round-SameRegisters : (p : ℕ) (n : Node E) → SameRegisters n (send_msg_round p n).1
  unfolding send_msg_round
  send_msg_round-SameRegisters p n = round-SameRegisters p _ n refl

  timed-SameRegisters :
      (b : Bool) (s : E.State) (n : Node E) → SameRegisters n (if b then n else with_ext s n)
  unfolding notes
  timed-SameRegisters true s n = (refl, refl, refl, refl, refl)
  timed-SameRegisters false s n = (refl, refl, refl, refl, refl)

  deadline-SameRegisters : (p : ℕ) (n : Node E) → SameRegisters n (set_conn_dead_line p n)
  unfolding set_conn_dead_line
  deadline-SameRegisters p n = timed-SameRegisters (conn_keep_time n.config == 0) _ n

  reset-SameRegisters :
      (uid : String) (n : Node E) → SameRegisters n (reset_user_online_exp_time uid n).1
  unfolding reset_user_online_exp_time notes
  reset-SameRegisters uid n = (refl, refl, refl, refl, refl)

  heartbeat-SameRegisters : (p : ℕ) (n : Node E) → SameRegisters n (heartbeat p n)
  unfolding heartbeat
  heartbeat-SameRegisters p n =
      let kept : Node E = (reset_user_online_exp_time (client_at p n).user_id n).1 in
      let n' : Node E = set_conn_dead_line p kept in
      trans-SameRegisters n n' _
        (trans-SameRegisters n kept n' (reset-SameRegisters (client_at p n).user_id n)
          (deadline-SameRegisters p kept))
        (put-SameRegisters p (record (client_at p n') { heartbeat_time = E.unix_time n'.ext }) n'
          refl refl refl refl)

  pub on_ping-SameRegisters : (socket : ℕ) (n : Node E) → SameRegisters n (on_ping socket n)
  unfolding on_ping close_conn notes
  on_ping-SameRegisters socket n = found (get_client (get_uid socket n) n)
    where
      found :
          (o : Option ℕ)
          → SameRegisters n (elim o [ none ↦ close_conn socket n | some p ↦ heartbeat p n ])
      found none = (refl, refl, refl, refl, refl)
      found (some p) = heartbeat-SameRegisters p n
