-- ===== src/Ws/Safety/Queueing.antt =====
-- service/ws: what sends to groups and the listeners of groups do to the invariant of a node.
use gim.Base.{
  ℕ, ◌≡◌, refl, sym, ap, subst, ◌∙◌, String, true, Option, none, some, arith, nat_eq, string_eq,
  inl, inr, Option-cases,
}
use gim.Base.Dict.{lookup}
use gim.Base.Chan.{
  Chan, send, send_sent, Sent-cases, Received, received, waiting, finished, receive, receive-closed,
  receive-finished,
}
use gim.ImErr.{Err}
use gim.Types.Message.{Bytes, GroupMsg}
use gim.Ws.External.{External}
use gim.Ws.Node.{Node, with_ext}
use gim.Ws.TGroup.{
  TGroupManager, GroupState, normal, deleted, put, returned, send_chan, send_in, sending,
  remove_t_group, close_send, get_t_group, send_message_to_t_group, delete_t_group,
}
use gim.Ws.TGroup.Invariant.{Inv, put-Inv}
use gim.Ws.TGroup.Members.{put-is_member}
use gim.Ws.LocalProxy.{send_msg_to_local_group, group_sent}
use gim.Ws.Broadcast.{listen_send_chan, heard}
use gim.Ws.Broadcast.Sparing.{send_to_users-SameRegisters}
use gim.Ws.Handler.Login.{SameRegisters, notes}
use gim.Ws.Handler.{close_conn}
use gim.Ws.Client.{safe_send_msg}
use gim.Ws.Client.Sending.{safe_send_msg-kinds}
use gim.Ws.Safety.Quiet.{safe_send_msg-SameRegisters}
use gim.Ws.Safety.Invariant.{NodeInv, SameRegisters-NodeInv}

-- A group with another buffer in its channel.
abbrev with_chan : ℕ → Chan GroupMsg → TGroupManager → TGroupManager
with_chan p ch g = put p (record (g.heap p) { send = ch }) g

with_chan-Inv :
    (p : ℕ) (ch : Chan GroupMsg) (g : TGroupManager)
    → ch.closed ≡ (g.heap p).send.closed
    → Inv g
    → Inv (with_chan p ch g)
with_chan-Inv p ch g e v = put-Inv p _ g v refl refl (ground (arith, v.sound p, e))

with_chan-users :
    (p q : ℕ) (ch : Chan GroupMsg) (g : TGroupManager)
    → ((with_chan p ch g).heap q).users ≡ (g.heap q).users
with_chan-users p q ch g = ground arith

-- What ends a listener: its group is deleted already, and nothing changes.
delete_t_group-deleted :
    (p : ℕ) (g : TGroupManager)
    → Inv g
    → (g.heap p).send.closed ≡ true
    → delete_t_group p g ≡ with_chan p (g.heap p).send g
unfolding delete_t_group remove_t_group close_send
delete_t_group-deleted p g v e = ground (
  arith,
  v.sound p,
  e,
  Option-cases (lookup (g.heap p).gid g.t_groups),
  v.entries (g.heap p).gid p,
)

module _ {E : External} where
  abbrev with_groups : TGroupManager → Node E → Node E
  with_groups g n = record n { t_group_m = g }

  with_chan-NodeInv :
      (p : ℕ) (ch : Chan GroupMsg) (n : Node E)
      → ch.closed ≡ (n.t_group_m.heap p).send.closed
      → NodeInv n
      → NodeInv (with_groups (with_chan p ch n.t_group_m) n)
  with_chan-NodeInv p ch n e v = record {
    groups = with_chan-Inv p ch n.t_group_m e v.groups;
    used = λ gid q h empty'. v.used gid q h (sym (with_chan-users p q ch n.t_group_m) ∙ empty');
    entries = v.entries;
    noted = λ gid uid h. v.noted gid uid (sym (put-is_member p _ n.t_group_m gid uid refl) ∙ h);
  }

  -- Whatever node the result has holds the invariant.
  abbrev Holds : Option (Option Err × Node E) → Type 0
  Holds none = Unit
  Holds (some (e, n)) = NodeInv n

  -- What a group is sent, it keeps for its listener.
  sending-Holds :
      (p : ℕ) (m : GroupMsg) (n : Node E)
      → NodeInv n
      → Holds (group_sent (sending p n.t_group_m (send (n.t_group_m.heap p).send m)) n)
  unfolding sending group_sent
  sending-Holds p m n v = elim (Sent-cases (send (n.t_group_m.heap p).send m)) [
    | inl e ↦ rw (e, sending) tt
    | inr (inl e) ↦ rw (e, sending) v
    | inr (inr (ch, e)) ↦
        let (opened, is_ch) = send_sent (n.t_group_m.heap p).send m e in
        rw (e, sending) (with_chan-NodeInv p ch n (ap (λ c. c.closed) is_ch) v)
  ]

  send_in-Holds :
      (s : GroupState) (p : ℕ) (m : GroupMsg) (n : Node E)
      → NodeInv n
      → Holds (group_sent (send_in s p m n.t_group_m) n)
  unfolding group_sent
  send_in-Holds deleted p m n v = v
  send_in-Holds normal p m n v = sending-Holds p m n v

  found-Holds :
      (o : Option ℕ) (m : GroupMsg) (n : Node E)
      → NodeInv n
      → Holds (
          group_sent
            (elim o [ none ↦ returned n.t_group_m | some p ↦ send_chan p m n.t_group_m ])
            n)
  unfolding group_sent send_chan
  found-Holds none m n v = v
  found-Holds (some p) m n v = send_in-Holds (n.t_group_m.heap p).state p m n v

  -- A send to a group of the node that returns keeps the invariant.
  pub send_msg_to_local_group-NodeInv :
      (gid : String) (m : GroupMsg) (n : Node E) (e : Option Err) (n' : Node E)
      → NodeInv n
      → send_msg_to_local_group gid m n ≡ some (e, n')
      → NodeInv n'
  unfolding send_msg_to_local_group send_message_to_t_group get_t_group
  send_msg_to_local_group-NodeInv gid m n e n' v done =
      subst Holds done (found-Holds (lookup gid n.t_group_m.t_groups) m n v)

  heard-NodeInv :
      (p : ℕ) (r : Received GroupMsg) (n : Node E)
      → receive (n.t_group_m.heap p).send ≡ r
      → NodeInv n
      → NodeInv (heard p r n).1
  unfolding heard
  heard-NodeInv p waiting n h v = v
  heard-NodeInv p finished n h v =
      subst (λ g. NodeInv (with_groups g n))
        (sym (
          delete_t_group-deleted p n.t_group_m v.groups
            (receive-finished (n.t_group_m.heap p).send h)))
        (with_chan-NodeInv p (n.t_group_m.heap p).send n refl v)
  heard-NodeInv p (received m ch) n h v =
      let taken : Node E = with_groups (with_chan p ch n.t_group_m) n in
      SameRegisters-NodeInv taken _ (send_to_users-SameRegisters p m taken)
        (with_chan-NodeInv p ch n (receive-closed (n.t_group_m.heap p).send m ch h) v)

  -- So does a round of the listener of a group.
  pub listen_send_chan-NodeInv : (p : ℕ) (n : Node E) → NodeInv n → NodeInv (listen_send_chan p n).1
  unfolding listen_send_chan
  listen_send_chan-NodeInv p n v = heard-NodeInv p _ n refl v

  pub close_conn-SameRegisters : (socket : ℕ) (n : Node E) → SameRegisters n (close_conn socket n)
  unfolding close_conn notes
  close_conn-SameRegisters socket n = (refl, refl, refl, refl, refl)

  pub with_ext-SameRegisters : (s : E.State) (n : Node E) → SameRegisters n (with_ext s n)
  unfolding notes
  with_ext-SameRegisters s n = (refl, refl, refl, refl, refl)

  -- A send of any kind changes no register, no group and no note.
  pub any_send-SameRegisters :
      (msg : Bytes) (k p : ℕ) (n : Node E) → SameRegisters n (safe_send_msg msg k p n).1
  any_send-SameRegisters msg k p n = elim (safe_send_msg-kinds msg k p n) [
    | inl e ↦ subst (λ r. SameRegisters n r.1) (sym e) (safe_send_msg-SameRegisters msg p n)
    | inr (s, e) ↦ subst (SameRegisters n) (sym e) (with_ext-SameRegisters s n)
  ]
