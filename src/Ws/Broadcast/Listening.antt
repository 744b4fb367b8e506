-- ===== src/Ws/Broadcast/Listening.antt =====
-- service/ws/tgroup.go: the listener of a group empties its channel in order.
use gim.Ws.Broadcast.Sparing.{send_to_users-SameRegisters}
use gim.Base.{
  ℕ, suc, ◌+◌, ◌≤◌, ◌≡◌, refl, sym, ap, subst, ◌∙◌, String, Bool, false, not, ◌&&◌, Option, some,
  List, [], ◌∷◌, ◌++◌, arith, ◌==◌, nat_eq, string_eq, if◌then◌else◌, length, length-append,
}
use mathlib.Core.List.{append-nil, append_assoc}
use gim.Base.Dict.{Dict, lookup, has, NodupKeys}
use gim.Base.Chan.{receive-nil, receive-cons}
use gim.Types.Message.{Bytes, GroupMsg}
use gim.Ws.External.{External}
use gim.Ws.Node.{Node, Client, online, client_at}
use gim.Ws.TGroup.{normal, put}
use gim.Ws.Client.Loop.{Round, next_round, waits, ends}
use gim.Ws.Client.Users.{Registered}
use gim.Ws.Handler.Login.{notes}
use gim.Ws.Broadcast.{send_to_users, heard, listen_send_chan, listen_loop}
use gim.Ws.Broadcast.Delivery.{send_to_users-exactly_once}

-- What of the messages is for the user `u`.
pub wanted : String → Dict String Bool → List GroupMsg → List Bytes
wanted u users [] = []
wanted u users (m ∷ rest) =
    if has u users && not (u == m.except_uid)
    then m.msg ∷ wanted u users rest
    else wanted u users rest

pub length-wanted_one :
    (u : String) (users : Dict String Bool) (m : GroupMsg) → length (wanted u users (m ∷ [])) ≤ 1
unfolding wanted
length-wanted_one u users m = ground arith

wanted-cons :
    (u : String) (users : Dict String Bool) (m : GroupMsg) (rest : List GroupMsg)
    → wanted u users (m ∷ rest) ≡ wanted u users (m ∷ []) ++ wanted u users rest
unfolding wanted
wanted-cons u users m rest = ground arith

-- The client with messages more in its queue.
abbrev pub with_all : Client → List Bytes → Client
with_all c msgs = record c {
  send_chan = record (c.send_chan) { buffer = c.send_chan.buffer ++ msgs };
}

with_all-append :
    (c d : Client) (a b : List Bytes) → d ≡ with_all c a → with_all d b ≡ with_all c (a ++ b)
with_all-append c d a b h = ground (arith, h, append_assoc c.send_chan.buffer a b)

module _ {E : External} where
  -- A group that takes and sends messages, and a registered client with room for `k` more.
  pub record IsListening (p : ℕ) (u : String) (q k : ℕ) (n : Node E) : Type 0 where
    pub alive : (n.t_group_m.heap p).state ≡ normal
    pub opened : (n.t_group_m.heap p).send.closed ≡ false
    pub nodup : NodupKeys (n.t_group_m.heap p).users
    pub registered : Registered n
    pub entry : lookup u n.client_m.clients ≡ some q
    pub is_online : (client_at q n).state ≡ online
    pub open_chan : (client_at q n).send_chan.closed ≡ false
    pub room : length (client_at q n).send_chan.buffer + k ≤ (client_at q n).send_chan.cap

  abbrev taken : ℕ → List GroupMsg → Node E → Node E
  taken p rest n = record n {
    t_group_m =
        put p
          (record (n.t_group_m.heap p) {
            send = record ((n.t_group_m.heap p).send) { buffer = rest };
          })
          n.t_group_m;
  }

  round-cons :
      (p : ℕ) (n : Node E) (m : GroupMsg) (rest : List GroupMsg)
      → (n.t_group_m.heap p).send.buffer ≡ m ∷ rest
      → listen_send_chan p n ≡ (next_round, send_to_users p m (taken p rest n))
  unfolding listen_send_chan heard
  round-cons p n m rest e = rw (receive-cons (n.t_group_m.heap p).send m rest e, heard)

  round-nil :
      (p : ℕ) (n : Node E)
      → (n.t_group_m.heap p).send.buffer ≡ []
      → (n.t_group_m.heap p).send.closed ≡ false
      → listen_send_chan p n ≡ (waits, n)
  unfolding listen_send_chan heard
  round-nil p n e f = ground (arith, receive-nil (n.t_group_m.heap p).send e)

  taken-alive :
      (p : ℕ) (rest : List GroupMsg) (n : Node E)
      → (((taken p rest n).t_group_m.heap p).state ≡ (n.t_group_m.heap p).state)
        × (((taken p rest n).t_group_m.heap p).users ≡ (n.t_group_m.heap p).users)
        × (((taken p rest n).t_group_m.heap p).send.closed ≡ (n.t_group_m.heap p).send.closed)
        × (((taken p rest n).t_group_m.heap p).send.buffer ≡ rest)
  taken-alive p rest n = ground arith

  abbrev served : ℕ → GroupMsg → List GroupMsg → Node E → Node E
  served p m rest n = send_to_users p m (taken p rest n)

  -- One message: the client of a member has it at the end of its queue.
  served-client :
      (p : ℕ) (u : String) (q k : ℕ) (m : GroupMsg) (rest : List GroupMsg) (n : Node E)
      → IsListening p u q (suc k) n
      → client_at q (served p m rest n)
        ≡ with_all (client_at q n) (wanted u (n.t_group_m.heap p).users (m ∷ []))
  unfolding wanted
  served-client p u q k m rest n l =
      let t = taken-alive p rest n in
      ground (
        arith,
        send_to_users-exactly_once p m u q (taken p rest n) (t.0 ∙ l.alive)
            (subst (NodupKeys {V = Bool}) (sym t.1) l.nodup) l.registered l.entry
            (l.is_online, l.open_chan, ground (arith, l.room)),
        t.1,
        append-nil (client_at q n).send_chan.buffer,
      )

  served-IsListening :
      (p : ℕ) (u : String) (q k : ℕ) (m : GroupMsg) (rest : List GroupMsg) (n : Node E)
      → IsListening p u q (suc k) n
      → IsListening p u q k (served p m rest n)
        × (((served p m rest n).t_group_m.heap p).send.buffer ≡ rest)
        × (((served p m rest n).t_group_m.heap p).users ≡ (n.t_group_m.heap p).users)
  unfolding notes
  served-IsListening p u q k m rest n l =
      let t = taken-alive p rest n in
      let same = send_to_users-SameRegisters p m (taken p rest n) in
      let group = ap (λ g. g.heap p) same.3 in
      let c = served-client p u q k m rest n l in
      (
        record {
          alive = ap (λ x. x.state) group ∙ (t.0 ∙ l.alive);
          opened = ap (λ x. x.send.closed) group ∙ (t.2 ∙ l.opened);
          nodup = subst (NodupKeys {V = Bool}) (sym (ap (λ x. x.users) group ∙ t.1)) l.nodup;
          registered =
              λ v x e. ap (λ f. (f x).0) same.4 ∙ l.registered v x (ap (lookup v) (sym same.0) ∙ e);
          entry = ap (lookup u) same.0 ∙ l.entry;
          is_online = ap (λ x. x.state) c ∙ l.is_online;
          open_chan = ap (λ x. x.send_chan.closed) c ∙ l.open_chan;
          room = omega (
            arith,
            ap (λ x. length x.send_chan.buffer) c,
            ap (λ x. x.send_chan.cap) c,
            length-append (client_at q n).send_chan.buffer
                (wanted u (n.t_group_m.heap p).users (m ∷ [])),
            length-wanted_one u (n.t_group_m.heap p).users m,
          );
        },
        ap (λ x. x.send.buffer) group ∙ t.3,
        ap (λ x. x.users) group ∙ t.1,
      )

  -- The listener stops to wait with an empty channel, and each message went to whom it is for.
  abbrev pub IsServed : ℕ → String → ℕ → List GroupMsg → Node E → Option (Round × Node E) → Type 0
  IsServed p u q ms n r =
      (n' : Node E) × (r ≡ some (waits, n'))
      × ((n'.t_group_m.heap p).send.buffer ≡ [])
      × (client_at q n' ≡ with_all (client_at q n) (wanted u (n.t_group_m.heap p).users ms))

  abbrev continue : ℕ → ℕ → Round × Node E → Option (Round × Node E)
  continue fuel p r = elim r.0 [
    | next_round ↦ listen_loop fuel p r.1
    | waits ↦ some (waits, r.1)
    | ends ↦ some (ends, r.1)
  ]

  loop-continue :
      (fuel p : ℕ) (n : Node E)
      → listen_loop (suc fuel) p n ≡ continue fuel p (listen_send_chan p n)
  unfolding listen_loop
  loop-continue fuel p n = refl

  listen_loop-from :
      (ms : List GroupMsg) (p : ℕ) (u : String) (q : ℕ) (n : Node E)
      → IsListening p u q (length ms) n
      → (n.t_group_m.heap p).send.buffer ≡ ms
      → IsServed p u q ms n (listen_loop (suc (length ms)) p n)
  unfolding wanted
  listen_loop-from [] p u q n l e = (
    n,
    loop-continue 0 p n ∙ ap (continue 0 p) (round-nil p n e l.opened),
    e,
    ground (arith, append-nil (client_at q n).send_chan.buffer),
  )
  listen_loop-from (m ∷ rest) p u q n l e =
      let n1 : Node E = served p m rest n in
      let users = (n.t_group_m.heap p).users in
      let (l1, e1, same) = served-IsListening p u q (length rest) m rest n l in
      let (n', done, empty, c) = listen_loop-from rest p u q n1 l1 e1 in
      (
        n',
        loop-continue (suc (length rest)) p n
            ∙ (ap (continue (suc (length rest)) p) (round-cons p n m rest e) ∙ done),
        empty,
        c
            ∙ (with_all-append (client_at q n) (client_at q n1) (wanted u users (m ∷ []))
                  (wanted u (n1.t_group_m.heap p).users rest)
                  (served-client p u q (length rest) m rest n l)
                ∙ ap (with_all (client_at q n)) (
                    ap (λ x. wanted u users (m ∷ []) ++ wanted u x rest) same
                    ∙ sym (wanted-cons u users m rest))),
      )

  -- With a round more than there are messages, the listener of a group that is not deleted
  -- comes to wait, its channel empty, and the client of a registered user, online and with room
  -- for them all, has got the messages for the user, in order and nothing else.
  pub listen_loop-IsServed :
      (p : ℕ) (u : String) (q : ℕ) (n : Node E)
      → IsListening p u q (length (n.t_group_m.heap p).send.buffer) n
      → IsServed p u q
          (n.t_group_m.heap p).send.buffer
          n
          (listen_loop (suc (length (n.t_group_m.heap p).send.buffer)) p n)
  listen_loop-IsServed p u q n l = listen_loop-from _ p u q n l refl
