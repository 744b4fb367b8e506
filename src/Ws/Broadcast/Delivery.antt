-- ===== src/Ws/Broadcast/Delivery.antt =====
-- service/ws/tgroup.go: who gets a group message, and how often.
use gim.Base.{
  ℕ, ◌<◌, ◌≡◌, ◌≢◌, refl, ◌∙◌, ap, inl, inr, String, false, not, ◌&&◌, Option, none, some, List, [],
  ◌∷◌, arith, ◌==◌, nat_eq, string_eq, if◌then◌else◌, length, Eq-cases,
}
use gim.Base.Dict.{lookup, has, keys, contains, contains-keys, NodupList, NodupKeys, keys-NodupList}
use text.Mathlib.TextEquality.{eq_iff}
use gim.Types.Message.{Bytes, GroupMsg}
use gim.Ws.External.{External}
use gim.Ws.Node.{Node, Client, online, client_at}
use gim.Ws.TGroup.{normal, deleted}
use gim.ImErr.{Err}
use gim.Ws.Client.Users.{SameUsers, safe_send_msg-SameUsers, Registered, SameUsers-Registered}
use gim.Ws.Client.Sending.{
  with_queued, safe_send_msg-others, safe_send_msg-AsyncSend, AsyncSend, refused, queued,
  overflowed, lost,
}
use gim.Ws.Broadcast.{send_found, send_one, send_each, send_in, send_to_users}

-- A client that can take one more message.
abbrev pub HasRoom : Client → Type 0
HasRoom c =
    (c.state ≡ online)
    × (c.send_chan.closed ≡ false)
    × (length c.send_chan.buffer < c.send_chan.cap)

module _ {E : External} where
  send_found-SameUsers :
      (msg : Bytes) (o : Option ℕ) (n : Node E) → SameUsers n (send_found msg o n)
  unfolding send_found
  send_found-SameUsers msg none n = (refl, λ q. refl)
  send_found-SameUsers msg (some p) n = safe_send_msg-SameUsers msg p n

  send_one-SameUsers : (m : GroupMsg) (uid : String) (n : Node E) → SameUsers n (send_one m uid n)
  unfolding send_one
  send_one-SameUsers m uid n =
      let same = send_found-SameUsers m.msg (lookup uid n.client_m.clients) n in
      (ground (arith, same.0), λ q. ground (arith, same.1 q))

  queued_of :
      (msg : Bytes) (p : ℕ) (n : Node E) {r : Option Err × Node E}
      → AsyncSend msg p n r
      → HasRoom (client_at p n)
      → client_at p r.1 ≡ with_queued (client_at p n) msg
  queued_of msg p n (refused a e) h = ground arith
  queued_of msg p n (queued a b c e) h = rw e (ground arith)
  queued_of msg p n (overflowed a b c e) h = absurd (omega arith)
  queued_of msg p n (lost a b e) h = ground arith

  sent_to_other :
      (msg : Bytes) (uid u : String) (q : ℕ) (o : Option ℕ) (n : Node E)
      → Registered n
      → lookup u n.client_m.clients ≡ some q
      → lookup uid n.client_m.clients ≡ o
      → uid ≢ u
      → client_at q (send_found msg o n) ≡ client_at q n
  unfolding send_found
  sent_to_other msg uid u q none n reg e f differ = refl
  sent_to_other msg uid u q (some p) n reg e f differ =
      safe_send_msg-others msg 2 p q n (λ same. ground (arith, reg u q e, reg uid p f))

  -- What one step of the loop does to the client of `u`.
  send_one_at :
      (m : GroupMsg) (uid u : String) (q : ℕ) (n : Node E)
      → Registered n
      → lookup u n.client_m.clients ≡ some q
      → HasRoom (client_at q n)
      → client_at q (send_one m uid n) ≡ (
          if uid == u && not (u == m.except_uid)
          then with_queued (client_at q n) m.msg
          else client_at q n)
  unfolding send_one send_found
  send_one_at m uid u q n reg e room = ground (
    arith,
    eq_iff uid u,
    eq_iff uid m.except_uid,
    eq_iff u m.except_uid,
    sent_to_other m.msg uid u q (lookup uid n.client_m.clients) n reg e refl,
    queued_of m.msg q n (safe_send_msg-AsyncSend m.msg q n) room,
  )

  send_one_other :
      (m : GroupMsg) (uid u : String) (q : ℕ) (n : Node E)
      → Registered n
      → lookup u n.client_m.clients ≡ some q
      → uid ≢ u
      → client_at q (send_one m uid n) ≡ client_at q n
  unfolding send_one
  send_one_other m uid u q n reg e differ =
      ground
        (arith, sent_to_other m.msg uid u q (lookup uid n.client_m.clients) n reg e refl differ)

  send_one-Registered :
      (m : GroupMsg) (uid : String) (n : Node E) → Registered n → Registered (send_one m uid n)
  send_one-Registered m uid n =
      SameUsers-Registered n (send_one m uid n) (send_one-SameUsers m uid n)

  e_after :
      (m : GroupMsg) (uid u : String) (q : ℕ) (n : Node E)
      → lookup u n.client_m.clients ≡ some q
      → lookup u (send_one m uid n).client_m.clients ≡ some q
  e_after m uid u q n e = ap (lookup u) (send_one-SameUsers m uid n).0 ∙ e

  -- The rest of the loop, for a user that does not come any more.
  send_each_done :
      (m : GroupMsg) (uids : List String) (u : String) (q : ℕ) (n : Node E)
      → Registered n
      → lookup u n.client_m.clients ≡ some q
      → contains u uids ≡ false
      → client_at q (send_each m uids n) ≡ client_at q n
  unfolding send_each contains
  send_each_done m [] u q n reg e absent = refl
  send_each_done m (uid ∷ rest) u q n reg e absent = ground (
    arith,
    eq_iff uid u,
    send_one_other m uid u q n reg e,
    send_each_done m rest u q (send_one m uid n) (send_one-Registered m uid n reg)
        (e_after m uid u q n e),
  )

  send_each_at :
      (m : GroupMsg) (uids : List String) (u : String) (q : ℕ) (n : Node E)
      → NodupList uids
      → Registered n
      → lookup u n.client_m.clients ≡ some q
      → HasRoom (client_at q n)
      → client_at q (send_each m uids n) ≡ (
          if contains u uids && not (u == m.except_uid)
          then with_queued (client_at q n) m.msg
          else client_at q n)
  unfolding send_each contains
  send_each_at m [] u q n nd reg e room = refl
  send_each_at m (uid ∷ rest) u q n nd reg e room =
      let n' : Node E = send_one m uid n in
      let reg' = send_one-Registered m uid n reg in
      let e' = e_after m uid u q n e in
      elim (Eq-cases uid u) [
        | inl (t, same) ↦ ground (
          arith,
          send_each_done m rest u q n' reg' e',
          send_one_at m uid u q n reg e room,
          eq_iff uid u,
        )
        | inr (f, differ) ↦
            let kept = send_one_other m uid u q n reg e differ in
            ground (arith, kept, send_each_at m rest u q n' nd.1 reg' e')
      ]

  -- A group message reaches the queue of a registered client with room exactly once if its user
  -- is in the group and is not the excepted one, and otherwise its queue stays as it is.
  pub send_to_users-exactly_once :
      (p : ℕ) (m : GroupMsg) (u : String) (q : ℕ) (n : Node E)
      → (n.t_group_m.heap p).state ≡ normal
      → NodupKeys (n.t_group_m.heap p).users
      → Registered n
      → lookup u n.client_m.clients ≡ some q
      → HasRoom (client_at q n)
      → client_at q (send_to_users p m n) ≡ (
          if has u (n.t_group_m.heap p).users && not (u == m.except_uid)
          then with_queued (client_at q n) m.msg
          else client_at q n)
  unfolding send_to_users send_in
  send_to_users-exactly_once p m u q n alive nd reg e room =
      let users = (n.t_group_m.heap p).users in
      ground (
        arith,
        contains-keys u users,
        send_each_at m (keys users) u q n (keys-NodupList users nd) reg e room,
      )

  -- A deleted group sends nothing: what was still queued for it is dropped.
  pub send_to_users_deleted :
      (p : ℕ) (m : GroupMsg) (n : Node E)
      → (n.t_group_m.heap p).state ≡ deleted
      → send_to_users p m n ≡ n
  unfolding send_to_users send_in
  send_to_users_deleted p m n e = rw (e, send_in)
