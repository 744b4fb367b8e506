-- ===== src/Ws/Broadcast/Sparing.antt =====
-- service/ws/tgroup.go: a message to the users of a group spares registers, groups and notes.
use gim.Base.{
  ℕ, refl, String, Option, none, some, List, [], ◌∷◌, ◌==◌, nat_eq, string_eq, Bool-cases, inl, inr,
}
use gim.Base.Dict.{keys}
use gim.Types.Message.{Bytes, GroupMsg}
use gim.Ws.External.{External}
use gim.Ws.Node.{Node}
use gim.Ws.TGroup.{GroupState, normal, deleted}
use gim.Ws.Handler.Login.{SameRegisters}
use gim.Ws.Safety.Quiet.{trans-SameRegisters, safe_send_msg-SameRegisters}
use gim.Ws.Broadcast.{send_found, send_one, send_each, send_in, send_to_users}

module _ {E : External} where
  send_found-SameRegisters :
      (msg : Bytes) (o : Option ℕ) (n : Node E) → SameRegisters n (send_found msg o n)
  unfolding send_found
  send_found-SameRegisters msg none n = (refl, refl, refl, refl, refl)
  send_found-SameRegisters msg (some p) n = safe_send_msg-SameRegisters msg p n

  send_one-SameRegisters :
      (m : GroupMsg) (uid : String) (n : Node E) → SameRegisters n (send_one m uid n)
  unfolding send_one
  send_one-SameRegisters m uid n = elim (Bool-cases (uid == m.except_uid)) [
    | inl e ↦ rw (e, send_one) (refl, refl, refl, refl, refl)
    | inr e ↦ rw (e, send_one) (send_found-SameRegisters m.msg _ n)
  ]

  send_each-SameRegisters :
      (m : GroupMsg) (uids : List String) (n : Node E) → SameRegisters n (send_each m uids n)
  unfolding send_each
  send_each-SameRegisters m [] n = (refl, refl, refl, refl, refl)
  send_each-SameRegisters m (uid ∷ rest) n =
      trans-SameRegisters n (send_one m uid n) _ (send_one-SameRegisters m uid n)
        (send_each-SameRegisters m rest (send_one m uid n))

  send_in-SameRegisters :
      (s : GroupState) (m : GroupMsg) (uids : List String) (n : Node E)
      → SameRegisters n (send_in s m uids n)
  unfolding send_in
  send_in-SameRegisters deleted m uids n = (refl, refl, refl, refl, refl)
  send_in-SameRegisters normal m uids n = send_each-SameRegisters m uids n

  pub send_to_users-SameRegisters :
      (p : ℕ) (m : GroupMsg) (n : Node E) → SameRegisters n (send_to_users p m n)
  unfolding send_to_users
  send_to_users-SameRegisters p m n =
      send_in-SameRegisters (n.t_group_m.heap p).state m (keys (n.t_group_m.heap p).users) n
