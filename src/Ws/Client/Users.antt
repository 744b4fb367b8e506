-- ===== src/Ws/Client/Users.antt =====
-- service/ws/client.go: sends and closes, the register of users and the user ids.
use gim.Base.{ℕ, ◌≡◌, refl, String, Option, some, arith, nat_eq, string_eq}
use gim.Base.Dict.{lookup}
use gim.ImErr.{Err}
use gim.Types.Message.{Bytes}
use gim.Ws.External.{External}
use gim.Ws.Node.{Node, ClientState, online, offline, client_at}
use gim.Ws.Client.{close, close_in, safe_send_msg}
use gim.Ws.Client.Sending.{AsyncSend, refused, queued, overflowed, lost, safe_send_msg-AsyncSend}

module _ {E : External} where
  abbrev pub SameUsers : Node E → Node E → Type 0
  SameUsers n n' =
      (n'.client_m.clients ≡ n.client_m.clients)
      × ((q : ℕ) → (client_at q n').user_id ≡ (client_at q n).user_id)

  close_in-SameUsers : (s : ClientState) (p : ℕ) (n : Node E) → SameUsers n (close_in s p n)
  unfolding close_in
  close_in-SameUsers offline p n = (refl, λ q. refl)
  close_in-SameUsers online p n = (refl, λ q. ground arith)

  sent-SameUsers :
      (msg : Bytes) (p : ℕ) (n : Node E) {r : Option Err × Node E}
      → AsyncSend msg p n r
      → SameUsers n r.1
  unfolding close
  sent-SameUsers msg p n (refused a e) = rw e (refl, λ q. refl)
  sent-SameUsers msg p n (queued a b c e) = rw e (refl, λ q. ground arith)
  sent-SameUsers msg p n (overflowed a b c e) = rw e (close_in-SameUsers (client_at p n).state p n)
  sent-SameUsers msg p n (lost a b e) = rw e (close_in-SameUsers (client_at p n).state p n)

  pub safe_send_msg-SameUsers :
      (msg : Bytes) (p : ℕ) (n : Node E) → SameUsers n (safe_send_msg msg 2 p n).1
  safe_send_msg-SameUsers msg p n = sent-SameUsers msg p n (safe_send_msg-AsyncSend msg p n)

  -- The register leads to clients of the user that is asked for.
  abbrev pub Registered : Node E → Type 0
  Registered n =
      (uid : String) (p : ℕ)
      → lookup uid n.client_m.clients ≡ some p
      → (client_at p n).user_id ≡ uid

  pub SameUsers-Registered : (n n' : Node E) → SameUsers n n' → Registered n → Registered n'
  SameUsers-Registered n n' same reg uid p h = ground (arith, same.0, same.1 p, reg uid p)
