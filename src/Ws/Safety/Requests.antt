-- ===== src/Ws/Safety/Requests.antt =====
-- service/ws/handler_ws.go: `OnMessage` among the events of a node.
use gim.Base.{ℕ, ℤ, inl, inr, String, Option, none, some, Option-cases, nat_eq}
use gim.ImErr.{Err, Result, ok, err}
use gim.Types.Message.{Bytes}
use gim.Types.Response.{Request, ResponseData, new_response}
use gim.Ws.External.{External}
use gim.Ws.Node.{Node}
use gim.Ws.Client.{send_err, send_response_data, send_response_msg, send_marshalled}
use gim.Ws.ClientManager.{get_client_by_conn}
use gim.Ws.Proxy.{RunProxy}
use gim.Ws.Handler.{
  Handled, answer, refuse, panics, RequestHook, on_message, handle_message, handle_request, respond,
}
use gim.Ws.Handler.Login.{StopKeeps}
use gim.Ws.Safety.Invariant.{NodeInv}
use gim.Ws.Safety.Steps.{Reaches, here, then_one, sends, drops, Reaches-NodeInv}

module _ {E : External} (proxy : RunProxy E) where
  -- The node that the application leaves.
  abbrev left_by : Handled E → Node E
  left_by (answer a n) = n
  left_by (refuse e n) = n
  left_by (panics n) = n

  -- The application's handler does nothing but events of the node.
  abbrev pub KeepsTo : RequestHook E → Type 0
  KeepsTo none = Unit
  KeepsTo (some hook) =
      (p : ℕ) (request : Request) (n : Node E) → Reaches proxy n (left_by (hook p request n))

  marshalled-Reaches :
      (r : Result Bytes) (k p : ℕ) (n m : Node E)
      → Reaches proxy n m
      → Reaches proxy n (send_marshalled r k p m).1
  unfolding send_marshalled
  marshalled-Reaches (err e) k p n m r = r
  marshalled-Reaches (ok bytes) k p n m r = then_one r (sends bytes k p)

  data-Reaches :
      (d : ResponseData) (seq cmd : String) (t : ℤ) (p : ℕ) (n m : Node E)
      → Reaches proxy n m
      → Reaches proxy n (send_response_data d seq cmd t p m).1
  unfolding send_response_data send_response_msg
  data-Reaches d seq cmd t p n m r =
      marshalled-Reaches (E.marshal_response (new_response seq cmd t (some d))) 1 p n m r

  err-Reaches :
      (text : String) (t : ℤ) (seq cmd : String) (p : ℕ) (n m : Node E)
      → Reaches proxy n m
      → Reaches proxy n (send_err text t seq cmd p m).1
  unfolding send_err
  err-Reaches text t seq cmd p n m r = data-Reaches _ seq cmd _ p n m r

  respond-Reaches :
      (p : ℕ) (request : Request) (h : Handled E) (n : Node E)
      → Reaches proxy n (left_by h)
      → Reaches proxy n (respond p request h)
  unfolding respond
  respond-Reaches p request (panics m) n r = r
  respond-Reaches p request (refuse e m) n r = err-Reaches _ _ request.seq request.cmd p n m r
  respond-Reaches p request (answer a m) n r = data-Reaches _ request.seq request.cmd _ p n m r

  request-Reaches :
      (hook : ℕ → Request → Node E → Handled E) (p : ℕ) (x : Request × Option Err) (n : Node E)
      → KeepsTo (some hook)
      → Reaches proxy n (handle_request hook p x n)
  unfolding handle_request
  request-Reaches hook p (request, some e) n k = err-Reaches _ _ request.seq request.cmd p n n here
  request-Reaches hook p (request, none) n k =
      respond-Reaches p request (hook p request n) n (k p request n)

  message-Reaches :
      (hook : RequestHook E) (message : Bytes) (p : ℕ) (n : Node E)
      → KeepsTo hook
      → Reaches proxy n (handle_message hook message p n)
  unfolding handle_message
  message-Reaches none message p n k = err-Reaches _ _ "" "" p n n here
  message-Reaches (some hook) message p n k =
      request-Reaches hook p (E.unmarshal_request message) n k

  -- With an application that keeps to the events of the node, so does `OnMessage`.
  pub on_message-Reaches :
      (hook : RequestHook E) (socket : ℕ) (message : Bytes) (n : Node E)
      → KeepsTo hook
      → Reaches proxy n (on_message hook socket message n)
  unfolding on_message
  on_message-Reaches hook socket message n k = elim (Option-cases (get_client_by_conn socket n)) [
    | inl e ↦ rw (e, on_message) (then_one here (drops socket))
    | inr (p, e) ↦ rw (e, on_message) (message-Reaches hook message p n k)
  ]

  -- With a proxy whose StopUserClient leaves the registers alone, and an application handler
  -- that does nothing but events of the node, or none, OnMessage keeps the invariant of the
  -- node on every branch.
  pub on_message-NodeInv :
      (keeps : StopKeeps proxy) (hook : RequestHook E) (socket : ℕ) (message : Bytes) (n : Node E)
      → KeepsTo hook
      → NodeInv n
      → NodeInv (on_message hook socket message n)
  on_message-NodeInv keeps hook socket message n k v =
      Reaches-NodeInv proxy keeps n _ (on_message-Reaches hook socket message n k) v
