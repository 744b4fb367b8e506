-- ===== src/Ws/Handler/Answers.antt =====
-- service/ws/handler_ws.go: what `OnMessage` answers.
use gim.Base.{ℕ, ◌≡◌, refl, inl, inr, Option, none, some, string_eq, nat_eq, Option-cases}
use gim.Base.Dict.{lookup}
use gim.ImErr.{Err, error, new_im_error}
use gim.Types.Message.{Bytes}
use gim.Types.Response.{AData, Request, Response}
use gim.Ws.External.{External}
use gim.Ws.Node.{Node, with_ext}
use gim.Ws.ClientManager.{get_client_by_conn}
use gim.Ws.Client.Replying.{success, failure, delivered, sent_success, sent_failure}
use gim.Ws.Handler.{
  close_conn, Handled, answer, refuse, panics, RequestHook, on_message, handle_message,
  handle_request, respond,
}

module _ {E : External} where
  -- The answer to a message of the client `p`, if there is one, and the node that the application
  -- leaves.
  pub data Answer (hook : RequestHook E) (message : Bytes) (p : ℕ) (n : Node E)
      : Option Response → Node E → Type 0 where
    unhandled : hook ≡ none → Answer hook message p n (some (failure "" "" "NO_HANDLE_MSG")) n
    unread :
        (f : ℕ → Request → Node E → Handled E) (request : Request) (e : Err)
        → hook ≡ some f
        → E.unmarshal_request message ≡ (request, some e)
        → Answer hook message p n (some (failure request.seq request.cmd "JSON_ERROR")) n
    refused :
        (f : ℕ → Request → Node E → Handled E) (request : Request) (e : Err) (m : Node E)
        → hook ≡ some f
        → E.unmarshal_request message ≡ (request, none)
        → f p request n ≡ refuse e m
        → Answer hook message p n (some (failure request.seq request.cmd (error e))) m
    answered :
        (f : ℕ → Request → Node E → Handled E) (request : Request) (a : Option AData) (m : Node E)
        → hook ≡ some f
        → E.unmarshal_request message ≡ (request, none)
        → f p request n ≡ answer a m
        → Answer hook message p n (some (success request.seq request.cmd a)) m
    panicked :
        (f : ℕ → Request → Node E → Handled E) (request : Request) (m : Node E)
        → hook ≡ some f
        → E.unmarshal_request message ≡ (request, none)
        → f p request n ≡ panics m
        → Answer hook message p n none m

  -- How `OnMessage` ends: a connection without a client is closed; otherwise there is one answer
  -- at most, and nothing changes beyond it and what the application did.
  pub data OnMessageDone (hook : RequestHook E) (socket : ℕ) (message : Bytes) (n n' : Node E)
      : Type 0 where
    no_client :
        lookup socket n.client_m.conn_client_idx ≡ none
        → n' ≡ with_ext (E.close_conn socket n.ext) n
        → OnMessageDone hook socket message n n'
    replied :
        (p : ℕ) (r : Option Response) (m : Node E)
        → lookup socket n.client_m.conn_client_idx ≡ some p
        → Answer hook message p n r m
        → n' ≡ delivered p r m
        → OnMessageDone hook socket message n n'

  respond-Done :
      (f : ℕ → Request → Node E → Handled E) (socket : ℕ) (message : Bytes) (p : ℕ)
      (request : Request) (n : Node E) (h : Handled E)
      → lookup socket n.client_m.conn_client_idx ≡ some p
      → E.unmarshal_request message ≡ (request, none)
      → f p request n ≡ h
      → OnMessageDone (some f) socket message n (respond p request h)
  unfolding respond
  respond-Done f socket message p request n (panics m) l u e =
      replied p none m l (panicked f request m refl u e) refl
  respond-Done f socket message p request n (refuse x m) l u e =
      replied p _ m l (refused f request x m refl u e)
        (sent_failure request.seq request.cmd (error x) p m)
  respond-Done f socket message p request n (answer a m) l u e =
      replied p _ m l (answered f request a m refl u e) (sent_success request.seq request.cmd a p m)

  request-Done :
      (f : ℕ → Request → Node E → Handled E) (socket : ℕ) (message : Bytes) (p : ℕ)
      (x : Request × Option Err) (n : Node E)
      → lookup socket n.client_m.conn_client_idx ≡ some p
      → E.unmarshal_request message ≡ x
      → OnMessageDone (some f) socket message n (handle_request f p x n)
  unfolding handle_request new_im_error lookup
  request-Done f socket message p (request, some e) n l u =
      replied p _ n l (unread f request e refl u)
        (sent_failure request.seq request.cmd "JSON_ERROR" p n)
  request-Done f socket message p (request, none) n l u =
      respond-Done f socket message p request n (f p request n) l u refl

  message-Done :
      (hook : RequestHook E) (socket : ℕ) (message : Bytes) (p : ℕ) (n : Node E)
      → lookup socket n.client_m.conn_client_idx ≡ some p
      → OnMessageDone hook socket message n (handle_message hook message p n)
  unfolding handle_message new_im_error lookup
  message-Done none socket message p n l =
      replied p _ n l (unhandled refl) (sent_failure "" "" "NO_HANDLE_MSG" p n)
  message-Done (some f) socket message p n l =
      request-Done f socket message p (E.unmarshal_request message) n l refl

  -- OnMessage, on every branch: a connection without a client is closed, and nothing else happens;
  -- otherwise it writes one response at most, of the type for responses. Without a handler it is
  -- the error NO_HANDLE_MSG, for a message that is not read the error JSON_ERROR, for a request
  -- that the handler refuses the text of its error, and else its data, the last three with the seq
  -- and the cmd of the request; a handler that panics leaves no answer. An offline client gets
  -- nothing, and neither does one whose response has no text. Nothing changes beyond the
  -- response and what the handler did.
  pub on_message-OnMessageDone :
      (hook : RequestHook E) (socket : ℕ) (message : Bytes) (n : Node E)
      → OnMessageDone hook socket message n (on_message hook socket message n)
  unfolding on_message get_client_by_conn close_conn
  on_message-OnMessageDone hook socket message n =
      elim (Option-cases (lookup socket n.client_m.conn_client_idx)) [
        | inl e ↦ no_client e (rw (e, on_message) refl)
        | inr (p, e) ↦ rw (e, on_message) (message-Done hook socket message p n e)
      ]
