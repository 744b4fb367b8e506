-- ===== src/Ws/Safety/Hooks.antt =====
-- service/ws/handler_ws.go and client.go: the events of a node with an application, whose handler of
-- requests `OnMessage` calls, and whose `OnClientClose` the end of a connection calls.
use gim.Base.{
  ℕ, ◌≡◌, refl, String, false, inl, inr, Bool, true, none, some, subst, sym, ap, Option-cases,
  string_eq,
}
use gim.Base.Dict.{lookup}
use gim.Types.Message.{Bytes}
use gim.Ws.Config.{WsConfig}
use gim.Ws.External.{External}
use gim.Ws.Node.{Node, RpcClients}
use gim.Ws.Client.{CloseHook, on_close}
use gim.Ws.Client.Lifecycle.{IsGone, on_close_hook}
use gim.Ws.ClientManager.{get_client}
use gim.Ws.Proxy.{RunProxy}
use gim.Ws.Handler.{RequestHook, get_uid, handler_on_close, on_message}
use gim.Ws.Handler.Login.{StopKeeps}
use gim.Ws.Safety.Invariant.{NodeInv, new_node, new_node-NodeInv}
use gim.Ws.Safety.Leaving.{on_close-NodeInv}
use gim.Ws.Safety.Requests.{KeepsTo, on_message-NodeInv}
use gim.Ws.Safety.Steps.{Step, Reaches, here, then_one, Reaches-NodeInv}

module _ {E : External} where
  -- The hook sees the node `m`; without one, the close is done.
  abbrev pub called : CloseHook E → ℕ → Node E → Bool × Node E
  called none p m = (true, m)
  called (some f) p m = f p m

module _ {E : External} (proxy : RunProxy E) where
  -- What the application does at the end of a connection is nothing but events of the node.
  abbrev pub CloseKeepsTo : CloseHook E → Type 0
  CloseKeepsTo none = Unit
  CloseKeepsTo (some f) = (p : ℕ) (n : Node E) → Reaches proxy n (f p n).1

  -- One event of a node with an application.
  pub data AppStep (hook : RequestHook E) (on_end : CloseHook E) (n : Node E)
      : Node E → Type 0 where
    event : {n' : Node E} → Step proxy n n' → AppStep hook on_end n n'
    asks : (socket : ℕ) (message : Bytes) → AppStep hook on_end n (on_message hook socket message n)
    ends : (socket : ℕ) → AppStep hook on_end n (handler_on_close on_end socket n).1

  pub data Serves (hook : RequestHook E) (on_end : CloseHook E) (n : Node E) : Node E → Type 0 where
    idle : Serves hook on_end n n
    after :
        {m k : Node E} → Serves hook on_end n m → AppStep hook on_end m k → Serves hook on_end n k

  ended :
      (on_end : CloseHook E) (socket p : ℕ) (n : Node E)
      → NodeInv n
      → lookup (get_uid socket n) n.client_m.clients ≡ some p
      → handler_on_close on_end socket n ≡ called on_end p (on_close none p n).1
  unfolding handler_on_close get_client
  ended none socket p n v e =
      let old = v.entries (get_uid socket n) p e in
      rw (e, handler_on_close)
        (ap (λ b. (b, (on_close none p n).1)) (on_close_hook (λ q m. (true, m)) p n old.2 old.3).0)
  ended (some f) socket p n v e =
      let old = v.entries (get_uid socket n) p e in
      rw (e, handler_on_close) (on_close_hook f p n old.2 old.3).1

  not_ended :
      (on_end : CloseHook E) (socket : ℕ) (n : Node E)
      → lookup (get_uid socket n) n.client_m.clients ≡ none
      → handler_on_close on_end socket n ≡ (false, n)
  unfolding handler_on_close get_client
  not_ended on_end socket n e = rw (e, handler_on_close) refl

  module _ (keeps : StopKeeps proxy) where
    called-NodeInv :
        (on_end : CloseHook E) (p : ℕ) (m : Node E)
        → CloseKeepsTo on_end
        → NodeInv m
        → NodeInv (called on_end p m).1
    called-NodeInv none p m k v = v
    called-NodeInv (some f) p m k v = Reaches-NodeInv proxy keeps m _ (k p m) v

    ended-NodeInv :
        (on_end : CloseHook E) (socket : ℕ) (n : Node E)
        → CloseKeepsTo on_end
        → NodeInv n
        → NodeInv (handler_on_close on_end socket n).1
    ended-NodeInv on_end socket n k v =
        elim (Option-cases (lookup (get_uid socket n) n.client_m.clients)) [
          | inl e ↦ subst (λ r. NodeInv r.1) (sym (not_ended on_end socket n e)) v
          | inr (p, e) ↦
              subst (λ r. NodeInv r.1) (sym (ended on_end socket p n v e))
                (called-NodeInv on_end p _ k (on_close-NodeInv (get_uid socket n) p n v e).1)
        ]

    module _ (hook : RequestHook E) (on_end : CloseHook E) (asked : KeepsTo proxy hook)
        (told : CloseKeepsTo on_end) where
      AppStep-NodeInv : (n n' : Node E) → AppStep hook on_end n n' → NodeInv n → NodeInv n'
      AppStep-NodeInv n n' (event s) v = Reaches-NodeInv proxy keeps n n' (then_one here s) v
      AppStep-NodeInv n _ (asks socket message) v =
          on_message-NodeInv proxy keeps hook socket message n asked v
      AppStep-NodeInv n _ (ends socket) v = ended-NodeInv on_end socket n told v

      Serves-NodeInv : (n n' : Node E) → Serves hook on_end n n' → NodeInv n → NodeInv n'
      Serves-NodeInv n _ idle v = v
      Serves-NodeInv n n' (after {m = m} r s) v = AppStep-NodeInv m n' s (Serves-NodeInv n m r v)

      -- With a proxy whose StopUserClient leaves the registers alone, and an application whose
      -- handler of requests and whose close hook, where it has them, do nothing but events of the
      -- node: after any events, messages and ends of connections of a node that started empty, when
      -- the connection of a registered user ends, the invariant of the node holds, and the end of
      -- the connection first takes the user off the node, touching nobody else, see `IsGone`, and
      -- keeping the invariant, and only then calls the hook.
      pub Serves-IsGone :
          (config : WsConfig) (server_ip : String) (rpc_clients : RpcClients) (ext : E.State)
          (n : Node E) (socket p : ℕ)
          → Serves hook on_end (new_node config server_ip rpc_clients ext) n
          → lookup (get_uid socket n) n.client_m.clients ≡ some p
          → NodeInv n
            × ((m : Node E) × IsGone p n m
                × NodeInv m
                × (handler_on_close on_end socket n ≡ called on_end p m))
      Serves-IsGone config server_ip rpc_clients ext n socket p r e =
          let start : Node E = new_node config server_ip rpc_clients ext in
          let v = Serves-NodeInv start n r (new_node-NodeInv config server_ip rpc_clients ext) in
          let (gone, w) = on_close-NodeInv (get_uid socket n) p n v e in
          (v, ((on_close none p n).1, gone, w, ended on_end socket p n v e))
