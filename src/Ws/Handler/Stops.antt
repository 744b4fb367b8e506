-- ===== src/Ws/Handler/Stops.antt =====
-- service/ws: what `StopUserClient` of the proxies, and a second login, do to the registers.
use gim.Base.{
  Bool, false, Bool-cases, inl, inr, ◌==◌, ℕ, ◌≡◌, ◌≢◌, refl, String, Option, none, some, string_eq,
}
use gim.Base.Dict.{lookup}
use gim.ImErr.{Err, Result, ok, err}
use gim.Types.Server.{Server, new_server, server_string}
use gim.Ws.External.{External}
use gim.Ws.Node.{RpcClient, Node, offline, client_at}
use gim.Ws.Client.Lifecycle.{close_offline}
use gim.Ws.ClientManager.{stop_client, close_found}
use gim.Ws.LocalProxy as Local
use gim.Ws.RedisProxy as Redis
use gim.Api.Client as Rpc
use gim.Ws.Proxy.{RunProxy, local_proxy, redis_proxy}
use gim.Ws.Handler.{handler_up, get_uid}
use gim.Ws.Handler.Login.{SameRegisters, close-SameRegisters, StopKeeps, notes, handler_up-closes}

module _ {E : External} where
  pub close_found-SameRegisters :
      (found : Option ℕ) (n : Node E) → SameRegisters n (close_found found n)
  unfolding close_found
  close_found-SameRegisters none n = (refl, refl, refl, refl, refl)
  close_found-SameRegisters (some p) n = close-SameRegisters p n

  local_stop-SameRegisters :
      (uid : String) (n : Node E) → SameRegisters n (Local.stop_local_user_client uid n)
  unfolding Local.stop_local_user_client stop_client
  local_stop-SameRegisters uid n = close_found-SameRegisters _ n

  answered-SameRegisters :
      (r : Result Bool × E.State) (n : Node E) → SameRegisters n (Rpc.done_answer r n).1
  unfolding Rpc.done_answer notes
  answered-SameRegisters (err e, s) n = (refl, refl, refl, refl, refl)
  answered-SameRegisters (ok b, s) n = (refl, refl, refl, refl, refl)

  abbrev pub called : Result RpcClient → String → Node E → (Bool × Option Err) × Node E
  called c uid n = elim c [
    | err e ↦ ((false, some e), n)
    | ok cli ↦ Rpc.done_answer (E.rpc_stop_user_client cli.cli uid n.ext) n
  ]

  called-SameRegisters :
      (c : Result RpcClient) (uid : String) (n : Node E) → SameRegisters n (called c uid n).1
  called-SameRegisters (err e) uid n = (refl, refl, refl, refl, refl)
  called-SameRegisters (ok c) uid n =
      answered-SameRegisters (E.rpc_stop_user_client c.cli uid n.ext) n

  rpc_stop-SameRegisters :
      (server : Server) (uid : String) (n : Node E)
      → SameRegisters n (Rpc.stop_user_client server uid n).1
  unfolding Rpc.stop_user_client Rpc.with_client
  rpc_stop-SameRegisters server uid n =
      called-SameRegisters (Rpc.get_client_by_addr (server_string (some server)) n) uid n

  pub local_proxy-StopKeeps : StopKeeps (local_proxy E)
  unfolding Local.stop_user_client
  local_proxy-StopKeeps u n = local_stop-SameRegisters u.user_id n

  -- Of the proxy of a cluster: to this node or to another one, no register, group or note of the caller changes.
  pub redis_proxy-StopKeeps : StopKeeps (redis_proxy E)
  unfolding Redis.stop_user_client
  redis_proxy-StopKeeps u n = elim (Bool-cases (Redis.user_is_local u n)) [
    | inl e ↦ rw (e, Redis.stop_user_client) (local_stop-SameRegisters u.user_id n)
    | inr e ↦ elim (Bool-cases (u.rpc_port == "")) [
      | inl f ↦ rw (e, f, Redis.stop_user_client) (refl, refl, refl, refl, refl)
      | inr f ↦
          rw (e, f, Redis.stop_user_client)
            (rpc_stop-SameRegisters (new_server u.acc_ip u.rpc_port) u.user_id n)
    ]
  ]

  -- A login under an id that is not empty and has a client on this node closes that client and
  -- changes no register, group or note.
  handler_up-taken :
      (proxy : RunProxy E) (socket : ℕ) (get_msg_code : String) (n : Node E) (p : ℕ)
      → get_uid socket n ≢ ""
      → lookup (get_uid socket n) n.client_m.clients ≡ some p
      → SameRegisters n (handler_up proxy socket get_msg_code n)
        × ((client_at p (handler_up proxy socket get_msg_code n)).state ≡ offline)
  unfolding notes
  handler_up-taken proxy socket get_msg_code n p named h =
      rw (handler_up-closes proxy socket get_msg_code n p named h)
        (close-SameRegisters p n, close_offline p n)
