-- ===== src/Ws/Handler/Forgets.antt =====
-- service/ws/redis_proxy.go: a stop of a client brings no record back.
use gim.Base.{Bool-cases, ℕ, ◌≡◌, ◌∙◌, String, Bool, Option, none, some, ◌==◌, string_eq, inl, inr}
use gim.ImErr.{Result, ok, err}
use gim.Types.Server.{new_server}
use gim.Ws.External.{External}
use gim.Ws.External.Laws.{IsRedis, IsJson}
use gim.Ws.Node.{Node}
use gim.Ws.ClientManager.{get_client}
use gim.Ws.Proxy.{redis_proxy}
use gim.Ws.Node.{RpcClient}
use gim.Ws.ClientManager.{stop_client, close_found}
use gim.Ws.LocalProxy as Local
use gim.Ws.RedisProxy as Redis
use gim.Api.Client as Rpc
use gim.Ws.Handler.Stops.{called}
use gim.Types.Server.{server_string}
use gim.Ws.Handler.Online.{close_holds, RemoteForgets, StopForgets}

module _ {E : External} (r : IsRedis E) (json : IsJson E) where
  found-forgets :
      (found : Option ℕ) (n : Node E) (j : String)
      → r.holds n.ext j ≡ none
      → r.holds (close_found found n).ext j ≡ none
  unfolding close_found
  found-forgets none n j h = h
  found-forgets (some p) n j h = close_holds r p n j ∙ h

  called-forgets :
      (c : Result RpcClient) (uid : String) (n : Node E) (j : String)
      → RemoteForgets r json (redis_proxy E)
      → r.holds n.ext j ≡ none
      → r.holds (called c uid n).1.ext j ≡ none
  unfolding Rpc.done_answer
  called-forgets (err e) uid n j remote h = h
  called-forgets (ok c) uid n j remote h =
      answered (E.rpc_stop_user_client c.cli uid n.ext) (remote c.cli uid n.ext j h)
    where
      answered :
          (x : Result Bool × E.State)
          → r.holds x.1 j ≡ none
          → r.holds (Rpc.done_answer x n).1.ext j ≡ none
      answered (err e, s) h' = h'
      answered (ok b, s) h' = h'

  -- The proxy of a cluster does not bring a record back when it stops a client here; elsewhere if
  -- the handler does not.
  pub redis_proxy-StopForgets :
      RemoteForgets r json (redis_proxy E) → StopForgets r json (redis_proxy E)
  unfolding Redis.stop_user_client Local.stop_local_user_client stop_client Rpc.stop_user_client
      Rpc.with_client
  redis_proxy-StopForgets remote u n j h = elim (Bool-cases (Redis.user_is_local u n)) [
    | inl e ↦ rw (e, Redis.stop_user_client) (found-forgets (get_client u.user_id n) n j h)
    | inr e ↦ elim (Bool-cases (u.rpc_port == "")) [
      | inl f ↦ rw (e, f, Redis.stop_user_client) h
      | inr f ↦
          rw (e, f, Redis.stop_user_client)
            (called-forgets
              (Rpc.get_client_by_addr (server_string (some (new_server u.acc_ip u.rpc_port))) n)
              u.user_id n j remote h)
    ]
  ]
