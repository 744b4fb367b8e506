-- ===== src/Ws/Client/Lifetime.antt =====
-- service/ws/client.go and cache.go: how long a heartbeat keeps the connection of a client, and the
-- online record of its user.
use gim.Base.{
  Option-cases, ℕ, ◌+◌, ◌<◌, ◌≤◌, ◌≡◌, ◌≢◌, ap, ◌∙◌, String, Option, some, arith, nat_eq, string_eq,
}
use gim.Ws.Cache.{get_user_online_key, reset_user_online_exp_time}
use gim.Ws.Client.{heartbeat, set_conn_dead_line}
use gim.Ws.Config.{WsConfig, positive, conn_keep_time, get_user_online_exp_time}
use gim.Ws.Config.ExpTime.{exp_time_positive}
use gim.Ws.External.{External}
use gim.Ws.Node.{Node, client_at, with_ext}

-- The clocks of redis and of a connection: EXPIRE of a key that is there, with a
-- positive time, counts from its call, a
-- read deadline from its own, and neither touches what the other has set.
pub record IsTimed (E : External) : Type 0 where
  pub now : E.State → ℕ
  pub expires : E.State → String → Option ℕ
  pub limit : E.State → ℕ → Option ℕ
  pub expire_sets :
      (k : String) (t x : ℕ) (s : E.State)
      → expires s k ≡ some x
      → 0 < t
      → expires (E.redis_expire k t s).1 k ≡ some (now s + t)
  pub deadline_sets :
      (socket t : ℕ) (s : E.State)
      → limit (E.set_read_deadline socket t s) socket ≡ some (now s + t)
  pub deadline_expires :
      (socket t : ℕ) (s : E.State) (k : String)
      → expires (E.set_read_deadline socket t s) k ≡ expires s k

module _ {E : External} (timed : IsTimed E) where
  -- The record of the user goes no earlier than the connection.
  pub record IsOutlived (key : String) (socket : ℕ) (s : E.State) : Type 0 where
    pub gone_at : ℕ
    pub dropped_at : ℕ
    pub goes : timed.expires s key ≡ some gone_at
    pub drops : timed.limit s socket ≡ some dropped_at
    pub outlived : dropped_at ≤ gone_at

  -- Redis after the EXPIRE of the heartbeat.
  abbrev pub renewed : ℕ → Node E → E.State
  renewed p n =
      (E.redis_expire (get_user_online_key (client_at p n).user_id n)
        (get_user_online_exp_time n.config) n.ext).1

  longer :
      (c : WsConfig) → conn_keep_time c ≢ 0 → get_user_online_exp_time c ≡ conn_keep_time c + 10
  unfolding get_user_online_exp_time
  longer c h = ground (arith, Option-cases (positive c.keep_time))

  -- With a positive time the deadline is set.
  limited :
      (p : ℕ) (n : Node E)
      → conn_keep_time n.config ≢ 0
      → (set_conn_dead_line p n).ext
        ≡ E.set_read_deadline (client_at p n).socket (conn_keep_time n.config) n.ext
  unfolding set_conn_dead_line
  limited p n kept = ground (arith, kept)

  -- With clocks as IsTimed says and a positive KeepTime: a Heartbeat of a client whose user has a
  -- record in redis, with at most 10 seconds between the EXPIRE and the new read deadline, leaves
  -- a record that goes no earlier than the connection is dropped.
  pub heartbeat-IsOutlived :
      (p x : ℕ) (n : Node E)
      → conn_keep_time n.config ≢ 0
      → timed.expires n.ext (get_user_online_key (client_at p n).user_id n) ≡ some x
      → timed.now (renewed p n) ≤ timed.now n.ext + 10
      → IsOutlived
          (get_user_online_key (client_at p n).user_id n)
          (client_at p n).socket
          (heartbeat p n).ext
  unfolding heartbeat reset_user_online_exp_time
  heartbeat-IsOutlived p x n kept there quick =
      let key = get_user_online_key (client_at p n).user_id n in
      let socket = (client_at p n).socket in
      let keep = conn_keep_time n.config in
      let set = limited p (with_ext (renewed p n) n) kept in
      record {
        gone_at = timed.now n.ext + get_user_online_exp_time n.config;
        dropped_at = timed.now (renewed p n) + keep;
        goes =
            ap (λ s. timed.expires s key) set
            ∙ timed.deadline_expires socket keep (renewed p n) key
            ∙ timed.expire_sets key (get_user_online_exp_time n.config) x n.ext there
                (exp_time_positive n.config);
        drops = ap (λ s. timed.limit s socket) set ∙ timed.deadline_sets socket keep (renewed p n);
        outlived = omega (arith, quick, longer n.config kept);
      }
