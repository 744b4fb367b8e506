-- ===== src/Start/Stopping.antt =====
-- server.go: what a stop leaves, and a second one.
use gim.Base.{◌≡◌, refl, ap, Bool, true, false, some, string_eq, arith}
use gim.Etcd.Register.{Etcd, ServiceRegister, closed, close}
use gim.Etcd.Register.Close.{close_status}
use gim.Ws.Config.{RunMode, local, redis, other_mode}
use gim.Ws.External.{External}
use gim.Ws.SubQueue.{WorkerPool, ProxyMsgQueue}
use gim.Ws.SubQueue.Contents.{IsPool, IsSized, stopped}
use gim.Ws.SubQueue.ShutSteps.{stop_closed}
use gim.Start.{
  closed_twice, Service, returns, panics, stop_proxy_wm, on_shutdown, shutdown_of_mode,
  close_server,
}

module _ {E : External} {C : Etcd} where
  -- A node that is stopped: the context is cancelled, the channel of the subscription is closed, and in
  -- mode redis the register is closed and rpc is not served.
  pub record IsStopped (s : Service E C) : Type 0 where
    pub queue : ProxyMsgQueue
    pub had : s.queue ≡ some queue
    pub shut : queue.msg_chan.closed ≡ true
    pub over : s.cancelled ≡ some true
    pub left_cluster :
        s.run_mode ≡ redis
        → (s.serving ≡ false) × (r : ServiceRegister) × (s.register ≡ some r) × (r.status ≡ closed)

  -- A node whose start came to an end: there is a context and a subscription, and in mode redis a register.
  pub record IsRunning (s : Service E C) : Type 0 where
    pub was : Bool
    pub context : s.cancelled ≡ some was
    pub queue : ProxyMsgQueue
    pub had : s.queue ≡ some queue
    pub sized : IsSized queue
    pub taking : queue.msg_chan.closed ≡ false
    pub entered : s.run_mode ≡ redis → (r : ServiceRegister) × (s.register ≡ some r)

module _ {E : External} {C : Etcd} {pool : WorkerPool} (is : IsPool pool) where
  -- With the subscription stopped already, a stop panics.
  close_server-IsStopped :
      (s : Service E C) → IsStopped s → close_server pool s ≡ panics closed_twice s
  unfolding close_server stop_proxy_wm
  close_server-IsStopped s h = ground (arith, h.over, h.had, stop_closed is h.queue h.shut)

  shutdown-IsStopped :
      (mode : RunMode) (s : Service E C) (q : ProxyMsgQueue)
      → s.run_mode ≡ mode
      → s.queue ≡ some q
      → q.msg_chan.closed ≡ true
      → s.cancelled ≡ some true
      → (mode ≡ redis → (r : ServiceRegister) × (s.register ≡ some r))
      → (s' : Service E C) × (shutdown_of_mode mode s ≡ returns s') × IsStopped s'
  unfolding shutdown_of_mode on_shutdown
  shutdown-IsStopped local s q mode had shut over held =
      (s, refl, record { queue = q; had = had; shut = shut; over = over; left_cluster = λ e. cc })
  shutdown-IsStopped (other_mode k) s q mode had shut over held =
      (s, refl, record { queue = q; had = had; shut = shut; over = over; left_cluster = λ e. cc })
  shutdown-IsStopped redis s q mode had shut over held =
      let (r, e) = held refl in
      let x = close C r s.etcd in
      (
        record s { register = some x.1; etcd = x.2; serving = false },
        ap (λ o. on_shutdown o s) e,
        record {
          queue = q;
          had = had;
          shut = shut;
          over = over;
          left_cluster = λ m. (refl, x.1, refl, close_status C r s.etcd);
        },
      )

  -- With a worker pool that does what IsPool says, CloseServer of a running node returns with
  -- the context cancelled and the channel of the subscription closed, and in mode redis with the
  -- register closed and rpc not served; a second CloseServer panics.
  pub close_server-IsRunning :
      (s : Service E C)
      → IsRunning s
      → (s' : Service E C) × (close_server pool s ≡ returns s')
        × IsStopped s'
        × (close_server pool s' ≡ panics closed_twice s')
  unfolding close_server stop_proxy_wm
  close_server-IsRunning s h =
      let (q', done, sized, kept, shut, idle_still, reads_on) =
        stopped is h.queue h.sized h.taking in
      let m : Service E C = record s { cancelled = some true; queue = some q' } in
      let (s', ends, stop) = shutdown-IsStopped m.run_mode m q' refl refl shut refl h.entered in
      (s', ground (arith, h.context, h.had, done, ends), stop, close_server-IsStopped s' stop)
