-- ===== src/Ws/SubQueue/ShutSteps.antt =====
-- service/ws/proxy_msg_queue.go: what happens to a queue that was stopped, or whose reader ended.
use gim.Base.{
  ◌<◌, ◌≡◌, refl, sym, ap, ◌∙◌, true, inl, inr, none, some, arith, length, leb, if◌then◌else◌,
  Bool-cases,
}
use gim.Base.Chan.{send, close}
use gim.Types.Message.{Bytes}
use gim.Ws.SubQueue.{
  msg_chan_max_len, WorkerPool, idle, running, ProxyMsgQueue, Turn, worker_first, timer_first,
  stop_first, Receipt, cancelled, redis_closed, failure, message, take, returned, pushed,
  stop_worker_m, pub_msg_with_timeout, queue_payload, read_round, read_sub_msg, Event, reads, takes,
  stops, happens,
}
use gim.Ws.SubQueue.Contents.{
  IsPool, IsSized, IsSound, IsShut, Shuts, taken_lem, returned-IsSound, stopped,
}

module _ {pool : WorkerPool} (is : IsPool pool) where
  -- A queue that is shut stays shut, with what is in it.
  pub shut-takes : (q : ProxyMsgQueue) → IsSound q → IsShut q → Shuts q (happens pool takes q)
  unfolding happens
  shut-takes q s h =
      let t = taken_lem q s.0 in
      (
        take q,
        refl,
        (t.0, λ e. t.5 ∙ s.1 (sym t.4 ∙ e)),
        t.1,
        elim h [ inl e ↦ inl (t.4 ∙ e) | inr e ↦ inr (t.3 ∙ e) ],
      )

  pub shut-stops : (q : ProxyMsgQueue) → IsSound q → IsShut q → Shuts q (happens pool stops q)
  unfolding happens stop_worker_m close
  shut-stops q s h = elim (Bool-cases q.msg_chan.closed) [
    | inl e ↦ (q, rw (e, stop_worker_m) refl, s, refl, h)
    | inr e ↦
        let (q', done, sized, kept, shut, same, reads_on) = stopped is q s.0 e in
        (q', rw (done, happens) refl, (sized, λ f. same ∙ s.1 (sym reads_on ∙ f)), kept, inr shut)
  ]

  pub stop_closed : (q : ProxyMsgQueue) → q.msg_chan.closed ≡ true → stop_worker_m pool q ≡ none
  unfolding stop_worker_m close
  stop_closed q e = rw (e, stop_worker_m) refl

  -- At a full queue whose channel is closed.
  pub closed-waits :
      (m : Bytes) (turn : Turn) (q : ProxyMsgQueue)
      → IsSized q
      → q.msg_chan.closed ≡ true
      → Shuts q (pub_msg_with_timeout pool turn m q)
  unfolding pub_msg_with_timeout send stop_worker_m close
  closed-waits m worker_first q s e =
      let t = taken_lem q s in
      (
        returned (take q),
        rw (t.3 ∙ e, pub_msg_with_timeout) refl,
        returned-IsSound (take q) t.0,
        t.1,
        inl refl,
      )
  closed-waits m timer_first q s e = (
    returned q,
    ap (λ b. if b then some (returned q) else some (record q { timer = idle })) e,
    returned-IsSound q s,
    refl,
    inl refl,
  )
  closed-waits m stop_first q s e = (
    returned q,
    rw (stop_closed q e, pub_msg_with_timeout) refl,
    returned-IsSound q s,
    refl,
    inl refl,
  )

  pub closed-message :
      (m : Bytes) (turn : Turn) (q : ProxyMsgQueue)
      → IsSized q
      → q.msg_chan.closed ≡ true
      → Shuts q (queue_payload pool m turn q)
  unfolding queue_payload pushed send
  closed-message m turn q s e =
      elim (Bool-cases (leb msg_chan_max_len (length q.msg_chan.buffer))) [
        | inl full' ↦
            let (q', done, sound, kept, shut) =
              closed-waits m turn (record q { timer = running })
                (record { size = s.size; bound = s.bound }) e in
            (q', rw (full', queue_payload) done, sound, kept, shut)
        | inr room ↦
            let below : length q.msg_chan.buffer < q.msg_chan.cap = ground (arith, room, s.size) in
            (
              returned q,
              rw (room, is.pushes q.msg_chan m below, queue_payload) (ground (arith, e)),
              returned-IsSound q s,
              refl,
              inl refl,
            )
      ]

  pub closed-reads :
      (r : Receipt) (q : ProxyMsgQueue)
      → IsSound q
      → q.msg_chan.closed ≡ true
      → Shuts q (read_round pool r q)
  unfolding read_round
  closed-reads cancelled q s e = (returned q, refl, returned-IsSound q s.0, refl, inl refl)
  closed-reads redis_closed q s e = (returned q, refl, returned-IsSound q s.0, refl, inl refl)
  closed-reads failure q s e =
      (_, refl, (record { size = s.0.size; bound = s.0.bound }, s.1), refl, inr e)
  closed-reads (message m turn) q s e =
      closed-message m turn (record q { err_count = 0 })
        (record { size = s.0.size; bound = s.0.bound }) e

  pub is_closed : (q : ProxyMsgQueue) → IsShut q → q.reading ≡ true → q.msg_chan.closed ≡ true
  is_closed q h e = ground (arith, h, e)

  pub shut-reads :
      (r : Receipt) (q : ProxyMsgQueue) → IsSound q → IsShut q → Shuts q (happens pool (reads r) q)
  unfolding happens read_sub_msg
  shut-reads r q s h = elim (Bool-cases q.reading) [
    | inl e ↦
        let (q', done, sound, kept, shut) = closed-reads r q s (is_closed q h e) in
        (q', ap (λ b. if b then read_round pool r q else some q) e ∙ done, sound, kept, shut)
    | inr e ↦ (q, rw (e, read_sub_msg) refl, s, refl, h)
  ]

  pub shut-happens :
      (e : Event) (q : ProxyMsgQueue) → IsSound q → IsShut q → Shuts q (happens pool e q)
  shut-happens (reads r) q s h = shut-reads r q s h
  shut-happens takes q s h = shut-takes q s h
  shut-happens stops q s h = shut-stops q s h
