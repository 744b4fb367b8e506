-- ===== src/Ws/SubQueue/OpenSteps.antt =====
-- service/ws/proxy_msg_queue.go: what happens to a queue that takes messages.
use gim.Base.{
  suc, ◌<◌, ◌-◌, ◌+◌, ltb, ◌≡◌, refl, sym, ap, ◌∙◌, true, false, inl, inr, some, [], ◌∷◌, ◌++◌,
  arith, length, length-append, leb, if◌then◌else◌,
}
use mathlib.Core.List.{append-nil, append_assoc}
use gim.Base.Chan.{Chan, send}
use gim.Types.Message.{Bytes}
use gim.Ws.SubQueue.{
  msg_chan_max_len, WorkerPool, idle, running, ProxyMsgQueue, Turn, worker_first, timer_first,
  stop_first, cancelled, redis_closed, failure, message, take, returned, pushed, sent_in_time,
  pub_msg_with_timeout, queue_payload, read_round, read_sub_msg, reads, takes, stops, happens,
}
use gim.Ws.SubQueue.Contents.{
  IsPool, content, IsSound, IsOpen, StaysOpen, Shuts, taken_lem, returned-IsSound, stopped,
}

module _ {pool : WorkerPool} (is : IsPool pool) where
  pub open-takes :
      (q : ProxyMsgQueue)
      → IsSound q
      → IsOpen q
      → StaysOpen q [] (length q.msg_chan.buffer - 1) (happens pool takes q)
  unfolding happens
  open-takes q s o =
      let t = taken_lem q s.0 in
      (
        take q,
        refl,
        (t.0, λ e. t.5 ∙ s.1 o.0),
        t.1 ∙ sym (append-nil (content q)),
        (t.4 ∙ o.0, t.3 ∙ o.1),
        t.2,
      )

  pub open-stops : (q : ProxyMsgQueue) → IsSound q → IsOpen q → Shuts q (happens pool stops q)
  unfolding happens
  open-stops q s o =
      let (q', done, sized, kept, shut, same, reads_on) = stopped is q s.0 o.1 in
      (q', rw (done, happens) refl, (sized, λ e. same ∙ s.1 o.0), kept, inr shut)

  pub open-ends :
      (q : ProxyMsgQueue)
      → IsSound q
      → IsOpen q
      → Shuts q (happens pool (reads cancelled) q) × Shuts q (happens pool (reads redis_closed) q)
  unfolding happens read_sub_msg read_round
  open-ends q s o =
      let out = returned-IsSound q s.0 in
      (
        (returned q, rw (o.0, read_sub_msg) refl, out, refl, inl refl),
        (returned q, rw (o.0, read_sub_msg) refl, out, refl, inl refl),
      )

  pub open-failure :
      (q : ProxyMsgQueue)
      → IsSound q
      → IsOpen q
      → StaysOpen q [] (length q.msg_chan.buffer) (happens pool (reads failure) q)
  unfolding happens read_sub_msg read_round
  open-failure q s o = (
    record q {
      slept = if ltb 0 q.err_count then q.slept + 100 else q.slept;
      err_count = suc q.err_count;
    },
    rw (o.0, read_sub_msg) refl,
    (record { size = s.0.size; bound = s.0.bound }, s.1),
    sym (append-nil (content q)),
    o,
    refl,
  )

  -- A message with room is sent, whatever comes meanwhile.
  pub open-room :
      (m : Bytes) (turn : Turn) (q : ProxyMsgQueue)
      → IsSound q
      → IsOpen q
      → leb msg_chan_max_len (length q.msg_chan.buffer) ≡ false
      → StaysOpen q
          (m ∷ [])
          (suc (length q.msg_chan.buffer))
          (happens pool (reads (message m turn)) q)
  unfolding happens read_sub_msg read_round queue_payload pushed send
  open-room m turn q s o room =
      let below : length q.msg_chan.buffer < q.msg_chan.cap = ground (arith, room, s.0.size) in
      (
        record q {
          err_count = 0;
          msg_chan = record (q.msg_chan) { buffer = q.msg_chan.buffer ++ m ∷ [] };
        },
        rw (o.0, room, is.pushes q.msg_chan m below, read_sub_msg, queue_payload)
            (ground (arith, o.0, o.1, below)),
        (
          record {
            size = s.0.size;
            bound = omega (arith, s.0.size, below, length-append q.msg_chan.buffer (m ∷ []));
          },
          s.1,
        ),
        sym (append_assoc q.left q.msg_chan.buffer (m ∷ [])),
        o,
        omega (arith, length-append q.msg_chan.buffer (m ∷ [])),
      )

  pub open-worker_first :
      (m : Bytes) (q : ProxyMsgQueue)
      → IsSound q
      → IsOpen q
      → leb msg_chan_max_len (length q.msg_chan.buffer) ≡ true
      → StaysOpen q
          (m ∷ [])
          (length q.msg_chan.buffer)
          (happens pool (reads (message m worker_first)) q)
  unfolding happens read_sub_msg read_round queue_payload pub_msg_with_timeout send sent_in_time
  open-worker_first m q s o full' =
      let t =
        taken_lem (record q { err_count = 0; timer = running })
          (record { size = s.0.size; bound = s.0.bound }) in
      let a : ProxyMsgQueue = take (record q { err_count = 0; timer = running }) in
      let below : length a.msg_chan.buffer < a.msg_chan.cap =
        ground (arith, full', s.0.size, t.2, t.0.size) in
      let ch : Chan Bytes = record (a.msg_chan) { buffer = a.msg_chan.buffer ++ m ∷ [] } in
      (
        record a { msg_chan = ch; timer = idle },
        rw (o.0, full', read_sub_msg, queue_payload) (ground (arith, t.3, t.5, o.1, below)),
        (
          record {
            size = t.0.size;
            bound = omega (arith, t.0.size, below, length-append a.msg_chan.buffer (m ∷ []));
          },
          λ e. refl,
        ),
        sym (append_assoc a.left a.msg_chan.buffer (m ∷ [])) ∙ ap (λ x. x ++ m ∷ []) t.1,
        (t.4 ∙ o.0, t.3 ∙ o.1),
        ground (arith, full', t.2, length-append a.msg_chan.buffer (m ∷ [])),
      )

  pub open-timer_first :
      (m : Bytes) (q : ProxyMsgQueue)
      → IsSound q
      → IsOpen q
      → leb msg_chan_max_len (length q.msg_chan.buffer) ≡ true
      → StaysOpen q [] (length q.msg_chan.buffer) (happens pool (reads (message m timer_first)) q)
  unfolding happens read_sub_msg read_round queue_payload pub_msg_with_timeout
  open-timer_first m q s o full' = (
    record q { err_count = 0; timer = idle },
    rw (o.0, full', o.1, read_sub_msg, queue_payload, pub_msg_with_timeout) refl,
    (record { size = s.0.size; bound = s.0.bound }, λ e. refl),
    sym (append-nil (content q)),
    o,
    refl,
  )

  pub open-stop_first :
      (m : Bytes) (q : ProxyMsgQueue)
      → IsSound q
      → IsOpen q
      → leb msg_chan_max_len (length q.msg_chan.buffer) ≡ true
      → Shuts q (happens pool (reads (message m stop_first)) q)
  unfolding happens read_sub_msg read_round queue_payload pub_msg_with_timeout
  open-stop_first m q s o full' =
      let (q', done, sized, kept, shut, same, reads_on) =
        stopped is (record q { err_count = 0; timer = running })
          (record { size = s.0.size; bound = s.0.bound }) o.1 in
      (
        returned q',
        ap (λ b. if b then read_round pool (message m stop_first) q else some q) o.0
            ∙ rw (full', done, queue_payload, pub_msg_with_timeout) refl,
        returned-IsSound q' sized,
        kept,
        inl refl,
      )
