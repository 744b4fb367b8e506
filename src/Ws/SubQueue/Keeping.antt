-- ===== src/Ws/SubQueue/Keeping.antt =====
-- service/ws/proxy_msg_queue.go: which messages of the subscription reach the queue.
use gim.Base.{
  ℕ, suc, ◌-◌, ◌≡◌, refl, sym, ap, subst, ◌∙◌, true, false, inl, inr, some, List, [], ◌∷◌, ◌++◌,
  arith, length, leb, Bool-cases,
}
use mathlib.Core.List.{append-nil, append_assoc}
use gim.Types.Message.{Bytes}
use gim.Ws.SubQueue.{
  msg_chan_max_len, WorkerPool, ProxyMsgQueue, Turn, worker_first, timer_first, stop_first,
  cancelled, redis_closed, failure, message, new_proxy_msg_queue, Event, reads, takes, stops,
  happens, run,
}
use gim.Ws.SubQueue.Contents.{
  IsPool, content, IsSized, IsSound, IsOpen, IsShut, messages, Adds, StaysOpen, Shuts,
}
use gim.Ws.SubQueue.OpenSteps.{
  open-takes, open-stops, open-ends, open-failure, open-room, open-worker_first, open-timer_first,
  open-stop_first,
}
use gim.Ws.SubQueue.ShutSteps.{shut-happens}

module _ {pool : WorkerPool} (is : IsPool pool) where
  run-cons :
      (e : Event) (es : List Event) (q : ProxyMsgQueue) {q' : ProxyMsgQueue}
      → happens pool e q ≡ some q'
      → run pool (e ∷ es) q ≡ run pool es q'
  unfolding run
  run-cons e es q h = rw (h, run) refl

  shut-run :
      (es : List Event) (q : ProxyMsgQueue) → IsSound q → IsShut q → Adds q [] (run pool es q)
  unfolding run
  shut-run [] q s h = (q, refl, s, sym (append-nil (content q)))
  shut-run (e ∷ es) q s h =
      let (q1, first, s1, kept1, h1) = shut-happens is e q s h in
      let (q', done, sound, kept) = shut-run es q1 s1 h1 in
      (q', run-cons e es q first ∙ done, sound, kept ∙ ap (λ x. x ++ []) kept1)

  then_shut :
      (e : Event) (es : List Event) (q : ProxyMsgQueue)
      → Shuts q (happens pool e q)
      → Adds q [] (run pool (e ∷ es) q)
  then_shut e es q (q1, first, s1, kept1, h1) =
      let (q', done, sound, kept) = shut-run es q1 s1 h1 in
      (q', run-cons e es q first ∙ done, sound, kept ∙ ap (λ x. x ++ []) kept1)

  -- The rest of the events, from whatever open queue with `k` messages.
  abbrev Rest : List Event → ℕ → Type 0
  Rest es k =
      (q : ProxyMsgQueue)
      → IsSound q
      → IsOpen q
      → length q.msg_chan.buffer ≡ k
      → Adds q (messages k es) (run pool es q)

  then_open :
      (e : Event) (es : List Event) (q : ProxyMsgQueue) (added : List Bytes) (k : ℕ)
      → StaysOpen q added k (happens pool e q)
      → Rest es k
      → Adds q (added ++ messages k es) (run pool (e ∷ es) q)
  then_open e es q added k (q1, first, s1, kept1, o1, len) rest =
      let (q', done, sound, kept) = rest q1 s1 o1 len in
      (
        q',
        run-cons e es q first ∙ done,
        sound,
        kept
            ∙ (ap (λ x. x ++ messages k es) kept1 ∙ append_assoc (content q) added (messages k es)),
      )

  open-full :
      (m : Bytes) (turn : Turn) (es : List Event) (q : ProxyMsgQueue)
      → IsSound q
      → IsOpen q
      → leb msg_chan_max_len (length q.msg_chan.buffer) ≡ true
      → ((j : ℕ) → Rest es j)
      → Adds q
          (messages (length q.msg_chan.buffer) (reads (message m turn) ∷ es))
          (run pool (reads (message m turn) ∷ es) q)
  unfolding messages
  open-full m worker_first es q s o full' rest =
      rw (full', messages)
        (then_open (reads (message m worker_first)) es q (m ∷ []) _
          (open-worker_first is m q s o full') (rest _))
  open-full m timer_first es q s o full' rest =
      rw (full', messages)
        (then_open (reads (message m timer_first)) es q [] _ (open-timer_first is m q s o full')
          (rest _))
  open-full m stop_first es q s o full' rest =
      rw (full', messages)
        (then_shut (reads (message m stop_first)) es q (open-stop_first is m q s o full'))

  messages-room :
      (m : Bytes) (turn : Turn) (es : List Event) (k : ℕ)
      → leb msg_chan_max_len k ≡ false
      → messages k (reads (message m turn) ∷ es) ≡ m ∷ messages (suc k) es
  unfolding messages
  messages-room m worker_first es k room = rw (room, messages) refl
  messages-room m timer_first es k room = rw (room, messages) refl
  messages-room m stop_first es k room = rw (room, messages) refl

  open-message :
      (m : Bytes) (turn : Turn) (es : List Event) (q : ProxyMsgQueue)
      → IsSound q
      → IsOpen q
      → ((j : ℕ) → Rest es j)
      → Adds q
          (messages (length q.msg_chan.buffer) (reads (message m turn) ∷ es))
          (run pool (reads (message m turn) ∷ es) q)
  open-message m turn es q s o rest =
      elim (Bool-cases (leb msg_chan_max_len (length q.msg_chan.buffer))) [
        | inl full' ↦ open-full m turn es q s o full' rest
        | inr room ↦ rw (messages-room m turn es (length q.msg_chan.buffer) room) (
            then_open (reads (message m turn)) es q (m ∷ []) _ (open-room is m turn q s o room)
              (rest _))
      ]

  -- From a sound queue that is open.
  open-run : (es : List Event) (k : ℕ) → Rest es k
  unfolding run messages
  open-run [] k q s o len = (q, refl, s, sym (append-nil (content q)))
  open-run (takes ∷ es) k q s o len =
      subst (λ j. Adds q (messages (j - 1) es) (run pool (takes ∷ es) q)) len
        (then_open takes es q [] _ (open-takes is q s o) (open-run es _))
  open-run (stops ∷ es) k q s o len = then_shut stops es q (open-stops is q s o)
  open-run (reads cancelled ∷ es) k q s o len =
      then_shut (reads cancelled) es q (open-ends is q s o).0
  open-run (reads redis_closed ∷ es) k q s o len =
      then_shut (reads redis_closed) es q (open-ends is q s o).1
  open-run (reads failure ∷ es) k q s o len =
      subst (λ j. Adds q (messages j es) (run pool (reads failure ∷ es) q)) len
        (then_open (reads failure) es q [] _ (open-failure is q s o) (open-run es _))
  open-run (reads (message m turn) ∷ es) k q s o len =
      subst
        (λ j.
          Adds q (messages j (reads (message m turn) ∷ es))
            (run pool (reads (message m turn) ∷ es) q))
        len (open-message m turn es q s o (λ j. open-run es j))

  -- With a worker pool that does what IsPool says, whatever happens to a new queue of the
  -- subscription, the reader never hangs, and the queue stays sound: it is within its size, and
  -- the timer is idle while the reader is at the head of its loop. The messages that left it
  -- and those in it are, in order, the messages that came until a stop or an end of the
  -- reading, without those whose timer came first at a full queue.
  pub run-new_proxy_msg_queue :
      (es : List Event)
      → (q' : ProxyMsgQueue) × (run pool es (new_proxy_msg_queue pool) ≡ some q')
        × IsSound q'
        × (content q' ≡ messages 0 es)
  unfolding new_proxy_msg_queue
  run-new_proxy_msg_queue es =
      let q : ProxyMsgQueue = new_proxy_msg_queue pool in
      let made = is.makes in
      let empty' : q.msg_chan.buffer ≡ [] = ap (λ c. c.buffer) made in
      let sized : IsSized q = record {
        size = ap (λ c. c.cap) made;
        bound = omega (arith, ap length empty');
      } in
      let (q', done, sound, kept) =
        open-run es 0 q (sized, λ e. refl) (refl, ap (λ c. c.closed) made) (ap length empty') in
      (q', done, sound, kept ∙ ap (λ b. b ++ messages 0 es) empty')
