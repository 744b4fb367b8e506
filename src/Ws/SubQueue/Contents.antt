-- ===== src/Ws/SubQueue/Contents.antt =====
-- service/ws/proxy_msg_queue.go: what is in the queue, and what of the messages comes to it.
use gim.Base.{
  ℕ, suc, ◌≤◌, ◌<◌, ◌-◌, ◌≡◌, refl, sym, ap, ◌∙◌, true, false, ◌⊎◌, inl, inr, Option, some, List,
  [], ◌∷◌, ◌++◌, arith, length, length-append, leb, if◌then◌else◌, Bool-cases,
}
use mathlib.Core.List.{append_assoc}
use gim.Base.Chan.{Chan, send, close, receive-nil, receive-cons}
use gim.Types.Message.{Bytes}
use gim.Ws.SubQueue.{
  msg_chan_max_len, worker_m_conf, WorkerPool, idle, ProxyMsgQueue, worker_first, timer_first,
  stop_first, cancelled, redis_closed, failure, message, take, returned, re_push_all, stop_worker_m,
  Event, reads, takes, stops,
}

-- What the worker pool does: its channel has the configured size, a push with room sends, and a stop
-- gives back messages from the front.
pub record IsPool (pool : WorkerPool) : Type 0 where
  pub makes :
      pool.new_worker_m worker_m_conf
      ≡ record { buffer = []; cap = worker_m_conf.chan_size; closed = false }
  pub pushes : (c : Chan Bytes) (m : Bytes) → length c.buffer < c.cap → pool.push_msg c m ≡ send c m
  pub stop_keeps : (c : Chan Bytes) → c.buffer ≡ (pool.stop c).0 ++ (pool.stop c).1.buffer
  pub stop_shape :
      (c : Chan Bytes) → ((pool.stop c).1.closed ≡ c.closed) × ((pool.stop c).1.cap ≡ c.cap)

-- The messages that left the queue, and those in it.
abbrev pub content : ProxyMsgQueue → List Bytes
content q = q.left ++ q.msg_chan.buffer

-- The queue is within its size.
pub record IsSized (q : ProxyMsgQueue) : Type 0 where
  pub size : q.msg_chan.cap ≡ msg_chan_max_len
  pub bound : length q.msg_chan.buffer ≤ msg_chan_max_len

-- While the reader is at the head of its loop the timer is idle.
abbrev pub IsSound : ProxyMsgQueue → Type 0
IsSound q = IsSized q × (q.reading ≡ true → q.timer ≡ idle)

-- The queue takes messages: the reader runs, and the channel is open.
abbrev pub IsOpen : ProxyMsgQueue → Type 0
IsOpen q = (q.reading ≡ true) × (q.msg_chan.closed ≡ false)

abbrev pub IsShut : ProxyMsgQueue → Type 0
IsShut q = (q.reading ≡ false) ⊎ (q.msg_chan.closed ≡ true)

abbrev pub next : ℕ → ℕ
next k = if leb msg_chan_max_len k then k else suc k

-- What the queue takes of the messages that the events bring, when `k` are in it: all until a stop or
-- an end of the reading, but those that are given up when the timer comes first at a full queue.
unfoldable pub messages : ℕ → List Event → List Bytes
messages k [] = []
messages k (takes ∷ es) = messages (k - 1) es
messages k (stops ∷ es) = []
messages k (reads cancelled ∷ es) = []
messages k (reads redis_closed ∷ es) = []
messages k (reads failure ∷ es) = messages k es
messages k (reads (message m worker_first) ∷ es) = m ∷ messages (next k) es
messages k (reads (message m timer_first) ∷ es) =
    let rest = messages (next k) es in if leb msg_chan_max_len k then rest else m ∷ rest
messages k (reads (message m stop_first) ∷ es) =
    let rest = messages (next k) es in if leb msg_chan_max_len k then [] else m ∷ rest

-- Nothing hangs, the queue is sound, and `added` came to its content.
abbrev pub Adds : ProxyMsgQueue → List Bytes → Option ProxyMsgQueue → Type 0
Adds q added r =
    (q' : ProxyMsgQueue) × (r ≡ some q') × IsSound q' × (content q' ≡ content q ++ added)

-- The same, and the queue takes more, with `k` messages in it.
abbrev pub StaysOpen : ProxyMsgQueue → List Bytes → ℕ → Option ProxyMsgQueue → Type 0
StaysOpen q added k r =
    (q' : ProxyMsgQueue) × (r ≡ some q')
    × IsSound q'
    × (content q' ≡ content q ++ added)
    × IsOpen q'
    × (length q'.msg_chan.buffer ≡ k)

-- The same, and the queue takes no more.
abbrev pub Shuts : ProxyMsgQueue → Option ProxyMsgQueue → Type 0
Shuts q r = (q' : ProxyMsgQueue) × (r ≡ some q') × IsSound q' × (content q' ≡ content q) × IsShut q'

pub taken :
    (q : ProxyMsgQueue) (b : List Bytes)
    → q.msg_chan.buffer ≡ b
    → IsSized q
    → IsSized (take q)
      × (content (take q) ≡ content q)
      × (length (take q).msg_chan.buffer ≡ length b - 1)
      × ((take q).msg_chan.closed ≡ q.msg_chan.closed)
      × ((take q).reading ≡ q.reading)
      × ((take q).timer ≡ q.timer)
unfolding take
taken q [] e s = elim (Bool-cases q.msg_chan.closed) [
  | inl f ↦ rw (receive-nil q.msg_chan e, f, take) (s, refl, ap length e, f, refl, refl)
  | inr f ↦ rw (receive-nil q.msg_chan e, f, take) (s, refl, ap length e, f, refl, refl)
]
taken q (m ∷ rest) e s =
    rw (receive-cons q.msg_chan m rest e, take)
      (
        record { size = s.size; bound = omega (arith, s.bound, ap length e) },
        append_assoc q.left (m ∷ []) rest ∙ ap (λ b. q.left ++ b) (sym e),
        omega arith,
        refl,
        refl,
        refl,
      )

abbrev pub taken_lem :
    (q : ProxyMsgQueue)
    → IsSized q
    → IsSized (take q)
      × (content (take q) ≡ content q)
      × (length (take q).msg_chan.buffer ≡ length q.msg_chan.buffer - 1)
      × ((take q).msg_chan.closed ≡ q.msg_chan.closed)
      × ((take q).reading ≡ q.reading)
      × ((take q).timer ≡ q.timer)
taken_lem q s = taken q q.msg_chan.buffer refl s

pub returned-IsSound : (q : ProxyMsgQueue) → IsSized q → IsSound (returned q)
returned-IsSound q s = (record { size = s.size; bound = s.bound }, λ e. cc)

re_push_all_lem : (ms : List Bytes) (q : ProxyMsgQueue) → re_push_all ms q ≡ q
unfolding re_push_all
re_push_all_lem [] q = refl
re_push_all_lem (m ∷ ms) q = re_push_all_lem ms q

module _ {pool : WorkerPool} (is : IsPool pool) where
  -- A stop of an open channel.
  pub stopped :
      (q : ProxyMsgQueue)
      → IsSized q
      → q.msg_chan.closed ≡ false
      → (q' : ProxyMsgQueue) × (stop_worker_m pool q ≡ some q')
        × IsSized q'
        × (content q' ≡ content q)
        × (q'.msg_chan.closed ≡ true)
        × (q'.timer ≡ q.timer)
        × (q'.reading ≡ q.reading)
  unfolding stop_worker_m close
  stopped q s open' =
      let ch : Chan Bytes = record (q.msg_chan) { closed = true } in
      let given = (pool.stop ch).0 in
      let rest = (pool.stop ch).1 in
      let shape = is.stop_shape ch in
      let keeps = is.stop_keeps ch in
      (
        record q { msg_chan = rest; left = q.left ++ given },
        rw (open', re_push_all_lem given, stop_worker_m) refl,
        record {
          size = shape.1 ∙ s.size;
          bound = omega (arith, s.bound, ap length keeps, length-append given rest.buffer);
        },
        append_assoc q.left given rest.buffer ∙ ap (λ b. q.left ++ b) (sym keeps),
        shape.0,
        refl,
        refl,
      )
