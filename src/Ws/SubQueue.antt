-- ===== src/Ws/SubQueue.antt =====
-- service/ws/proxy_msg_queue.go: the queue between the subscription in redis and the workers. The
-- worker pool (gmq/task_worker) and the subscription are parameters.
pub mod Contents
pub mod OpenSteps
pub mod ShutSteps
pub mod Keeping
use gim.Base.{
  ℕ, suc, ◌+◌, String, ◌<>◌, Bool, true, false, Option, none, some, List, [], ◌∷◌, ◌++◌, length,
  ltb, leb, if◌then◌else◌,
}
use gim.Base.Chan.{
  Chan, Sent, sent, full, panicked, send, close, Received, received, waiting, finished, receive,
}
use gim.Types.Message.{Bytes}
use gim.Ws.Config.{WsConfig}

abbrev pub msg_chan_max_len : ℕ
msg_chan_max_len = 1000

-- The configuration of the worker pool, but for its logger; its handler is `handleSubMsg`.
pub record WorkerMConf : Type 0 where
  pub min_worker : ℕ
  pub max_worker : ℕ
  pub add_worker : ℕ
  pub wait_num : ℕ
  pub free_times : ℕ
  pub name : String
  pub chan_size : ℕ

abbrev pub worker_m_conf : WorkerMConf
worker_m_conf = record {
  min_worker = 2;
  max_worker = 100;
  add_worker = 10;
  wait_num = 2;
  free_times = 10;
  name = "imMsgQueue";
  chan_size = msg_chan_max_len;
}

abbrev pub local_key : WsConfig → String → String
local_key c server_ip = c.redis_prefix <> ("_gim:sub:local:" <> (server_ip <> (":" <> c.ws_port)))

-- `subMsg` subscribes to the key that all nodes publish to, and to the one of this node.
abbrev pub subscribed : WsConfig → String → List String
subscribed c server_ip = (c.redis_prefix <> "_gim:sub:global") ∷ local_key c server_ip ∷ []

-- `NewWorkerM`, `PushMsg`, and `Stop`, which answers with the messages that it gives back.
pub record WorkerPool : Type 0 where
  pub new_worker_m : WorkerMConf → Chan Bytes
  pub push_msg : Chan Bytes → Bytes → Sent Bytes
  pub stop : Chan Bytes → List Bytes × Chan Bytes

-- A timer of Go 1.23: an expiry that nobody received is gone after `Stop`.
pub data Timer : Type 0 where
  idle running : Timer

-- `Stop`: did it stop the timer?
abbrev stop_timer : Timer → Bool
stop_timer idle = false
stop_timer running = true

-- `msg_chan` is `WorkerM.MsgChan`. `left` are the messages that left it, for a worker or given
-- back; `reading` is whether the goroutine of `readSubMsg` runs; `slept` are its milliseconds.
pub record ProxyMsgQueue : Type 0 where
  pub msg_chan : Chan Bytes
  pub left : List Bytes
  pub timer : Timer
  pub err_count : ℕ
  pub slept : ℕ
  pub reading : Bool

-- What comes first while `pubMsgWithTimeout` waits at a full queue.
pub data Turn : Type 0 where
  worker_first timer_first stop_first : Turn

-- What `ReceiveMessage` gives; `cancelled` is the end of the context, which is looked at first.
pub data Receipt : Type 0 where
  cancelled redis_closed failure : Receipt
  message : Bytes → Turn → Receipt

-- A worker takes a message.
unfoldable pub take : ProxyMsgQueue → ProxyMsgQueue
take q = elim (receive q.msg_chan) [
  | received m ch ↦ record q { msg_chan = ch; left = q.left ++ m ∷ [] }
  | waiting ↦ q
  | finished ↦ q
]

-- The deferred end of `readSubMsg`, with or without a panic.
abbrev pub returned : ProxyMsgQueue → ProxyMsgQueue
returned q = record q { reading = false }

-- After a plain send: on `full` it would wait for ever. A panic is recovered, and ends the reader.
unfoldable pub pushed : Sent Bytes → ProxyMsgQueue → Option ProxyMsgQueue
pushed (sent ch) q = some (record q { msg_chan = ch })
pushed full q = none
pushed panicked q = some (returned q)

-- The case of `pubMsgWithTimeout` that sends: if the timer was not stopped, it waits for ever.
unfoldable pub sent_in_time : ProxyMsgQueue → Option ProxyMsgQueue
sent_in_time q = if stop_timer q.timer then some (record q { timer = idle }) else none

-- `rePushMsg`
abbrev re_push_msg : Bytes → ProxyMsgQueue → ProxyMsgQueue
re_push_msg msg q = q

re_push_all : List Bytes → ProxyMsgQueue → ProxyMsgQueue
re_push_all [] q = q
re_push_all (m ∷ ms) q = re_push_all ms (re_push_msg m q)

module _ (pool : WorkerPool) where
  -- `NewProxyMsgQueue`, once the reader runs.
  unfoldable pub new_proxy_msg_queue : ProxyMsgQueue
  new_proxy_msg_queue = record {
    msg_chan = pool.new_worker_m worker_m_conf;
    left = [];
    timer = idle;
    err_count = 0;
    slept = 0;
    reading = true;
  }

  -- `StopWorkerM`: the channel is closed, and what `Stop` gives back is dropped. `none` is the
  -- panic of a second stop.
  unfoldable pub stop_worker_m : ProxyMsgQueue → Option ProxyMsgQueue
  unfolding re_push_all
  stop_worker_m q = elim (close q.msg_chan) [
    | none ↦ none
    | some ch ↦
        let (given, ch') = pool.stop ch in
        some (re_push_all given (record q { msg_chan = ch'; left = q.left ++ given }))
  ]

  -- The `select` that sends the message, or gives it up when the timer comes first. On a closed
  -- channel the send comes first, and panics.
  unfoldable pub pub_msg_with_timeout : Turn → Bytes → ProxyMsgQueue → Option ProxyMsgQueue
  unfolding sent_in_time take stop_worker_m
  pub_msg_with_timeout worker_first msg q = elim (send (take q).msg_chan msg) [
    | sent ch ↦ sent_in_time (record (take q) { msg_chan = ch })
    | full ↦ none
    | panicked ↦ some (returned (take q))
  ]
  pub_msg_with_timeout timer_first msg q =
      if q.msg_chan.closed then some (returned q) else some (record q { timer = idle })
  pub_msg_with_timeout stop_first msg q = elim (stop_worker_m q) [
    | none ↦ some (returned q)
    | some q' ↦ some (returned q')
  ]

  -- A message goes straight into the queue if there is room, and waits with a time limit if not.
  unfoldable pub queue_payload : Bytes → Turn → ProxyMsgQueue → Option ProxyMsgQueue
  unfolding pub_msg_with_timeout pushed
  queue_payload msg turn q =
      if leb msg_chan_max_len (length q.msg_chan.buffer)
      then pub_msg_with_timeout turn msg (record q { timer = running })
      else pushed (pool.push_msg q.msg_chan msg) q

  -- A round of `readSubMsg`. `none`: it hangs.
  unfoldable pub read_round : Receipt → ProxyMsgQueue → Option ProxyMsgQueue
  unfolding queue_payload
  read_round cancelled q = some (returned q)
  read_round redis_closed q = some (returned q)
  read_round failure q = some (record q {
    slept = if ltb 0 q.err_count then q.slept + 100 else q.slept;
    err_count = suc q.err_count;
  })
  read_round (message msg turn) q = queue_payload msg turn (record q { err_count = 0 })

  unfoldable pub read_sub_msg : Receipt → ProxyMsgQueue → Option ProxyMsgQueue
  unfolding read_round
  read_sub_msg r q = if q.reading then read_round r q else some q

-- What happens to the queue: a round of the reader, a worker that takes, a stop.
pub data Event : Type 0 where
  reads : Receipt → Event
  takes stops : Event

module _ (pool : WorkerPool) where
  abbrev or_same : ProxyMsgQueue → Option ProxyMsgQueue → Option ProxyMsgQueue
  or_same q none = some q
  or_same q (some q') = some q'

  unfoldable pub happens : Event → ProxyMsgQueue → Option ProxyMsgQueue
  unfolding read_sub_msg stop_worker_m take
  happens (reads r) q = read_sub_msg pool r q
  happens takes q = some (take q)
  happens stops q = or_same q (stop_worker_m pool q)

  unfoldable pub run : List Event → ProxyMsgQueue → Option ProxyMsgQueue
  run [] q = some q
  run (e ∷ es) q = elim (happens e q) [ none ↦ none | some q' ↦ run es q' ]
