-- ===== src/Tests/Queues.antt =====
-- The queue of the subscription at a concrete worker pool.
use gim.Base.{◌≡◌, refl, false, some, List, [], ◌∷◌}
use gim.Base.Chan.{send}
use gim.Ws.SubQueue.{
  WorkerPool, ProxyMsgQueue, worker_first, failure, message, new_proxy_msg_queue, Event, reads,
  takes, stops, run,
}
use gim.Ws.SubQueue.Contents.{IsPool, IsSound, content, messages}
use gim.Ws.SubQueue.Keeping.{run-new_proxy_msg_queue}

abbrev pub plain_pool : WorkerPool
plain_pool = record {
  new_worker_m = λ conf. record { buffer = []; cap = conf.chan_size; closed = false };
  push_msg = λ c m. send c m;
  stop = λ c. ([], c);
}

pub plain_pool-IsPool : IsPool plain_pool
plain_pool-IsPool = record {
  makes = refl;
  pushes = λ c m h. refl;
  stop_keeps = λ c. refl;
  stop_shape = λ c. (refl, refl);
}

-- Two messages, of which a worker takes one, a failure in between, and a third one after a stop.
abbrev some_events : List Event
some_events =
    reads (message (1 ∷ []) worker_first)
    ∷ reads failure
    ∷ takes
    ∷ reads (message (2 ∷ []) worker_first)
    ∷ stops
    ∷ reads (message (3 ∷ []) worker_first)
    ∷ []

run-new_proxy_msg_queue_example :
    (q' : ProxyMsgQueue) × (run plain_pool some_events (new_proxy_msg_queue plain_pool) ≡ some q')
    × IsSound q'
    × (content q' ≡ (1 ∷ []) ∷ (2 ∷ []) ∷ [])
unfolding messages
run-new_proxy_msg_queue_example = run-new_proxy_msg_queue plain_pool-IsPool some_events
