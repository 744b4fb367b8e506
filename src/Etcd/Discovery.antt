-- ===== src/Etcd/Discovery.antt =====
-- pkg/etcd_registry/discovery.go: the entries under a prefix, and the events that follow.
use gim.Base.{String, Option, none, some, List, [], ◌∷◌}
use gim.ImErr.{Err, Result, ok, err}

-- `mvccpb.KeyValue`: the key and the value.
pub record KeyValue : Type 0 where
  pub key : String
  pub val : String

pub data Event : Type 0 where
  put : KeyValue → Event
  delete : KeyValue → Event

-- The callbacks act on a state `S`.
module _ {ℓ} {S : Type ℓ} (on_register on_unregister : KeyValue → S → S) where
  unfoldable pub register_all : List KeyValue → S → S
  register_all [] s = s
  register_all (kv ∷ rest) s = register_all rest (on_register kv s)

  unfoldable pub handle_event : Event → S → S
  handle_event (put kv) s = on_register kv s
  handle_event (delete kv) s = on_unregister kv s

  -- The loop over the events, of `watcher` and of `watcherFromRevision`.
  unfoldable pub watch_events : List Event → S → S
  watch_events [] s = s
  watch_events (e ∷ rest) s = watch_events rest (handle_event e s)

  -- `WatchService`: the entries that are there, then every event from the next revision on. An
  -- error of the first read is returned, and nothing is watched.
  unfoldable pub watch_service : Result (List KeyValue) → List Event → S → Option Err × S
  unfolding register_all watch_events
  watch_service (err e) events s = (some e, s)
  watch_service (ok kvs) events s = (none, watch_events events (register_all kvs s))
