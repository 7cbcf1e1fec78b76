-- ===== src/Hyperliquid/Frames/Queue.antt =====
-- pkg/hyperliquid/hyperliquid.go: the queue of frames between the read loop and the dispatching
-- goroutine, with the calls that change the registry in between.
use go_exchange_connector.Prelude.{ℕ, List, [], ◌∷◌, ◌++◌, length, ltb, if◌then◌else◌}
use go_exchange_connector.Prelude.Int.{ℤ}
use go_exchange_connector.Hyperliquid.Subscription.{Subscription}
use go_exchange_connector.Hyperliquid.Registry.{Registry, Link, subscribe, unsubscribe}
use go_exchange_connector.Hyperliquid.Frames.{Event, Json, Frame, process_frame}

-- `eventQueueSize`
abbrev pub event_queue_size : ℕ
event_queue_size = 8192

-- The queue after `onMessage`: a full queue drops the frame.
unfoldable pub on_message : Frame → List Frame → List Frame
on_message f queue = if ltb (length queue) event_queue_size then queue ++ f ∷ [] else queue

-- `drainEvents`
abbrev pub drain_events : List Frame → List Frame
drain_events queue = []

-- The registry, the queue and the counter of NextSeqID.
pub record World : Type 0 where
  pub registry : Registry
  pub queue : List Frame
  pub seq : ℤ

-- What can happen: a frame is read, the goroutine of eventDispatcher makes a round, the connection
-- drops, or the caller changes its subscriptions.
pub data Step : Type 0 where
  arrives : Frame → Step
  works : Step
  drops : Step
  subscribes : Link → List Subscription → Step
  unsubscribes : Link → List Subscription → Step

-- A round of `eventDispatcher` over the queue.
unfoldable pub work : Json → List Frame → World → World × List Event
work json [] w = (w, [])
work json (f ∷ rest) w =
    let (events, last) = process_frame json w.registry w.seq f in
    (record w { queue = rest; seq = last }, events)

-- A step, and the events that it dispatches.
unfoldable pub step : Json → Step → World → World × List Event
unfolding work on_message
step json (arrives f) w = (record w { queue = on_message f w.queue }, [])
step json works w = work json w.queue w
step json drops w = (record w { queue = drain_events w.queue }, [])
step json (subscribes link subs) w =
    (record w { registry = (subscribe link subs w.registry).0 }, [])
step json (unsubscribes link subs) w =
    (record w { registry = (unsubscribe link subs w.registry).0 }, [])

unfoldable pub run : Json → List Step → World → World × List Event
unfolding step
run json [] w = (w, [])
run json (s ∷ ss) w =
    let (w', events) = step json s w in let (w'', later) = run json ss w' in (w'', events ++ later)
