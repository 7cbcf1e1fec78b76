-- ===== src/Polymarket/Market/Trace.antt =====
-- Whole lives of the market registry of pkg/polymarket/market.go: the calls of the application, the
-- flush timer, and what the transport does, in any order.
pub mod Sync
use go_exchange_connector.Prelude.{
  Text, Bool, true, false, not, ◌&&◌, ◌||◌, List, [], ◌∷◌, ◌≡◌, refl, ◌∙◌, arith, if◌then◌else◌, ap,
}
use go_exchange_connector.Prelude.Sets.{has}
use go_exchange_connector.Polymarket.Market.{
  Registry, Frame, Link, new_registry, flush_pending, subscribe, unsubscribe, queue_subscribe,
  queue_unsubscribe, on_connect, on_disconnect, clear_subscriptions,
}
use go_exchange_connector.Polymarket.Market.Wanted.{
  wanted, wanted-flush_pending, wanted-subscribe, wanted-unsubscribe, wanted-on_connect,
  wanted-on_disconnect, wanted-queue_subscribe, wanted-queue_unsubscribe,
}
use go_exchange_connector.Polymarket.Market.Wire.{
  serves, Reliable, flush_pending-serves, on_connect-serves,
}

-- The manager with its connection; `served` is what the venue delivers on it.
pub record Machine : Type 0 where
  pub registry : Registry
  pub connected : Bool
  pub served : Text → Bool

-- What can happen. The reconnect loop dials only while there is no connection.
pub data Event : Type 0 where
  caller_subscribes : List Text → Event
  caller_unsubscribes : List Text → Event
  flush_tick : Event
  connects : Event
  drops : Event
  stops : Event

-- The transport accepts the frames that `accepts` says.
abbrev link_of : (Frame → Bool) → Machine → Link
link_of accepts m = record { connected = m.connected; accepts = accepts }

abbrev written : Machine → Registry × List Frame → Machine
written m (r, frames) = record m { registry = r; served = λ j. serves frames j (m.served j) }

abbrev greeted : Registry × List Frame × Bool → Machine
greeted (r, frames, ok) = record {
  registry = r;
  connected = ok;
  served = λ j. if ok then serves frames j false else false;
}

unfoldable pub step : (Frame → Bool) → Event → Machine → Machine
unfolding subscribe unsubscribe flush_pending on_connect on_disconnect clear_subscriptions
step accepts (caller_subscribes ids) m = written m (subscribe (link_of accepts m) ids m.registry)
step accepts (caller_unsubscribes ids) m =
    written m (unsubscribe (link_of accepts m) ids m.registry)
step accepts flush_tick m = written m (flush_pending (link_of accepts m) m.registry)
step accepts connects m =
    if m.connected then m else greeted (on_connect (link_of accepts m) m.registry)
step accepts drops m =
    if m.connected
    then record { registry = on_disconnect m.registry; connected = false; served = λ _. false }
    else m
step accepts stops m = record {
  registry = clear_subscriptions m.registry;
  connected = false;
  served = λ _. false;
}

-- Each event comes with what the transport accepts during it.
unfoldable pub run : List ((Frame → Bool) × Event) → Machine → Machine
run [] m = m
run ((accepts, e) ∷ es) m = run es (step accepts e m)

unfoldable pub new_machine : Machine
new_machine = record { registry = new_registry; connected = false; served = λ _. false }

-- The specification: what the caller has asked for of one asset, whatever the transport does.
abbrev intent : Event → Text → Bool → Bool
intent (caller_subscribes ids) j b = has j ids || b
intent (caller_unsubscribes ids) j b = not (has j ids) && b
intent flush_tick j b = b
intent connects j b = b
intent drops j b = b
intent stops j b = false

abbrev pub intents : List ((Frame → Bool) × Event) → Text → Bool → Bool
intents [] j b = b
intents ((_, e) ∷ es) j b = intents es j (intent e j b)

wanted-step :
    (accepts : Frame → Bool) (e : Event) (m : Machine) (j : Text)
    → wanted (step accepts e m).registry j ≡ intent e j (wanted m.registry j)
unfolding step clear_subscriptions new_registry has
wanted-step accepts (caller_subscribes ids) m j =
    wanted-subscribe (link_of accepts m) ids m.registry j
wanted-step accepts (caller_unsubscribes ids) m j =
    wanted-unsubscribe (link_of accepts m) ids m.registry j
wanted-step accepts flush_tick m j = wanted-flush_pending (link_of accepts m) m.registry j
wanted-step accepts connects m j =
    ground (arith, wanted-on_connect (link_of accepts m) m.registry j)
wanted-step accepts drops m j = ground (arith, wanted-on_disconnect m.registry j)
wanted-step accepts stops m j = refl

-- Over any sequence of calls, flushes, connections and drops, with any writes failing, the registry
-- wants exactly the assets that the caller has subscribed to and not unsubscribed from since, or
-- none after a stop.
pub wanted-run :
    (es : List ((Frame → Bool) × Event)) (m : Machine) (j : Text)
    → wanted (run es m).registry j ≡ intents es j (wanted m.registry j)
unfolding run
wanted-run [] m j = refl
wanted-run ((accepts, e) ∷ es) m j =
    wanted-run es (step accepts e m) j ∙ ap (intents es j) (wanted-step accepts e m j)

-- While connected, the venue serves the subscribed set and nothing is pending.
pub record InSync (m : Machine) : Type 0 where
  pub served_is : (j : Text) → m.connected ≡ true → m.served j ≡ has j m.registry.subscribed
  pub none_to_add : m.connected ≡ true → m.registry.pending_subscribe ≡ []
  pub none_to_remove : m.connected ≡ true → m.registry.pending_unsubscribe ≡ []
