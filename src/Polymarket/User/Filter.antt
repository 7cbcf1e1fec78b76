-- ===== src/Polymarket/User/Filter.antt =====
-- The market filter of pkg/polymarket/user.go over whole lives: calls, connections and drops in any
-- order.
pub mod Lives
pub mod Reconnect
use go_exchange_connector.Prelude.{
  Text, Bool, true, false, not, ◌&&◌, ◌||◌, List, [], ◌∷◌, ◌++◌, ◌≡◌, refl, ◌∙◌, arith,
  if◌then◌else◌, eqb,
}
use go_exchange_connector.Prelude.Sets.{
  has, insert, delete, insert_all, delete_all, has-insert, has-delete, has_congr, has-insert_all,
  has-delete_all,
}
use go_exchange_connector.Polymarket.User.{
  Registry, Frame, Link, write, handshake, subscribe_op, unsubscribe_op, new_registry,
  flush_unsubscribes, flush_subscribes, flush, queue_subscribe, subscribe_markets,
  queue_unsubscribe, unsubscribe_markets, on_connect, clear_subscriptions,
}

-- What the registry says that the caller wants of a market.
pub wanted : Registry → Text → Bool
wanted r j = has j r.pending_subscribe || (has j r.subscribed && not (has j r.pending_unsubscribe))

-- What the venue has in its filter of a market after the frames of a connection.
pub serves : List Frame → Text → Bool → Bool
serves [] j b = b
serves (handshake ∷ fs) j b = serves fs j b
serves (subscribe_op ids ∷ fs) j b = serves fs j (has j ids || b)
serves (unsubscribe_op ids ∷ fs) j b = serves fs j (not (has j ids) && b)

pub has-flush_unsubscribes :
    (link : Link) (j : Text) (ids s : List Text)
    → has j (flush_unsubscribes link ids s).0 ≡ (not (has j ids) && has j s)
unfolding flush_unsubscribes has
has-flush_unsubscribes link j [] s = refl
has-flush_unsubscribes link j (id ∷ ids) s = has-delete_all j (id ∷ ids) s

pub has-flush_subscribes :
    (link : Link) (j : Text) (ids s : List Text)
    → has j (flush_subscribes link ids s).0 ≡ (has j ids || has j s)
unfolding flush_subscribes has
has-flush_subscribes link j [] s = refl
has-flush_subscribes link j (id ∷ ids) s = has-insert_all j (id ∷ ids) s

pub serves-flush :
    (link : Link) (j : Text) (subs unsubs s t : List Text) (b : Bool)
    → ((f : Frame) → link.accepts f ≡ true)
    → serves ((flush_unsubscribes link unsubs s).1 ++ (flush_subscribes link subs t).1) j b
      ≡ (has j subs || (not (has j unsubs) && b))
unfolding serves flush_unsubscribes flush_subscribes write has
serves-flush link j [] [] s t b fine = refl
serves-flush link j [] (u ∷ us) s t b fine = rw (fine (unsubscribe_op (u ∷ us))) refl
serves-flush link j (i ∷ is) [] s t b fine = rw (fine (subscribe_op (i ∷ is))) refl
serves-flush link j (i ∷ is) (u ∷ us) s t b fine =
    rw (fine (subscribe_op (i ∷ is)), fine (unsubscribe_op (u ∷ us))) refl

pub wanted-flush : (link : Link) (r : Registry) (j : Text) → wanted (flush link r).0 j ≡ wanted r j
unfolding wanted flush has
wanted-flush link r j = ground (
  arith,
  has-insert_all j r.pending_subscribe [],
  has-insert_all j r.pending_unsubscribe [],
  has-flush_unsubscribes link j r.pending_unsubscribe r.subscribed,
  has-flush_subscribes link j r.pending_subscribe
      (flush_unsubscribes link r.pending_unsubscribe r.subscribed).0,
)

pub wanted-queue_subscribe :
    (ids : List Text) (r : Registry) (j : Text)
    → wanted (queue_subscribe ids r) j ≡ (has j ids || wanted r j)
unfolding queue_subscribe has
wanted-queue_subscribe [] r j = refl
wanted-queue_subscribe (id ∷ ids) r j =
    let r' : Registry = record r {
      pending_unsubscribe = delete id r.pending_unsubscribe;
      pending_subscribe =
          if has id r.subscribed then r.pending_subscribe else insert id r.pending_subscribe;
    } in
    let one : wanted r' j ≡ (eqb j id || wanted r j) =
      unfold wanted in
      ground (
        arith,
        has-delete j id r.pending_unsubscribe,
        has-insert j id r.pending_subscribe,
        has_congr j id r.subscribed,
      ) in
    ground (arith, one, wanted-queue_subscribe ids r' j)

pub wanted-queue_unsubscribe :
    (ids : List Text) (r : Registry) (j : Text)
    → wanted (queue_unsubscribe ids r) j ≡ (not (has j ids) && wanted r j)
unfolding queue_unsubscribe has
wanted-queue_unsubscribe [] r j = refl
wanted-queue_unsubscribe (id ∷ ids) r j =
    let r' : Registry = record r {
      pending_subscribe = delete id r.pending_subscribe;
      pending_unsubscribe = insert id r.pending_unsubscribe;
    } in
    let one : wanted r' j ≡ (not (eqb j id) && wanted r j) =
      unfold wanted in
      ground (arith, has-delete j id r.pending_subscribe, has-insert j id r.pending_unsubscribe) in
    ground (arith, one, wanted-queue_unsubscribe ids r' j)

-- The manager with its connection; `accepts` says which writes succeed, and `served` is the venue's
-- filter on the connection.
pub record Machine : Type 0 where
  pub registry : Registry
  pub connected : Bool
  pub accepts : Frame → Bool
  pub served : Text → Bool

pub data Event : Type 0 where
  caller_subscribes : List Text → Event
  caller_unsubscribes : List Text → Event
  connects : Event
  drops : Event
  stops : Event

abbrev pub written : Machine → Registry × List Frame → Machine
written m (r, frames) = record m { registry = r; served = λ j. serves frames j (m.served j) }

abbrev pub link_of : Machine → Link
link_of m = record { connected = m.connected; accepts = m.accepts }

unfoldable pub step : Event → Machine → Machine
unfolding subscribe_markets unsubscribe_markets on_connect clear_subscriptions
step (caller_subscribes ids) m = written m (subscribe_markets (link_of m) ids m.registry)
step (caller_unsubscribes ids) m = written m (unsubscribe_markets (link_of m) ids m.registry)
step connects m =
    if m.connected
    then m
    else let (r, frames, usable) = on_connect (link_of m) m.registry in
      written (record m { connected = usable; served = λ _. false }) (r, frames)
step drops m = record m { connected = false; served = λ _. false }
step stops m = record m {
  registry = clear_subscriptions m.registry;
  connected = false;
  served = λ _. false;
}

unfoldable pub run : List Event → Machine → Machine
run [] m = m
run (e ∷ es) m = run es (step e m)

-- A new manager, on a network where the given writes succeed.
unfoldable pub new_machine : (Frame → Bool) → Machine
new_machine accepts = record {
  registry = new_registry;
  connected = false;
  accepts = accepts;
  served = λ _. false;
}

-- The specification: what the caller has asked for of one market.
abbrev pub intents : List Event → Text → Bool → Bool
intents [] j b = b
intents (caller_subscribes ids ∷ es) j b = intents es j (has j ids || b)
intents (caller_unsubscribes ids ∷ es) j b = intents es j (not (has j ids) && b)
intents (connects ∷ es) j b = intents es j b
intents (drops ∷ es) j b = intents es j b
intents (stops ∷ es) j b = intents es j false
