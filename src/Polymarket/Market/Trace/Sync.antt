-- ===== src/Polymarket/Market/Trace/Sync.antt =====
-- The venue against the registry of pkg/polymarket/market.go over whole runs in which the transport
-- accepts every write.
use go_exchange_connector.Prelude.{
  Text, Bool, true, false, List, [], ◌∷◌, ◌≡◌, refl, arith, if◌then◌else◌, inl, inr, Bool-cases,
}
use go_exchange_connector.Prelude.Sets.{has, insert, delete}
use go_exchange_connector.Polymarket.Market.{
  Registry, Frame, new_registry, flush_pending, subscribe, unsubscribe, queue_subscribe,
  queue_unsubscribe,
}
use go_exchange_connector.Polymarket.Market.Wanted.{wanted}
use go_exchange_connector.Polymarket.Market.Wire.{flush_pending-serves, on_connect-serves}
use go_exchange_connector.Polymarket.Market.Trace.{
  Machine, Event, caller_subscribes, caller_unsubscribes, flush_tick, connects, drops, stops, step,
  run, new_machine, intents, wanted-run, InSync, link_of, written,
}

queue_subscribe-subscribed :
    (ids : List Text) (r : Registry) → (queue_subscribe ids r).subscribed ≡ r.subscribed
unfolding queue_subscribe
queue_subscribe-subscribed [] r = refl
queue_subscribe-subscribed (id ∷ ids) r = queue_subscribe-subscribed ids (record r {
  pending_unsubscribe = delete id r.pending_unsubscribe;
  pending_subscribe =
      if has id r.subscribed then r.pending_subscribe else insert id r.pending_subscribe;
})

queue_unsubscribe-subscribed :
    (ids : List Text) (r : Registry) → (queue_unsubscribe ids r).subscribed ≡ r.subscribed
unfolding queue_unsubscribe
queue_unsubscribe-subscribed [] r = refl
queue_unsubscribe-subscribed (id ∷ ids) r = queue_unsubscribe-subscribed ids (record r {
  pending_subscribe = delete id r.pending_subscribe;
  pending_unsubscribe = insert id r.pending_unsubscribe;
})

-- What a step does when every write succeeds.
abbrev always : Frame → Bool
always f = true

-- A flush of a registry with the same subscribed set keeps the two in step.
written-InSync :
    (m : Machine) (r : Registry)
    → r.subscribed ≡ m.registry.subscribed
    → InSync m
    → InSync (written m (flush_pending (link_of always m) r))
unfolding flush_pending
written-InSync m r same sync = record {
  served_is = λ j live. ground (
    arith,
    same,
    sync.served_is j live,
    flush_pending-serves (link_of always m) r j live (λ f. refl),
  );
  none_to_add =
      λ live. ground (arith, flush_pending-serves (link_of always m) r [] live (λ f. refl));
  none_to_remove =
      λ live. ground (arith, flush_pending-serves (link_of always m) r [] live (λ f. refl));
}

greeted-InSync : (m : Machine) → m.connected ≡ false → InSync m → InSync (step always connects m)
unfolding step
greeted-InSync m down sync = record {
  served_is =
      λ j live. ground (arith, on_connect-serves (link_of always m) m.registry j (λ f. refl));
  none_to_add =
      λ live. ground (arith, on_connect-serves (link_of always m) m.registry [] (λ f. refl));
  none_to_remove =
      λ live. ground (arith, on_connect-serves (link_of always m) m.registry [] (λ f. refl));
}

step-InSync : (e : Event) (m : Machine) → InSync m → InSync (step always e m)
unfolding step subscribe unsubscribe
step-InSync (caller_subscribes ids) m sync =
    written-InSync m (queue_subscribe ids m.registry) (queue_subscribe-subscribed ids m.registry)
      sync
step-InSync (caller_unsubscribes ids) m sync =
    written-InSync m (queue_unsubscribe ids m.registry)
      (queue_unsubscribe-subscribed ids m.registry) sync
step-InSync flush_tick m sync = written-InSync m m.registry refl sync
step-InSync connects m sync = elim (Bool-cases m.connected) [
  | inl up ↦ simp up sync
  | inr down ↦ greeted-InSync m down sync
]
step-InSync drops m sync = elim (Bool-cases m.connected) [
  | inl up ↦
      simp up
        (record { served_is = λ j live. cc; none_to_add = λ live. cc; none_to_remove = λ live. cc })
  | inr down ↦ simp down sync
]
step-InSync stops m sync = record {
  served_is = λ j live. cc;
  none_to_add = λ live. cc;
  none_to_remove = λ live. cc;
}

-- A sequence of events during which every write succeeds.
abbrev pub reliably : List Event → List ((Frame → Bool) × Event)
reliably [] = []
reliably (e ∷ es) = (always, e) ∷ reliably es

run-InSync : (es : List Event) (m : Machine) → InSync m → InSync (run (reliably es) m)
unfolding run
run-InSync [] m sync = sync
run-InSync (e ∷ es) m sync = run-InSync es (step always e m) (step-InSync e m sync)

new_machine-InSync : InSync new_machine
unfolding new_machine
new_machine-InSync = record {
  served_is = λ j live. cc;
  none_to_add = λ live. cc;
  none_to_remove = λ live. cc;
}

new_machine-wants : (j : Text) → wanted new_machine.registry j ≡ false
unfolding new_machine new_registry has
new_machine-wants j = refl

-- End to end: start from a new manager and let calls, flushes, connections and drops come in any
-- order, with no write failing. Whenever there is a connection the venue serves exactly the assets
-- that the caller has subscribed to and not unsubscribed from since.
pub served-run :
    (es : List Event) (j : Text)
    → let m = run (reliably es) new_machine in
      m.connected ≡ true → m.served j ≡ intents (reliably es) j false
unfolding has
served-run es j live =
    let m = run (reliably es) new_machine in
    let sync = run-InSync es new_machine new_machine-InSync in
    let wants = wanted-run (reliably es) new_machine j in
    ground (
      arith,
      sync.served_is j live,
      sync.none_to_add live,
      sync.none_to_remove live,
      wants,
      new_machine-wants j,
    )
