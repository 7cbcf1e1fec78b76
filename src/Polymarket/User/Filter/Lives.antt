-- ===== src/Polymarket/User/Filter/Lives.antt =====
-- The filter of pkg/polymarket/user.go against the caller and the venue, over whole runs.
use go_exchange_connector.Prelude.{
  Text, Bool, true, false, List, [], ◌∷◌, ◌≡◌, refl, ◌∙◌, arith, if◌then◌else◌,
}
use go_exchange_connector.Prelude.Sets.{has, insert, delete}
use go_exchange_connector.Polymarket.User.{
  Registry, Frame, new_registry, flush, flush_unsubscribes, queue_subscribe, subscribe_markets,
  queue_unsubscribe, unsubscribe_markets, on_connect, clear_subscriptions,
}
use go_exchange_connector.Polymarket.User.Filter.{
  wanted, wanted-flush, has-flush_unsubscribes, has-flush_subscribes, serves-flush,
  wanted-queue_subscribe, wanted-queue_unsubscribe, Machine, Event, caller_subscribes,
  caller_unsubscribes, connects, drops, stops, written, link_of, step, run, new_machine, intents,
}

wanted-step :
    (e : Event) (m : Machine) (j : Text)
    → wanted (step e m).registry j ≡ intents (e ∷ []) j (wanted m.registry j)
unfolding step subscribe_markets unsubscribe_markets on_connect
wanted-step (caller_subscribes ids) m j =
    wanted-flush (link_of m) (queue_subscribe ids m.registry) j
    ∙ wanted-queue_subscribe ids m.registry j
wanted-step (caller_unsubscribes ids) m j =
    wanted-flush (link_of m) (queue_unsubscribe ids m.registry) j
    ∙ wanted-queue_unsubscribe ids m.registry j
wanted-step connects m j = ground arith
wanted-step drops m j = refl
wanted-step stops m j = unfold wanted in unfold clear_subscriptions in unfold has in refl

filter-run_from :
    (es : List Event) (m : Machine) (j : Text)
    → wanted (run es m).registry j ≡ intents es j (wanted m.registry j)
unfolding run
filter-run_from [] m j = refl
filter-run_from (caller_subscribes ids ∷ es) m j = ground (
  arith,
  filter-run_from es (step (caller_subscribes ids) m) j,
  wanted-step (caller_subscribes ids) m j,
)
filter-run_from (caller_unsubscribes ids ∷ es) m j = ground (
  arith,
  filter-run_from es (step (caller_unsubscribes ids) m) j,
  wanted-step (caller_unsubscribes ids) m j,
)
filter-run_from (connects ∷ es) m j =
    ground (arith, filter-run_from es (step connects m) j, wanted-step connects m j)
filter-run_from (drops ∷ es) m j =
    ground (arith, filter-run_from es (step drops m) j, wanted-step drops m j)
filter-run_from (stops ∷ es) m j =
    ground (arith, filter-run_from es (step stops m) j, wanted-step stops m j)

-- From a new manager on, over any order of calls, connections and drops, with any writes failing, the registry wants exactly
-- the markets that the caller has subscribed to and not unsubscribed from since.
pub filter-run :
    (accepts : Frame → Bool) (es : List Event) (j : Text)
    → wanted (run es (new_machine accepts)).registry j ≡ intents es j false
unfolding new_machine
filter-run accepts es j =
    filter-run_from es (new_machine accepts) j
    ∙ unfold wanted in unfold new_registry in unfold has in refl

-- What is queued counts as subscribed once it is flushed.
pub subscribed-queue_subscribe :
    (ids : List Text) (r : Registry) → (queue_subscribe ids r).subscribed ≡ r.subscribed
unfolding queue_subscribe
subscribed-queue_subscribe [] r = refl
subscribed-queue_subscribe (id ∷ ids) r = subscribed-queue_subscribe ids (record r {
  pending_unsubscribe = delete id r.pending_unsubscribe;
  pending_subscribe =
      if has id r.subscribed then r.pending_subscribe else insert id r.pending_subscribe;
})

pub subscribed-queue_unsubscribe :
    (ids : List Text) (r : Registry) → (queue_unsubscribe ids r).subscribed ≡ r.subscribed
unfolding queue_unsubscribe
subscribed-queue_unsubscribe [] r = refl
subscribed-queue_unsubscribe (id ∷ ids) r = subscribed-queue_unsubscribe ids (record r {
  pending_subscribe = delete id r.pending_subscribe;
  pending_unsubscribe = insert id r.pending_unsubscribe;
})

-- The venue's filter is the subscribed set.
abbrev pub IsAgreed : Machine → Text → Type 0
IsAgreed m j = m.served j ≡ has j m.registry.subscribed

pub flush_agrees :
    (m : Machine) (r : Registry) (j : Text)
    → m.connected ≡ true
    → ((f : Frame) → m.accepts f ≡ true)
    → r.subscribed ≡ m.registry.subscribed
    → IsAgreed m j
    → let m' = written m (flush (link_of m) r) in
      IsAgreed m' j × (m'.served j ≡ wanted m'.registry j)
unfolding flush wanted has
flush_agrees m r j up fine same agreed =
    let shown =
      serves-flush (link_of m) j r.pending_subscribe r.pending_unsubscribe r.subscribed
        (flush_unsubscribes (link_of m) r.pending_unsubscribe r.subscribed).0 (m.served j) fine in
    let removed = has-flush_unsubscribes (link_of m) j r.pending_unsubscribe r.subscribed in
    let added =
      has-flush_subscribes (link_of m) j r.pending_subscribe
        (flush_unsubscribes (link_of m) r.pending_unsubscribe r.subscribed).0 in
    (
      ground (arith, up, same, agreed, shown, removed, added),
      ground (arith, up, same, agreed, shown, removed, added),
    )
