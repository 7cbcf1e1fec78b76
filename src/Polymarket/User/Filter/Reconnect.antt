-- ===== src/Polymarket/User/Filter/Reconnect.antt =====
-- The filter of pkg/polymarket/user.go at the venue, on the first connection and on later ones.
use go_exchange_connector.Prelude.{
  Text, Bool, true, false, List, [], ◌∷◌, ◌++◌, ◌≡◌, refl, ◌∙◌, arith, if◌then◌else◌, All,
}
use go_exchange_connector.Prelude.Sets.{has, insert, delete}
use go_exchange_connector.Polymarket.User.{
  Registry, Frame, Link, handshake, write, new_registry, flush, flush_unsubscribes,
  flush_subscribes, queue_subscribe, subscribe_markets, queue_unsubscribe, unsubscribe_markets,
  on_connect,
}
use go_exchange_connector.Polymarket.User.Filter.{
  wanted, serves, Machine, Event, caller_subscribes, caller_unsubscribes, connects, drops, step,
  run, new_machine, intents,
}
use go_exchange_connector.Polymarket.User.Filter.Lives.{
  filter-run, subscribed-queue_subscribe, subscribed-queue_unsubscribe, IsAgreed, flush_agrees,
}

-- A call of SubscribeMarkets or of UnsubscribeMarkets.
pub data Call : Type 0 where
  sub : List Text → Call
  unsub : List Text → Call

abbrev pub as_event : Call → Event
as_event (sub ids) = caller_subscribes ids
as_event (unsub ids) = caller_unsubscribes ids

abbrev pub as_events : List Call → List Event
as_events [] = []
as_events (c ∷ cs) = as_event c ∷ as_events cs

call_agrees :
    (c : Call) (m : Machine) (j : Text)
    → m.connected ≡ true
    → ((f : Frame) → m.accepts f ≡ true)
    → IsAgreed m j
    → let m' = step (as_event c) m in
      IsAgreed m' j × (m'.served j ≡ wanted m'.registry j) × (m'.connected ≡ true)
unfolding step subscribe_markets unsubscribe_markets
call_agrees (sub ids) m j up fine agreed =
    let (kept, shown) =
      flush_agrees m (queue_subscribe ids m.registry) j up fine
        (subscribed-queue_subscribe ids m.registry) agreed in
    (kept, shown, up)
call_agrees (unsub ids) m j up fine agreed =
    let (kept, shown) =
      flush_agrees m (queue_unsubscribe ids m.registry) j up fine
        (subscribed-queue_unsubscribe ids m.registry) agreed in
    (kept, shown, up)

same_network :
    (c : Call) (m : Machine)
    → ((f : Frame) → m.accepts f ≡ true)
    → (f : Frame) → (step (as_event c) m).accepts f ≡ true
unfolding step
same_network (sub ids) m fine = fine
same_network (unsub ids) m fine = fine

networks_same :
    (cs : List Call) (m : Machine)
    → ((f : Frame) → m.accepts f ≡ true)
    → (f : Frame) → (run (as_events cs) m).accepts f ≡ true
unfolding run
networks_same [] m fine = fine
networks_same (c ∷ cs) m fine = networks_same cs (step (as_event c) m) (same_network c m fine)

calls_agree :
    (c : Call) (cs : List Call) (m : Machine) (j : Text)
    → m.connected ≡ true
    → ((f : Frame) → m.accepts f ≡ true)
    → IsAgreed m j
    → let m' = run (as_events (c ∷ cs)) m in m'.served j ≡ wanted m'.registry j
unfolding run
calls_agree c [] m j up fine agreed = (call_agrees c m j up fine agreed).1
calls_agree c (d ∷ cs) m j up fine agreed =
    let (kept, shown, still) = call_agrees c m j up fine agreed in
    calls_agree d cs (step (as_event c) m) j still (same_network c m fine) kept

-- Before there is a connection nothing counts as subscribed.
call_offline :
    (c : Call) (m : Machine)
    → m.connected ≡ false
    → m.registry.subscribed ≡ []
    → let m' = step (as_event c) m in (m'.connected ≡ false) × (m'.registry.subscribed ≡ [])
unfolding step subscribe_markets unsubscribe_markets flush
call_offline (sub ids) m down empty =
    (down, ground (arith, down, subscribed-queue_subscribe ids m.registry, empty))
call_offline (unsub ids) m down empty =
    (down, ground (arith, down, subscribed-queue_unsubscribe ids m.registry, empty))

calls_offline :
    (cs : List Call) (m : Machine)
    → m.connected ≡ false
    → m.registry.subscribed ≡ []
    → let m' = run (as_events cs) m in (m'.connected ≡ false) × (m'.registry.subscribed ≡ [])
unfolding run
calls_offline [] m down empty = (down, empty)
calls_offline (c ∷ cs) m down empty =
    let (down', empty') = call_offline c m down empty in
    calls_offline cs (step (as_event c) m) down' empty'

run-append : (es fs : List Event) (m : Machine) → run (es ++ fs) m ≡ run fs (run es m)
unfolding run
run-append [] fs m = refl
run-append (e ∷ es) fs m = run-append es fs (step e m)

-- Let every write succeed. Calls before the first connection, and at least one call on it: then the
-- venue's filter holds exactly the markets that the caller has subscribed to and not unsubscribed from since.
pub first_connection-serves :
    (accepts : Frame → Bool) (before after : List Call) (c : Call) (j : Text)
    → ((f : Frame) → accepts f ≡ true)
    → let es = as_events before ++ connects ∷ as_events (c ∷ after) in
      (run es (new_machine accepts)).served j ≡ intents es j false
unfolding new_machine
first_connection-serves accepts before after c j fine =
    let start = new_machine accepts in
    let m = run (as_events before) start in
    let (down, empty) = calls_offline before start refl (unfold new_registry in refl) in
    let es = as_events before ++ connects ∷ as_events (c ∷ after) in
    let opened = run (connects ∷ []) m in
    let before_open = networks_same before start fine in
    let open_network : (f : Frame) → opened.accepts f ≡ true =
      λ f. unfold run in unfold step in ground (arith, down, before_open f) in
    let up : opened.connected ≡ true =
      unfold run in
      unfold step in unfold on_connect in ground (arith, down, before_open handshake) in
    let agreed : IsAgreed opened j =
      unfold run in
      unfold step in
      unfold on_connect in
      unfold write in
      unfold serves in unfold has in ground (arith, down, empty, before_open handshake) in
    let whole : run es start ≡ run (as_events (c ∷ after)) opened =
      run-append (as_events before) (connects ∷ as_events (c ∷ after)) start ∙ unfold run in refl in
    let shown = calls_agree c after opened j up open_network agreed in
    rw (← filter-run accepts es j) (rw whole shown)

queue_subscribe-known :
    (ids : List Text) (r : Registry)
    → r.pending_subscribe ≡ []
    → r.pending_unsubscribe ≡ []
    → All (λ id. has id r.subscribed ≡ true) ids
    → ((queue_subscribe ids r).pending_subscribe ≡ [])
      × ((queue_subscribe ids r).pending_unsubscribe ≡ [])
unfolding queue_subscribe delete
queue_subscribe-known [] r no_sub no_unsub known = (no_sub, no_unsub)
queue_subscribe-known (id ∷ ids) r no_sub no_unsub known =
    queue_subscribe-known ids
      (record r {
        pending_unsubscribe = delete id r.pending_unsubscribe;
        pending_subscribe =
            if has id r.subscribed then r.pending_subscribe else insert id r.pending_subscribe;
      })
      (ground (arith, known.0, no_sub)) (ground (arith, no_unsub)) known.1

quiet_subscribe :
    (link : Link) (r : Registry) (ids : List Text)
    → r.pending_subscribe ≡ []
    → r.pending_unsubscribe ≡ []
    → All (λ id. has id r.subscribed ≡ true) ids
    → (subscribe_markets link ids r).1 ≡ []
unfolding subscribe_markets flush flush_subscribes flush_unsubscribes
quiet_subscribe link r ids no_sub no_unsub known =
    let (no_sub', no_unsub') = queue_subscribe-known ids r no_sub no_unsub known in ground arith

-- What happens on a reconnect: if nothing is pending, and the connection drops and is made anew,
-- then subscribing again to markets that were subscribed leaves the new connection's filter empty.
pub resubscribe_silent :
    (m : Machine) (ids : List Text) (j : Text)
    → m.registry.pending_subscribe ≡ []
    → m.registry.pending_unsubscribe ≡ []
    → All (λ id. has id m.registry.subscribed ≡ true) ids
    → (run (drops ∷ connects ∷ caller_subscribes ids ∷ []) m).served j ≡ false
unfolding run step on_connect serves subscribe_markets write
resubscribe_silent m ids j none_sub none_unsub known =
    let link : Link = record { connected = m.accepts handshake; accepts = m.accepts } in
    ground (arith, quiet_subscribe link m.registry ids none_sub none_unsub known)
