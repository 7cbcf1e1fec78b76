-- ===== src/Hyperliquid/Frames/Silent.antt =====
-- What Unsubscribe of pkg/hyperliquid/hyperliquid.go keeps from the caller, frames that are still in
-- the queue included.
use go_exchange_connector.Prelude.{
  Text, eqb, eqb_iff, Bool, true, false, List, [], ◌∷◌, ◌++◌, map, none, is_some, ◌≡◌, refl, ◌∙◌,
  ap, sym, arith, Bool-cases, Option-cases, inl, inr, All,
}
use go_exchange_connector.Prelude.Int.{ℤ}
use go_exchange_connector.Prelude.Sets.{has}
use go_exchange_connector.Prelude.Dict.{lookup, remove, lookup-remove}
use go_exchange_connector.Connector.Dispatch.{next_seq_id}
use go_exchange_connector.Hyperliquid.Channels.{
  l2_book, trades, bbo, active_asset_ctx, all_mids, candle,
}
use go_exchange_connector.Hyperliquid.Subscription.{Subscription, key, global}
use go_exchange_connector.Hyperliquid.Registry.{
  Registry, Link, has_subscription, remove_subs, unsubscribe,
}
use go_exchange_connector.Hyperliquid.Frames.{
  Event, book_event, trade_event, bbo_event, asset_ctx_event, all_mids_event, candle_event,
  error_event, Json, Frame, subscribed, process_frame,
}
use go_exchange_connector.Connector.Dispatch.Numbered.{Numbered}
use go_exchange_connector.Hyperliquid.Frames.Admitted.{IsOf, IsFit, number, process_frame-Numbered}
use go_exchange_connector.Hyperliquid.Frames.Queue.{
  World, Step, arrives, works, drops, subscribes, unsubscribes, work, step, run,
}

-- The key of the subscription that an event belongs to.
abbrev key_at : Text → Text → Text → Text
key_at ch coin interval = key (record (global ch) { coin = coin; interval = interval })

-- Does an event belong to the subscription with a key?
abbrev pub belongs : Text → Event → Bool
belongs k (book_event s coin bids asks) = eqb k (key_at l2_book coin [])
belongs k (trade_event s t) = eqb k (key_at trades t.coin [])
belongs k (bbo_event s coin bid ask) = eqb k (key_at bbo coin [])
belongs k (asset_ctx_event s coin spot ctx) = eqb k (key_at active_asset_ctx coin [])
belongs k (all_mids_event s mids) = eqb k (key_at all_mids [] [])
belongs k (candle_event s opened closed c) = eqb k (key_at candle c.coin c.interval)
belongs k (error_event s message) = false

-- No event belongs to a key.
abbrev pub AreSilent : Text → List Event → Type 0
AreSilent k es = All (λ (e : Event). belongs k e ≡ false) es

-- Steps that subscribe to nothing.
abbrev pub none_subscribes : List Step → Bool
none_subscribes [] = true
none_subscribes (subscribes link subs ∷ ss) = false
none_subscribes (arrives f ∷ ss) = none_subscribes ss
none_subscribes (works ∷ ss) = none_subscribes ss
none_subscribes (drops ∷ ss) = none_subscribes ss
none_subscribes (unsubscribes link subs ∷ ss) = none_subscribes ss

absent_key :
    (reg : Registry) (k ch coin interval : Text)
    → lookup k reg ≡ none
    → subscribed reg ch coin interval ≡ true
    → eqb k (key_at ch coin interval) ≡ false
unfolding subscribed has_subscription
absent_key reg k ch coin interval absent own = elim (Bool-cases (eqb k (key_at ch coin interval))) [
  | inr other ↦ other
  | inl same ↦
      let found = ap (λ (x : Text). is_some (lookup x reg)) (sym ((eqb_iff k _).0 same)) in
      absurd (cc (found, own, absent))
]

IsOf-belongs :
    (reg : Registry) (k : Text) (e : Event) → lookup k reg ≡ none → IsOf reg e → belongs k e ≡ false
IsOf-belongs reg k (book_event s coin bids asks) h own = absent_key reg k l2_book coin [] h own
IsOf-belongs reg k (trade_event s t) h own = absent_key reg k trades t.coin [] h own
IsOf-belongs reg k (bbo_event s coin bid ask) h own = absent_key reg k bbo coin [] h own
IsOf-belongs reg k (asset_ctx_event s coin spot ctx) h own =
    absent_key reg k active_asset_ctx coin [] h own
IsOf-belongs reg k (all_mids_event s mids) h own = absent_key reg k all_mids [] [] h own
IsOf-belongs reg k (candle_event s opened closed c) h own =
    absent_key reg k candle c.coin c.interval h own
IsOf-belongs reg k (error_event s message) h own = refl

Numbered-AreSilent :
    (reg : Registry) (k : Text) (rx seq : ℤ) (es : List Event) (last : ℤ)
    → lookup k reg ≡ none
    → Numbered number (IsFit reg rx) seq (es, last)
    → AreSilent k es
unfolding Numbered
Numbered-AreSilent reg k rx seq [] last h n = tt
Numbered-AreSilent reg k rx seq (e ∷ es) last h (fit, numbered, rest) =
    (IsOf-belongs reg k e h fit.0, Numbered-AreSilent reg k rx (next_seq_id seq) es last h rest)

work-AreSilent :
    (json : Json) (k : Text) (queue : List Frame) (w : World)
    → lookup k w.registry ≡ none
    → AreSilent k (work json queue w).1 × (lookup k (work json queue w).0.registry ≡ none)
unfolding work
work-AreSilent json k [] w h = (tt, h)
work-AreSilent json k (f ∷ rest) w h =
    let (events, last) = process_frame json w.registry w.seq f in
    (
      Numbered-AreSilent w.registry k f.rx w.seq events last h
          (process_frame-Numbered json w.registry w.seq f),
      h,
    )

remove-absent : (k j : Text) (reg : Registry) → lookup k reg ≡ none → lookup k (remove j reg) ≡ none
remove-absent k j reg h = ground (arith, h, lookup-remove k j reg)

remove_subs-absent :
    (k : Text) (subs : List Subscription) (reg : Registry)
    → lookup k reg ≡ none
    → lookup k (remove_subs subs reg).0 ≡ none
unfolding remove_subs
remove_subs-absent k [] reg h = h
remove_subs-absent k (s ∷ ss) reg h = elim (Option-cases (lookup (key s) reg)) [
  | inl e ↦ rw (e, remove_subs) (remove_subs-absent k ss reg h)
  | inr (stored, e) ↦
      rw (e, remove_subs)
        (remove_subs-absent k ss (remove (key s) reg) (remove-absent k (key s) reg h))
]

-- A subscription that is removed is no longer registered.
remove_subs-lookup :
    (k : Text) (subs : List Subscription) (reg : Registry)
    → has k (map key subs) ≡ true
    → lookup k (remove_subs subs reg).0 ≡ none
unfolding remove_subs has
remove_subs-lookup k [] reg h = cc
remove_subs-lookup k (s ∷ ss) reg h = elim (Bool-cases (eqb k (key s))) [
  | inl same ↦ elim (Option-cases (lookup (key s) reg)) [
    | inl e ↦
        rw (e, remove_subs)
          (remove_subs-absent k ss reg
            (ap (λ (x : Text). lookup x reg) ((eqb_iff k (key s)).0 same) ∙ e))
    | inr (stored, e) ↦
        rw (e, remove_subs)
          (remove_subs-absent k ss (remove (key s) reg)
            (ground (arith, same, lookup-remove k (key s) reg)))
  ]
  | inr other ↦ elim (Option-cases (lookup (key s) reg)) [
    | inl e ↦ rw (e, remove_subs) (remove_subs-lookup k ss reg (ground (arith, other)))
    | inr (stored, e) ↦
        rw (e, remove_subs) (remove_subs-lookup k ss (remove (key s) reg) (ground (arith, other)))
  ]
]

All-append :
    (k : Text) (es later : List Event)
    → AreSilent k es
    → AreSilent k later
    → AreSilent k (es ++ later)
All-append k [] later p q = q
All-append k (e ∷ es) later p q = (p.0, All-append k es later p.1 q)

run-AreSilent :
    (json : Json) (k : Text) (ss : List Step) (w : World)
    → lookup k w.registry ≡ none
    → none_subscribes ss ≡ true
    → AreSilent k (run json ss w).1
unfolding run step unsubscribe
run-AreSilent json k [] w h quiet = tt
run-AreSilent json k (subscribes link subs ∷ ss) w h quiet = cc
run-AreSilent json k (arrives f ∷ ss) w h quiet =
    run-AreSilent json k ss (step json (arrives f) w).0 h quiet
run-AreSilent json k (drops ∷ ss) w h quiet = run-AreSilent json k ss (step json drops w).0 h quiet
run-AreSilent json k (works ∷ ss) w h quiet =
    let (silent, absent) = work-AreSilent json k w.queue w h in
    All-append k _ _ silent (run-AreSilent json k ss (step json works w).0 absent quiet)
run-AreSilent json k (unsubscribes link subs ∷ ss) w h quiet =
    run-AreSilent json k ss (step json (unsubscribes link subs) w).0
      (remove_subs-absent k subs w.registry h) quiet

-- After Unsubscribe, and for as long as the caller subscribes to nothing, no event of a subscription
-- that was named is dispatched, whatever frames are still in the queue or come in later, and however
-- the subscription that was named differs from the registered one in the options of the book.
pub unsubscribed_silent :
    (json : Json) (link : Link) (subs : List Subscription) (k : Text) (ss : List Step) (w : World)
    → has k (map key subs) ≡ true
    → none_subscribes ss ≡ true
    → AreSilent k (run json (unsubscribes link subs ∷ ss) w).1
unfolding run step unsubscribe
unsubscribed_silent json link subs k ss w named quiet =
    run-AreSilent json k ss (step json (unsubscribes link subs) w).0
      (remove_subs-lookup k subs w.registry named) quiet
