-- ===== src/Polymarket/Market/Events/Owned.antt =====
-- Which events pkg/polymarket's market channel dispatches for a message.
use go_exchange_connector.Prelude.{
  ℕ, suc, Text, codes, eqb, Bool, true, false, not, List, [], ◌∷◌, Option, none, some, ◌≡◌, refl,
  sym, if◌then◌else◌, Bool-cases, inl, inr, All,
}
use go_exchange_connector.Prelude.Int.{ℤ}
use go_exchange_connector.Connector.Dispatch.Numbered.{
  Stamp, Numbered, dispatch_if-Numbered, append-Numbered,
}
use go_exchange_connector.Polymarket.Market.{Registry, is_subscribed}
use go_exchange_connector.Polymarket.Market.Latency.{Tracker}
use go_exchange_connector.Polymarket.Market.Payloads.{PriceChangeItem}
use go_exchange_connector.Polymarket.Market.Events.{
  Event, price_change, book_snapshot, trade, tick_change, market_resolved, Std, Moment, Handled,
  own_items, no_items, dispatched_if, decoded, handle_price_change, handle_book,
  handle_last_trade_price, handle_tick_size_change, handle_market_resolved, route, State,
  process_typed, process_all, split_message, process_split, process_message,
}

abbrev pub stamp_of : Event → Stamp
stamp_of (price_change s market changes) = s
stamp_of (book_snapshot s market asset_id hash bids asks) = s
stamp_of (trade s asset_id side size price) = s
stamp_of (tick_change s asset_id market old new) = s
stamp_of (market_resolved s id condition_id asset_id outcome) = s

abbrev pub number : Event → ℤ
number e = (stamp_of e).seq_id

abbrev pub IsOwn : Registry → PriceChangeItem → Type 0
IsOwn reg pc = is_subscribed reg pc.asset_id ≡ true

-- What the event is about is subscribed to; a price change has at least one item.
abbrev pub IsOf : Registry → Event → Type 0
IsOf reg (price_change s market changes) = All (IsOwn reg) changes × (no_items changes ≡ false)
IsOf reg (book_snapshot s market asset_id hash bids asks) = is_subscribed reg asset_id ≡ true
IsOf reg (trade s asset_id side size price) = is_subscribed reg asset_id ≡ true
IsOf reg (tick_change s asset_id market old new) = is_subscribed reg asset_id ≡ true
IsOf reg (market_resolved s id condition_id asset_id outcome) = Unit

-- The event fits a moment: its subject is subscribed to then, and it was received then.
abbrev pub IsAt : Moment → Event → Type 0
IsAt at e = IsOf at.registry e × ((stamp_of e).received_at ≡ at.received_at)

-- The event fits one of the moments.
abbrev pub IsFit : (ℕ → Moment) → Event → Type 0
IsFit moments e = (n : ℕ) × IsAt (moments n) e

own_items-IsOwn :
    (reg : Registry) (pcs : List PriceChangeItem) → All (IsOwn reg) (own_items reg pcs)
unfolding own_items
own_items-IsOwn reg [] = tt
own_items-IsOwn reg (pc ∷ pcs) = elim (Bool-cases (is_subscribed reg pc.asset_id)) [
  | inl own ↦ rw own (own, own_items-IsOwn reg pcs)
  | inr other ↦ rw other (own_items-IsOwn reg pcs)
]

not-true : (b : Bool) → not b ≡ true → b ≡ false
not-true true h = sym h
not-true false h = refl

module _ (std : Std) (moments : ℕ → Moment) where
  -- What a handler dispatches is numbered, and fits one of the moments.
  abbrev IsHandled : ℤ → Handled → Type 0
  IsHandled seq h = Numbered number (IsFit moments) seq h.dispatched

  if_IsHandled :
      (seq : ℤ) (b : Bool) (x y : Handled)
      → IsHandled seq x
      → IsHandled seq y
      → IsHandled seq (if b then x else y)
  if_IsHandled seq true x y p q = p
  if_IsHandled seq false x y p q = q

  -- The handlers of round n.
  module _ (n : ℕ) (tracker : Tracker) (seq : ℤ) where
    decoded-IsHandled :
        {A : Type 0} (message : Option A) (handle : A → Handled)
        → ((ev : A) → IsHandled seq (handle ev))
        → IsHandled seq (decoded std (moments n) tracker seq message handle)
    unfolding decoded Numbered
    decoded-IsHandled none handle each = refl
    decoded-IsHandled (some ev) handle each = each ev

    handle_price_change-IsHandled :
        (raw : Text) → IsHandled seq (handle_price_change std (moments n) tracker seq raw)
    unfolding handle_price_change dispatched_if
    handle_price_change-IsHandled raw = decoded-IsHandled (std.price_change_of raw) _ (λ ev.
        let items = own_items (moments n).registry ev.price_changes in
        dispatch_if-Numbered number (IsFit moments) seq (not (no_items items)) _
          (λ h. (n, ((own_items-IsOwn (moments n).registry ev.price_changes, not-true _ h), refl)))
          refl)

    handle_book-IsHandled :
        (raw : Text) → IsHandled seq (handle_book std (moments n) tracker seq raw)
    unfolding handle_book dispatched_if
    handle_book-IsHandled raw = decoded-IsHandled (std.book_of raw) _ (λ ev.
        dispatch_if-Numbered number (IsFit moments) seq
          (is_subscribed (moments n).registry ev.asset_id) _ (λ h. (n, (h, refl))) refl)

    handle_last_trade_price-IsHandled :
        (raw : Text) → IsHandled seq (handle_last_trade_price std (moments n) tracker seq raw)
    unfolding handle_last_trade_price dispatched_if
    handle_last_trade_price-IsHandled raw = decoded-IsHandled (std.last_trade_price_of raw) _ (λ ev.
        dispatch_if-Numbered number (IsFit moments) seq
          (is_subscribed (moments n).registry ev.asset_id) _ (λ h. (n, (h, refl))) refl)

    handle_tick_size_change-IsHandled :
        (raw : Text) → IsHandled seq (handle_tick_size_change std (moments n) tracker seq raw)
    unfolding handle_tick_size_change dispatched_if
    handle_tick_size_change-IsHandled raw = decoded-IsHandled (std.tick_size_change_of raw) _ (λ ev.
        dispatch_if-Numbered number (IsFit moments) seq
          (is_subscribed (moments n).registry ev.asset_id) _ (λ h. (n, (h, refl))) refl)

    handle_market_resolved-IsHandled :
        (raw : Text) → IsHandled seq (handle_market_resolved std (moments n) tracker seq raw)
    unfolding handle_market_resolved dispatched_if
    handle_market_resolved-IsHandled raw =
        decoded-IsHandled (std.market_resolved_of raw) _
          (λ ev. dispatch_if-Numbered number (IsFit moments) seq true _ (λ h. (n, (tt, refl))) refl)

    route-IsHandled : (kind raw : Text) → IsHandled seq (route std (moments n) tracker seq kind raw)
    unfolding route Numbered
    route-IsHandled kind raw =
        if_IsHandled seq (eqb kind (codes "price_change")) _ _ (handle_price_change-IsHandled raw) (
          if_IsHandled seq (eqb kind (codes "book")) _ _ (handle_book-IsHandled raw) (
            if_IsHandled seq (eqb kind (codes "last_trade_price")) _ _
              (handle_last_trade_price-IsHandled raw)
              (if_IsHandled seq (eqb kind (codes "tick_size_change")) _ _
                (handle_tick_size_change-IsHandled raw)
                (if_IsHandled seq (eqb kind (codes "market_resolved")) _ _
                  (handle_market_resolved-IsHandled raw) refl))))

  -- The events of a run from a state.
  abbrev AreNumbered : State → State × List Event → Type 0
  AreNumbered st (st', events) = Numbered number (IsFit moments) st.seq (events, st'.seq)

  process_typed-Numbered :
      (n : ℕ) (raw : Text) (kind : Option Text) (st : State)
      → AreNumbered st (process_typed std (moments n) raw kind st)
  unfolding process_typed Numbered
  process_typed-Numbered n raw none st = refl
  process_typed-Numbered n raw (some kind) st = route-IsHandled n st.tracker st.seq kind raw

  process_all-Numbered :
      (n : ℕ) (raws : List Text) (st : State) → AreNumbered st (process_all std moments n raws st)
  unfolding process_all Numbered
  process_all-Numbered n [] st = refl
  process_all-Numbered n (raw ∷ raws) st =
      let (st', events) = process_typed std (moments n) raw (std.event_type raw) st in
      append-Numbered number (IsFit moments) st.seq st'.seq _ events _
        (process_typed-Numbered n raw (std.event_type raw) st)
        (process_all-Numbered (suc n) raws st')

  process_split-Numbered :
      (raws : Option (List Text)) (st : State) → AreNumbered st (process_split std moments raws st)
  unfolding process_split Numbered
  process_split-Numbered none st = refl
  process_split-Numbered (some raws) st = process_all-Numbered 0 raws st

-- Let one worker handle a message while nothing else takes a number from NextSeqID, and let each part
-- of the message find some subscriptions and some time on the clock. Whatever message comes in, and whatever JSON makes of it: each event that is dispatched for it was received at one of
-- these moments, and what it is about is subscribed to at that moment (a price change only has items
-- of such assets, and at least one; a resolution may be of any market); it has the number after the
-- event before it; and the counter is left at the last number.
pub process_message-Numbered :
    (std : Std) (moments : ℕ → Moment) (body : Text) (st : State)
    → let (st', events) = process_message std moments body st in
      Numbered number (IsFit moments) st.seq (events, st'.seq)
unfolding process_message
process_message-Numbered std moments body st =
    process_split-Numbered std moments (split_message std body) st
