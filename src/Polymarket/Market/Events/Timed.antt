-- ===== src/Polymarket/Market/Events/Timed.antt =====
-- What pkg/polymarket's market channel reports of the latency of its events.
use go_exchange_connector.Prelude.{
  ℕ, suc, Text, codes, eqb, Bool, true, false, not, List, [], ◌∷◌, ◌++◌, Option, none, some, ◌≡◌,
  refl, sym, ap, ◌∙◌, if◌then◌else◌,
}
use go_exchange_connector.Prelude.Int.{ℤ}
use go_exchange_connector.Prelude.Clock.{sub_time, safe_parse_timestamp}
use go_exchange_connector.Connector.Dispatch.Numbered.{Stamp, stamp, dispatch_if}
use go_exchange_connector.Polymarket.Market.{is_subscribed}
use go_exchange_connector.Polymarket.Market.Latency.{
  Tracker, new_tracker, record_sample, record_all, report, average, latest,
}
use go_exchange_connector.Polymarket.Market.Latency.Ring.{report-latest}
use go_exchange_connector.Polymarket.Market.Events.{
  Event, price_change, book_snapshot, trade, tick_change, market_resolved, Std, Moment, Handled,
  own_items, no_items, dispatched_if, timed, decoded, handle_price_change, handle_book,
  handle_last_trade_price, handle_tick_size_change, handle_market_resolved, route, State,
  process_typed, process_all, split_message, process_split, process_message, dispatch_messages,
}

abbrev latency : Stamp → ℤ
latency s = sub_time s.received_at s.timestamp

-- The latencies of the price changes and the books among some events.
unfoldable pub latencies : List Event → List ℤ
latencies [] = []
latencies (price_change s market changes ∷ es) = latency s ∷ latencies es
latencies (book_snapshot s market asset_id hash bids asks ∷ es) = latency s ∷ latencies es
latencies (trade s asset_id side size price ∷ es) = latencies es
latencies (tick_change s asset_id market old new ∷ es) = latencies es
latencies (market_resolved s id condition_id asset_id outcome ∷ es) = latencies es

-- A tracker that has recorded the latencies of some events since another.
AreTimed : Tracker → List Event → Tracker → Type 0
AreTimed before events after = after ≡ record_all (latencies events) before

AreTimed-append :
    (t t' t'' : Tracker) (es later : List Event)
    → AreTimed t es t'
    → AreTimed t' later t''
    → AreTimed t (es ++ later) t''
unfolding AreTimed latencies record_all
AreTimed-append t t' t'' [] later h after = rw (sym h) after
AreTimed-append t t' t'' (price_change s market changes ∷ es) later h after =
    AreTimed-append (record_sample (latency s) t) t' t'' es later h after
AreTimed-append t t' t'' (book_snapshot s market asset_id hash bids asks ∷ es) later h after =
    AreTimed-append (record_sample (latency s) t) t' t'' es later h after
AreTimed-append t t' t'' (trade s asset_id side size price ∷ es) later h after =
    AreTimed-append t t' t'' es later h after
AreTimed-append t t' t'' (tick_change s asset_id market old new ∷ es) later h after =
    AreTimed-append t t' t'' es later h after
AreTimed-append t t' t'' (market_resolved s id condition_id asset_id outcome ∷ es) later h after =
    AreTimed-append t t' t'' es later h after

module _ (std : Std) where
  -- What a handler leaves has recorded what it dispatched.
  IsTimed : Tracker → Handled → Type 0
  IsTimed t h = AreTimed t h.dispatched.0 h.tracker

  if_IsTimed :
      (t : Tracker) (b : Bool) (x y : Handled)
      → IsTimed t x
      → IsTimed t y
      → IsTimed t (if b then x else y)
  if_IsTimed t true x y p q = p
  if_IsTimed t false x y p q = q

  module _ (at : Moment) (t : Tracker) (seq : ℤ) where
    decoded-IsTimed :
        {A : Type 0} (message : Option A) (handle : A → Handled)
        → ((ev : A) → IsTimed t (handle ev))
        → IsTimed t (decoded std at t seq message handle)
    unfolding decoded IsTimed AreTimed latencies record_all
    decoded-IsTimed none handle each = refl
    decoded-IsTimed (some ev) handle each = each ev

    shown-IsTimed :
        (shown : Bool) (make : Stamp → Event) (timestamp : Text) (after : Tracker)
        → let ts = safe_parse_timestamp std.scan_int at.now timestamp in
          AreTimed t (make (stamp seq at.received_at ts) ∷ []) after
          → IsTimed t (dispatched_if std at t seq shown make timestamp after)
    unfolding dispatched_if dispatch_if IsTimed AreTimed latencies record_all
    shown-IsTimed true make timestamp after h = h
    shown-IsTimed false make timestamp after h = refl

    handle_price_change-IsTimed : (raw : Text) → IsTimed t (handle_price_change std at t seq raw)
    unfolding handle_price_change AreTimed latencies record_all timed
    handle_price_change-IsTimed raw = decoded-IsTimed (std.price_change_of raw) _ (λ ev.
        shown-IsTimed (not (no_items (own_items at.registry ev.price_changes))) _ ev.timestamp _
          refl)

    handle_book-IsTimed : (raw : Text) → IsTimed t (handle_book std at t seq raw)
    unfolding handle_book AreTimed latencies record_all timed
    handle_book-IsTimed raw =
        decoded-IsTimed (std.book_of raw) _
          (λ ev. shown-IsTimed (is_subscribed at.registry ev.asset_id) _ ev.timestamp _ refl)

    handle_last_trade_price-IsTimed :
        (raw : Text) → IsTimed t (handle_last_trade_price std at t seq raw)
    unfolding handle_last_trade_price AreTimed latencies record_all timed
    handle_last_trade_price-IsTimed raw =
        decoded-IsTimed (std.last_trade_price_of raw) _
          (λ ev. shown-IsTimed (is_subscribed at.registry ev.asset_id) _ ev.timestamp _ refl)

    handle_tick_size_change-IsTimed :
        (raw : Text) → IsTimed t (handle_tick_size_change std at t seq raw)
    unfolding handle_tick_size_change AreTimed latencies record_all timed
    handle_tick_size_change-IsTimed raw =
        decoded-IsTimed (std.tick_size_change_of raw) _
          (λ ev. shown-IsTimed (is_subscribed at.registry ev.asset_id) _ ev.timestamp _ refl)

    handle_market_resolved-IsTimed :
        (raw : Text) → IsTimed t (handle_market_resolved std at t seq raw)
    unfolding handle_market_resolved AreTimed latencies record_all timed
    handle_market_resolved-IsTimed raw =
        decoded-IsTimed (std.market_resolved_of raw) _
          (λ ev. shown-IsTimed true _ ev.timestamp _ refl)

    quiet-IsTimed : IsTimed t (record { tracker = t; dispatched = ([], seq) })
    unfolding IsTimed AreTimed latencies record_all
    quiet-IsTimed = refl

    route-IsTimed : (kind raw : Text) → IsTimed t (route std at t seq kind raw)
    unfolding route
    route-IsTimed kind raw =
        if_IsTimed t (eqb kind (codes "price_change")) _ _ (handle_price_change-IsTimed raw) (
          if_IsTimed t (eqb kind (codes "book")) _ _ (handle_book-IsTimed raw) (
            if_IsTimed t (eqb kind (codes "last_trade_price")) _ _
              (handle_last_trade_price-IsTimed raw)
              (if_IsTimed t (eqb kind (codes "tick_size_change")) _ _
                (handle_tick_size_change-IsTimed raw)
                (if_IsTimed t (eqb kind (codes "market_resolved")) _ _
                  (handle_market_resolved-IsTimed raw) quiet-IsTimed))))

  -- The events of a run from a state, and the tracker that it leaves.
  abbrev IsTimedRun : State → State × List Event → Type 0
  IsTimedRun st (st', events) = AreTimed st.tracker events st'.tracker

  process_typed-IsTimed :
      (at : Moment) (raw : Text) (kind : Option Text) (st : State)
      → IsTimedRun st (process_typed std at raw kind st)
  unfolding process_typed IsTimed AreTimed latencies record_all
  process_typed-IsTimed at raw none st = refl
  process_typed-IsTimed at raw (some kind) st = route-IsTimed at st.tracker st.seq kind raw

  process_all-IsTimed :
      (moments : ℕ → Moment) (n : ℕ) (raws : List Text) (st : State)
      → IsTimedRun st (process_all std moments n raws st)
  unfolding process_all AreTimed latencies record_all
  process_all-IsTimed moments n [] st = refl
  process_all-IsTimed moments n (raw ∷ raws) st =
      let (st', events) = process_typed std (moments n) raw (std.event_type raw) st in
      AreTimed-append st.tracker st'.tracker _ events _
        (process_typed-IsTimed (moments n) raw (std.event_type raw) st)
        (process_all-IsTimed moments (suc n) raws st')

  process_split-IsTimed :
      (moments : ℕ → Moment) (raws : Option (List Text)) (st : State)
      → IsTimedRun st (process_split std moments raws st)
  unfolding process_split AreTimed latencies record_all
  process_split-IsTimed moments none st = refl
  process_split-IsTimed moments (some raws) st = process_all-IsTimed moments 0 raws st

  dispatch_messages-IsTimed :
      (messages : List ((ℕ → Moment) × Text)) (st : State)
      → IsTimedRun st (dispatch_messages std messages st)
  unfolding dispatch_messages process_message AreTimed latencies record_all
  dispatch_messages-IsTimed [] st = refl
  dispatch_messages-IsTimed ((moments, body) ∷ messages) st =
      let (st', events) = process_message std moments body st in
      AreTimed-append st.tracker st'.tracker _ events _
        (process_split-IsTimed moments (split_message std body) st)
        (dispatch_messages-IsTimed messages st')

-- Let one worker handle any messages, from a new latency tracker on. What report then gives is the
-- number and the average of the latencies of the latest 100 price changes and books that were
-- dispatched, or of all where there are fewer: with those in their order split in two, the sum takes
-- the newer part first, and wraps around as an int64 does.
pub dispatch_messages-report :
    (std : Std) (messages : List ((ℕ → Moment) × Text)) (st : State)
    → st.tracker ≡ new_tracker
    → let (st', events) = dispatch_messages std messages st in
      (older newer : List ℤ) × (latest (latencies events) ≡ older ++ newer)
      × (report st'.tracker ≡ average (newer ++ older))
unfolding AreTimed
dispatch_messages-report std messages st new =
    let (st', events) = dispatch_messages std messages st in
    let (older, newer, split, reported) = report-latest (latencies events) in
    let timed_run : st'.tracker ≡ record_all (latencies events) new_tracker =
      dispatch_messages-IsTimed std messages st ∙ ap (record_all (latencies events)) new in
    (older, newer, split, ap report timed_run ∙ reported)
