-- ===== src/Polymarket/Market/Events.antt =====
-- pkg/polymarket/market.go: the events that processMessage dispatches for a message. What
-- json.Unmarshal and Sscanf make of a text is a parameter, and so are the clocks. It is the run of one
-- worker that has the counter of NextSeqID to itself; by default the code starts one for each processor,
-- and all of them and the workers of the RTDS channel share that counter.
pub mod Owned
pub mod Timed
mod Tests
use go_exchange_connector.Prelude.{
  ℕ, suc, Text, codes, eqb, Bool, true, false, not, List, [], ◌∷◌, ◌++◌, Option, none, some,
  if◌then◌else◌,
}
use go_exchange_connector.Prelude.Int.{ℤ, pos, ◌+ℤ◌, wrap64}
use go_exchange_connector.Prelude.Clock.{sub_time, safe_parse_timestamp}
use go_exchange_connector.Connector.Dispatch.Numbered.{Stamp, stamp, Dispatched, dispatch_if}
use go_exchange_connector.Polymarket.Market.{Registry, is_subscribed}
use go_exchange_connector.Polymarket.Market.Payloads.{
  Level, PriceChangeItem, PriceChangeWsEvent, BookWsEvent, LastTradePriceWsEvent,
  TickSizeChangeWsEvent, MarketResolvedWsEvent,
}
use go_exchange_connector.Polymarket.Market.Latency.{Tracker, record_sample}

-- The events of events.go, each with what it copies in the order of its fields.
pub data Event : Type 0 where
  price_change : Stamp → Text → List PriceChangeItem → Event
  book_snapshot : Stamp → Text → Text → Text → List Level → List Level → Event
  trade : Stamp → Text → Text → Text → Text → Event
  tick_change : Stamp → Text → Text → Text → Text → Event
  market_resolved : Stamp → Text → Text → Text → Text → Event

-- json.Unmarshal of a text into a list of raw messages, one raw message, an envelope or an event;
-- and Sscanf of "%d".
pub record Std : Type 0 where
  pub raw_messages : Text → Option (List Text)
  pub raw_message : Text → Option Text
  pub event_type : Text → Option Text
  pub price_change_of : Text → Option PriceChangeWsEvent
  pub book_of : Text → Option BookWsEvent
  pub last_trade_price_of : Text → Option LastTradePriceWsEvent
  pub tick_size_change_of : Text → Option TickSizeChangeWsEvent
  pub market_resolved_of : Text → Option MarketResolvedWsEvent
  pub scan_int : Text → Option ℤ

-- What a handler finds: the subscriptions, `base.Now()`, and time.Now() of the timestamp parser.
pub record Moment : Type 0 where
  pub registry : Registry
  pub received_at : ℤ
  pub now : ℤ

-- What a handler leaves: the latency tracker, and what it dispatched.
pub record Handled : Type 0 where
  pub tracker : Tracker
  pub dispatched : Dispatched Event

-- The loop of `handlePriceChange`.
unfoldable pub own_items : Registry → List PriceChangeItem → List PriceChangeItem
own_items reg [] = []
own_items reg (pc ∷ pcs) =
    let items = own_items reg pcs in if is_subscribed reg pc.asset_id then pc ∷ items else items

abbrev pub no_items : List PriceChangeItem → Bool
no_items [] = true
no_items (_ ∷ _) = false

module _ (std : Std) (at : Moment) (tracker : Tracker) (seq : ℤ) where
  -- An event of a timestamp, if the test holds.
  unfoldable pub dispatched_if : Bool → (Stamp → Event) → Text → Tracker → Handled
  dispatched_if shown make timestamp after =
      let ts = safe_parse_timestamp std.scan_int at.now timestamp in
      record {
        tracker = if shown then after else tracker;
        dispatched = dispatch_if shown seq (make (stamp seq at.received_at ts));
      }

  -- `base.Now().Sub(exchangeTS)`, recorded.
  unfoldable pub timed : Text → Tracker
  timed timestamp =
      record_sample (sub_time at.received_at (safe_parse_timestamp std.scan_int at.now timestamp))
        tracker

  -- A handler returns where its message cannot be decoded.
  unfoldable pub decoded : {A : Type 0} → Option A → (A → Handled) → Handled
  decoded none handle = record { tracker = tracker; dispatched = ([], seq) }
  decoded (some ev) handle = handle ev

  -- `handlePriceChange`
  pub handle_price_change : Text → Handled
  unfolding own_items
  handle_price_change raw = decoded (std.price_change_of raw) (λ ev.
      let items = own_items at.registry ev.price_changes in
      dispatched_if (not (no_items items)) (λ s. price_change s ev.market items) ev.timestamp
        (timed ev.timestamp))

  -- `handleBook`
  pub handle_book : Text → Handled
  handle_book raw = decoded (std.book_of raw) (λ ev.
      dispatched_if (is_subscribed at.registry ev.asset_id)
        (λ s. book_snapshot s ev.market ev.asset_id ev.hash ev.bids ev.asks) ev.timestamp
        (timed ev.timestamp))

  -- `handleLastTradePrice`
  pub handle_last_trade_price : Text → Handled
  handle_last_trade_price raw = decoded (std.last_trade_price_of raw) (λ ev.
      dispatched_if (is_subscribed at.registry ev.asset_id)
        (λ s. trade s ev.asset_id ev.side ev.size ev.price) ev.timestamp tracker)

  -- `handleTickSizeChange`
  pub handle_tick_size_change : Text → Handled
  handle_tick_size_change raw = decoded (std.tick_size_change_of raw) (λ ev.
      dispatched_if (is_subscribed at.registry ev.asset_id)
        (λ s. tick_change s ev.asset_id ev.market ev.old_tick_size ev.new_tick_size) ev.timestamp
        tracker)

  -- `handleMarketResolved`: whether or not the market is subscribed to.
  pub handle_market_resolved : Text → Handled
  handle_market_resolved raw = decoded (std.market_resolved_of raw) (λ ev.
      dispatched_if true
        (λ s. market_resolved s ev.id ev.market ev.winning_asset_id ev.winning_outcome) ev.timestamp
        tracker)

  -- The switch of `processMessage`.
  pub route : Text → Text → Handled
  unfolding handle_price_change handle_book handle_last_trade_price handle_tick_size_change
      handle_market_resolved
  route kind raw =
      if eqb kind (codes "price_change")
      then handle_price_change raw
      else if eqb kind (codes "book")
      then handle_book raw
      else if eqb kind (codes "last_trade_price")
      then handle_last_trade_price raw
      else if eqb kind (codes "tick_size_change")
      then handle_tick_size_change raw
      else if eqb kind (codes "market_resolved")
      then handle_market_resolved raw
      else record { tracker = tracker; dispatched = ([], seq) }

-- The counter of NextSeqID, the latency tracker and `eventCount`.
pub record State : Type 0 where
  pub seq : ℤ
  pub tracker : Tracker
  pub event_count : ℤ

-- A round of the loop of `processMessage`, by the type of event that its envelope gives: one that
-- cannot be read is not counted.
unfoldable pub process_typed : Std → Moment → Text → Option Text → State → State × List Event
unfolding route
process_typed std at raw none st = (st, [])
process_typed std at raw (some kind) st =
    let handled = route std at st.tracker st.seq kind raw in
    (
      record {
        seq = handled.dispatched.1;
        tracker = handled.tracker;
        event_count = wrap64 (st.event_count +ℤ pos 1);
      },
      handled.dispatched.0,
    )

-- The loop of `processMessage`: its round n finds the moment n.
unfoldable pub process_all : Std → (ℕ → Moment) → ℕ → List Text → State → State × List Event
unfolding process_typed
process_all std moments n [] st = (st, [])
process_all std moments n (raw ∷ raws) st =
    let (st', events) = process_typed std (moments n) raw (std.event_type raw) st in
    let (st'', later) = process_all std moments (suc n) raws st' in (st'', events ++ later)

-- `raw` of `processMessage`: the messages of an array, or one message.
abbrev pub split_message : Std → Text → Option (List Text)
split_message std body = elim (std.raw_messages body) [
  | some raws ↦ some raws
  | none ↦ elim (std.raw_message body) [ some single ↦ some (single ∷ []) | none ↦ none ]
]

-- `processMessage`, after it has read its message.
unfoldable pub process_split : Std → (ℕ → Moment) → Option (List Text) → State → State × List Event
unfolding process_all
process_split std moments none st = (st, [])
process_split std moments (some raws) st = process_all std moments 0 raws st

-- `processMessage`
unfoldable pub process_message : Std → (ℕ → Moment) → Text → State → State × List Event
unfolding process_split
process_message std moments body st = process_split std moments (split_message std body) st

-- The loop of `eventDispatcher`, with one worker: each message with the moments that it finds.
unfoldable pub dispatch_messages : Std → List ((ℕ → Moment) × Text) → State → State × List Event
unfolding process_message
dispatch_messages std [] st = (st, [])
dispatch_messages std ((moments, body) ∷ messages) st =
    let (st', events) = process_message std moments body st in
    let (st'', later) = dispatch_messages std messages st' in (st'', events ++ later)
