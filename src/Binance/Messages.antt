-- ===== src/Binance/Messages.antt =====
-- pkg/binance/binance.go: how a message of a connection is routed, and the events that its handlers
-- dispatch. The decoding of JSON is a parameter. A time is in nanoseconds since the zero time.
pub mod Admitted
mod Tests
use go_exchange_connector.Prelude.{
  ℕ, Text, codes, eqb, is_empty, Bool, true, false, not, ◌&&◌, ◌||◌, List, [], ◌∷◌, ◌++◌, Option,
  none, some, is_some, if◌then◌else◌,
}
use go_exchange_connector.Prelude.Int.{ℤ, pos, ◌+ℤ◌, ◌*ℤ◌, eqb_ℤ, wrap64}
use go_exchange_connector.Prelude.Clock.{at_millis}
use go_exchange_connector.Prelude.Sets.{has}
use go_exchange_connector.Prelude.Dict.{lookup, put}
use go_exchange_connector.Prelude.Trim.{trim_space}
use go_exchange_connector.Binance.Levels.{Side, parse_levels, apply_levels}
use go_exchange_connector.Binance.Book.{
  Book, Update, new_book, Reaction, ignores, fetches, dispatches, handle_depth,
}
use go_exchange_connector.Binance.Streams.{
  stream_book_ticker, stream_agg_trade, stream_depth, has_prefix, is_partial_depth_stream,
  stream_for, kline_stream, normalize_symbol,
}

-- `binanceBookTicker`
pub record BookTicker : Type 0 where
  pub update_id : ℤ
  pub event_time : ℤ
  pub transact_time : ℤ
  pub symbol : Text
  pub best_bid_price : Text
  pub best_bid_qty : Text
  pub best_ask_price : Text
  pub best_ask_qty : Text

-- `binanceAggTrade`
pub record AggTrade : Type 0 where
  pub event_time : ℤ
  pub symbol : Text
  pub agg_trade_id : ℤ
  pub price : Text
  pub quantity : Text
  pub first_trade_id : ℤ
  pub last_trade_id : ℤ
  pub trade_time : ℤ
  pub is_buyer_maker : Bool

-- `binanceKlineMsg` with its `binanceKline`
pub record Kline : Type 0 where
  pub event_time : ℤ
  pub symbol : Text
  pub open_time : ℤ
  pub close_time : ℤ
  pub interval : Text
  pub open_price : Text
  pub close_price : Text
  pub high : Text
  pub low : Text
  pub volume : Text
  pub trade_num : ℤ
  pub final : Bool
  pub quote_volume : Text

-- `binanceDepthUpdate`
pub record Depth : Type 0 where
  pub event_time : ℤ
  pub symbol : Text
  pub update : Update

-- What json.Unmarshal makes of a text: the raw fields of an object, a string, or a frame.
pub record Json : Type 0 where
  pub object : Text → Option (List (Text × Text))
  pub string_of : Text → Option Text
  pub book_ticker : Text → Option BookTicker
  pub agg_trade : Text → Option AggTrade
  pub kline : Text → Option Kline
  pub depth : Text → Option Depth

-- The four events, each with the market, the number, the arrival and the exchange's time, in this order.
pub data Event : Type 0 where
  book_ticker_event : Text → ℤ → ℤ → ℤ → BookTicker → Event
  agg_trade_event : Text → ℤ → ℤ → ℤ → AggTrade → Event
  kline_event : Text → ℤ → ℤ → ℤ → ℤ → ℤ → Kline → Event
  depth_event : Text → ℤ → ℤ → ℤ → Text → ℤ → Side → Side → Event

-- What comes of a message: nothing, a snapshot that is fetched for a symbol, or an event.
pub data Outcome : Type 0 where
  nothing : Outcome
  fetch_snapshot : Text → Outcome
  dispatched : Event → Outcome

-- `binanceEventTime`
unfoldable pub binance_event_time : ℤ → ℤ → ℤ → ℤ
unfolding ◌+ℤ◌ ◌*ℤ◌
binance_event_time event_ms tx_ms fallback =
    if not (eqb_ℤ event_ms (pos 0))
    then at_millis event_ms
    else if not (eqb_ℤ tx_ms (pos 0))
    then at_millis tx_ms
    else fallback

-- `subscribedPartialDepth(symbol) != ""`: some registered stream is a partial depth of the symbol.
unfoldable pub partial_subscribed : Text → List Text → Bool
partial_subscribed symbol [] = false
partial_subscribed symbol (s ∷ ss) =
    has_prefix s (symbol ++ codes "@depth") && is_partial_depth_stream s
    || partial_subscribed symbol ss

-- A handler goes on with a frame that was decoded.
unfoldable pub with_frame : {A : Type 0} → Option A → (A → Outcome) → Outcome
with_frame none handle = nothing
with_frame (some frame) handle = handle frame

-- The same of a handler that has the books.
unfoldable pub with_decoded :
    {A : Type 0}
    → List (Text × Book)
    → Option A
    → (A → List (Text × Book) × Outcome)
    → List (Text × Book) × Outcome
with_decoded books none handle = (books, nothing)
with_decoded books (some frame) handle = handle frame

-- The book of a symbol, as bookFor returns it.
abbrev known_book : Text → List (Text × Book) → Book
known_book symbol books = elim (lookup symbol books) [ some b ↦ b | none ↦ new_book ]

-- The market and the registry of the connection, its books, the number that NextSeqID returns, and the
-- readings of the clock.
module _ (json : Json) (mkt : Text) (streams : List Text) (seq : ℤ) (now : ℕ → ℤ) where
  -- `handleBookTicker`
  unfoldable pub handle_book_ticker : Text → Outcome
  unfolding with_frame
  handle_book_ticker body = with_frame (json.book_ticker body) (λ ev.
      if has (stream_for (normalize_symbol ev.symbol) stream_book_ticker) streams
      then dispatched (
          book_ticker_event mkt seq (now 0)
            (binance_event_time ev.event_time ev.transact_time (now 1)) ev)
      else nothing)

  -- `handleSpotBookTicker`
  unfoldable pub handle_spot_book_ticker : List (Text × Text) → Text → Outcome
  unfolding handle_book_ticker
  handle_spot_book_ticker raw body =
      if is_some (lookup (codes "u") raw) then handle_book_ticker body else nothing

  -- `handleAggTrade`
  unfoldable pub handle_agg_trade : Text → Outcome
  unfolding with_frame
  handle_agg_trade body = with_frame (json.agg_trade body) (λ ev.
      if has (stream_for (normalize_symbol ev.symbol) stream_agg_trade) streams
      then dispatched (
          agg_trade_event mkt seq (now 0) (binance_event_time ev.event_time ev.trade_time (now 1))
            ev)
      else nothing)

  -- `handleKline`
  unfoldable pub handle_kline : Text → Outcome
  unfolding with_frame
  handle_kline body = with_frame (json.kline body) (λ ev.
      if has (kline_stream (normalize_symbol ev.symbol) ev.interval) streams
      then dispatched (
          kline_event mkt seq (now 0) (binance_event_time ev.event_time (pos 0) (now 1))
            (at_millis ev.open_time) (at_millis ev.close_time) ev)
      else nothing)

  -- `handlePartialDepth`: the frame is taken as a whole book.
  unfoldable pub handle_partial_depth : Depth → Outcome
  handle_partial_depth d = dispatched (
      depth_event mkt seq (now 0) (binance_event_time d.event_time (pos 0) (now 1)) d.symbol
        d.update.final_update_id (apply_levels (parse_levels d.update.bids) [])
        (apply_levels (parse_levels d.update.asks) []))

  -- What handleDepth does with the outcome on the book.
  abbrev pub react : Depth → Text → Reaction → Outcome
  react d symbol ignores = nothing
  react d symbol fetches = fetch_snapshot symbol
  react d symbol (dispatches last bids asks) = dispatched (
      depth_event mkt seq (now 0) (binance_event_time d.event_time (pos 0) (now 1)) d.symbol last
        bids asks)

  -- `handleDepth` of a decoded frame: the books and what comes of it.
  unfoldable pub on_depth : List (Text × Book) → Depth → List (Text × Book) × Outcome
  unfolding handle_partial_depth
  on_depth books d =
      let symbol = normalize_symbol d.symbol in
      let (book', reaction) = handle_depth d.update (known_book symbol books) in
      if partial_subscribed symbol streams
      then (books, handle_partial_depth d)
      else if has (stream_for symbol stream_depth) streams
      then (put symbol book' books, react d symbol reaction)
      else (books, nothing)

  -- `handleDepth`
  unfoldable pub handle_depth_frame : List (Text × Book) → Text → List (Text × Book) × Outcome
  unfolding with_decoded on_depth
  handle_depth_frame books body = with_decoded books (json.depth body) (on_depth books)

  -- `jsonString` of a raw field, which is empty where there is none.
  unfoldable pub json_string : Option Text → Text
  json_string none = []
  json_string (some raw) =
      if is_empty raw then [] else elim (json.string_of raw) [ some s ↦ s | none ↦ [] ]

  -- The end of processMessage, from the fields of the object on.
  unfoldable pub route :
      List (Text × Book) → Text → List (Text × Text) → List (Text × Book) × Outcome
  unfolding handle_book_ticker handle_spot_book_ticker handle_agg_trade handle_kline
      handle_depth_frame json_string
  route books body raw =
      let kind = json_string (lookup (codes "e") raw) in
      if is_some (lookup (codes "id") raw)
      then (books, nothing)
      else if eqb kind (codes "bookTicker")
      then (books, handle_book_ticker body)
      else if eqb kind (codes "aggTrade")
      then (books, handle_agg_trade body)
      else if eqb kind (codes "kline")
      then (books, handle_kline body)
      else if eqb kind (codes "depthUpdate")
      then handle_depth_frame books body
      else if is_empty kind
      then (books, handle_spot_book_ticker raw body)
      else (books, nothing)

  -- `processMessage`: the books of the market, and what comes of the message.
  unfoldable pub process_message : List (Text × Book) → Text → List (Text × Book) × Outcome
  unfolding with_decoded route
  process_message books body =
      if is_empty (trim_space body)
      then (books, nothing)
      else with_decoded books (json.object body) (route books body)
