-- ===== src/Hyperliquid/Frames.antt =====
-- pkg/hyperliquid/hyperliquid.go: how a frame is routed, and the events that its handlers dispatch.
-- What json.Unmarshal makes of a text is a parameter. Times are in nanoseconds since the zero time.
pub mod Admitted
pub mod Queue
pub mod Silent
mod Tests
use go_exchange_connector.Prelude.{
  ℕ, Text, codes, eqb, is_empty, Bool, true, false, not, ◌&&◌, ◌||◌, List, [], ◌∷◌, ◌++◌, map,
  Option, none, some, is_some, if◌then◌else◌, ◌==◌,
}
use go_exchange_connector.Prelude.Int.{ℤ, pos, leb_ℤ}
use go_exchange_connector.Prelude.Clock.{at_millis}
use go_exchange_connector.Prelude.Dict.{lookup}
use go_exchange_connector.Prelude.Trim.{trim_space}
use go_exchange_connector.Connector.Dispatch.{next_seq_id}
use go_exchange_connector.Connector.Dispatch.Numbered.{
  Stamp, stamp, Dispatched, dispatch_if, with_payload,
}
use go_exchange_connector.Hyperliquid.Channels.{
  l2_book, trades, bbo, active_asset_ctx, all_mids, candle,
}
use go_exchange_connector.Hyperliquid.Subscription.{Subscription, key, global}
use go_exchange_connector.Hyperliquid.Registry.{Registry, has_subscription}
use go_exchange_connector.Hyperliquid.Payloads.{
  L2Level, L2BookSnapshot, bids, asks, Trade, Bbo, best_bid, best_ask, AssetCtx, Candle,
}

-- The events of events.go, each with the payload that it copies.
pub data Event : Type 0 where
  book_event : Stamp → Text → List L2Level → List L2Level → Event
  trade_event : Stamp → Trade → Event
  bbo_event : Stamp → Text → Option L2Level → Option L2Level → Event
  asset_ctx_event : Stamp → Text → Bool → AssetCtx → Event
  all_mids_event : Stamp → List (Text × Text) → Event
  candle_event : Stamp → ℤ → ℤ → Candle → Event
  error_event : Stamp → Text → Event

-- json.Unmarshal of a text into a frame, a payload, a string or the raw fields of an object.
pub record Json : Type 0 where
  pub envelope : Text → Option (Text × Text)
  pub l2_book_of : Text → Option L2BookSnapshot
  pub trades_of : Text → Option (List Trade)
  pub bbo_of : Text → Option Bbo
  pub asset_message : Text → Option (Text × Text)
  pub asset_ctx_of : Text → Option AssetCtx
  pub mids_of : Text → Option (List (Text × Text))
  pub candle_of : Text → Option Candle
  pub candles_of : Text → Option (List Candle)
  pub string_of : Text → Option Text
  pub fields_of : Text → Option (List (Text × Text))

-- `frame`
pub record Frame : Type 0 where
  pub data_of : Text
  pub rx : ℤ

-- `subscribed`
unfoldable pub subscribed : Registry → Text → Text → Text → Bool
unfolding key has_subscription
subscribed reg ch coin interval =
    has_subscription (key (record (global ch) { coin = coin; interval = interval })) reg

-- `msTime`
abbrev pub ms_time : ℤ → ℤ → ℤ
ms_time ms fallback = if leb_ℤ ms (pos 0) then fallback else at_millis ms

-- `ctxIsSpot`, of the raw fields: neither of the two that only a perpetual has.
abbrev pub is_spot : Option (List (Text × Text)) → Bool
is_spot none = false
is_spot (some probe) =
    not (is_some (lookup (codes "funding") probe))
    && not (is_some (lookup (codes "oraclePx") probe))

abbrev starts_with_bracket : Text → Bool
starts_with_bracket [] = false
starts_with_bracket (c ∷ cs) = c == b'['

-- The loop of handleTrades.
pub trades_loop : Registry → ℤ → ℤ → List Trade → Dispatched Event
unfolding next_seq_id subscribed
trades_loop reg rx seq [] = ([], seq)
trades_loop reg rx seq (t ∷ ts) =
    let (events, last) = trades_loop reg rx (next_seq_id seq) ts in
    let skipped = trades_loop reg rx seq ts in
    if subscribed reg trades t.coin []
    then (trade_event (stamp seq rx (ms_time t.time rx)) t ∷ events, last)
    else skipped

-- The loop of handleCandle.
pub candles_loop : Registry → ℤ → ℤ → List Candle → Dispatched Event
unfolding next_seq_id subscribed
candles_loop reg rx seq [] = ([], seq)
candles_loop reg rx seq (c ∷ cs) =
    let (events, last) = candles_loop reg rx (next_seq_id seq) cs in
    let skipped = candles_loop reg rx seq cs in
    if subscribed reg candle c.coin c.interval
    then (
      candle_event (stamp seq rx rx) (ms_time c.open_time rx) (ms_time c.close_time rx) c ∷ events,
      last,
    )
    else skipped

-- The parameters that all handlers share: the registry, the counter and the time of receipt.
module _ (json : Json) (reg : Registry) (rx seq : ℤ) where
  -- `handleL2Book`
  pub handle_l2_book : Text → Dispatched Event
  unfolding next_seq_id subscribed
  handle_l2_book payload = with_payload (json.l2_book_of payload) seq (λ book.
      dispatch_if (subscribed reg l2_book book.coin []) seq
        (book_event (stamp seq rx (ms_time book.time rx)) book.coin (bids book) (asks book)))

  -- `handleTrades`
  pub handle_trades : Text → Dispatched Event
  unfolding trades_loop
  handle_trades payload = with_payload (json.trades_of payload) seq (trades_loop reg rx seq)

  -- `handleBBO`
  pub handle_bbo : Text → Dispatched Event
  unfolding next_seq_id subscribed
  handle_bbo payload = with_payload (json.bbo_of payload) seq (λ b.
      dispatch_if (subscribed reg bbo b.coin []) seq
        (bbo_event (stamp seq rx (ms_time b.time rx)) b.coin (best_bid b) (best_ask b)))

  -- `handleActiveAssetCtx`
  pub handle_active_asset_ctx : Text → Dispatched Event
  unfolding next_seq_id subscribed
  handle_active_asset_ctx payload = with_payload (json.asset_message payload) seq (λ (coin, raw).
      with_payload (json.asset_ctx_of raw) seq (λ ctx.
        dispatch_if (subscribed reg active_asset_ctx coin []) seq
          (asset_ctx_event (stamp seq rx rx) coin (is_spot (json.fields_of raw)) ctx)))

  -- `handleAllMids`
  pub handle_all_mids : Text → Dispatched Event
  unfolding next_seq_id subscribed
  handle_all_mids payload = with_payload (json.mids_of payload) seq (λ mids.
      dispatch_if (subscribed reg all_mids [] []) seq (all_mids_event (stamp seq rx rx) mids))

  -- `decodeCandles`
  pub decode_candles : Text → Option (List Candle)
  decode_candles raw =
      let trimmed = trim_space raw in
      if is_empty trimmed || eqb trimmed (codes "null")
      then some []
      else if starts_with_bracket trimmed
      then json.candles_of trimmed
      else elim (json.candle_of trimmed) [ none ↦ none | some one ↦ some (one ∷ []) ]

  -- `handleCandle`
  pub handle_candle : Text → Dispatched Event
  unfolding decode_candles candles_loop
  handle_candle payload = with_payload (decode_candles payload) seq (candles_loop reg rx seq)

  -- `decodeErrorFrame`
  abbrev decode_error_frame : Text → Text
  decode_error_frame raw = elim (json.string_of raw) [ some s ↦ s | none ↦ raw ]

  -- The switch of processFrame.
  pub route : Text → Text → Dispatched Event
  unfolding next_seq_id handle_l2_book handle_trades handle_bbo handle_active_asset_ctx
      handle_all_mids handle_candle
  route channel payload =
      if eqb channel l2_book
      then handle_l2_book payload
      else if eqb channel trades
      then handle_trades payload
      else if eqb channel bbo
      then handle_bbo payload
      else if eqb channel active_asset_ctx
      then handle_active_asset_ctx payload
      else if eqb channel all_mids
      then handle_all_mids payload
      else if eqb channel candle
      then handle_candle payload
      else dispatch_if (eqb channel (codes "error")) seq
          (error_event (stamp seq rx rx) (decode_error_frame payload))

-- `processFrame`
pub process_frame : Json → Registry → ℤ → Frame → Dispatched Event
unfolding route
process_frame json reg seq f =
    with_payload (json.envelope f.data_of) seq
      (λ (channel, payload). route json reg f.rx seq channel payload)
