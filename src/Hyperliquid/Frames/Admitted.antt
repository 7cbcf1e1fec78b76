-- ===== src/Hyperliquid/Frames/Admitted.antt =====
-- Which events pkg/hyperliquid's processFrame dispatches for a frame.
use go_exchange_connector.Prelude.{
  Text, codes, eqb, true, List, [], ◌∷◌, ◌≡◌, refl, Bool-cases, inl, inr,
}
use go_exchange_connector.Prelude.Int.{ℤ}
use go_exchange_connector.Connector.Dispatch.{next_seq_id}
use go_exchange_connector.Connector.Dispatch.Numbered.{
  Stamp, Numbered, dispatch_if-Numbered, with_payload-Numbered, if_Numbered,
}
use go_exchange_connector.Hyperliquid.Channels.{
  l2_book, trades, bbo, active_asset_ctx, all_mids, candle,
}
use go_exchange_connector.Hyperliquid.Registry.{Registry}
use go_exchange_connector.Hyperliquid.Payloads.{Trade, Candle}
use go_exchange_connector.Hyperliquid.Frames.{
  Event, book_event, trade_event, bbo_event, asset_ctx_event, all_mids_event, candle_event,
  error_event, Json, Frame, subscribed, trades_loop, candles_loop, handle_l2_book, handle_trades,
  handle_bbo, handle_active_asset_ctx, handle_all_mids, decode_candles, handle_candle, route,
  process_frame,
}

abbrev pub stamp_of : Event → Stamp
stamp_of (book_event s coin bids asks) = s
stamp_of (trade_event s t) = s
stamp_of (bbo_event s coin bid ask) = s
stamp_of (asset_ctx_event s coin spot ctx) = s
stamp_of (all_mids_event s mids) = s
stamp_of (candle_event s opened closed c) = s
stamp_of (error_event s message) = s

-- The subscription that an event belongs to is registered.
abbrev pub IsOf : Registry → Event → Type 0
IsOf reg (book_event s coin bids asks) = subscribed reg l2_book coin [] ≡ true
IsOf reg (trade_event s t) = subscribed reg trades t.coin [] ≡ true
IsOf reg (bbo_event s coin bid ask) = subscribed reg bbo coin [] ≡ true
IsOf reg (asset_ctx_event s coin spot ctx) = subscribed reg active_asset_ctx coin [] ≡ true
IsOf reg (all_mids_event s mids) = subscribed reg all_mids [] [] ≡ true
IsOf reg (candle_event s opened closed c) = subscribed reg candle c.coin c.interval ≡ true
IsOf reg (error_event s message) = Unit

-- The event belongs to a registered subscription and carries the time of receipt.
abbrev pub IsFit : Registry → ℤ → Event → Type 0
IsFit reg rx e = IsOf reg e × ((stamp_of e).received_at ≡ rx)

abbrev pub number : Event → ℤ
number e = (stamp_of e).seq_id

trades_loop-Numbered :
    (reg : Registry) (rx seq : ℤ) (ts : List Trade)
    → Numbered number (IsFit reg rx) seq (trades_loop reg rx seq ts)
unfolding trades_loop Numbered
trades_loop-Numbered reg rx seq [] = refl
trades_loop-Numbered reg rx seq (t ∷ ts) = elim (Bool-cases (subscribed reg trades t.coin [])) [
  | inl own ↦ rw own ((own, refl), refl, trades_loop-Numbered reg rx (next_seq_id seq) ts)
  | inr other ↦ rw other (trades_loop-Numbered reg rx seq ts)
]

candles_loop-Numbered :
    (reg : Registry) (rx seq : ℤ) (cs : List Candle)
    → Numbered number (IsFit reg rx) seq (candles_loop reg rx seq cs)
unfolding candles_loop Numbered
candles_loop-Numbered reg rx seq [] = refl
candles_loop-Numbered reg rx seq (c ∷ cs) =
    elim (Bool-cases (subscribed reg candle c.coin c.interval)) [
      | inl own ↦ rw own ((own, refl), refl, candles_loop-Numbered reg rx (next_seq_id seq) cs)
      | inr other ↦ rw other (candles_loop-Numbered reg rx seq cs)
    ]

module _ (json : Json) (reg : Registry) (rx seq : ℤ) where
  handle_l2_book-Numbered :
      (payload : Text) → Numbered number (IsFit reg rx) seq (handle_l2_book json reg rx seq payload)
  unfolding handle_l2_book
  handle_l2_book-Numbered payload =
      with_payload-Numbered number (IsFit reg rx) seq (json.l2_book_of payload) _ (λ book.
        dispatch_if-Numbered number (IsFit reg rx) seq (subscribed reg l2_book book.coin []) _
          (λ h. (h, refl)) refl)

  handle_bbo-Numbered :
      (payload : Text) → Numbered number (IsFit reg rx) seq (handle_bbo json reg rx seq payload)
  unfolding handle_bbo
  handle_bbo-Numbered payload =
      with_payload-Numbered number (IsFit reg rx) seq (json.bbo_of payload) _ (λ b.
        dispatch_if-Numbered number (IsFit reg rx) seq (subscribed reg bbo b.coin []) _
          (λ h. (h, refl)) refl)

  handle_active_asset_ctx-Numbered :
      (payload : Text)
      → Numbered number (IsFit reg rx) seq (handle_active_asset_ctx json reg rx seq payload)
  unfolding handle_active_asset_ctx
  handle_active_asset_ctx-Numbered payload =
      with_payload-Numbered number (IsFit reg rx) seq (json.asset_message payload) _ (λ (coin, raw).
        with_payload-Numbered number (IsFit reg rx) seq (json.asset_ctx_of raw) _ (λ ctx.
          dispatch_if-Numbered number (IsFit reg rx) seq (subscribed reg active_asset_ctx coin []) _
            (λ h. (h, refl)) refl))

  handle_all_mids-Numbered :
      (payload : Text)
      → Numbered number (IsFit reg rx) seq (handle_all_mids json reg rx seq payload)
  unfolding handle_all_mids
  handle_all_mids-Numbered payload =
      with_payload-Numbered number (IsFit reg rx) seq (json.mids_of payload) _ (λ mids.
        dispatch_if-Numbered number (IsFit reg rx) seq (subscribed reg all_mids [] []) _
          (λ h. (h, refl)) refl)

  handle_trades-Numbered :
      (payload : Text) → Numbered number (IsFit reg rx) seq (handle_trades json reg rx seq payload)
  unfolding handle_trades
  handle_trades-Numbered payload =
      with_payload-Numbered number (IsFit reg rx) seq (json.trades_of payload) _
        (trades_loop-Numbered reg rx seq)

  handle_candle-Numbered :
      (payload : Text) → Numbered number (IsFit reg rx) seq (handle_candle json reg rx seq payload)
  unfolding handle_candle
  handle_candle-Numbered payload =
      with_payload-Numbered number (IsFit reg rx) seq (decode_candles json reg rx seq payload) _
        (candles_loop-Numbered reg rx seq)

  route-Numbered :
      (channel payload : Text)
      → Numbered number (IsFit reg rx) seq (route json reg rx seq channel payload)
  unfolding route
  route-Numbered channel payload =
      if_Numbered number (IsFit reg rx) seq (eqb channel l2_book) _ _
        (handle_l2_book-Numbered payload)
        (if_Numbered number (IsFit reg rx) seq (eqb channel trades) _ _
          (handle_trades-Numbered payload)
          (if_Numbered number (IsFit reg rx) seq (eqb channel bbo) _ _ (handle_bbo-Numbered payload)
            (if_Numbered number (IsFit reg rx) seq (eqb channel active_asset_ctx) _ _
              (handle_active_asset_ctx-Numbered payload)
              (if_Numbered number (IsFit reg rx) seq (eqb channel all_mids) _ _
                (handle_all_mids-Numbered payload)
                (if_Numbered number (IsFit reg rx) seq (eqb channel candle) _ _
                  (handle_candle-Numbered payload)
                  (dispatch_if-Numbered number (IsFit reg rx) seq (eqb channel (codes "error")) _
                    (λ h. (tt, refl)) refl))))))

-- Whatever frame comes in, and whatever JSON makes of it: each event that is dispatched for it
-- belongs to a subscription that is registered then (or reports an error of the venue), carries the
-- time at which the frame was received, and has the number after the event before it; the counter is
-- left at the last number.
pub process_frame-Numbered :
    (json : Json) (reg : Registry) (seq : ℤ) (f : Frame)
    → Numbered number (IsFit reg f.rx) seq (process_frame json reg seq f)
unfolding process_frame
process_frame-Numbered json reg seq f =
    with_payload-Numbered number (IsFit reg f.rx) seq (json.envelope f.data_of) _
      (λ (channel, payload). route-Numbered json reg f.rx seq channel payload)
