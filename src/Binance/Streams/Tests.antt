-- ===== src/Binance/Streams/Tests.antt =====
-- Runs of pkg/binance's stream managers at concrete inputs, and the witnesses of the theorems about
-- them.
use go_exchange_connector.Prelude.{
  Text, codes, true, false, List, [], ◌∷◌, ◌≡◌, refl, ◌&&◌, some, eqb,
}
use go_exchange_connector.Prelude.Int.{pos}
use go_exchange_connector.Prelude.Trim.{
  is_space, trim_space, trim_left, trim_right, to_lower, lower_char,
}
use go_exchange_connector.Binance.Streams.{
  market_spot, market_perp, class_public, class_market, stream_depth, stream_class_of,
  build_streams, build_kline_streams, partial_streams, normalize_symbol, streams_of, kline_stream,
  valid_kline_interval,
}
use go_exchange_connector.Binance.Streams.Conns.{method_subscribe, same_class, conn_for}
use go_exchange_connector.Binance.Streams.Names.{CarriedBy, built-CarriedBy, class_for}
use go_exchange_connector.Binance.Streams.Calls.Machine.{
  Event, calls, calls_depth, connects, drops, run, new_machine, intends,
}
use go_exchange_connector.Binance.Streams.Calls.Served.{streamed-run}

abbrev ticker : Text
ticker = codes "btcusdt@bookTicker"

abbrev life : List Event
life =
    calls method_subscribe market_perp (ticker ∷ codes "btcusdt@aggTrade" ∷ [])
    ∷ connects class_public
    ∷ calls method_subscribe market_spot (ticker ∷ [])
    ∷ calls_depth method_subscribe market_perp (codes "SOLUSDT" ∷ [])
    ∷ drops class_public
    ∷ calls method_subscribe market_perp (codes "ethusdt@bookTicker" ∷ [])
    ∷ connects class_public
    ∷ []

perp_has_public : conn_for market_perp class_public ≡ true
unfolding conn_for
perp_has_public = refl

streamed-run_example : (run life new_machine).served class_public ticker ≡ (
    (run life new_machine).live class_public
    && (same_class class_public (stream_class_of market_perp ticker)
        && intends market_perp ticker life false))
streamed-run_example = streamed-run life market_perp class_public ticker perp_has_public refl

abbrev pair : List Text
pair = codes " BTCUSDT" ∷ codes "ethusdt" ∷ []

abbrev candles : List Text
candles = codes "btcusdt@kline_15m" ∷ codes "ethusdt@kline_15m" ∷ []

candles_built : build_kline_streams pair (codes "15m") ≡ some candles
unfolding build_kline_streams streams_of normalize_symbol trim_space trim_left trim_right to_lower
    lower_char is_space kline_stream valid_kline_interval eqb
candles_built = refl

built-CarriedBy_example :
    CarriedBy (class_for stream_depth) (build_streams pair stream_depth)
    × CarriedBy class_public (partial_streams pair (pos 20) (codes "100ms"))
    × CarriedBy class_market candles
unfolding normalize_symbol trim_space trim_left trim_right to_lower lower_char is_space
built-CarriedBy_example =
    built-CarriedBy pair stream_depth 20 (codes "100ms") (codes "15m") candles refl candles_built
