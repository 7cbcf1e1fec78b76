-- ===== src/Polymarket/Rtds/Tests.antt =====
-- Runs of pkg/polymarket/rtds.go: symbols in any case, broadcast and filtered topics, a reconnect.
use go_exchange_connector.Prelude.{
  List, Bool, Text, codes, eqb, true, false, not, [], ◌∷◌, some, ◌≡◌, refl, arith, inl,
}
use go_exchange_connector.Prelude.Sets.{has}
use go_exchange_connector.Prelude.Dict.{lookup}
use go_exchange_connector.Prelude.Trim.{
  lower_char, to_lower, trim_space, trim_left, trim_right, is_space,
}
use go_exchange_connector.Polymarket.Rtds.{
  Registry, normalize_symbol, none_in, crypto_price_topic, chainlink_price_topic,
  chainlink_twap_topic,
}
use go_exchange_connector.Polymarket.Rtds.Served.{symbols_of, streams}
use go_exchange_connector.Prelude.Decimal.{digits, decimal}
use go_exchange_connector.Polymarket.Rtds.Keys.{subs_key}
use go_exchange_connector.Polymarket.Rtds.Resend.{on_connect}
use go_exchange_connector.Polymarket.Rtds.Lives.{
  Call, chainlink_on, chainlink_off, equity_on, twap_on, run, intents,
}
use go_exchange_connector.Polymarket.Rtds.Lives.Reconnect.{on_connect-run}

abbrev eth_usd : Text
eth_usd = codes "eth/usd"

abbrev btc_usd : Text
btc_usd = codes "btc/usd"

-- One Chainlink feed and one TWAP window.
abbrev held : Registry
held =
    (chainlink_price_topic, record { window_seconds = 0; symbols = eth_usd ∷ [] })
    ∷ (subs_key chainlink_twap_topic 60, record { window_seconds = 60; symbols = btc_usd ∷ [] })
    ∷ []

held_feeds :
    (true ≡ has eth_usd (symbols_of chainlink_price_topic held))
    × (symbols_of chainlink_price_topic held ≡ eth_usd ∷ [])
unfolding has eqb lookup
held_feeds = (refl, refl)

abbrev one_feed : Registry
one_feed = (chainlink_price_topic, record { window_seconds = 0; symbols = eth_usd ∷ [] }) ∷ []

no_crypto : false ≡ not (none_in (symbols_of crypto_price_topic one_feed))
unfolding lookup eqb
no_crypto = refl

abbrev one_pair : Registry
one_pair = (crypto_price_topic, record { window_seconds = 0; symbols = codes "btcusdt" ∷ [] }) ∷ []

one_pair_streamed : true ≡ not (none_in (symbols_of crypto_price_topic one_pair))
unfolding lookup eqb
one_pair_streamed = refl

-- A feed is subscribed to with no connection, in capitals, beside a TWAP window and an equity, and a
-- second feed is left again.
abbrev life : List (Bool × Call)
life =
    (false, chainlink_on (codes "ETH/USD " ∷ codes "btc/usd" ∷ []))
    ∷ (true, twap_on 60 (btc_usd ∷ []))
    ∷ (true, equity_on (codes "AAPL" ∷ []))
    ∷ (true, chainlink_off (codes "BTC/USD" ∷ []))
    ∷ []

on_connect-run_example :
    let (requests, done) = on_connect true (run life []) in
    (done ≡ true)
    × (streams requests chainlink_price_topic (some eth_usd) false
        ≡ intents life chainlink_price_topic eth_usd false)
on_connect-run_example =
    on_connect-run life chainlink_price_topic eth_usd (inl refl) (tt, (omega arith, (tt, (tt, tt))))

eth_wanted : intents life chainlink_price_topic eth_usd false ≡ true
unfolding subs_key decimal digits eqb normalize_symbol to_lower lower_char trim_space trim_left
    trim_right is_space
eth_wanted = refl
