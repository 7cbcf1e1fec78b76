-- ===== src/Polymarket/Rtds/Lives.antt =====
-- Whole lives of the registry of pkg/polymarket/rtds.go: the subscribe and unsubscribe methods in any
-- order, on a connection or without one, and the reconnect that follows.
pub mod Kept
pub mod Reconnect
use go_exchange_connector.Prelude.{
  ℕ, ◌<◌, Text, eqb, eqb_refl, eqb_iff, is_empty, Bool, true, false, not, ◌&&◌, ◌||◌, List, [], ◌∷◌,
  Option, none, some, ◌≡◌, refl, ◌∙◌, ap, sym, arith, inl, inr, if◌then◌else◌, All, Option-cases,
  Bool-cases,
}
use go_exchange_connector.Prelude.Sets.{has, insert, delete}
use go_exchange_connector.Prelude.Dict.{lookup, put, lookup-put}
use go_exchange_connector.Polymarket.Rtds.{
  TopicState, Registry, Request, normalize_symbol, new_topic_state, add_loop, remove_loop,
  add_symbols_windowed, add_symbols, remove_symbols, subscribe_crypto_prices,
  unsubscribe_crypto_prices, subscribe_filtered, unsubscribe_filtered, crypto_price_topic,
  chainlink_price_topic, equity_price_topic, chainlink_twap_topic,
}
use go_exchange_connector.Polymarket.Rtds.Symbols.{
  asked, has-add_loop, has-remove_loop, normalize_symbol_idem, remove_loop_empty,
}
use go_exchange_connector.Polymarket.Rtds.Served.{symbols_of, streams}
use go_exchange_connector.Polymarket.Rtds.Keys.{subs_key}
use go_exchange_connector.Polymarket.Rtds.Resend.{
  subscribe_chainlink_twap, unsubscribe_chainlink_twap, keys_of, on_connect, clear_symbols,
}
use go_exchange_connector.Polymarket.Rtds.Resend.Names.{IsFiltered, IsKey, IsNormal}
use go_exchange_connector.Polymarket.Rtds.Resend.Streams.{on_connect-streams}

-- A call of a public method.
pub data Call : Type 0 where
  crypto_on crypto_off chainlink_on chainlink_off equity_on equity_off : List Text → Call
  twap_on twap_off : ℕ → List Text → Call
  stops : Call

-- The registry after a call, where `accepts` says whether the connection takes a write.
pub step : Bool → Call → Registry → Registry
step accepts (crypto_on raws) reg = (subscribe_crypto_prices accepts raws reg).0
step accepts (crypto_off raws) reg = (unsubscribe_crypto_prices accepts raws reg).0
step accepts (chainlink_on raws) reg = (subscribe_filtered accepts chainlink_price_topic raws reg).0
step accepts (chainlink_off raws) reg =
    (unsubscribe_filtered accepts chainlink_price_topic raws reg).0
step accepts (equity_on raws) reg = (subscribe_filtered accepts equity_price_topic raws reg).0
step accepts (equity_off raws) reg = (unsubscribe_filtered accepts equity_price_topic raws reg).0
step accepts (twap_on w raws) reg = (subscribe_chainlink_twap accepts w raws reg).0
step accepts (twap_off w raws) reg = (unsubscribe_chainlink_twap accepts w raws reg).0
step accepts stops reg = clear_symbols reg

pub run : List (Bool × Call) → Registry → Registry
run [] reg = reg
run ((accepts, c) ∷ cs) reg = run cs (step accepts c reg)

-- The specification: what the caller has asked for of a symbol of a topic.
abbrev pub intent : Call → Text → Text → Bool → Bool
intent (crypto_on raws) t j b = if eqb t crypto_price_topic then asked j raws || b else b
intent (crypto_off raws) t j b = if eqb t crypto_price_topic then not (asked j raws) && b else b
intent (chainlink_on raws) t j b = if eqb t chainlink_price_topic then asked j raws || b else b
intent (chainlink_off raws) t j b =
    if eqb t chainlink_price_topic then not (asked j raws) && b else b
intent (equity_on raws) t j b = if eqb t equity_price_topic then asked j raws || b else b
intent (equity_off raws) t j b = if eqb t equity_price_topic then not (asked j raws) && b else b
intent (twap_on w raws) t j b =
    if eqb t (subs_key chainlink_twap_topic w) then asked j raws || b else b
intent (twap_off w raws) t j b =
    if eqb t (subs_key chainlink_twap_topic w) then not (asked j raws) && b else b
intent stops t j b = false

abbrev pub intents : List (Bool × Call) → Text → Text → Bool → Bool
intents [] t j b = b
intents ((accepts, c) ∷ cs) t j b = intents cs t j (intent c t j b)

-- A window is an int64.
abbrev pub IsCall : Bool × Call → Type 0
IsCall (accepts, twap_on w raws) = w < 9223372036854775808
IsCall (accepts, twap_off w raws) = w < 9223372036854775808
IsCall (accepts, _) = Unit

symbols-put :
    (t k : Text) (st : TopicState) (reg : Registry)
    → symbols_of t (put k st reg) ≡ (if eqb t k then st.symbols else symbols_of t reg)
symbols-put t k st reg = ground (arith, lookup-put t k st reg)

symbols_same : (t k : Text) (reg : Registry) → eqb t k ≡ true → symbols_of t reg ≡ symbols_of k reg
symbols_same t k reg h = ap (λ (l : Text). symbols_of l reg) ((eqb_iff t k).0 h)

-- The symbols of every topic after an addition and after a removal.
pub symbols-add :
    (t k : Text) (w : ℕ) (raws : List Text) (reg : Registry)
    → symbols_of t (add_symbols_windowed k w raws reg).0
      ≡ (if eqb t k then (add_loop raws (symbols_of t reg)).0 else symbols_of t reg)
unfolding add_symbols_windowed new_topic_state
symbols-add t k w raws reg = elim (Option-cases (lookup k reg)) [
  | inl e ↦
      let made : TopicState = record { window_seconds = w; symbols = (add_loop raws []).0 } in
      ground (arith, e, symbols-put t k made reg, symbols_same t k reg)
  | inr (st, e) ↦
      let made : TopicState = record {
        window_seconds = w;
        symbols = (add_loop raws st.symbols).0;
      } in
      ground (arith, e, symbols-put t k made reg, symbols_same t k reg)
]

pub symbols-remove :
    (t k : Text) (raws : List Text) (reg : Registry)
    → symbols_of t (remove_symbols k raws reg).0
      ≡ (if eqb t k then (remove_loop raws (symbols_of t reg)).0 else symbols_of t reg)
unfolding remove_symbols
symbols-remove t k raws reg = elim (Option-cases (lookup k reg)) [
  | inl e ↦ ground (arith, e, symbols_same t k reg, remove_loop_empty raws)
  | inr (st, e) ↦
      let made : TopicState = record st { symbols = (remove_loop raws st.symbols).0 } in
      ground (arith, e, symbols-put t k made reg, symbols_same t k reg)
]
