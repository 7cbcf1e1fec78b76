-- ===== src/Polymarket/Rtds.antt =====
-- pkg/polymarket/rtds.go: the topics of WSPolymarketRTDS, the symbols subscribed under each, and the
-- entries that are sent. Symbols are ASCII texts.
pub mod Symbols
pub mod Served
pub mod Keys
pub mod Resend
pub mod Lives
mod Tests
use go_exchange_connector.Prelude.{
  ℕ, zero, suc, ◌+◌, ◌*◌, ◌-◌, ◌/◌, ◌%◌, Text, codes, eqb, is_empty, Bool, true, false, not, ◌&&◌,
  ◌||◌, List, [], ◌∷◌, ◌++◌, map, Option, none, some, if◌then◌else◌, leb, ◌==◌,
}
use go_exchange_connector.Prelude.Sets.{has, insert, delete}
use go_exchange_connector.Prelude.Dict.{lookup, put}
use go_exchange_connector.Prelude.Trim.{to_lower, trim_space}

abbrev pub crypto_price_topic : Text
crypto_price_topic = codes "crypto_prices"

abbrev pub chainlink_price_topic : Text
chainlink_price_topic = codes "crypto_prices_chainlink"

abbrev pub equity_price_topic : Text
equity_price_topic = codes "equity_prices"

abbrev pub chainlink_twap_topic : Text
chainlink_twap_topic = codes "prices.crypto.chainlink.twap"

abbrev chainlink_twap30_topic : Text
chainlink_twap30_topic = codes "crypto_prices_twap_thirty"

abbrev chainlink_twap60_topic : Text
chainlink_twap60_topic = codes "crypto_prices_twap_sixty"

-- `normalizeRTDSSymbol`
pub normalize_symbol : Text → Text
normalize_symbol s = to_lower (trim_space s)

-- `rtdsTopicState`
pub record TopicState : Type 0 where
  pub window_seconds : ℕ
  pub symbols : List Text

-- The field `subs`.
abbrev pub Registry : Type 0
Registry = List (Text × TopicState)

-- `newRtdsTopicState`
pub new_topic_state : ℕ → TopicState
new_topic_state window = record { window_seconds = window; symbols = [] }

abbrev pub none_in : List Text → Bool
none_in [] = true
none_in (s ∷ ss) = false

-- The loop of addSymbolsWindowed: the symbols of the topic, and `added`.
pub add_loop : List Text → List Text → List Text × List Text
unfolding normalize_symbol
add_loop [] set = (set, [])
add_loop (raw ∷ raws) set =
    let s = normalize_symbol raw in
    let skipped = add_loop raws set in
    let kept = add_loop raws (insert s set) in
    if is_empty s then skipped else if has s set then skipped else (kept.0, s ∷ kept.1)

-- The loop of removeSymbols.
pub remove_loop : List Text → List Text → List Text × List Text
unfolding normalize_symbol
remove_loop [] set = (set, [])
remove_loop (raw ∷ raws) set =
    let s = normalize_symbol raw in
    let skipped = remove_loop raws set in
    let kept = remove_loop raws (delete s set) in
    if is_empty s then skipped else if has s set then (kept.0, s ∷ kept.1) else skipped

-- `addSymbolsWindowed`: the registry, `first` and `added`.
pub add_symbols_windowed : Text → ℕ → List Text → Registry → Registry × Bool × List Text
unfolding new_topic_state
add_symbols_windowed key window raws reg =
    let st : TopicState = elim (lookup key reg) [
      | none ↦ new_topic_state window
      | some old ↦ record old { window_seconds = window }
    ] in
    let (set, added) = add_loop raws st.symbols in
    (put key (record st { symbols = set }) reg, none_in st.symbols && not (none_in set), added)

-- `addSymbols`
pub add_symbols : Text → List Text → Registry → Registry × Bool × List Text
unfolding add_symbols_windowed
add_symbols topic raws reg = add_symbols_windowed topic 0 raws reg

-- `removeSymbols`: the registry, `last` and `removed`.
pub remove_symbols : Text → List Text → Registry → Registry × Bool × List Text
remove_symbols key raws reg = elim (lookup key reg) [
  | none ↦ (reg, false, [])
  | some st ↦
      let (set, removed) = remove_loop raws st.symbols in
      (put key (record st { symbols = set }) reg, not (none_in removed) && none_in set, removed)
]

-- `isSubscribed`
pub is_subscribed : Text → Text → Registry → Bool
is_subscribed topic symbol reg = elim (lookup topic reg) [
  | none ↦ false
  | some st ↦ has (normalize_symbol symbol) st.symbols
]

-- `rtdsSubscription`: a topic, and the symbol of the filter if there is one.
pub record Entry : Type 0 where
  pub topic : Text
  pub filter : Option Text

-- `binanceEntries`
pub binance_entries : List Entry
binance_entries = record { topic = crypto_price_topic; filter = none } ∷ []

-- `filteredEntries`
pub filtered_entries : Text → List Text → List Entry
filtered_entries topic [] = []
filtered_entries topic (raw ∷ raws) =
    let s = normalize_symbol raw in
    let rest = filtered_entries topic raws in
    if is_empty s then rest else record { topic = topic; filter = some s } ∷ rest

-- `twapWireTopic`; the empty text stands for no topic.
twap_wire_topic : ℕ → Text
twap_wire_topic window =
    if window == 30
    then chainlink_twap30_topic
    else if window == 60
    then chainlink_twap60_topic
    else []

-- `twapWindow`
twap_window : Text → ℕ
twap_window topic =
    if eqb topic chainlink_twap30_topic
    then 30
    else if eqb topic chainlink_twap60_topic
    then 60
    else 0

-- `chainlinkTWAPEntries`
pub chainlink_twap_entries : ℕ → List Entry
unfolding twap_wire_topic
chainlink_twap_entries window =
    if is_empty (twap_wire_topic window)
    then []
    else record { topic = twap_wire_topic window; filter = none } ∷ []

-- A request: the action, and its entries.
pub data Request : Type 0 where
  subscribe_request : List Entry → Request
  unsubscribe_request : List Entry → Request

-- `sendEntries`: what reaches the venue. `accepts` says that there is a connection and that it takes
-- the write; otherwise nothing is sent and nothing is returned.
pub send_entries : Bool → (List Entry → Request) → List Entry → List Request
send_entries accepts action [] = []
send_entries accepts action (e ∷ es) = if accepts then action (e ∷ es) ∷ [] else []

-- `SubscribeCryptoPrices`
pub subscribe_crypto_prices : Bool → List Text → Registry → Registry × List Request
unfolding add_symbols
subscribe_crypto_prices accepts raws reg =
    let (reg', first, added) = add_symbols crypto_price_topic raws reg in
    (
      reg',
      if none_in added || not first
          then []
          else send_entries accepts subscribe_request binance_entries,
    )

-- `UnsubscribeCryptoPrices`
pub unsubscribe_crypto_prices : Bool → List Text → Registry → Registry × List Request
unfolding remove_symbols
unsubscribe_crypto_prices accepts raws reg =
    let (reg', last, removed) = remove_symbols crypto_price_topic raws reg in
    (
      reg',
      if none_in removed || not last
          then []
          else send_entries accepts unsubscribe_request binance_entries,
    )

-- `SubscribeChainlinkPrices` and `SubscribeEquityPrices`, for their topic.
pub subscribe_filtered : Bool → Text → List Text → Registry → Registry × List Request
unfolding add_symbols filtered_entries
subscribe_filtered accepts topic raws reg =
    let (reg', first, added) = add_symbols topic raws reg in
    (
      reg',
      if none_in added
          then []
          else send_entries accepts subscribe_request (filtered_entries topic added),
    )

-- `UnsubscribeChainlinkPrices` and `UnsubscribeEquityPrices`, for their topic.
pub unsubscribe_filtered : Bool → Text → List Text → Registry → Registry × List Request
unfolding remove_symbols filtered_entries
unsubscribe_filtered accepts topic raws reg =
    let (reg', last, removed) = remove_symbols topic raws reg in
    (
      reg',
      if none_in removed
          then []
          else send_entries accepts unsubscribe_request (filtered_entries topic removed),
    )
