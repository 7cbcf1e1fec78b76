-- ===== src/Polymarket/Rtds/Resend.antt =====
-- pkg/polymarket/rtds.go: the Chainlink TWAP topic, and onConnect, which sends the whole registry in
-- one request.
pub mod Names
pub mod Streams
use go_exchange_connector.Prelude.{
  ℕ, Text, eqb, Bool, true, false, not, ◌||◌, List, [], ◌∷◌, ◌++◌, map, Option, none, some,
  if◌then◌else◌,
}
use go_exchange_connector.Prelude.Sort.{sort_texts}
use go_exchange_connector.Prelude.Dict.{lookup}
use go_exchange_connector.Polymarket.Rtds.{
  TopicState, Registry, Entry, Request, subscribe_request, unsubscribe_request, none_in,
  add_symbols_windowed, remove_symbols, send_entries, binance_entries, filtered_entries,
  chainlink_twap_entries, crypto_price_topic, chainlink_price_topic, equity_price_topic,
  chainlink_twap_topic,
}
use go_exchange_connector.Polymarket.Rtds.Keys.{subs_key, split_subs_key}

-- `SubscribeChainlinkTWAP`
unfoldable pub subscribe_chainlink_twap : Bool → ℕ → List Text → Registry → Registry × List Request
subscribe_chainlink_twap accepts window raws reg =
    let (reg', first, added) =
      add_symbols_windowed (subs_key chainlink_twap_topic window) window raws reg in
    (
      reg',
      if none_in added || not first
          then []
          else send_entries accepts subscribe_request (chainlink_twap_entries window),
    )

-- `UnsubscribeChainlinkTWAP`
unfoldable pub unsubscribe_chainlink_twap :
    Bool → ℕ → List Text → Registry → Registry × List Request
unsubscribe_chainlink_twap accepts window raws reg =
    let (reg', last, removed) = remove_symbols (subs_key chainlink_twap_topic window) raws reg in
    (
      reg',
      if none_in removed || not last
          then []
          else send_entries accepts unsubscribe_request (chainlink_twap_entries window),
    )

-- The switch of allEntries.
pub topic_entries : Text → ℕ → List Text → List Entry
topic_entries topic window symbols =
    if eqb topic crypto_price_topic
    then binance_entries
    else if eqb topic chainlink_twap_topic
    then chainlink_twap_entries window
    else if eqb topic chainlink_price_topic
    then filtered_entries chainlink_price_topic (sort_texts symbols)
    else if eqb topic equity_price_topic
    then filtered_entries equity_price_topic (sort_texts symbols)
    else []

-- One round of the loop of allEntries.
pub key_entries : Text → Registry → List Entry
unfolding topic_entries
key_entries key reg = elim (lookup key reg) [
  | none ↦ []
  | some st ↦
      if none_in st.symbols
      then []
      else topic_entries (split_subs_key key).0 (split_subs_key key).1 st.symbols
]

pub entries_of_keys : List Text → Registry → List Entry
unfolding key_entries
entries_of_keys [] reg = []
entries_of_keys (key ∷ keys) reg = key_entries key reg ++ entries_of_keys keys reg

abbrev pub keys_of : Registry → List Text
keys_of [] = []
keys_of ((k, st) ∷ reg) = k ∷ keys_of reg

abbrev no_entries : List Entry → Bool
no_entries [] = true
no_entries (e ∷ es) = false

-- `allEntries`
pub all_entries : Registry → List Entry
unfolding entries_of_keys
all_entries reg = entries_of_keys (sort_texts (keys_of reg)) reg

-- `onConnect`: what is written, and whether it returned nil. Nothing is written for an empty
-- registry, which is no error.
pub on_connect : Bool → Registry → List Request × Bool
unfolding all_entries
on_connect accepts reg = (
  send_entries accepts subscribe_request (all_entries reg),
  no_entries (all_entries reg) || accepts,
)

-- `ShouldConnect`
pub should_connect : Registry → Bool
should_connect [] = false
should_connect ((k, st) ∷ reg) = not (none_in st.symbols) || should_connect reg

-- `clearSymbols`
unfoldable pub clear_symbols : Registry → Registry
clear_symbols reg = []
