-- ===== src/Binance/Streams.antt =====
-- pkg/binance/types.go and the start of pkg/binance/binance.go: the names of streams, and the
-- connection that carries each. Symbols are ASCII texts.
pub mod Names
mod Tests
pub mod Conns
pub mod Calls
use go_exchange_connector.Prelude.{
  ℕ, Text, codes, eqb, is_empty, Bool, true, false, ◌&&◌, ◌||◌, List, [], ◌∷◌, ◌++◌, Option, none,
  some, if◌then◌else◌, leb,
}
use go_exchange_connector.Prelude.Int.{ℤ}
use go_exchange_connector.Prelude.Trim.{to_lower, trim_space}
use go_exchange_connector.Prelude.Decimal.{show_int}

-- `MarketType`: a string, of which two values are valid.
pub data MarketType : Type 0 where
  market_spot : MarketType
  market_perp : MarketType
  other_market : Text → MarketType

-- `valid`
pub valid : MarketType → Bool
valid market_spot = true
valid market_perp = true
valid (other_market m) = false

-- `streamClass`
pub data StreamClass : Type 0 where
  class_spot class_market class_public : StreamClass

-- `streamType`
pub data StreamType : Type 0 where
  stream_book_ticker stream_agg_trade stream_depth stream_kline : StreamType

-- `strings.HasPrefix`
unfoldable pub has_prefix : Text → Text → Bool
has_prefix s [] = true
has_prefix [] (c ∷ cs) = false
has_prefix (x ∷ xs) (c ∷ cs) = eqb (x ∷ []) (c ∷ []) && has_prefix xs cs

-- `strings.HasSuffix`
pub has_suffix : Text → Text → Bool
has_suffix [] suffix = is_empty suffix
has_suffix (x ∷ xs) suffix = eqb (x ∷ xs) suffix || has_suffix xs suffix

abbrev pub at_depth : Text
at_depth = codes "@depth"

-- Is the first character after `n` more a digit?
abbrev pub starts_with_digit : Text → Bool
starts_with_digit [] = false
starts_with_digit (c ∷ cs) = leb 48 c && leb c 57

-- A text without the characters of a prefix that it has.
abbrev pub without : Text → Text → Text
without s [] = s
without [] (c ∷ cs) = []
without (x ∷ xs) (c ∷ cs) = without xs cs

-- `isPartialDepthStream`: is the first "@depth" followed by a digit?
unfoldable pub is_partial_depth_stream : Text → Bool
unfolding has_prefix
is_partial_depth_stream [] = false
is_partial_depth_stream (x ∷ xs) =
    let later = is_partial_depth_stream xs in
    if has_prefix (x ∷ xs) at_depth then starts_with_digit (without (x ∷ xs) at_depth) else later

-- `streamClassOf`
pub stream_class_of : MarketType → Text → StreamClass
unfolding has_suffix is_partial_depth_stream
stream_class_of market_spot stream = class_spot
stream_class_of market_perp stream =
    if has_suffix stream (codes "@bookTicker")
      || (has_suffix stream (codes "@depth@100ms") || is_partial_depth_stream stream)
    then class_public
    else class_market
stream_class_of (other_market m) stream =
    if has_suffix stream (codes "@bookTicker")
      || (has_suffix stream (codes "@depth@100ms") || is_partial_depth_stream stream)
    then class_public
    else class_market

-- `streamFor`
unfoldable pub stream_for : Text → StreamType → Text
stream_for symbol stream_book_ticker = symbol ++ codes "@bookTicker"
stream_for symbol stream_agg_trade = symbol ++ codes "@aggTrade"
stream_for symbol stream_depth = symbol ++ codes "@depth@100ms"
stream_for symbol stream_kline = symbol ++ codes "@kline_1m"

-- `klineStream`
unfoldable pub kline_stream : Text → Text → Text
kline_stream symbol interval = symbol ++ (codes "@kline_" ++ interval)

abbrev pub kline_intervals : List Text
kline_intervals = codes "1m" ∷ codes "5m" ∷ codes "15m" ∷ codes "1h" ∷ codes "4h" ∷ codes "1d" ∷ []

-- `validKlineInterval`, over what is left of the allow-list.
abbrev pub listed : Text → List Text → Bool
listed interval [] = false
listed interval (v ∷ vs) = eqb v interval || listed interval vs

pub valid_kline_interval : Text → Bool
valid_kline_interval interval = listed interval kline_intervals

-- `partialDepthStream`
pub partial_depth_stream : Text → ℤ → Text → Text
unfolding show_int
partial_depth_stream symbol levels speed =
    symbol ++ (at_depth ++ (show_int levels ++ (codes "@" ++ speed)))

-- `normalizeSymbol`
unfoldable pub normalize_symbol : Text → Text
normalize_symbol s = to_lower (trim_space s)

-- The loop that three functions share: the name of each symbol that is not blank.
pub streams_of : (Text → Text) → List Text → List Text
unfolding normalize_symbol
streams_of name [] = []
streams_of name (s ∷ ss) =
    let rest = streams_of name ss in
    if is_empty (normalize_symbol s) then rest else name (normalize_symbol s) ∷ rest

-- `buildStreams`
pub build_streams : List Text → StreamType → List Text
unfolding streams_of stream_for
build_streams symbols st = streams_of (λ s. stream_for s st) symbols

-- `buildKlineStreams`: the streams, or the interval that is not supported.
pub build_kline_streams : List Text → Text → Option (List Text)
unfolding streams_of kline_stream valid_kline_interval
build_kline_streams symbols interval =
    let trimmed = trim_space interval in
    if valid_kline_interval trimmed
    then some (streams_of (λ s. kline_stream s trimmed) symbols)
    else none

-- The streams of SubscribePartialDepth and UnsubscribePartialDepth.
pub partial_streams : List Text → ℤ → Text → List Text
unfolding streams_of partial_depth_stream
partial_streams symbols levels speed = streams_of (λ s. partial_depth_stream s levels speed) symbols
