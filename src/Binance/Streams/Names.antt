-- ===== src/Binance/Streams/Names.antt =====
-- Which connection of pkg/binance carries the streams that its Subscribe methods name.
use go_exchange_connector.Prelude.{
  ℕ, zero, suc, ◌+◌, ◌/◌, ◌%◌, Text, codes, eqb, eqb_iff, is_empty, Bool, true, not, ◌&&◌, List, [],
  ◌∷◌, ◌++◌, some, ◌≡◌, refl, ◌∙◌, arith, ◌==◌, All, Bool-cases, inl, inr,
}
use go_exchange_connector.Prelude.Int.{pos}
use go_exchange_connector.Prelude.Trim.{trim_space}
use go_exchange_connector.Prelude.Decimal.{digits, decimal, show_int}
use go_exchange_connector.Binance.Streams.{
  market_perp, StreamClass, class_market, class_public, StreamType, stream_book_ticker,
  stream_agg_trade, stream_depth, stream_kline, has_prefix, has_suffix, starts_with_digit,
  is_partial_depth_stream, stream_class_of, stream_for, normalize_symbol, streams_of, build_streams,
  build_kline_streams, partial_streams, kline_stream, kline_intervals, listed, valid_kline_interval,
  partial_depth_stream,
}

-- No `@`.
abbrev pub is_plain : Text → Bool
is_plain [] = true
is_plain (c ∷ cs) = not (c == b'@') && is_plain cs

-- A suffix that starts with `@` is not found in a plain symbol.
has_suffix-plain :
    (symbol t u : Text)
    → is_plain symbol ≡ true
    → has_suffix (symbol ++ b'@' ∷ t) (b'@' ∷ u) ≡ has_suffix (b'@' ∷ t) (b'@' ∷ u)
unfolding has_suffix eqb
has_suffix-plain [] t u h = refl
has_suffix-plain (c ∷ cs) t u h = ground (arith, has_suffix-plain cs t u)

partial-plain :
    (symbol t : Text)
    → is_plain symbol ≡ true
    → is_partial_depth_stream (symbol ++ b'@' ∷ t) ≡ is_partial_depth_stream (b'@' ∷ t)
unfolding is_partial_depth_stream has_prefix eqb
partial-plain [] t h = refl
partial-plain (c ∷ cs) t h = ground (arith, partial-plain cs t)

-- The class that each kind of stream belongs to.
abbrev pub class_for : StreamType → StreamClass
class_for stream_book_ticker = class_public
class_for stream_agg_trade = class_market
class_for stream_depth = class_public
class_for stream_kline = class_market

stream_class_of-plain :
    (symbol t : Text)
    → is_plain symbol ≡ true
    → stream_class_of market_perp (symbol ++ b'@' ∷ t) ≡ stream_class_of market_perp (b'@' ∷ t)
unfolding stream_class_of
stream_class_of-plain symbol t h =
    rw
      (
        has_suffix-plain symbol t (codes "bookTicker") h,
        has_suffix-plain symbol t (codes "depth@100ms") h,
        partial-plain symbol t h,
      )
      refl

starts_with_digit-digits :
    (fuel n : ℕ) (acc t : Text)
    → starts_with_digit (acc ++ t) ≡ true
    → starts_with_digit (digits fuel n acc ++ t) ≡ true
unfolding digits
starts_with_digit-digits zero n acc t h = h
starts_with_digit-digits (suc fuel) n acc t h =
    let acc' = (48 + n % 10) ∷ acc in ground (arith, starts_with_digit-digits fuel (n / 10) acc' t)

starts_with_digit-decimal : (n : ℕ) (t : Text) → starts_with_digit (decimal n ++ t) ≡ true
unfolding decimal digits
starts_with_digit-decimal n t =
    ground (arith, starts_with_digit-digits n (n / 10) ((48 + n % 10) ∷ []) t)

-- The four names that streamFor makes.
stream_for-class :
    (symbol : Text) (st : StreamType)
    → is_plain symbol ≡ true
    → stream_class_of market_perp (stream_for symbol st) ≡ class_for st
unfolding stream_for
stream_for-class symbol stream_book_ticker h =
    stream_class_of-plain symbol (codes "bookTicker") h
    ∙ unfold stream_class_of in unfold has_suffix in unfold eqb in refl
stream_for-class symbol stream_agg_trade h =
    stream_class_of-plain symbol (codes "aggTrade") h
    ∙ (unfold stream_class_of in
        unfold has_suffix in
        unfold eqb in unfold is_partial_depth_stream in unfold has_prefix in refl)
stream_for-class symbol stream_depth h =
    stream_class_of-plain symbol (codes "depth@100ms") h
    ∙ (unfold stream_class_of in unfold has_suffix in unfold eqb in refl)
stream_for-class symbol stream_kline h =
    stream_class_of-plain symbol (codes "kline_1m") h
    ∙ (unfold stream_class_of in
        unfold has_suffix in
        unfold eqb in unfold is_partial_depth_stream in unfold has_prefix in refl)

-- A listed interval is one of the list.
kline_listed :
    (interval : Text) (vs : List Text)
    → All (λ (v : Text). stream_class_of market_perp (codes "@kline_" ++ v) ≡ class_market) vs
    → listed interval vs ≡ true
    → stream_class_of market_perp (codes "@kline_" ++ interval) ≡ class_market
kline_listed interval [] every h = cc
kline_listed interval (v ∷ vs) every h = elim (Bool-cases (eqb v interval)) [
  | inl same ↦ rw (← (eqb_iff v interval).0 same) (every.0)
  | inr other ↦ kline_listed interval vs every.1 (ground arith)
]

kline_intervals-class :
    All
      (λ (v : Text). stream_class_of market_perp (codes "@kline_" ++ v) ≡ class_market)
      kline_intervals
unfolding stream_class_of has_suffix eqb is_partial_depth_stream has_prefix
kline_intervals-class = (refl, (refl, (refl, (refl, (refl, (refl, tt))))))

kline_stream-class :
    (symbol interval : Text)
    → is_plain symbol ≡ true
    → valid_kline_interval interval ≡ true
    → stream_class_of market_perp (kline_stream symbol interval) ≡ class_market
unfolding kline_stream valid_kline_interval
kline_stream-class symbol interval h v =
    stream_class_of-plain symbol (codes "kline_" ++ interval) h
    ∙ kline_listed interval kline_intervals kline_intervals-class v

public_if_partial :
    (stream : Text)
    → is_partial_depth_stream stream ≡ true
    → stream_class_of market_perp stream ≡ class_public
unfolding stream_class_of
public_if_partial stream h = ground (arith, h)

partial_named :
    (levels : ℕ) (t : Text)
    → is_partial_depth_stream (codes "@depth" ++ (decimal levels ++ t)) ≡ true
unfolding is_partial_depth_stream has_prefix eqb
partial_named levels t = starts_with_digit-decimal levels t

partial_depth_stream-class :
    (symbol : Text) (levels : ℕ) (speed : Text)
    → is_plain symbol ≡ true
    → stream_class_of market_perp (partial_depth_stream symbol (pos levels) speed) ≡ class_public
unfolding partial_depth_stream show_int
partial_depth_stream-class symbol levels speed h =
    let named = codes "depth" ++ (decimal levels ++ (codes "@" ++ speed)) in
    stream_class_of-plain symbol named h
    ∙ public_if_partial (b'@' ∷ named) (partial_named levels (codes "@" ++ speed))

-- Symbols whose normal forms have no `@`.
abbrev pub are_plain : List Text → Bool
are_plain [] = true
are_plain (s ∷ ss) = is_plain (normalize_symbol s) && are_plain ss

-- The venue's endpoint that carries a list of streams of the futures market.
abbrev pub CarriedBy : StreamClass → List Text → Type 0
CarriedBy class streams = All (λ (s : Text). stream_class_of market_perp s ≡ class) streams

streams_of-CarriedBy :
    (name : Text → Text) (class : StreamClass) (symbols : List Text)
    → ((s : Text) → is_plain s ≡ true → stream_class_of market_perp (name s) ≡ class)
    → are_plain symbols ≡ true
    → CarriedBy class (streams_of name symbols)
unfolding streams_of
streams_of-CarriedBy name class [] each plain = tt
streams_of-CarriedBy name class (s ∷ ss) each plain =
    let rest = streams_of-CarriedBy name class ss each (ground arith) in
    let named = each (normalize_symbol s) (ground arith) in
    elim (Bool-cases (is_empty (normalize_symbol s))) [
      | inl blank ↦ rw blank rest
      | inr word ↦ rw word (named, rest)
    ]

build_kline_streams-CarriedBy :
    (symbols : List Text) (interval : Text) (candles : List Text)
    → are_plain symbols ≡ true
    → build_kline_streams symbols interval ≡ some candles
    → CarriedBy class_market candles
unfolding build_kline_streams
build_kline_streams-CarriedBy symbols interval candles plain built =
    let trimmed = trim_space interval in
    elim (Bool-cases (valid_kline_interval trimmed)) [
      | inr refused ↦ ground (arith, refused)
      | inl accepted ↦
          let whole : candles ≡ streams_of (λ s. kline_stream s trimmed) symbols = ground arith in
          rw whole (
            streams_of-CarriedBy (λ s. kline_stream s trimmed) class_market symbols
              (λ s h. kline_stream-class s trimmed h accepted) plain)
    ]

-- On the futures market, for symbols that hold no `@`: the ticker and depth streams, and the partial
-- depth streams whose number of levels is not negative, are carried by the public connection, and the
-- trade streams and the candle streams of each interval that is accepted by the market connection.
pub built-CarriedBy :
    (symbols : List Text) (st : StreamType) (levels : ℕ) (speed interval : Text)
    (candles : List Text)
    → are_plain symbols ≡ true
    → build_kline_streams symbols interval ≡ some candles
    → CarriedBy (class_for st) (build_streams symbols st)
      × CarriedBy class_public (partial_streams symbols (pos levels) speed)
      × CarriedBy class_market candles
unfolding build_streams build_kline_streams partial_streams
built-CarriedBy symbols st levels speed interval candles plain built = (
  streams_of-CarriedBy (λ s. stream_for s st) (class_for st) symbols (λ s. stream_for-class s st)
      plain,
  streams_of-CarriedBy (λ s. partial_depth_stream s (pos levels) speed) class_public symbols
      (λ s. partial_depth_stream-class s levels speed) plain,
  build_kline_streams-CarriedBy symbols interval candles plain built,
)
