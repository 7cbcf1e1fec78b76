-- ===== src/Binance/Streams/Calls/Depth.antt =====
-- pkg/binance/binance.go: SubscribeDepth and UnsubscribeDepth, which send all their streams to the
-- connection of the first.
use go_exchange_connector.Prelude.{
  ℕ, Text, codes, eqb, eqb_iff, eqb_refl, is_empty, Bool, true, false, ◌&&◌, List, [], ◌∷◌, ◌++◌,
  ◌≡◌, refl, ◌∙◌, ap, sym, arith, Bool-cases, inl, inr,
}
use go_exchange_connector.Prelude.Sets.{has}
use go_exchange_connector.Binance.Book.{Book}
use go_exchange_connector.Binance.Streams.{
  MarketType, market_spot, market_perp, other_market, StreamClass, class_spot, class_market,
  class_public, stream_depth, stream_class_of, stream_for, has_suffix, streams_of, normalize_symbol,
  build_streams,
}
use go_exchange_connector.Binance.Streams.Conns.{
  Conn, Conns, Method, method_subscribe, method_unsubscribe, conn_at, same_class, conn_for,
}
use go_exchange_connector.Binance.Streams.Calls.{
  Sent, Links, change_group, change_depth, change_books, subscribe_depth, unsubscribe_depth,
  with_books,
}
use go_exchange_connector.Binance.Streams.Calls.Registered.{after, has-change_group}
use go_exchange_connector.Binance.Streams.Calls.Wire.{
  serves, frames_on, IsLive, serves-change_group,
}

conn_at-with_books :
    (f : List (Text × Book) → List (Text × Book)) (mkt : MarketType) (c : StreamClass) (b : Conns)
    → conn_at c (with_books f mkt b) ≡ conn_at c b
conn_at-with_books f market_spot class_spot b = refl
conn_at-with_books f market_spot class_market b = refl
conn_at-with_books f market_spot class_public b = refl
conn_at-with_books f market_perp class_spot b = refl
conn_at-with_books f market_perp class_market b = refl
conn_at-with_books f market_perp class_public b = refl
conn_at-with_books f (other_market m) c b = refl

-- The class of the connection that carries the diffs of a market.
abbrev depth_class : MarketType → StreamClass
depth_class market_spot = class_spot
depth_class market_perp = class_public
depth_class (other_market m) = class_public

ends_with_itself : (xs : Text) (c : ℕ) (cs : Text) → has_suffix (xs ++ c ∷ cs) (c ∷ cs) ≡ true
unfolding has_suffix
ends_with_itself [] c cs = ground (arith, eqb_refl (c ∷ cs))
ends_with_itself (x ∷ xs) c cs = ground (arith, ends_with_itself xs c cs)

depth_class_of :
    (mkt : MarketType) (symbol : Text)
    → stream_class_of mkt (stream_for symbol stream_depth) ≡ depth_class mkt
unfolding stream_class_of stream_for
depth_class_of market_spot symbol = refl
depth_class_of market_perp symbol =
    ground (arith, ends_with_itself symbol b'@' (codes "depth@100ms"))
depth_class_of (other_market m) symbol =
    ground (arith, ends_with_itself symbol b'@' (codes "depth@100ms"))

-- Every stream of SubscribeDepth has the one class.
depth_stream-class :
    (mkt : MarketType) (symbols : List Text) (j : Text)
    → has j (streams_of (λ s. stream_for s stream_depth) symbols) ≡ true
    → stream_class_of mkt j ≡ depth_class mkt
unfolding streams_of has
depth_stream-class mkt [] j h = cc
depth_stream-class mkt (s ∷ ss) j h =
    let symbol = normalize_symbol s in
    let name = stream_for symbol stream_depth in
    elim (Bool-cases (is_empty symbol)) [
      | inl blank ↦ depth_stream-class mkt ss j (ground (arith, blank))
      | inr word ↦ elim (Bool-cases (eqb j name)) [
        | inl same ↦ ap (stream_class_of mkt) ((eqb_iff j name).0 same) ∙ depth_class_of mkt symbol
        | inr other ↦ depth_stream-class mkt ss j (ground (arith, word, other))
      ]
    ]

-- All streams of a call have the class of the first.
IsUniform : MarketType → StreamClass → List Text → Type 0
IsUniform mkt class streams = (j : Text) → has j streams ≡ true → stream_class_of mkt j ≡ class

first_named : (s : Text) (ss : List Text) → has s (s ∷ ss) ≡ true
unfolding has
first_named s ss = ground (arith, eqb_refl s)

named-IsUniform :
    (mkt : MarketType) (class c : StreamClass) (s : Text) (ss : List Text) (j : Text)
    → IsUniform mkt class (s ∷ ss)
    → (same_class c (stream_class_of mkt s) && has j (s ∷ ss))
      ≡ (same_class c (stream_class_of mkt j) && has j (s ∷ ss))
unfolding IsUniform
named-IsUniform mkt class c s ss j uniform = elim (Bool-cases (has j (s ∷ ss))) [
  | inr missing ↦ rw missing (ground arith)
  | inl named ↦ rw (uniform j named, uniform s (first_named s ss)) refl
]

nothing_asked :
    (method : Method) (x y : Bool) (j : Text) (b : Bool) → after method (x && (y && has j [])) b ≡ b
unfolding has
nothing_asked method_subscribe x y j b = ground arith
nothing_asked method_unsubscribe x y j b = ground arith

has-change_depth :
    (method : Method) (links : Links) (mkt : MarketType) (streams : List Text)
    (class c : StreamClass) (b : Conns) (j : Text)
    → IsUniform mkt class streams
    → is_empty j ≡ false
    → has j (conn_at c (change_depth method links mkt streams b).0).streams
      ≡ after method
          (conn_for mkt c && (same_class c (stream_class_of mkt j) && has j streams))
          (has j (conn_at c b).streams)
unfolding change_depth
has-change_depth method links mkt [] class c b j uniform solid = sym (
    nothing_asked method (conn_for mkt c) (same_class c (stream_class_of mkt j)) j
      (has j (conn_at c b).streams))
has-change_depth method links mkt (s ∷ ss) class c b j uniform solid =
    let made = change_group method links mkt (stream_class_of mkt s) (s ∷ ss) b in
    ap (λ (x : Conn). has j x.streams)
      (conn_at-with_books (change_books method (s ∷ ss)) mkt c made.0)
    ∙ has-change_group method links mkt (stream_class_of mkt s) c (s ∷ ss) b j solid
    ∙ ap (λ (x : Bool). after method (conn_for mkt c && x) (has j (conn_at c b).streams))
        (named-IsUniform mkt class c s ss j uniform)

serves-change_depth :
    (method : Method) (links : Links) (mkt : MarketType) (streams : List Text) (c : StreamClass)
    (b : Conns) (j : Text)
    → IsLive (links c)
    → serves
        (frames_on c (change_depth method links mkt streams b).1)
        j
        (has j (conn_at c b).streams)
      ≡ has j (conn_at c (change_depth method links mkt streams b).0).streams
unfolding change_depth
serves-change_depth method links mkt [] c b j live = refl
serves-change_depth method links mkt (s ∷ ss) c b j live =
    let made = change_group method links mkt (stream_class_of mkt s) (s ∷ ss) b in
    serves-change_group method links mkt (stream_class_of mkt s) c (s ∷ ss) b j live
    ∙ ap (λ (x : Conn). has j x.streams)
        (sym (conn_at-with_books (change_books method (s ∷ ss)) mkt c made.0))

-- SubscribeDepth and UnsubscribeDepth, as one operation.
abbrev pub request_depth : Method → Links → MarketType → List Text → Conns → Conns × Sent
request_depth method_subscribe = subscribe_depth
request_depth method_unsubscribe = unsubscribe_depth

-- The registry after them is the one after a call for their streams.
pub has-request_depth :
    (method : Method) (links : Links) (mkt : MarketType) (symbols : List Text) (c : StreamClass)
    (b : Conns) (j : Text)
    → is_empty j ≡ false
    → has j (conn_at c (request_depth method links mkt symbols b).0).streams
      ≡ after method
          (conn_for mkt c
            && (same_class c (stream_class_of mkt j) && has j (build_streams symbols stream_depth)))
          (has j (conn_at c b).streams)
unfolding subscribe_depth unsubscribe_depth build_streams IsUniform
has-request_depth method_subscribe links mkt symbols c b j solid =
    let streams = streams_of (λ s. stream_for s stream_depth) symbols in
    has-change_depth method_subscribe links mkt streams (depth_class mkt) c b j
      (λ k h. depth_stream-class mkt symbols k h) solid
has-request_depth method_unsubscribe links mkt symbols c b j solid =
    let streams = streams_of (λ s. stream_for s stream_depth) symbols in
    has-change_depth method_unsubscribe links mkt streams (depth_class mkt) c b j
      (λ k h. depth_stream-class mkt symbols k h) solid

pub serves-request_depth :
    (method : Method) (links : Links) (mkt : MarketType) (symbols : List Text) (c : StreamClass)
    (b : Conns) (j : Text)
    → IsLive (links c)
    → serves
        (frames_on c (request_depth method links mkt symbols b).1)
        j
        (has j (conn_at c b).streams)
      ≡ has j (conn_at c (request_depth method links mkt symbols b).0).streams
unfolding subscribe_depth unsubscribe_depth
serves-request_depth method_subscribe links mkt symbols =
    serves-change_depth method_subscribe links mkt (build_streams symbols stream_depth)
serves-request_depth method_unsubscribe links mkt symbols =
    serves-change_depth method_unsubscribe links mkt (build_streams symbols stream_depth)
