-- ===== src/Binance/Streams/Calls.antt =====
-- pkg/binance/binance.go: the Subscribe and Unsubscribe methods of WSBinance over its connections,
-- and what a connection does when it is made and when it drops.
pub mod Loops
pub mod Machine
pub mod Registered
pub mod Wire
pub mod Served
pub mod Depth
use go_exchange_connector.Prelude.{
  Text, codes, eqb, Bool, true, false, List, [], ◌∷◌, ◌++◌, map, Option, none, some, if◌then◌else◌,
}
use go_exchange_connector.Prelude.Int.{ℤ}
use go_exchange_connector.Prelude.Dict.{lookup, put, remove}
use go_exchange_connector.Binance.Book.{Book, new_book, reset_book}
use go_exchange_connector.Binance.Streams.{
  MarketType, market_spot, market_perp, other_market, StreamClass, class_spot, class_market,
  class_public, stream_book_ticker, stream_agg_trade, stream_depth, stream_class_of,
  normalize_symbol, build_streams, build_kline_streams, partial_streams, valid,
}
use go_exchange_connector.Binance.Streams.Conns.{
  Conn, Conns, Method, method_subscribe, method_unsubscribe, SubRequest, Link, conn_at, put_conn,
  conn_for, group_streams, write_subscribe, all_streams, clear_streams, add_and_send,
  remove_and_send,
}

-- The frames that reach the wire, each with its connection.
abbrev pub Sent : Type 0
Sent = List (StreamClass × SubRequest)

abbrev pub Links : Type 0
Links = StreamClass → Link

abbrev pub tagged : StreamClass → List SubRequest → Sent
tagged class [] = []
tagged class (f ∷ fs) = (class, f) ∷ tagged class fs

-- The two bodies of the loops of `subscribe` and `unsubscribe`.
abbrev pub change : Method → Link → List Text → Conn → Conn × List SubRequest
change method_subscribe = add_and_send
change method_unsubscribe = remove_and_send

-- One group on its connection, if the market has it.
pub change_group : Method → Links → MarketType → StreamClass → List Text → Conns → Conns × Sent
change_group method links mkt class group b =
    let (c, frames) = change method (links class) group (conn_at class b) in
    if conn_for mkt class then (put_conn class c b, tagged class frames) else (b, [])

-- The loop over the groups.
pub change_groups :
    Method → Links → MarketType → List (StreamClass × List Text) → Conns → Conns × Sent
unfolding change_group
change_groups method links mkt [] b = (b, [])
change_groups method links mkt ((class, group) ∷ groups) b =
    let (b', sent) = change_group method links mkt class group b in
    let (b'', later) = change_groups method links mkt groups b' in (b'', sent ++ later)

-- `subscribe`
pub subscribe : Links → MarketType → List Text → Conns → Conns × Sent
unfolding change_groups group_streams
subscribe links mkt streams b =
    change_groups method_subscribe links mkt (group_streams mkt streams) b

-- `unsubscribe`
pub unsubscribe : Links → MarketType → List Text → Conns → Conns × Sent
unfolding change_groups group_streams
unsubscribe links mkt streams b =
    change_groups method_unsubscribe links mkt (group_streams mkt streams) b

-- `SubscribeBookTicker`, `UnsubscribeBookTicker`
subscribe_book_ticker : Links → MarketType → List Text → Conns → Conns × Sent
unfolding subscribe build_streams
subscribe_book_ticker links mkt symbols b =
    subscribe links mkt (build_streams symbols stream_book_ticker) b

unsubscribe_book_ticker : Links → MarketType → List Text → Conns → Conns × Sent
unfolding unsubscribe build_streams
unsubscribe_book_ticker links mkt symbols b =
    unsubscribe links mkt (build_streams symbols stream_book_ticker) b

-- `SubscribeTrades`, `UnsubscribeTrades`
subscribe_trades : Links → MarketType → List Text → Conns → Conns × Sent
unfolding subscribe build_streams
subscribe_trades links mkt symbols b =
    subscribe links mkt (build_streams symbols stream_agg_trade) b

unsubscribe_trades : Links → MarketType → List Text → Conns → Conns × Sent
unfolding unsubscribe build_streams
unsubscribe_trades links mkt symbols b =
    unsubscribe links mkt (build_streams symbols stream_agg_trade) b

-- `strings.TrimSuffix`
abbrev trim_suffix : Text → Text → Text
trim_suffix [] suffix = []
trim_suffix (x ∷ xs) suffix =
    let rest = trim_suffix xs suffix in if eqb (x ∷ xs) suffix then [] else x ∷ rest

-- `bookFor`, over the books of a market.
pub book_for : Text → List (Text × Book) → List (Text × Book)
book_for symbol books = elim (lookup symbol books) [
  | some book ↦ books
  | none ↦ put symbol new_book books
]

-- The loop over the books in SubscribeDepth, and the one in UnsubscribeDepth.
pub add_books : List Text → List (Text × Book) → List (Text × Book)
unfolding book_for
add_books [] books = books
add_books (s ∷ ss) books = add_books ss (book_for (trim_suffix s (codes "@depth@100ms")) books)

pub drop_books : List Text → List (Text × Book) → List (Text × Book)
drop_books [] books = books
drop_books (s ∷ ss) books = drop_books ss (remove (trim_suffix s (codes "@depth@100ms")) books)

abbrev pub with_books : (List (Text × Book) → List (Text × Book)) → MarketType → Conns → Conns
with_books f market_spot b = record b { spot_books = f b.spot_books }
with_books f market_perp b = record b { perp_books = f b.perp_books }
with_books f (other_market m) b = b

abbrev pub change_books : Method → List Text → List (Text × Book) → List (Text × Book)
change_books method_subscribe = add_books
change_books method_unsubscribe = drop_books

-- The body that both share: all streams go to the connection of the first.
pub change_depth : Method → Links → MarketType → List Text → Conns → Conns × Sent
unfolding change_group add_books drop_books
change_depth method links mkt [] b = (b, [])
change_depth method links mkt (s ∷ ss) b =
    let (b', sent) = change_group method links mkt (stream_class_of mkt s) (s ∷ ss) b in
    (with_books (change_books method (s ∷ ss)) mkt b', sent)

-- `SubscribeDepth`, `UnsubscribeDepth`
pub subscribe_depth : Links → MarketType → List Text → Conns → Conns × Sent
unfolding change_depth build_streams
subscribe_depth links mkt symbols b =
    change_depth method_subscribe links mkt (build_streams symbols stream_depth) b

pub unsubscribe_depth : Links → MarketType → List Text → Conns → Conns × Sent
unfolding change_depth build_streams
unsubscribe_depth links mkt symbols b =
    change_depth method_unsubscribe links mkt (build_streams symbols stream_depth) b

-- `SubscribePartialDepth`, `UnsubscribePartialDepth`
subscribe_partial_depth : Links → MarketType → List Text → ℤ → Text → Conns → Conns × Sent
unfolding subscribe partial_streams
subscribe_partial_depth links mkt symbols levels speed b =
    subscribe links mkt (partial_streams symbols levels speed) b

unsubscribe_partial_depth : Links → MarketType → List Text → ℤ → Text → Conns → Conns × Sent
unfolding unsubscribe partial_streams
unsubscribe_partial_depth links mkt symbols levels speed b =
    unsubscribe links mkt (partial_streams symbols levels speed) b

-- The two errors of SubscribeKlines.
pub data KlineError : Type 0 where
  unsupported_interval : KlineError
  invalid_market : MarketType → KlineError

-- `SubscribeKlines`, `UnsubscribeKlines`
pub subscribe_klines :
    Links → MarketType → List Text → Text → Conns → Conns × Sent × Option KlineError
unfolding subscribe build_kline_streams valid
subscribe_klines links mkt symbols interval b = elim (build_kline_streams symbols interval) [
  | none ↦ (b, [], some unsupported_interval)
  | some streams ↦
      let (b', sent) = subscribe links mkt streams b in
      if valid mkt then (b', sent, none) else (b, [], some (invalid_market mkt))
]

pub unsubscribe_klines :
    Links → MarketType → List Text → Text → Conns → Conns × Sent × Option KlineError
unfolding unsubscribe build_kline_streams valid
unsubscribe_klines links mkt symbols interval b = elim (build_kline_streams symbols interval) [
  | none ↦ (b, [], some unsupported_interval)
  | some streams ↦
      let (b', sent) = unsubscribe links mkt streams b in
      if valid mkt then (b', sent, none) else (b, [], some (invalid_market mkt))
]

-- The request for every stream, if there is one.
pub resend : Link → List Text → Conn → Conn × List SubRequest × Bool
unfolding write_subscribe
resend link [] c = (c, [], true)
resend link (s ∷ ss) c = write_subscribe link method_subscribe (s ∷ ss) c

-- `onConnect`, up to the seeding of the books: the connection, the frames, and whether it succeeded.
pub on_connect : Link → Conn → Conn × List SubRequest × Bool
unfolding all_streams resend
on_connect link c = resend link (all_streams c) c

abbrev reset_all : List (Text × Book) → List (Text × Book)
reset_all [] = []
reset_all ((symbol, book) ∷ books) = (symbol, reset_book book) ∷ reset_all books

-- `resetDepthBooks`
pub reset_depth_books : MarketType → Conns → Conns
unfolding reset_book
reset_depth_books market_spot b = record b { spot_books = reset_all b.spot_books }
reset_depth_books market_perp b = record b { perp_books = reset_all b.perp_books }
reset_depth_books (other_market m) b = b

-- The registries and the books after `Stop`.
pub stop : Conns → Conns
unfolding clear_streams
stop b = record {
  spot = clear_streams b.spot;
  market = clear_streams b.market;
  public = clear_streams b.public;
  spot_books = [];
  perp_books = [];
}
