-- ===== src/Binance/Streams/Conns.antt =====
-- pkg/binance/binance.go: the connections of WSBinance with their stream registries and books, the
-- calls that change them, and the frames that are written. What a transport does is an argument.
use go_exchange_connector.Prelude.{
  Text, is_empty, Bool, true, false, not, ◌&&◌, ◌||◌, List, [], ◌∷◌, ◌++◌, if◌then◌else◌,
}
use go_exchange_connector.Prelude.Int.{ℤ, pos, ◌+ℤ◌, wrap64}
use go_exchange_connector.Prelude.Sets.{has, insert, delete}
use go_exchange_connector.Prelude.Sort.{sort_texts}
use go_exchange_connector.Binance.Book.{Book}
use go_exchange_connector.Binance.Streams.{
  MarketType, market_spot, market_perp, other_market, StreamClass, class_spot, class_market,
  class_public, stream_class_of,
}

-- The fields `streams` and `nextID` of binanceConn.
pub record Conn : Type 0 where
  pub streams : List Text
  pub next_id : ℤ

-- The fields `conns` and `books` of WSBinance, for the two valid markets.
pub record Conns : Type 0 where
  pub spot : Conn
  pub market : Conn
  pub public : Conn
  pub spot_books : List (Text × Book)
  pub perp_books : List (Text × Book)

-- `binanceMethodSubscribe` and `binanceMethodUnsubscribe`
pub data Method : Type 0 where
  method_subscribe method_unsubscribe : Method

-- `binanceSubRequest`
pub record SubRequest : Type 0 where
  pub method : Method
  pub params : List Text
  pub id : ℤ

-- `Conn() != nil`, and whether `conn.Write` accepts a frame.
pub record Link : Type 0 where
  pub connected : Bool
  pub accepts : SubRequest → Bool

-- `newBinanceConn`
abbrev pub new_conn : Conn
new_conn = record { streams = []; next_id = pos 0 }

-- `New`
abbrev pub new_conns : Conns
new_conns = record {
  spot = new_conn;
  market = new_conn;
  public = new_conn;
  spot_books = [];
  perp_books = [];
}

abbrev pub conn_at : StreamClass → Conns → Conn
conn_at class_spot b = b.spot
conn_at class_market b = b.market
conn_at class_public b = b.public

abbrev pub put_conn : StreamClass → Conn → Conns → Conns
put_conn class_spot c b = record b { spot = c }
put_conn class_market c b = record b { market = c }
put_conn class_public c b = record b { public = c }

abbrev pub same_class : StreamClass → StreamClass → Bool
same_class class_spot class_spot = true
same_class class_market class_market = true
same_class class_public class_public = true
same_class _ _ = false

-- `connFor`: whether the market has a connection of the class.
unfoldable pub conn_for : MarketType → StreamClass → Bool
conn_for market_spot class = same_class class class_spot
conn_for market_perp class = not (same_class class class_spot)
conn_for (other_market m) class = false

-- `append(groups[class], s)`
unfoldable pub group_append :
    StreamClass → Text → List (StreamClass × List Text) → List (StreamClass × List Text)
group_append class s [] = (class, s ∷ []) ∷ []
group_append class s ((other, group) ∷ groups) =
    let rest = group_append class s groups in
    if same_class class other then (other, group ++ s ∷ []) ∷ groups else (other, group) ∷ rest

-- The loop of `groupStreams`.
unfoldable pub group_loop :
    MarketType → List Text → List (StreamClass × List Text) → List (StreamClass × List Text)
unfolding group_append
group_loop mkt [] groups = groups
group_loop mkt (s ∷ ss) groups = group_loop mkt ss (group_append (stream_class_of mkt s) s groups)

-- `groupStreams`
unfoldable pub group_streams : MarketType → List Text → List (StreamClass × List Text)
unfolding group_loop
group_streams mkt streams = group_loop mkt streams []

-- The loop of `addStreams`: the registry and `added`.
unfoldable pub add_loop : List Text → List Text → List Text × List Text
add_loop [] set = (set, [])
add_loop (s ∷ ss) set =
    let skipped = add_loop ss set in
    let (set', added) = add_loop ss (insert s set) in
    if is_empty s || has s set then skipped else (set', s ∷ added)

abbrev pub is_none : List Text → Bool
is_none [] = true
is_none (x ∷ xs) = false

-- `addStreams`: the connection, `first` and `added`.
unfoldable pub add_streams : List Text → Conn → Conn × Bool × List Text
unfolding add_loop
add_streams ss c =
    let (set, added) = add_loop ss c.streams in
    (record c { streams = set }, is_none c.streams && not (is_none set), added)

-- The loop of `removeStreams`: the registry and `removed`.
unfoldable pub remove_loop : List Text → List Text → List Text × List Text
remove_loop [] set = (set, [])
remove_loop (s ∷ ss) set =
    let skipped = remove_loop ss set in
    let (set', removed) = remove_loop ss (delete s set) in
    if has s set then (set', s ∷ removed) else skipped

-- `removeStreams`: the connection, `last` and `removed`.
unfoldable pub remove_streams : List Text → Conn → Conn × Bool × List Text
unfolding remove_loop
remove_streams ss c =
    let (set, removed) = remove_loop ss c.streams in
    (record c { streams = set }, not (is_none removed) && is_none set, removed)

-- `clearStreams`
unfoldable pub clear_streams : Conn → Conn
clear_streams c = record c { streams = [] }

-- `isSubscribed`
is_subscribed : Text → Conn → Bool
is_subscribed stream c = has stream c.streams

-- `allStreams`
unfoldable pub all_streams : Conn → List Text
all_streams c = sort_texts c.streams

-- The request of `writeSubscribe`, which takes the next identifier.
abbrev pub request_of : Method → List Text → Conn → SubRequest
request_of method streams c = record {
  method = method;
  params = streams;
  id = wrap64 (c.next_id +ℤ pos 1);
}

-- `writeSubscribe`: the connection, the frame that reaches the wire, and whether the write succeeded.
unfoldable pub write_subscribe : Link → Method → List Text → Conn → Conn × List SubRequest × Bool
write_subscribe link method streams c =
    let request = request_of method streams c in
    let taken = link.accepts request in
    (record c { next_id = request.id }, if taken then request ∷ [] else [], taken)

-- `send`: with no connection the request is dropped; a failed write is logged and forgotten.
unfoldable pub send : Link → Method → List Text → Conn → Conn × List SubRequest
unfolding write_subscribe
send link method [] c = (c, [])
send link method (s ∷ ss) c =
    let (c', frames, taken) = write_subscribe link method (s ∷ ss) c in
    if link.connected then (c', frames) else (c, [])

-- Adding streams to one connection, and removing them, with the frames.
unfoldable pub add_and_send : Link → List Text → Conn → Conn × List SubRequest
unfolding add_streams send
add_and_send link group c =
    let (c', first, added) = add_streams group c in send link method_subscribe added c'

unfoldable pub remove_and_send : Link → List Text → Conn → Conn × List SubRequest
unfolding remove_streams send
remove_and_send link group c =
    let (c', last, removed) = remove_streams group c in send link method_unsubscribe removed c'
