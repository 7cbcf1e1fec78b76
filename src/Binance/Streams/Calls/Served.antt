-- ===== src/Binance/Streams/Calls/Served.antt =====
-- What each connection of pkg/binance streams after a run, against what the caller asked for.
use go_exchange_connector.Prelude.{
  Text, is_empty, Bool, true, false, ◌&&◌, List, [], ◌∷◌, ◌≡◌, refl, ◌∙◌, ap, sym, arith,
  Bool-cases, inl, inr,
}
use go_exchange_connector.Prelude.Sets.{has}
use go_exchange_connector.Prelude.Sort.{sort_texts, has-sort_texts}
use go_exchange_connector.Binance.Streams.{
  MarketType, market_spot, market_perp, other_market, StreamClass, class_spot, class_market,
  class_public, stream_class_of, stream_depth, build_streams,
}
use go_exchange_connector.Binance.Streams.Conns.{
  Conn, Conns, new_conns, Method, method_subscribe, method_unsubscribe, Link, conn_at, put_conn,
  same_class, conn_for, write_subscribe, all_streams, request_of,
}
use go_exchange_connector.Binance.Streams.Calls.{resend, on_connect}
use go_exchange_connector.Binance.Streams.Calls.Registered.{
  after, has-subscribe, has-unsubscribe, conn_at-put_conn, eq_of_same_class,
}
use go_exchange_connector.Binance.Streams.Calls.Depth.{has-request_depth, serves-request_depth}
use go_exchange_connector.Binance.Streams.Calls.Wire.{
  serves, IsLive, serves-subscribe, serves-unsubscribe,
}
use go_exchange_connector.Binance.Streams.Calls.Machine.{
  Machine, Event, new_machine, link_of, open_link, step, run, same_market, intends, calls,
  calls_depth, connects, drops,
}

-- Only the calls for its own market reach a connection.
perp_not_spot : (j : Text) → same_class class_spot (stream_class_of market_perp j) ≡ false
unfolding stream_class_of
perp_not_spot j = ground arith

reaches :
    (mkt other : MarketType) (c : StreamClass) (j : Text) (b : Bool)
    → conn_for mkt c ≡ true
    → (conn_for other c && (same_class c (stream_class_of other j) && b))
      ≡ (same_class c (stream_class_of mkt j) && (same_market mkt other && b))
unfolding conn_for
reaches market_spot market_spot class_spot j b h = refl
reaches market_spot market_perp class_spot j b h = ground arith
reaches market_spot (other_market m) class_spot j b h = ground arith
reaches market_spot other class_market j b h = cc
reaches market_spot other class_public j b h = cc
reaches market_perp other class_spot j b h = cc
reaches market_perp market_perp class_market j b h = refl
reaches market_perp market_perp class_public j b h = refl
reaches market_perp market_spot class_market j b h = ground arith
reaches market_perp market_spot class_public j b h = ground arith
reaches market_perp (other_market m) class_market j b h = ground arith
reaches market_perp (other_market m) class_public j b h = ground arith
reaches (other_market m) other c j b h = cc

after_shared :
    (method : Method) (x y b : Bool) → after method (x && y) (x && b) ≡ (x && after method y b)
after_shared method_subscribe x y b = ground arith
after_shared method_unsubscribe x y b = ground arith

streams-resend :
    (link : Link) (ss : List Text) (c : Conn) → (resend link ss c).0.streams ≡ c.streams
unfolding resend write_subscribe
streams-resend link [] c = refl
streams-resend link (s ∷ ss) c = refl

serves-resend :
    (link : Link) (ss : List Text) (c : Conn) (j : Text)
    → IsLive link
    → serves (resend link ss c).1 j false ≡ has j ss
unfolding resend write_subscribe has
serves-resend link [] c j live = refl
serves-resend link (s ∷ ss) c j live =
    rw (live.1 (request_of method_subscribe (s ∷ ss) c)) (ground arith)

-- An accepted handshake makes the connection stream its registry.
serves-on_connect :
    (link : Link) (c : Conn) (j : Text)
    → IsLive link
    → serves (on_connect link c).1 j false ≡ has j (on_connect link c).0.streams
unfolding on_connect all_streams
serves-on_connect link c j live =
    serves-resend link (sort_texts c.streams) c j live
    ∙ has-sort_texts j c.streams
    ∙ ap (has j) (sym (streams-resend link (sort_texts c.streams) c))

streams-on_connect : (link : Link) (c : Conn) → (on_connect link c).0.streams ≡ c.streams
unfolding on_connect all_streams
streams-on_connect link c = streams-resend link (sort_texts c.streams) c

streams-connects :
    (j : Text) (c d : StreamClass) (b : Conns)
    → has j (conn_at c (put_conn d (on_connect open_link (conn_at d b)).0 b)).streams
      ≡ has j (conn_at c b).streams
streams-connects j c d b =
    let made = on_connect open_link (conn_at d b) in
    elim (Bool-cases (same_class c d)) [
      | inr other ↦ rw (conn_at-put_conn c d made.0 b, other) refl
      | inl same ↦
          rw (conn_at-put_conn c d made.0 b, same, eq_of_same_class c d same)
            (ap (has j) (streams-on_connect open_link (conn_at d b)))
    ]

-- The registry of a connection, as far as one stream of its market goes.
registered-step :
    (e : Event) (m : Machine) (mkt : MarketType) (c : StreamClass) (j : Text) (b : Bool)
    → conn_for mkt c ≡ true
    → is_empty j ≡ false
    → has j (conn_at c m.conns).streams ≡ (same_class c (stream_class_of mkt j) && b)
    → has j (conn_at c (step e m).conns).streams
      ≡ (same_class c (stream_class_of mkt j) && intends mkt j (e ∷ []) b)
registered-step (calls method_subscribe other ss) m mkt c j b own solid h = ground (
  arith,
  h,
  own,
  has-subscribe (link_of m) other ss c m.conns j solid,
  reaches mkt other c j (has j ss) own,
)
registered-step (calls method_unsubscribe other ss) m mkt c j b own solid h = ground (
  arith,
  h,
  own,
  has-unsubscribe (link_of m) other ss c m.conns j solid,
  reaches mkt other c j (has j ss) own,
)
registered-step (calls_depth method_subscribe other symbols) m mkt c j b own solid h = ground (
  arith,
  h,
  own,
  has-request_depth method_subscribe (link_of m) other symbols c m.conns j solid,
  reaches mkt other c j (has j (build_streams symbols stream_depth)) own,
)
registered-step (calls_depth method_unsubscribe other symbols) m mkt c j b own solid h = ground (
  arith,
  h,
  own,
  has-request_depth method_unsubscribe (link_of m) other symbols c m.conns j solid,
  reaches mkt other c j (has j (build_streams symbols stream_depth)) own,
)
registered-step (connects d) m mkt c j b own solid h = streams-connects j c d m.conns ∙ h
registered-step (drops d) m mkt c j b own solid h = h

intends_cons :
    (mkt : MarketType) (j : Text) (e : Event) (es : List Event) (b : Bool)
    → intends mkt j es (intends mkt j (e ∷ []) b) ≡ intends mkt j (e ∷ es) b
intends_cons mkt j (calls method other ss) es b = refl
intends_cons mkt j (calls_depth method other ss) es b = refl
intends_cons mkt j (connects c) es b = refl
intends_cons mkt j (drops c) es b = refl

registered-run_from :
    (es : List Event) (m : Machine) (mkt : MarketType) (c : StreamClass) (j : Text) (b : Bool)
    → conn_for mkt c ≡ true
    → is_empty j ≡ false
    → has j (conn_at c m.conns).streams ≡ (same_class c (stream_class_of mkt j) && b)
    → has j (conn_at c (run es m).conns).streams
      ≡ (same_class c (stream_class_of mkt j) && intends mkt j es b)
registered-run_from [] m mkt c j b own solid h = h
registered-run_from (e ∷ es) m mkt c j b own solid h =
    registered-run_from es (step e m) mkt c j (intends mkt j (e ∷ []) b) own solid
      (registered-step e m mkt c j b own solid h)
    ∙ ap (λ (x : Bool). same_class c (stream_class_of mkt j) && x) (intends_cons mkt j e es b)

-- The venue streams the registry on each connection that is up, and nothing on the others.
abbrev IsServed : StreamClass → Text → Machine → Type 0
IsServed c j m = m.served c j ≡ (m.live c && has j (conn_at c m.conns).streams)

step-IsServed :
    (e : Event) (m : Machine) (c : StreamClass) (j : Text)
    → IsServed c j m
    → IsServed c j (step e m)
step-IsServed (calls method_subscribe other ss) m c j h = elim (Bool-cases (m.live c)) [
  | inr down ↦ ground (arith, down)
  | inl up ↦ rw (h, up) (serves-subscribe (link_of m) other ss c m.conns j (up, λ f. refl))
]
step-IsServed (calls method_unsubscribe other ss) m c j h = elim (Bool-cases (m.live c)) [
  | inr down ↦ ground (arith, down)
  | inl up ↦ rw (h, up) (serves-unsubscribe (link_of m) other ss c m.conns j (up, λ f. refl))
]
step-IsServed (calls_depth method other symbols) m c j h = elim (Bool-cases (m.live c)) [
  | inr down ↦ ground (arith, down)
  | inl up ↦
      rw (h, up) (serves-request_depth method (link_of m) other symbols c m.conns j (up, λ f. refl))
]
step-IsServed (connects d) m c j h = elim (Bool-cases (same_class c d)) [
  | inr other ↦ rw (other, streams-connects j c d m.conns) h
  | inl same ↦
      let made = on_connect open_link (conn_at d m.conns) in
      rw (conn_at-put_conn c d made.0 m.conns, same)
        (serves-on_connect open_link (conn_at d m.conns) j (refl, λ f. refl))
]
step-IsServed (drops d) m c j h = ground (arith, h)

run-IsServed :
    (es : List Event) (m : Machine) (c : StreamClass) (j : Text)
    → IsServed c j m
    → IsServed c j (run es m)
run-IsServed [] m c j h = h
run-IsServed (e ∷ es) m c j h = run-IsServed es (step e m) c j (step-IsServed e m c j h)

nothing_registered :
    (c : StreamClass) (j : Text) (b : Bool) → has j (conn_at c new_conns).streams ≡ (b && false)
unfolding has
nothing_registered class_spot j b = ground arith
nothing_registered class_market j b = ground arith
nothing_registered class_public j b = ground arith

-- From a new manager on, whatever order calls of the Subscribe and Unsubscribe methods for either
-- market (those for depth among them), connections and drops come in, with no write failing: a
-- connection of a market that is up streams exactly the streams of its class that the caller has
-- subscribed to for that market and not unsubscribed from since, and a connection that is down streams
-- nothing.
pub streamed-run :
    (es : List Event) (mkt : MarketType) (c : StreamClass) (j : Text)
    → conn_for mkt c ≡ true
    → is_empty j ≡ false
    → let m = run es new_machine in
      m.served c j ≡ (m.live c && (same_class c (stream_class_of mkt j) && intends mkt j es false))
streamed-run es mkt c j own solid =
    run-IsServed es new_machine c j refl
    ∙ ap (λ (x : Bool). (run es new_machine).live c && x)
        (registered-run_from es new_machine mkt c j false own solid
          (nothing_registered c j (same_class c (stream_class_of mkt j))))
