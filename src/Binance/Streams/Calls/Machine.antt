-- ===== src/Binance/Streams/Calls/Machine.antt =====
-- Runs of pkg/binance's stream managers: calls, connections and drops in any order, what the venue
-- streams, and what the caller has asked for.
use go_exchange_connector.Prelude.{
  Text, Bool, true, false, not, ◌&&◌, ◌||◌, List, [], ◌∷◌, if◌then◌else◌,
}
use go_exchange_connector.Prelude.Sets.{has}
use go_exchange_connector.Binance.Streams.{
  MarketType, market_spot, market_perp, StreamClass, stream_depth, build_streams,
}
use go_exchange_connector.Binance.Streams.Conns.{
  Conns, new_conns, Method, method_subscribe, method_unsubscribe, Link, conn_at, put_conn,
  same_class,
}
use go_exchange_connector.Binance.Streams.Calls.{Sent, Links, subscribe, unsubscribe, on_connect}
use go_exchange_connector.Binance.Streams.Calls.Registered.{after}
use go_exchange_connector.Binance.Streams.Calls.Depth.{request_depth}
use go_exchange_connector.Binance.Streams.Calls.Wire.{serves, frames_on}

-- The manager, which connections are up, and what the venue streams on each.
pub record Machine : Type 0 where
  pub conns : Conns
  pub live : StreamClass → Bool
  pub served : StreamClass → Text → Bool

pub data Event : Type 0 where
  calls : Method → MarketType → List Text → Event
  calls_depth : Method → MarketType → List Text → Event
  connects : StreamClass → Event
  drops : StreamClass → Event

abbrev pub new_machine : Machine
new_machine = record { conns = new_conns; live = λ c. false; served = λ c j. false }

-- A connection that is up takes its frames.
abbrev pub link_of : Machine → Links
link_of m c = record { connected = m.live c; accepts = λ f. true }

abbrev pub request : Method → Links → MarketType → List Text → Conns → Conns × Sent
request method_subscribe = subscribe
request method_unsubscribe = unsubscribe

abbrev pub open_link : Link
open_link = record { connected = true; accepts = λ f. true }

abbrev pub step : Event → Machine → Machine
step (calls method mkt streams) m =
    let (b, sent) = request method (link_of m) mkt streams m.conns in
    record m { conns = b; served = λ c j. m.live c && serves (frames_on c sent) j (m.served c j) }
step (calls_depth method mkt symbols) m =
    let (b, sent) = request_depth method (link_of m) mkt symbols m.conns in
    record m { conns = b; served = λ c j. m.live c && serves (frames_on c sent) j (m.served c j) }
step (connects c) m =
    let made = on_connect open_link (conn_at c m.conns) in
    record {
      conns = put_conn c made.0 m.conns;
      live = λ d. same_class d c || m.live d;
      served = λ d j. if same_class d c then serves made.1 j false else m.served d j;
    }
step (drops c) m = record m {
  live = λ d. not (same_class d c) && m.live d;
  served = λ d j. not (same_class d c) && m.served d j;
}

abbrev pub run : List Event → Machine → Machine
run [] m = m
run (e ∷ es) m = run es (step e m)

abbrev pub same_market : MarketType → MarketType → Bool
same_market market_spot market_spot = true
same_market market_perp market_perp = true
same_market _ _ = false

-- Does the caller want a stream of a market after the calls, if `b` says whether it did before?
abbrev pub intends : MarketType → Text → List Event → Bool → Bool
intends mkt j [] b = b
intends mkt j (calls method other streams ∷ es) b =
    intends mkt j es (after method (same_market mkt other && has j streams) b)
intends mkt j (calls_depth method other symbols ∷ es) b =
    intends mkt j es
      (after method (same_market mkt other && has j (build_streams symbols stream_depth)) b)
intends mkt j (connects c ∷ es) b = intends mkt j es b
intends mkt j (drops c ∷ es) b = intends mkt j es b
