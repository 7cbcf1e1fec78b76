-- ===== src/Websocket/Tests.antt =====
-- Runs of pkg/websocket: options, delays, and a socket under drops and storms.
use go_exchange_connector.Prelude.{
  ◌*◌, ◌^◌, min, true, false, List, [], ◌∷◌, none, some, ◌≡◌, refl, arith,
}
use go_exchange_connector.Prelude.Int.{pos, negsuc, ◌+ℤ◌, wrap64}
use go_exchange_connector.Websocket.Options.{Options, double, sanitise}
use go_exchange_connector.Websocket.Backoff.Growth.{InRange, backoffs, backoffs-eq_min}
use go_exchange_connector.Websocket.Base.{
  Socket, connected, disconnected, on_disconnect, refused, connect, close, milliseconds, max_delay,
  base_delay, stale_tick, stale_timeout, disconnect,
}
use go_exchange_connector.Websocket.Base.Delay.{IsOrdered}
use go_exchange_connector.Websocket.Base.Delay.Storm.{Cycle}
use go_exchange_connector.Websocket.Base.Shutdown.{close-connect_returns}

abbrev no_options : Options
no_options = record {
  reconnect_interval = pos 0;
  reconnect_max_interval = negsuc 4;
  min_stable_connection_ms = pos 0;
  connection_timeout = pos 0;
  ping_interval = pos 20000;
  pong_timeout = pos 0;
  data_stale_timeout = pos 0;
  disable_data_stale_watchdog = false;
  read_limit = pos 0;
}

-- What zero values become.
zero_values :
    let o = sanitise no_options in
    (o.reconnect_interval ≡ pos 2000)
    × (o.connection_timeout ≡ pos 5000)
    × (o.pong_timeout ≡ pos 40000)
unfolding sanitise double ◌+ℤ◌ wrap64
zero_values = (refl, refl, refl)

backoffs-eq_min_example : backoffs 3 (pos 2) (pos 30) ≡ pos (min (2 * 2 ^ 3) 30)
backoffs-eq_min_example = backoffs-eq_min 3 2 30 (omega arith) (omega arith)

-- A socket as `new` leaves it, with options of 1 ms to 60 ms and a window of 5 ms.
abbrev idle : Socket
idle = record {
  opts = record no_options {
    reconnect_interval = pos 1;
    reconnect_max_interval = pos 60;
    min_stable_connection_ms = pos 5;
  };
  status = disconnected;
  conn = none;
  established_at = none;
  last_data_at = 0;
  has_cancel = false;
  cancelled = false;
  loop_started = false;
}

abbrev live : Socket
live = record idle {
  status = connected;
  conn = some 7;
  established_at = some 0;
  has_cancel = true;
  loop_started = true;
}

idle-IsOrdered : IsOrdered idle
unfolding milliseconds wrap64
idle-IsOrdered = record {
  base_nonneg = omega arith;
  base_le_max = omega arith;
  max_small = omega arith;
}

idle_delay : InRange (base_delay idle) (max_delay idle) (pos 1000000)
unfolding milliseconds wrap64
idle_delay = (omega arith, omega arith)

-- Two connections, each closed after one millisecond.
abbrev two_cycles : List Cycle
two_cycles =
    record { seen = 1000000; dialled = 3000000; number = 8 }
    ∷ record { seen = 4000000; dialled = 8000000; number = 9 }
    ∷ []

close-connect_returns_example :
    let (s', _, ok) = connect no_options refused 1 idle in (close s').1 ≡ ok
close-connect_returns_example = close-connect_returns no_options refused 1 idle

-- The watchdog drops a socket that has been silent for five seconds, and no sooner.
watchdog_fires :
    ((stale_tick 4999999999 (record live { opts = sanitise no_options })).1 ≡ [])
    × ((stale_tick 5000000000 (record live { opts = sanitise no_options })).1
        ≡ on_disconnect false ∷ [])
unfolding stale_tick stale_timeout milliseconds wrap64 sanitise disconnect
watchdog_fires = (refl, refl)
