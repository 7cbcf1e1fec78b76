-- ===== src/Websocket/Options.antt =====
-- pkg/websocket/types.go, and the sanitising of the options in Connect of pkg/websocket/websocket.go.
-- The fields are int64 milliseconds (bytes for the read limit).
use go_exchange_connector.Prelude.{ℕ, ◌<◌, ◌+◌, ◌≡◌, ◌⊎◌, Bool, false, arith, if◌then◌else◌}
use go_exchange_connector.Prelude.Int.{ℤ, pos, pos_part, ◌+ℤ◌, ◌<ℤ◌, leb_ℤ, eqb_ℤ, wrap64}

-- `WSOptions`
pub record Options : Type 0 where
  pub reconnect_interval : ℤ
  pub reconnect_max_interval : ℤ
  pub min_stable_connection_ms : ℤ
  pub connection_timeout : ℤ
  pub ping_interval : ℤ
  pub pong_timeout : ℤ
  pub data_stale_timeout : ℤ
  pub disable_data_stale_watchdog : Bool
  pub read_limit : ℤ

-- `DefaultWSOptions`
default_options : Options
default_options = record {
  reconnect_interval = pos 5000;
  reconnect_max_interval = pos 30000;
  min_stable_connection_ms = pos 0;
  connection_timeout = pos 30000;
  ping_interval = pos 20000;
  pong_timeout = pos 0;
  data_stale_timeout = pos 0;
  disable_data_stale_watchdog = false;
  read_limit = pos 0;
}

-- `defaultMinStableConnectionMs`
abbrev default_min_stable_connection_ms : ℤ
default_min_stable_connection_ms = pos 5000

-- `if v <= 0 { v = d }`
abbrev or_default : ℤ → ℤ → ℤ
or_default v d = if leb_ℤ v (pos 0) then d else v

-- `2 * v`
unfoldable pub double : ℤ → ℤ
double v = wrap64 (v +ℤ v)

-- The options that `Connect` works with.
unfoldable pub sanitise : Options → Options
unfolding double
sanitise o = record o {
  reconnect_interval = or_default o.reconnect_interval (pos 2000);
  reconnect_max_interval = or_default o.reconnect_max_interval (pos 30000);
  connection_timeout = or_default o.connection_timeout (pos 5000);
  pong_timeout = or_default o.pong_timeout (double o.ping_interval);
  data_stale_timeout = or_default o.data_stale_timeout (pos 5000);
  min_stable_connection_ms =
      if eqb_ℤ o.min_stable_connection_ms (pos 0)
      then default_min_stable_connection_ms
      else o.min_stable_connection_ms;
}

-- What every later part relies on.
pub record IsSane (o : Options) : Type 0 where
  pub interval_positive : pos 0 <ℤ o.reconnect_interval
  pub max_positive : pos 0 <ℤ o.reconnect_max_interval
  pub timeout_positive : pos 0 <ℤ o.connection_timeout
  pub stale_positive : pos 0 <ℤ o.data_stale_timeout
  pub stability_set : (pos 0 <ℤ o.min_stable_connection_ms) ⊎ (o.min_stable_connection_ms <ℤ pos 0)
  pub pong_after_ping : pos 0 <ℤ o.ping_interval → pos 0 <ℤ o.pong_timeout

double-pos : (n : ℕ) → n < 4611686018427387904 → double (pos n) ≡ pos (n + n)
unfolding double ◌+ℤ◌ wrap64
double-pos n h = ground arith

-- Whatever the caller passes in, the options that are used have positive intervals and timeouts and
-- a stability window that is positive or deliberately negative; and with pings enabled (an interval
-- below 2^62 ms) the pong timeout is positive too.
pub sanitise-IsSane :
    (o : Options) → pos_part o.ping_interval < 4611686018427387904 → IsSane (sanitise o)
unfolding sanitise ◌+ℤ◌ wrap64
sanitise-IsSane o small = record {
  interval_positive = ground arith;
  max_positive = ground arith;
  timeout_positive = ground arith;
  stale_positive = ground arith;
  stability_set = ground arith;
  pong_after_ping = λ ping. ground arith;
}

-- Sanitising again changes nothing, as long as pings are enabled or a pong timeout was given.
pub sanitise_idem :
    (o : Options)
    → pos_part o.ping_interval < 4611686018427387904
    → (pos 0 <ℤ o.ping_interval) ⊎ (pos 0 <ℤ o.pong_timeout)
    → sanitise (sanitise o) ≡ sanitise o
unfolding sanitise ◌+ℤ◌ wrap64
sanitise_idem o small pings = ground arith
