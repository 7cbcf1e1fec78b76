-- ===== src/Websocket/Base.antt =====
-- pkg/websocket/websocket.go: BaseWebSocket. Each function is one atomic step of one of its
-- goroutines or one call of a method; connections are told apart by numbers, times are nanoseconds,
-- and what the network does is an argument. The calls of the hooks are returned as a list.
pub mod Delay
pub mod Shutdown
use go_exchange_connector.Prelude.{
  ℕ, suc, ◌+◌, ◌*◌, ◌-◌, Bool, true, false, not, ◌&&◌, List, [], ◌∷◌, ◌++◌, Option, none, some,
  ◌==◌, if◌then◌else◌, leb,
}
use go_exchange_connector.Prelude.Int.{ℤ, pos, negsuc, leb_ℤ, wrap64}
use go_exchange_connector.Websocket.Options.{Options, sanitise}
use go_exchange_connector.Websocket.Backoff.{next_backoff, next_delay_after_drop}

-- `ConnectionStatus`; `unset` is the zero value, before Connect.
pub data Status : Type 0 where
  unset disconnected connecting connected : Status

-- The fields of `BaseWebSocket`. `cancelled` says that the context of Connect was cancelled, and
-- `loop_started` that reconnLoop runs or ran, which is what closes the channel `done`.
pub record Socket : Type 0 where
  pub opts : Options
  pub status : Status
  pub conn : Option ℕ
  pub established_at : Option ℕ
  pub last_data_at : ℕ
  pub has_cancel : Bool
  pub cancelled : Bool
  pub loop_started : Bool

-- A call of a hook: OnConnect with its connection and whether it returned nil, and OnDisconnect
-- with whether it was given an error.
pub data Hook : Type 0 where
  on_connect : ℕ → Bool → Hook
  on_disconnect : Bool → Hook

abbrev is_connected : Status → Bool
is_connected connected = true
is_connected _ = false

abbrev is_disconnected : Status → Bool
is_disconnected disconnected = true
is_disconnected _ = false

-- `b.conn == conn`, for a connection that is not nil.
abbrev pub is_current : Option ℕ → ℕ → Bool
is_current none c = false
is_current (some d) c = d == c

-- `setStatus`
set_status : Status → Socket → Socket
set_status st s = record s { status = st }

-- `setConnEstablishedAt`
pub set_established : Option ℕ → Socket → Socket
set_established t s = record s { established_at = t }

-- `setLastData`
pub set_last_data : ℕ → Socket → Socket
set_last_data t s = record s { last_data_at = t }

-- `closeConn`
close_conn : Socket → Socket
close_conn s = record s { conn = none }

-- What the network and the OnConnect hook do with one dial.
pub data Dial : Type 0 where
  refused : Dial
  hook_failed : ℕ → Dial
  accepted : ℕ → Dial

-- `dialSync`, its critical sections one after the other with no other goroutine between: the socket, the hooks called, and whether it returned nil.
pub dial_sync : Dial → ℕ → Socket → Socket × List Hook × Bool
unfolding set_status close_conn set_established
dial_sync refused now s = (set_status disconnected (set_status connecting s), [], false)
dial_sync (hook_failed c) now s = (
  set_status disconnected
      (close_conn (set_status connected (record (set_status connecting s) { conn = some c }))),
  on_connect c false ∷ [],
  false,
)
dial_sync (accepted c) now s = (
  set_established (some now)
      (set_status connected (record (set_status connecting s) { conn = some c })),
  on_connect c true ∷ [],
  true,
)

-- `Connect`: on success the clock of the watchdog is set and the goroutines start.
pub connect : Options → Dial → ℕ → Socket → Socket × List Hook × Bool
unfolding dial_sync set_last_data
connect opts dial now s =
    let s₁ : Socket = record s {
      opts = sanitise opts;
      has_cancel = true;
      cancelled = false;
      loop_started = false;
    } in
    let (s₂, hooks, ok) = dial_sync dial now s₁ in
    if ok
    then (record (set_last_data now s₂) { loop_started = true }, hooks, true)
    else (record s₂ { cancelled = true }, hooks, false)

-- `Close`: the socket, and whether the call returns. It waits for `done`, which only reconnLoop
-- closes.
pub close : Socket → Socket × Bool
close s =
    let s₁ : Socket = record s { conn = none } in
    if s.has_cancel then (record s₁ { cancelled = true }, s.loop_started) else (s₁, true)

-- `Disconnect`
unfoldable pub disconnect : Socket → Socket × List Hook
disconnect s = (record s { conn = none; status = disconnected }, on_disconnect false ∷ [])

-- The end of a read loop of connection `c`, in two steps between which other goroutines may run: the
-- deferred check with its hook, which leaves the connection in place, and the deferred cleanup.
unfoldable pub read_loop_reports : ℕ → Socket → List Hook
read_loop_reports c s =
    if not s.cancelled && (is_current s.conn c && not (is_disconnected s.status))
    then on_disconnect true ∷ []
    else []

unfoldable pub read_loop_cleans : ℕ → Socket → Socket
read_loop_cleans c s =
    if is_current s.conn c then record s { conn = none; status = disconnected } else s

-- A ping of connection `c` that gets no pong.
pub ping_fails : ℕ → Socket → Socket × List Hook
unfolding disconnect
ping_fails c s = if is_current s.conn c then disconnect s else (s, [])

-- `time.Duration(v) * time.Millisecond`
unfoldable pub milliseconds : ℤ → ℤ
milliseconds (pos n) = wrap64 (pos (n * 1000000))
milliseconds (negsuc n) = wrap64 (negsuc (suc n * 1000000 - 1))

-- `timeout` of dataStaleWatchdog.
unfoldable pub stale_timeout : Options → ℤ
unfolding milliseconds
stale_timeout o =
    let t = milliseconds o.data_stale_timeout in if leb_ℤ t (pos 0) then pos 5000000000 else t

-- One tick of dataStaleWatchdog.
unfoldable pub stale_tick : ℕ → Socket → Socket × List Hook
unfolding disconnect stale_timeout
stale_tick now s =
    if s.opts.disable_data_stale_watchdog
    then (s, [])
    else if not (is_connected s.status)
    then (s, [])
    else if leb_ℤ (stale_timeout s.opts) (pos (now - s.last_data_at))
    then disconnect s
    else (s, [])

-- The three durations that reconnLoop computes from the options.
abbrev pub base_delay : Socket → ℤ
base_delay s = milliseconds s.opts.reconnect_interval

abbrev pub max_delay : Socket → ℤ
max_delay s = milliseconds s.opts.reconnect_max_interval

abbrev pub min_stable : Socket → ℤ
min_stable s = milliseconds s.opts.min_stable_connection_ms

-- How long reconnLoop waits before a round.
reconn_wait : ℤ → Socket → ℤ
reconn_wait delay s = if is_connected s.status then base_delay s else delay

-- The dial at the end of a round.
pub redial : Dial → ℕ → ℤ → Socket → Socket × ℤ × List Hook
unfolding dial_sync
redial dial now delay s =
    let (s₁, hooks, ok) = dial_sync dial now s in
    if ok then (s₁, delay, hooks) else (s₁, next_backoff delay (max_delay s), hooks)

-- The part of a round that accounts for the connection that dropped.
pub after_drop : Dial → ℕ → ℤ → ℕ → Socket → Socket × ℤ × List Hook
unfolding redial set_established
after_drop dial now delay established s =
    let s₁ = set_established none s in
    let (delay', flapped) =
      next_delay_after_drop delay (base_delay s) (max_delay s) (min_stable s)
        (pos (now - established)) in
    let dialled = redial dial now delay' s₁ in if flapped then (s₁, delay', []) else dialled

-- One round of reconnLoop after its wait, with the local `delay`: the socket, the new delay and the
-- hooks. `should` is what ShouldConnect returns.
pub reconn_round : Bool → Dial → ℕ → ℤ → Socket → Socket × ℤ × List Hook
unfolding after_drop redial
reconn_round should dial now delay s =
    if is_connected s.status
    then (s, delay, [])
    else if not should
    then (s, delay, [])
    else elim s.established_at [
      | some t ↦ after_drop dial now delay t s
      | none ↦ redial dial now delay s
    ]

-- What can happen between Connect and Close.
pub data Event : Type 0 where
  round : Bool → Dial → ℕ → Event
  read_fails : ℕ → Event
  read_exits : ℕ → Event
  pong_missed : ℕ → Event
  watchdog : ℕ → Event
  message : ℕ → Event
  disconnects : Event

abbrev keep : ℤ → Socket × List Hook → Socket × ℤ × List Hook
keep delay (s, hooks) = (s, delay, hooks)

-- A socket with reconnLoop's delay takes one step.
pub step : Event → Socket → ℤ → Socket × ℤ × List Hook
unfolding reconn_round read_loop_reports read_loop_cleans ping_fails stale_tick set_last_data
    disconnect
step (round should dial now) s delay = reconn_round should dial now delay s
step (read_fails c) s delay = (s, delay, read_loop_reports c s)
step (read_exits c) s delay = (read_loop_cleans c s, delay, [])
step (pong_missed c) s delay = keep delay (ping_fails c s)
step (watchdog now) s delay = keep delay (stale_tick now s)
step (message now) s delay = (set_last_data now s, delay, [])
step disconnects s delay = keep delay (disconnect s)

pub run : List Event → Socket → ℤ → Socket × ℤ × List Hook
run [] s delay = (s, delay, [])
run (e ∷ es) s delay =
    let (s₁, delay₁, hooks₁) = step e s delay in
    let (s₂, delay₂, hooks₂) = run es s₁ delay₁ in (s₂, delay₂, hooks₁ ++ hooks₂)
