-- ===== src/Websocket/Backoff.antt =====
-- The reconnect delays of pkg/websocket/websocket.go: nextBackoff and nextDelayAfterDrop. A
-- time.Duration is an int64, so its doubling wraps around.
pub mod Growth
use go_exchange_connector.Prelude.{ℕ, Bool, true, false, ◌&&◌, if◌then◌else◌}
use go_exchange_connector.Prelude.Int.{ℤ, pos, ◌+ℤ◌, ltb_ℤ, wrap64}

-- `nextBackoff`
pub next_backoff : ℤ → ℤ → ℤ
next_backoff d max = let twice = wrap64 (d +ℤ d) in if ltb_ℤ max twice then max else twice

-- `nextDelayAfterDrop`: the delay, and whether the drop counts as a flap.
unfoldable pub next_delay_after_drop : ℤ → ℤ → ℤ → ℤ → ℤ → ℤ × Bool
next_delay_after_drop current base max min_stable lived =
    if ltb_ℤ (pos 0) min_stable && ltb_ℤ lived min_stable
    then (next_backoff current max, true)
    else (base, false)
