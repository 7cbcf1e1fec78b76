-- ===== src/Websocket/Backoff/Growth.antt =====
-- The reconnect delay of pkg/websocket/websocket.go in closed form.
use go_exchange_connector.Prelude.{
  ℕ, zero, suc, ◌+◌, ◌*◌, ◌^◌, ◌≤◌, ◌<◌, min, true, false, ◌≡◌, ◌∙◌, ap, ◌↔◌, arith,
}
use native.Mathlib.Nat.{pow-suc}
use go_exchange_connector.Prelude.Int.{ℤ, pos, pos_part, ◌+ℤ◌, ◌<ℤ◌, ◌≤ℤ◌, wrap64}
use go_exchange_connector.Websocket.Backoff.{next_backoff, next_delay_after_drop}

-- The largest delay, in nanoseconds, that can be doubled in an int64.
abbrev pub doubling_limit : ℕ
doubling_limit = 4611686018427387904

-- A delay in range is doubled and capped.
next_backoff-pos :
    (d m : ℕ) → d < doubling_limit → next_backoff (pos d) (pos m) ≡ pos (min (d + d) m)
unfolding next_backoff ◌+ℤ◌ wrap64
next_backoff-pos d m h = ground arith

-- `nextBackoff` applied k times.
unfoldable pub backoffs : ℕ → ℤ → ℤ → ℤ
backoffs zero d max = d
backoffs (suc k) d max = next_backoff (backoffs k d max) max

double_min : (x m : ℕ) → min (min x m + min x m) m ≡ min (x + x) m
double_min x m = omega arith

-- Starting from d, k consecutive escalations give d * 2^k, capped at the maximum, as long as the
-- maximum itself can be doubled in an int64.
pub backoffs-eq_min :
    (k d m : ℕ) → d ≤ m → m < doubling_limit → backoffs k (pos d) (pos m) ≡ pos (min (d * 2 ^ k) m)
unfolding backoffs
backoffs-eq_min zero d m h small = ap pos (omega arith)
backoffs-eq_min (suc k) d m h small = rw (backoffs-eq_min k d m h small) (
    next_backoff-pos (min (d * 2 ^ k) m) m (omega arith)
    ∙ ap pos (rw (pow-suc 2 k) (omega (arith, double_min (d * 2 ^ k) m))))

-- The delay lies between the base interval and the maximum.
abbrev pub InRange : ℤ → ℤ → ℤ → Type 0
InRange base max d = (base ≤ℤ d) × (d ≤ℤ max)

pub next_backoff-InRange :
    (base max d : ℤ)
    → pos 0 ≤ℤ base
    → base ≤ℤ max
    → pos_part max < doubling_limit
    → InRange base max d
    → InRange base max (next_backoff d max)
unfolding next_backoff ◌+ℤ◌ wrap64
next_backoff-InRange base max d p h small r = ground arith

-- A drop counts as a flap exactly when the stability check is on and the connection lived shorter
-- than the window; a flap escalates the delay and any other drop resets it to the base. Either way
-- the delay stays between base and maximum, and a flap never lowers it.
pub next_delay_after_drop_bounds :
    (current base max min_stable lived : ℤ)
    → pos 0 ≤ℤ base
    → base ≤ℤ max
    → pos_part max < doubling_limit
    → InRange base max current
    → let (delay, flapped) = next_delay_after_drop current base max min_stable lived in
      ((flapped ≡ true) ↔ ((pos 0 <ℤ min_stable) × (lived <ℤ min_stable)))
      × (flapped ≡ true → current ≤ℤ delay)
      × (flapped ≡ false → delay ≡ base)
      × InRange base max delay
unfolding next_delay_after_drop next_backoff ◌+ℤ◌ wrap64
next_delay_after_drop_bounds current base max min_stable lived p h small r =
    ((λ e. ground arith, λ e. ground arith), λ e. ground arith, λ e. ground arith, ground arith)
