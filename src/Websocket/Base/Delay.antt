-- ===== src/Websocket/Base/Delay.antt =====
-- The delay of reconnLoop (pkg/websocket/websocket.go) over runs of the socket.
pub mod Storm
use go_exchange_connector.Prelude.{
  ℕ, zero, suc, ◌+◌, ◌*◌, ◌-◌, ◌^◌, ◌≤◌, ◌<◌, min, Bool, true, false, List, [], ◌∷◌, ◌++◌, Option,
  none, some, ◌≡◌, refl, ◌∙◌, ap, arith, length, Option-cases, inl, inr, ==_iff, ◌==◌, Bool-cases,
}
use go_exchange_connector.Prelude.Int.{ℤ, pos, pos_part, ◌≤ℤ◌, ◌<ℤ◌, ltb_ℤ}
use go_exchange_connector.Websocket.Options.{Options}
use go_exchange_connector.Websocket.Backoff.{next_backoff, next_delay_after_drop}
use go_exchange_connector.Websocket.Backoff.Growth.{
  InRange, doubling_limit, backoffs, backoffs-eq_min, next_backoff-InRange,
  next_delay_after_drop_bounds,
}
use go_exchange_connector.Websocket.Base.{
  Socket, Status, connected, disconnected, Hook, on_connect, Dial, refused, hook_failed, accepted,
  dial_sync, disconnect, read_loop_cleans, ping_fails, stale_tick, redial, after_drop, reconn_round,
  Event, round, read_fails, read_exits, pong_missed, watchdog, message, disconnects, step, run,
  set_last_data, base_delay, max_delay, min_stable, is_current, milliseconds,
}

step_opts : (e : Event) (s : Socket) (delay : ℤ) → (step e s delay).0.opts ≡ s.opts
unfolding step disconnect ping_fails set_last_data read_loop_cleans stale_tick reconn_round
    after_drop redial dial_sync
step_opts (round should refused now) s delay = ground arith
step_opts (round should (hook_failed c) now) s delay = ground arith
step_opts (round should (accepted c) now) s delay = ground arith
step_opts (read_fails c) s delay = refl
step_opts (read_exits c) s delay = ground arith
step_opts (pong_missed c) s delay = ground arith
step_opts (watchdog now) s delay = ground arith
step_opts (message now) s delay = refl
step_opts disconnects s delay = refl

-- The options give a base interval and a maximum in order, and small enough to be doubled.
pub record IsOrdered (s : Socket) : Type 0 where
  pub base_nonneg : pos 0 ≤ℤ base_delay s
  pub base_le_max : base_delay s ≤ℤ max_delay s
  pub max_small : pos_part (max_delay s) < doubling_limit

redial-InRange :
    (dial : Dial) (now : ℕ) (delay : ℤ) (s : Socket)
    → IsOrdered s
    → InRange (base_delay s) (max_delay s) delay
    → InRange (base_delay s) (max_delay s) (redial dial now delay s).1
unfolding redial dial_sync
redial-InRange refused now delay s o h =
    next_backoff-InRange (base_delay s) (max_delay s) delay o.base_nonneg o.base_le_max o.max_small
      h
redial-InRange (hook_failed c) now delay s o h =
    next_backoff-InRange (base_delay s) (max_delay s) delay o.base_nonneg o.base_le_max o.max_small
      h
redial-InRange (accepted c) now delay s o h = h

after_drop-InRange :
    (dial : Dial) (now : ℕ) (delay : ℤ) (t : ℕ) (s : Socket)
    → IsOrdered s
    → InRange (base_delay s) (max_delay s) delay
    → InRange (base_delay s) (max_delay s) (after_drop dial now delay t s).1
unfolding after_drop
after_drop-InRange dial now delay t s o h =
    let next =
      next_delay_after_drop delay (base_delay s) (max_delay s) (min_stable s) (pos (now - t)) in
    let bounds =
      next_delay_after_drop_bounds delay (base_delay s) (max_delay s) (min_stable s) (pos (now - t))
        o.base_nonneg o.base_le_max o.max_small h in
    elim (Bool-cases next.1) [
      | inl flap ↦ rw (flap, after_drop) bounds.3
      | inr stable ↦
          rw (stable, after_drop)
            (redial-InRange dial now next.0 (record s { established_at = none })
              (record {
                base_nonneg = o.base_nonneg;
                base_le_max = o.base_le_max;
                max_small = o.max_small;
              })
              bounds.3)
    ]

step-InRange :
    (e : Event) (s : Socket) (delay : ℤ)
    → IsOrdered s
    → InRange (base_delay s) (max_delay s) delay
    → InRange (base_delay s) (max_delay s) (step e s delay).1
unfolding step reconn_round
step-InRange (round should dial now) s delay o h = elim (Option-cases s.established_at) [
  | inl e ↦ ground (arith, e, redial-InRange dial now delay s o h)
  | inr (t, e) ↦ ground (arith, e, after_drop-InRange dial now delay t s o h)
]
step-InRange (read_fails c) s delay o h = h
step-InRange (read_exits c) s delay o h = h
step-InRange (pong_missed c) s delay o h = h
step-InRange (watchdog now) s delay o h = h
step-InRange (message now) s delay o h = h
step-InRange disconnects s delay o h = h

same_opts-IsOrdered : (s s₁ : Socket) → s₁.opts ≡ s.opts → IsOrdered s → IsOrdered s₁
same_opts-IsOrdered s s₁ same o = record {
  base_nonneg = rw same o.base_nonneg;
  base_le_max = rw same o.base_le_max;
  max_small = rw same o.max_small;
}

-- Whatever happens on the network, the delay of the reconnect loop stays between the base interval
-- and the maximum, provided that the options give them in this order and the maximum can be doubled
-- in an int64 of nanoseconds.
pub run-InRange :
    (es : List Event) (s : Socket) (delay : ℤ)
    → IsOrdered s
    → InRange (base_delay s) (max_delay s) delay
    → InRange (base_delay s) (max_delay s) (run es s delay).1
unfolding run
run-InRange [] s delay o h = h
run-InRange (e ∷ es) s delay o h =
    let kept = step_opts e s delay in
    let (s₁, delay₁, hooks₁) = step e s delay in
    rw (← ap (λ (o : Options). milliseconds o.reconnect_interval) kept) (
      rw (← ap (λ (o : Options). milliseconds o.reconnect_max_interval) kept) (
        run-InRange es s₁ delay₁ (same_opts-IsOrdered s s₁ kept o)
          (rw kept (step-InRange e s delay o h))))
