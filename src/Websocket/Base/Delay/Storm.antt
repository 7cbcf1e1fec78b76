-- ===== src/Websocket/Base/Delay/Storm.antt =====
-- The delay of reconnLoop (pkg/websocket/websocket.go) while the venue refuses connections or closes
-- them at once.
use go_exchange_connector.Prelude.{
  ℕ, zero, suc, ◌*◌, ◌-◌, ◌^◌, ◌≤◌, ◌<◌, min, true, List, [], ◌∷◌, Option, none, ◌≡◌, refl, ◌∙◌, ap,
  length,
}
use go_exchange_connector.Prelude.Int.{ℤ, pos, ◌<ℤ◌}
use go_exchange_connector.Websocket.Backoff.{next_backoff}
use go_exchange_connector.Websocket.Backoff.Growth.{doubling_limit, backoffs, backoffs-eq_min}
use go_exchange_connector.Websocket.Base.{
  Socket, disconnected, refused, accepted, dial_sync, redial, reconn_round, Event, round,
  read_fails, read_exits, step, run, max_delay,
}

-- A socket whose connection is gone; `t` is when that connection became usable, if the drop is not
-- yet accounted for.
abbrev pub down : Option ℕ → Socket → Socket
down t s = record s { conn = none; status = disconnected; established_at = t }

run-cons_delay :
    (e : Event) (es : List Event) (s : Socket) (delay : ℤ)
    → (run (e ∷ es) s delay).1 ≡ (run es (step e s delay).0 (step e s delay).1).1
unfolding run
run-cons_delay e es s delay = refl

-- Rounds at the given times in which every dial is refused.
abbrev pub refusals : List ℕ → List Event
refusals [] = []
refusals (now ∷ ts) = round true refused now ∷ refusals ts

refusal_step :
    (now : ℕ) (s : Socket) (delay : ℤ)
    → step (round true refused now) (down none s) delay
      ≡ (down none s, next_backoff delay (max_delay s), [])
unfolding step reconn_round redial dial_sync
refusal_step now s delay = refl

backoffs-suc : (k : ℕ) (d max : ℤ) → backoffs k (next_backoff d max) max ≡ backoffs (suc k) d max
unfolding backoffs
backoffs-suc zero d max = refl
backoffs-suc (suc k) d max = ap (λ (x : ℤ). next_backoff x max) (backoffs-suc k d max)

run-refusals :
    (ts : List ℕ) (s : Socket) (delay : ℤ)
    → (run (refusals ts) (down none s) delay).1 ≡ backoffs (length ts) delay (max_delay s)
unfolding backoffs
run-refusals [] s delay = unfold run in refl
run-refusals (now ∷ ts) s delay =
    rw (run-cons_delay (round true refused now) (refusals ts) (down none s) delay) (
      rw (refusal_step now s delay) (
        run-refusals ts s (next_backoff delay (max_delay s))
        ∙ backoffs-suc (length ts) delay (max_delay s)))

-- While the venue refuses every dial, n rounds raise a delay of b nanoseconds to b * 2^n, capped at
-- the maximum m.
pub refusals-delay :
    (ts : List ℕ) (s : Socket) (b m : ℕ)
    → max_delay s ≡ pos m
    → b ≤ m
    → m < doubling_limit
    → (run (refusals ts) (down none s) (pos b)).1 ≡ pos (min (b * 2 ^ length ts) m)
refusals-delay ts s b m e h small =
    run-refusals ts s (pos b) ∙ rw e (backoffs-eq_min (length ts) b m h small)

-- One cycle of a venue that accepts a connection and closes it again: the round that accounts for
-- the last drop, at time `seen`, the round that dials, at time `dialled`, and the new drop.
pub record Cycle : Type 0 where
  pub seen : ℕ
  pub dialled : ℕ
  pub number : ℕ

abbrev pub storm : List Cycle → List Event
storm [] = []
storm (c ∷ cs) =
    round true (accepted c.number) c.seen
    ∷ round true (accepted c.number) c.dialled
    ∷ read_fails c.number
    ∷ read_exits c.number
    ∷ storm cs

-- Every connection of the storm, the first from time `t` on, lived shorter than the window.
abbrev pub ShortLived : ℤ → ℕ → List Cycle → Type 0
ShortLived window t [] = Unit
ShortLived window t (c ∷ cs) = (pos (c.seen - t) <ℤ window) × ShortLived window c.dialled cs
