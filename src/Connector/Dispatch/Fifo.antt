-- ===== src/Connector/Dispatch/Fifo.antt =====
-- Interleavings of DispatchEvent and the draining goroutine of connector.go, and what the callback
-- receives.
use go_exchange_connector.Prelude.{
  ℕ, suc, ◌-◌, ◌≤◌, true, List, [], ◌∷◌, ◌++◌, some, length, ltb, ◌≡◌, refl, ap, sym, ◌∙◌, arith,
  if◌then◌else◌, Bool-cases, inl, inr, length-append,
}
use mathlib.Core.List.{append_assoc, append-nil}
use go_exchange_connector.Connector.Dispatch.{Dispatcher, dispatch_event, work, drain, stop}

-- What happens to a dispatcher in asynchronous mode.
pub data Act (Event : Type 0) : Type 0 where
  dispatches : Event → Act Event
  works : Act Event

module _ {Event : Type 0} where
  act : Act Event → Dispatcher Event → Dispatcher Event
  unfolding dispatch_event work
  act (dispatches ev) d = dispatch_event ev d
  act works d = work d

  pub acts : List (Act Event) → Dispatcher Event → Dispatcher Event
  acts [] d = d
  acts (a ∷ as') d = acts as' (act a d)

  -- The specification: the events that find room, told by the number of buffered events alone.
  abbrev pub admitted : ℕ → ℕ → List (Act Event) → List Event
  admitted capacity n [] = []
  admitted capacity n (dispatches ev ∷ as') =
      let room = admitted capacity (suc n) as' in
      let full = admitted capacity n as' in if ltb n capacity then ev ∷ room else full
  admitted capacity n (works ∷ as') = admitted capacity (n - 1) as'

  -- A dispatcher with a callback and a channel.
  abbrev pub async : ℕ → List Event → List Event → Dispatcher Event
  async capacity buffered received = record {
    mounted = true;
    channel = some (record { capacity = capacity; buffered = buffered });
    received = received;
  }

  drain_all :
      (evs : List Event) (d : Dispatcher Event)
      → d.mounted ≡ true
      → (drain evs d).received ≡ d.received ++ evs
  unfolding drain
  drain_all [] d up = sym (append-nil d.received)
  drain_all (ev ∷ evs) d up =
      drain_all evs
        (record d { received = if d.mounted then d.received ++ ev ∷ [] else d.received }) up
      ∙ rw up (append_assoc d.received (ev ∷ []) evs)

  stop-async :
      (capacity : ℕ) (buffered received : List Event)
      → (stop (async capacity buffered received)).received ≡ received ++ buffered
  unfolding stop
  stop-async capacity buffered received = drain_all buffered (async capacity buffered received) refl

  length-snoc : (b : List Event) (ev : Event) → length (b ++ ev ∷ []) ≡ suc (length b)
  length-snoc b ev = omega (arith, length-append b (ev ∷ []))

  act_dispatches :
      (ev : Event) (capacity : ℕ) (b r : List Event)
      → act (dispatches ev) (async capacity b r)
        ≡ async capacity (if ltb (length b) capacity then b ++ ev ∷ [] else b) r
  unfolding act
  act_dispatches ev capacity b r = refl

  act_works_idle :
      (capacity : ℕ) (r : List Event) → act works (async capacity [] r) ≡ async capacity [] r
  unfolding act
  act_works_idle capacity r = refl

  act_works :
      (ev : Event) (capacity : ℕ) (b r : List Event)
      → act works (async capacity (ev ∷ b) r) ≡ async capacity b (r ++ ev ∷ [])
  unfolding act
  act_works ev capacity b r = refl

  -- Start with a mounted callback and a channel in any state, let dispatches and rounds of the
  -- goroutine interleave in any way, and stop. The callback has then received what it had received
  -- before, then what was buffered, then every event dispatched while the channel had room, each
  -- once and in the order of dispatch; the events that found it full are the only ones missing.
  pub received-stop-acts :
      (as' : List (Act Event)) (capacity : ℕ) (b r : List Event)
      → (stop (acts as' (async capacity b r))).received
        ≡ r ++ (b ++ admitted capacity (length b) as')
  unfolding acts
  received-stop-acts [] capacity b r = rw (append-nil b) (stop-async capacity b r)
  received-stop-acts (dispatches ev ∷ as') capacity b r =
      rw (act_dispatches ev capacity b r) (elim (Bool-cases (ltb (length b) capacity)) [
        | inl room ↦ rw room (
            received-stop-acts as' capacity (b ++ ev ∷ []) r
            ∙ ap (λ (t : List Event). r ++ t)
                (rw (length-snoc b ev)
                  (append_assoc b (ev ∷ []) (admitted capacity (suc (length b)) as'))))
        | inr full ↦ rw full (received-stop-acts as' capacity b r)
      ])
  received-stop-acts (works ∷ as') capacity [] r =
      rw (act_works_idle capacity r) (received-stop-acts as' capacity [] r)
  received-stop-acts (works ∷ as') capacity (ev ∷ b) r = rw (act_works ev capacity b r) (
      received-stop-acts as' capacity b (r ++ ev ∷ [])
      ∙ append_assoc r (ev ∷ []) (b ++ admitted capacity (length b) as')
      ∙ ap (λ (n : ℕ). r ++ (ev ∷ (b ++ admitted capacity n as'))) (omega arith))

  -- The channel never holds more events than its capacity.
  pub acts_bounded :
      (as' : List (Act Event)) (capacity : ℕ) (b r : List Event)
      → length b ≤ capacity
      → (b' : List Event) × (r' : List Event) × (acts as' (async capacity b r)
          ≡ async capacity b' r')
        × (length b' ≤ capacity)
  unfolding acts act
  acts_bounded [] capacity b r h = (b, r, refl, h)
  acts_bounded (dispatches ev ∷ as') capacity b r h =
      acts_bounded as' capacity (if ltb (length b) capacity then b ++ ev ∷ [] else b) r
        (ground (arith, length-snoc b ev))
  acts_bounded (works ∷ as') capacity [] r h = acts_bounded as' capacity [] r h
  acts_bounded (works ∷ as') capacity (ev ∷ b) r h =
      acts_bounded as' capacity b (r ++ ev ∷ []) (omega arith)
