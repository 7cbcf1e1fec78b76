-- ===== src/Polymarket/Relayer/Polls.antt =====
-- pollUntilConfirmed of pkg/polymarket/relayer.go: that it ends, and with what.
use go_exchange_connector.Prelude.{
  ℕ, zero, suc, ◌+◌, ◌*◌, ◌≤◌, ◌<◌, Text, true, some, Option-cases, Bool-cases, ◌≡◌, ◌≢◌, ◌⊎◌, inl,
  inr, refl, arith, ltb,
}
use go_exchange_connector.Polymarket.Clob.Api.{ok, Outcome-cases}
use go_exchange_connector.Polymarket.Relayer.{
  RelayerTransaction, Std, Polled, done, failed, out_of_fuel, is_final, two_minutes, poll_interval,
  get_transaction, poll_round, poll_loop, poll_until_confirmed,
}

-- The clock at the tests of the loop: it is entered at `now`, and each round sleeps.
pub record Advances (std : Std) (now : ℕ) : Type 0 where
  pub starts : now ≤ std.clock 0
  pub sleeps : (n : ℕ) → std.clock n + poll_interval ≤ std.clock (suc n)

Polled-cases :
    (r : Polled)
    → ((e : Text) × (r ≡ failed e))
      ⊎ ((tx : RelayerTransaction) × (r ≡ done tx))
      ⊎ (r ≡ out_of_fuel)
Polled-cases (failed e) = inl (e, refl)
Polled-cases (done tx) = inr (inl (tx, refl))
Polled-cases out_of_fuel = inr (inr refl)

module _ (std : Std) (now : ℕ) (id : Text) where
  -- A transaction that a poll ends with: one in a final state that the relayer reported in time.
  pub record IsReported (deadline : ℕ) (tx : RelayerTransaction) : Type 0 where
    pub round : ℕ
    pub in_time : std.clock round < deadline
    pub reported : get_transaction std round id ≡ ok (some tx)
    pub final : is_final tx.state ≡ true

  poll_round-ne-fuel : (n : ℕ) → poll_round std n id ≢ some out_of_fuel
  unfolding poll_round
  poll_round-ne-fuel n = elim (Option-cases (std.cancelled n)) [
    | inr (e, stopped) ↦ λ h. ground (arith, stopped, h)
    | inl running ↦ elim (Outcome-cases (get_transaction std n id)) [
      | inr (m, bad) ↦ λ h. ground (arith, running, bad, h)
      | inl (found, got) ↦ elim (Option-cases found) [
        | inl missing ↦ λ h. ground (arith, running, got, missing, h)
        | inr (tx, there) ↦ λ h. ground (arith, running, got, there, h)
      ]
    ]
  ]

  poll_round-done :
      (n : ℕ) (tx : RelayerTransaction)
      → poll_round std n id ≡ some (done tx)
      → (get_transaction std n id ≡ ok (some tx)) × (is_final tx.state ≡ true)
  unfolding poll_round
  poll_round-done n tx h = elim (Option-cases (std.cancelled n)) [
    | inr (e, stopped) ↦ absurd (ground (arith, stopped, h))
    | inl running ↦ elim (Outcome-cases (get_transaction std n id)) [
      | inr (m, bad) ↦ absurd (ground (arith, running, bad, h))
      | inl (found, got) ↦ elim (Option-cases found) [
        | inl missing ↦ absurd (ground (arith, running, got, missing, h))
        | inr (tx', there) ↦
            (ground (arith, running, got, there, h), ground (arith, running, got, there, h))
      ]
    ]
  ]

  poll_loop-ne-fuel :
      (f deadline n : ℕ)
      → Advances std now
      → deadline ≤ std.clock n + f * poll_interval
      → poll_loop std (suc f) deadline n id ≢ out_of_fuel
  unfolding poll_loop
  poll_loop-ne-fuel zero deadline n adv late h = ground (arith, late, h)
  poll_loop-ne-fuel (suc f) deadline n adv late h = elim (Option-cases (poll_round std n id)) [
    | inr (result, ends) ↦ ground (arith, ends, h, poll_round-ne-fuel n)
    | inl goes_on ↦ elim (Bool-cases (ltb (std.clock n) deadline)) [
      | inr over ↦ ground (arith, over, h)
      | inl in_time ↦
          poll_loop-ne-fuel f deadline (suc n) adv (omega (arith, adv.sleeps n, late))
            (ground (arith, in_time, goes_on, h))
    ]
  ]

  poll_loop-IsReported :
      (fuel deadline n : ℕ) (tx : RelayerTransaction)
      → poll_loop std fuel deadline n id ≡ done tx
      → IsReported deadline tx
  unfolding poll_loop
  poll_loop-IsReported zero deadline n tx h = absurd (ground (arith, h))
  poll_loop-IsReported (suc fuel) deadline n tx h = elim (Bool-cases (ltb (std.clock n) deadline)) [
    | inr over ↦ absurd (ground (arith, over, h))
    | inl in_time ↦ elim (Option-cases (poll_round std n id)) [
      | inl goes_on ↦
          poll_loop-IsReported fuel deadline (suc n) tx (ground (arith, in_time, goes_on, h))
      | inr (result, ends) ↦
          let (reported, final) = poll_round-done n tx (ground (arith, in_time, ends, h)) in
          record {
            round = n;
            in_time = ground (arith, in_time);
            reported = reported;
            final = final;
          }
    ]
  ]

  -- If each round sleeps for at least two seconds, the poll ends within the 61 rounds: with an error,
  -- or with a transaction in a final state that the relayer reported before two minutes were over.
  pub poll_until_confirmed-ends :
      Advances std now
      → ((e : Text) × (poll_until_confirmed std now id ≡ failed e))
        ⊎ ((tx : RelayerTransaction) × (poll_until_confirmed std now id ≡ done tx)
            × IsReported (now + two_minutes) tx)
  unfolding poll_until_confirmed
  poll_until_confirmed-ends adv = elim (Polled-cases (poll_loop std 61 (now + two_minutes) 0 id)) [
    | inl (e, is) ↦ inl (e, is)
    | inr (inl (tx, is)) ↦ inr (tx, is, poll_loop-IsReported 61 (now + two_minutes) 0 tx is)
    | inr (inr ran_out) ↦
        absurd (poll_loop-ne-fuel 60 (now + two_minutes) 0 adv (omega (arith, adv.starts)) ran_out)
  ]
