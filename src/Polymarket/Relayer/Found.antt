-- ===== src/Polymarket/Relayer/Found.antt =====
-- pollUntilConfirmed of pkg/polymarket/relayer.go: that it finds a transaction which becomes final in
-- time.
use go_exchange_connector.Prelude.{
  ℕ, zero, suc, ◌+◌, ◌*◌, ◌-◌, ◌≤◌, ◌<◌, Text, true, some, none, ◌≡◌, sym, subst, arith,
}
use go_exchange_connector.Polymarket.Clob.Api.{ok}
use go_exchange_connector.Polymarket.Relayer.{
  RelayerTransaction, Std, done, is_final, two_minutes, poll_interval, get_transaction, poll_round,
  poll_loop, poll_until_confirmed,
}
use go_exchange_connector.Polymarket.Relayer.Polls.{Advances}

shift : (m k : ℕ) → m + suc k ≡ suc m + k
shift m k = omega arith

zero_plus : (n : ℕ) → n ≡ 0 + n
zero_plus n = omega arith

module _ (std : Std) (now : ℕ) (id : Text) (tx : RelayerTransaction) where
  -- A stretch of rounds that go on, with a round after it that ends with the transaction.
  poll_loop-done :
      (d extra m deadline : ℕ)
      → ((k : ℕ) → k < d → poll_round std (m + k) id ≡ none)
      → ((k : ℕ) → k ≤ d → std.clock (m + k) < deadline)
      → poll_round std (m + d) id ≡ some (done tx)
      → poll_loop std (suc (d + extra)) deadline m id ≡ done tx
  unfolding poll_loop
  poll_loop-done zero extra m deadline quiet early ends =
      let here : m + 0 ≡ m = omega arith in
      let ends' = subst (λ t. poll_round std t id ≡ some (done tx)) here ends in
      let early' = subst (λ t. std.clock t < deadline) here (early 0 (omega arith)) in
      ground (arith, ends', early')
  poll_loop-done (suc d) extra m deadline quiet early ends =
      let here : m + 0 ≡ m = omega arith in
      let on = subst (λ t. poll_round std t id ≡ none) here (quiet 0 (omega arith)) in
      let early' = subst (λ t. std.clock t < deadline) here (early 0 (omega arith)) in
      let rest =
        poll_loop-done d extra (suc m) deadline
          (λ k below.
            subst (λ t. poll_round std t id ≡ none) (shift m k) (quiet (suc k) (omega arith)))
          (λ k below. subst (λ t. std.clock t < deadline) (shift m k) (early (suc k) (omega arith)))
          (subst (λ t. poll_round std t id ≡ some (done tx)) (shift m d) ends) in
      let fuel : suc (d + extra) ≡ suc d + extra = omega arith in
      let one : poll_loop std (suc (suc (d + extra))) deadline m id ≡ done tx =
        ground (arith, on, early', rest) in
      subst (λ f. poll_loop std (suc f) deadline m id ≡ done tx) fuel one

  clock_grows : (n d : ℕ) → Advances std now → std.clock n + d * poll_interval ≤ std.clock (n + d)
  clock_grows n zero adv =
      let same : n ≡ n + 0 = omega arith in
      subst (λ t. std.clock n + 0 * poll_interval ≤ std.clock t) same (omega arith)
  clock_grows n (suc d) adv =
      let one = adv.sleeps (n + d) in
      let same : suc (n + d) ≡ n + suc d = omega arith in
      subst (λ t. std.clock n + suc d * poll_interval ≤ std.clock t) same
        (omega (arith, one, clock_grows n d adv))

  before :
      (n k : ℕ)
      → Advances std now
      → k ≤ n
      → std.clock n < now + two_minutes
      → std.clock k < now + two_minutes
  before n k adv below in_time =
      let grown = clock_grows k (n - k) adv in
      let same : k + (n - k) ≡ n = omega arith in
      let at_n = subst (λ t. std.clock k + (n - k) * poll_interval ≤ std.clock t) same grown in
      omega (arith, at_n, in_time)

  -- Let each round sleep for at least two seconds, and let a round before the two minutes are over
  -- see the transaction in a final state, after rounds of which none ends the poll. Then the poll
  -- returns that transaction.
  pub poll_until_confirmed-done :
      (n : ℕ)
      → Advances std now
      → ((k : ℕ) → k < n → poll_round std k id ≡ none)
      → std.clock n < now + two_minutes
      → std.cancelled n ≡ none
      → get_transaction std n id ≡ ok (some tx)
      → is_final tx.state ≡ true
      → poll_until_confirmed std now id ≡ done tx
  unfolding poll_until_confirmed
  poll_until_confirmed-done n adv quiet in_time running got final =
      let at_n = clock_grows 0 n adv in
      let grown =
        subst (λ t. std.clock 0 + n * poll_interval ≤ std.clock t) (sym (zero_plus n)) at_n in
      let few : n ≤ 60 = omega (arith, adv.starts, grown, in_time) in
      let ends : poll_round std n id ≡ some (done tx) =
        unfold poll_round in ground (arith, running, got, final) in
      let early = λ (k : ℕ) (below : k ≤ n). before n k adv below in_time in
      let found =
        poll_loop-done n (60 - n) 0 (now + two_minutes)
          (λ k below. subst (λ t. poll_round std t id ≡ none) (zero_plus k) (quiet k below))
          (λ k below. subst (λ t. std.clock t < now + two_minutes) (zero_plus k) (early k below))
          (subst (λ t. poll_round std t id ≡ some (done tx)) (zero_plus n) ends) in
      let fuel : suc (n + (60 - n)) ≡ 61 = omega arith in
      subst (λ f. poll_loop std f (now + two_minutes) 0 id ≡ done tx) fuel found
