-- ===== src/Polymarket/Clob/Market.antt =====
-- The amounts of a market order that is built in pkg/polymarket/connector.go, in millionths.
use native.Mathlib.Nat.{div-add-mod, div-le_self, mod-lt}
use go_exchange_connector.Prelude.{
  ℕ, ◌+◌, ◌*◌, ◌/◌, ◌%◌, ◌≤◌, ◌<◌, codes, eqb, eqb_iff, false, ◌≡◌, ◌≢◌, ◌⊎◌, inl, inr, refl, arith,
  zero, suc,
}
use go_exchange_connector.Prelude.Int.{ℤ, pos, ◌*ℤ◌, quot, wrap64, eqb_ℤ}
use go_exchange_connector.Connector.{MarketOrder}
use go_exchange_connector.Prelude.Decimal.{show_int}
use go_exchange_connector.Polymarket.Clob.{
  SendOrder, ClobClient, built, invalid_side, panicked, to_upper, buy, sell, envelope, maker_trunc,
  taker_trunc, shares_for, build_market_send_order,
}
use go_exchange_connector.Polymarket.Clob.Amounts.{
  Trades, IsCost, times_raw_exact, buys, sells, neither, side_of,
}

zero_or_pos : (n : ℕ) → (n ≡ 0) ⊎ (0 < n)
zero_or_pos zero = inl refl
zero_or_pos (suc n) = inr (omega arith)

shares_for_exact :
    (s p : ℕ)
    → 0 < p
    → s * 1000000 < 9223372036854775808
    → shares_for (pos s) (pos p) ≡ pos (s * 1000000 / p)
unfolding shares_for ◌*ℤ◌ wrap64 quot
shares_for_exact s p h small =
    let le : s * 1000000 / p ≤ s * 1000000 = div-le_self (s * 1000000) p in ground (arith, le)

-- A multiple of `unit` that is at most `v` and less than `unit` below it.
pub record IsTruncated (unit v out : ℕ) : Type 0 where
  pub multiple : out % unit ≡ 0
  pub at_most : out ≤ v
  pub close : v < out + unit

truncated : (v : ℕ) → IsTruncated maker_trunc v (v / maker_trunc * maker_trunc)
truncated v = record { multiple = omega arith; at_most = omega arith; close = omega arith }

cut_four_decimals : (v : ℕ) → IsTruncated taker_trunc v (v / taker_trunc * taker_trunc)
cut_four_decimals v = record { multiple = omega arith; at_most = omega arith; close = omega arith }

-- As many shares as `cash` buys at `p`, all in millionths, rounded down.
pub record Buys (cash p shares : ℕ) : Type 0 where
  pub affordable : shares * p ≤ cash * 1000000
  pub most : cash * 1000000 < (shares + 1) * p

quotient_rounds_down : (s p : ℕ) → 0 < p → Buys s p (s * 1000000 / p)
quotient_rounds_down s p h =
    let whole = div-add-mod (s * 1000000) p in
    let small = mod-lt (s * 1000000) h in
    record { affordable = grind (arith, whole, small); most = grind (arith, whole, small) }

module _ (micro : ℕ → ℤ) (clob : ClobClient) (now : ℤ) where
  -- Let the size be s and the price p millionths, with s * 1000000 and s * p below 2^63. A purchase
  -- at a price of zero panics; at any other price it offers s dollars, cut to cents, for the shares
  -- that these buy at p, cut to four decimals. A sale offers s shares, cut to two decimals, for what
  -- they cost at p, cut to four decimals. Any other side is refused.
  pub build_market_send_order_amounts :
      (mo : MarketOrder) (s p : ℕ)
      → micro mo.size ≡ pos s
      → micro mo.price ≡ pos p
      → s * 1000000 < 9223372036854775808
      → s * p < 9223372036854775808
      → let result = build_market_send_order micro clob now mo in
        ((to_upper mo.side ≡ buy) × (p ≡ 0) × (result ≡ panicked))
        ⊎ ((to_upper mo.side ≡ buy)
            × (0 < p)
            × ((so : SendOrder) × (shares making taking : ℕ) × (result ≡ built so)
                × Trades so making taking
                × Buys s p shares
                × IsTruncated maker_trunc s making
                × IsTruncated taker_trunc shares taking))
        ⊎ ((to_upper mo.side ≡ sell)
            × ((so : SendOrder) × (cash making taking : ℕ) × (result ≡ built so)
                × Trades so making taking
                × IsCost s p cash
                × IsTruncated maker_trunc s making
                × IsTruncated taker_trunc cash taking))
        ⊎ ((to_upper mo.side ≢ buy) × (to_upper mo.side ≢ sell) × (result ≡ invalid_side))
  unfolding build_market_send_order envelope show_int eqb
  build_market_send_order_amounts mo s p size price small_cash small =
      let send = envelope clob now mo.asset_id mo.side mo.expires_at (codes "FOK") in
      let making = s / maker_trunc * maker_trunc in
      let shares = s * 1000000 / p in
      let taking = shares / taker_trunc * taker_trunc in
      let cash = s * p / 1000000 in
      let paid = cash / taker_trunc * taker_trunc in
      elim (side_of mo.side) [
        | buys b ↦ elim (zero_or_pos p) [
          | inl free ↦ inl (b, free, simp (size, price, b, free))
          | inr positive ↦
              let no_zero : eqb_ℤ (pos p) (pos 0) ≡ false = ground arith in
              inr (
                inl (
                  b,
                  positive,
                  (
                    send (pos making) (pos taking),
                    shares,
                    making,
                    taking,
                    simp (size, price, b, no_zero, shares_for_exact s p positive small_cash),
                    record { maker_is = refl; taker_is = refl },
                    quotient_rounds_down s p positive,
                    truncated s,
                    cut_four_decimals shares,
                  ),
                ))
        ]
        | sells b ↦ inr (
            inr (
              inl (
                b,
                (
                  send (pos making) (pos paid),
                  cash,
                  making,
                  paid,
                  simp (size, price, b, times_raw_exact s p small),
                  record { maker_is = refl; taker_is = refl },
                  record { covered = omega arith; close = omega arith },
                  truncated s,
                  cut_four_decimals cash,
                ),
              )))
        | neither no_buy no_sell ↦ inr (
            inr (
              inr (
                λ same. cc (no_buy, (eqb_iff (to_upper mo.side) buy).1 same),
                λ same. cc (no_sell, (eqb_iff (to_upper mo.side) sell).1 same),
                ground (arith, no_buy, no_sell),
              )))
      ]
