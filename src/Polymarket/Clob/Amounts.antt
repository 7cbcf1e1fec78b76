-- ===== src/Polymarket/Clob/Amounts.antt =====
-- The amounts of an order that is built in pkg/polymarket/connector.go, in millionths.
use go_exchange_connector.Prelude.{
  ℕ, ◌+◌, ◌*◌, ◌/◌, ◌≤◌, ◌<◌, Text, codes, eqb, eqb_iff, false, none, some, ◌≡◌, ◌≢◌, ◌⊎◌, inl, inr,
  refl, arith, Bool-cases,
}
use go_exchange_connector.Prelude.Int.{ℤ, pos, ◌*ℤ◌, quot, wrap64}
use go_exchange_connector.Connector.{LimitOrder}
use go_exchange_connector.Prelude.Decimal.{decimal, show_int}
use go_exchange_connector.Polymarket.Clob.{
  SendOrder, ClobClient, to_upper, times_raw, buy, sell, envelope, build_send_order,
}

pub times_raw_exact :
    (s p : ℕ) → s * p < 9223372036854775808 → times_raw (pos s) (pos p) ≡ pos (s * p / 1000000)
unfolding times_raw ◌*ℤ◌ wrap64 quot
times_raw_exact s p h = ground arith

-- An order of an amount of cash against an amount of shares.
pub record Trades (so : SendOrder) (making taking : ℕ) : Type 0 where
  pub maker_is : so.order.maker_amount ≡ decimal making
  pub taker_is : so.order.taker_amount ≡ decimal taking

-- `cash` is the price of `s` at `p`, all in millionths, rounded down.
pub record IsCost (s p cash : ℕ) : Type 0 where
  pub covered : cash * 1000000 ≤ s * p
  pub close : s * p < cash * 1000000 + 1000000

-- The side of an order as it is compared: upper and lower case do not matter.
pub data Side (side : Text) : Type 0 where
  buys : to_upper side ≡ buy → Side side
  sells : to_upper side ≡ sell → Side side
  neither : eqb (to_upper side) buy ≡ false → eqb (to_upper side) sell ≡ false → Side side

pub side_of : (side : Text) → Side side
side_of side = elim (Bool-cases (eqb (to_upper side) buy)) [
  | inl b ↦ buys ((eqb_iff (to_upper side) buy).0 b)
  | inr no_buy ↦ elim (Bool-cases (eqb (to_upper side) sell)) [
    | inl s ↦ sells ((eqb_iff (to_upper side) sell).0 s)
    | inr no_sell ↦ neither no_buy no_sell
  ]
]

module _ (micro : ℕ → ℤ) (clob : ClobClient) (now : ℤ) where
  -- For a size of s and a price of p millionths with s * p below 2^63: a purchase offers their cost,
  -- rounded down to a millionth, for exactly s; a sale offers exactly s for that cost; and any other
  -- side is refused. Upper and lower case of the side do not matter.
  pub build_send_order_amounts :
      (lo : LimitOrder) (s p : ℕ)
      → micro lo.size ≡ pos s
      → micro lo.price ≡ pos p
      → s * p < 9223372036854775808
      → let result = build_send_order micro clob now lo in
        ((to_upper lo.side ≡ buy)
          × ((so : SendOrder) × (cash : ℕ) × (result ≡ some so)
              × Trades so cash s
              × IsCost s p cash))
        ⊎ ((to_upper lo.side ≡ sell)
            × ((so : SendOrder) × (cash : ℕ) × (result ≡ some so)
                × Trades so s cash
                × IsCost s p cash))
        ⊎ ((to_upper lo.side ≢ buy) × (to_upper lo.side ≢ sell) × (result ≡ none))
  unfolding build_send_order envelope show_int eqb
  build_send_order_amounts lo s p size price small =
      let cash = s * p / 1000000 in
      let send = envelope clob now lo.asset_id lo.side lo.expires_at (codes "GTC") in
      let cost = times_raw_exact s p small in
      elim (side_of lo.side) [
        | buys b ↦ inl (
          b,
          (
            send (pos cash) (pos s),
            cash,
            simp (size, price, b, cost),
            record { maker_is = refl; taker_is = refl },
            record { covered = omega arith; close = omega arith },
          ),
        )
        | sells b ↦ inr (
            inl (
              b,
              (
                send (pos s) (pos cash),
                cash,
                simp (size, price, b, cost),
                record { maker_is = refl; taker_is = refl },
                record { covered = omega arith; close = omega arith },
              ),
            ))
        | neither no_buy no_sell ↦ inr (
            inr (
              λ same. cc (no_buy, (eqb_iff (to_upper lo.side) buy).1 same),
              λ same. cc (no_sell, (eqb_iff (to_upper lo.side) sell).1 same),
              ground (arith, no_buy, no_sell),
            ))
      ]
