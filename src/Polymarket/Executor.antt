-- ===== src/Polymarket/Executor.antt =====
-- pkg/polymarket/connector.go: `polymarketLiveExecutor`, which places and cancels orders through the
-- CLOB API. `sign` is `SignOrder` for the executor's key; `clock i` is `time.Now()` when the i-th
-- order is built. Requests are numbered.
pub mod Placed
pub mod Accounted
mod Tests
use go_exchange_connector.Prelude.{
  ℕ, zero, suc, Text, codes, Bool, true, false, not, ◌||◌, List, [], ◌∷◌, ◌++◌, Option, none, some,
  length, take, drop,
}
use go_exchange_connector.Prelude.Int.{ℤ}
use go_exchange_connector.Prelude.Dict.{put}
use go_exchange_connector.Connector.{
  LimitOrder, MarketOrder, OrderResult, SingleOrderResult, CancelOrdersResult, Returned,
}
use go_exchange_connector.Polymarket.Clob.{
  Order, SendOrder, SendOrderResponse, ClobClient, Build, built, invalid_side, panicked,
  build_send_order, build_market_send_order,
}
use go_exchange_connector.Polymarket.Clob.Api.{
  Outcome, ok, err, CancelOrdersResponse, Services, post_order, cancel_batch,
}

pub record Executor : Type 0 where
  pub clob : Option ClobClient
  pub signing_key : Option Text

-- What the executor calls and what it reads.
pub record World : Type 0 where
  pub services : Services
  pub micro : ℕ → ℤ
  pub clock : ℕ → ℤ
  pub sign : Text → Order → Outcome Text

abbrev empty_result : OrderResult
empty_result = record { success = false; orders = []; error_msg = [] }

abbrev no_client : Text
no_client = codes "polymarket LIVE: clob client not initialized"

module _ (w : World) (e : Executor) where
  -- `signSendOrder`
  pub sign_send_order : SendOrder → Outcome SendOrder
  sign_send_order so = elim e.signing_key [
    | none ↦ err (codes "no signing key configured — set ClobSigningKeyHex in Config")
    | some key ↦ elim (w.sign key so.order) [
      | err m ↦ err m
      | ok sig ↦ ok (record so { order = record so.order { signature = sig } })
    ]
  ]

  -- One round of the first loop of PlaceLimitOrders: the i-th order is built and signed.
  pub prepare : ClobClient → ℕ → LimitOrder → Outcome SendOrder
  unfolding sign_send_order
  prepare clob i o = elim (build_send_order w.micro clob (w.clock i) o) [
    | none ↦ err (codes "build order: invalid side: " ++ o.side)
    | some so ↦ elim (sign_send_order so) [
      | err m ↦ err (codes "sign order for " ++ (o.order_id ++ (codes ": " ++ m)))
      | ok signed ↦ ok signed
    ]
  ]

  pub prepare_all : ClobClient → ℕ → List LimitOrder → Outcome (List SendOrder)
  prepare_all clob i [] = ok []
  prepare_all clob i (o ∷ os) = elim (prepare clob i o) [
    | err m ↦ err m
    | ok so ↦ elim (prepare_all clob (suc i) os) [ err m ↦ err m | ok sos ↦ ok (so ∷ sos) ]
  ]

  -- The result of one order from the outcome of its request.
  pub single_result : Outcome SendOrderResponse → SingleOrderResult
  single_result (err m) = record { order_id = []; success = false; error_msg = m }
  single_result (ok r) = record {
    order_id = r.order_id;
    success = r.success;
    error_msg = r.error_msg;
  }

  -- The second loop: one request for each order.
  pub post_all : ClobClient → ℕ → List SendOrder → ℕ × List SingleOrderResult
  unfolding single_result
  post_all clob n [] = (n, [])
  post_all clob n (so ∷ sos) =
      let (n', reply) = post_order w.services clob n so in
      let (n'', results) = post_all clob n' sos in (n'', single_result reply ∷ results)

  -- The third loop.
  pub any_success : List SingleOrderResult → Bool
  any_success [] = false
  any_success (r ∷ rs) = r.success || any_success rs

  -- `PlaceLimitOrders` of the live executor
  pub place_limit_orders : ℕ → List LimitOrder → ℕ × Returned OrderResult
  unfolding prepare_all post_all any_success
  place_limit_orders n orders = elim e.clob [
    | none ↦ (n, (empty_result, some no_client))
    | some clob ↦ elim orders [
      | [] ↦ (n, (record { success = true; orders = []; error_msg = [] }, none))
      | o ∷ os ↦ elim (prepare_all clob 0 (o ∷ os)) [
        | err m ↦ (n, (empty_result, some m))
        | ok sends ↦
            let (n', results) = post_all clob n sends in
            (n', (record { success = any_success results; orders = results; error_msg = [] }, none))
      ]
    ]
  ]

  -- `PlaceMarketOrder` of the live executor; `none` is a panic.
  pub place_market_order : ℕ → MarketOrder → Option (ℕ × Returned OrderResult)
  unfolding sign_send_order
  place_market_order n o = elim e.clob [
    | none ↦ some (n, (empty_result, some no_client))
    | some clob ↦ elim (build_market_send_order w.micro clob (w.clock 0) o) [
      | panicked ↦ none
      | invalid_side ↦
          some (n, (empty_result, some (codes "build market order: invalid side: " ++ o.side)))
      | built so ↦ elim (sign_send_order so) [
        | err m ↦ some (n, (empty_result, some (codes "sign market order: " ++ m)))
        | ok signed ↦
            let (n', reply) = post_order w.services clob n signed in
            elim reply [
              | err m ↦ some (n', (empty_result, some (codes "post market order: " ++ m)))
              | ok r ↦
                  let single : SingleOrderResult = record {
                    order_id = r.order_id;
                    success = r.success;
                    error_msg = r.error_msg;
                  } in
                  let result : OrderResult = record {
                    success = r.success;
                    orders = single ∷ [];
                    error_msg = [];
                  } in
                  some (n', (result, none))
            ]
      ]
    ]
  ]

-- `NotCanceled[id] = reason` for each identifier.
pub mark_all : List Text → Text → List (Text × Text) → List (Text × Text)
mark_all [] reason m = m
mark_all (id ∷ ids) reason m = mark_all ids reason (put id reason m)

-- `NotCanceled[id] = reason` for each entry of an answer.
pub copy_all : List (Text × Text) → List (Text × Text) → List (Text × Text)
copy_all [] m = m
copy_all ((id, reason) ∷ rest) m = copy_all rest (put id reason m)

-- What a batch adds to the result.
pub add_batch : List Text → Outcome CancelOrdersResponse → CancelOrdersResult → CancelOrdersResult
unfolding mark_all copy_all
add_batch batch (err m) r = record r { not_canceled = mark_all batch m r.not_canceled }
add_batch batch (ok a) r = record {
  canceled = r.canceled ++ a.canceled;
  not_canceled = copy_all a.not_canceled r.not_canceled;
}

abbrev pub batch_size : ℕ
batch_size = 1000

-- The loop of CancelOrders over what is left from index `i` on, on fuel.
pub cancel_loop :
    World → ClobClient → ℕ → ℕ → List Text → CancelOrdersResult → ℕ × CancelOrdersResult
unfolding add_batch
cancel_loop w clob fuel n [] r = (n, r)
cancel_loop w clob zero n (i ∷ is) r = (n, r)
cancel_loop w clob (suc fuel) n (i ∷ is) r =
    let (n', reply) = cancel_batch w.services clob n (take batch_size (i ∷ is)) in
    cancel_loop w clob fuel n' (drop batch_size (i ∷ is))
      (add_batch (take batch_size (i ∷ is)) reply r)

abbrev pub nothing_canceled : CancelOrdersResult
nothing_canceled = record { canceled = []; not_canceled = [] }

-- `CancelOrders` of the live executor: a round takes at least one identifier.
pub cancel_orders : World → Executor → ℕ → List Text → ℕ × Returned (Option CancelOrdersResult)
unfolding cancel_loop
cancel_orders w e n ids = elim e.clob [
  | none ↦ (n, (none, some no_client))
  | some clob ↦
      let (n', r) = cancel_loop w clob (length ids) n ids nothing_canceled in (n', (some r, none))
]
