-- ===== src/Polymarket/Executor/Placed.antt =====
-- PlaceLimitOrders of the live executor in pkg/polymarket/connector.go: what is sent for each order,
-- and what its result stands for.
use go_exchange_connector.Prelude.{ℕ, List, some, ◌≡◌, get_elem?}
use go_exchange_connector.Connector.{LimitOrder, OrderResult}
use go_exchange_connector.Polymarket.Clob.{SendOrder, ClobClient}
use go_exchange_connector.Polymarket.Clob.Api.{ok, post_order}
use go_exchange_connector.Polymarket.Executor.{Executor, World, prepare, single_result}

module _ (w : World) (e : Executor) (clob : ClobClient) where
  -- Every order of a batch is prepared, and the result at its index is the outcome of a request for
  -- it.
  abbrev pub AllPosted : List LimitOrder → OrderResult → Type 0
  AllPosted orders result =
      (i : ℕ) (o : LimitOrder)
      → get_elem? orders i ≡ some o
      → (so : SendOrder) × (k : ℕ) × (prepare w e clob i o ≡ ok so)
        × (get_elem? result.orders i ≡ some (single_result w e (post_order w.services clob k so).1))
