-- ===== src/Connector/Mock.antt =====
-- mock.go: MockConnector's order methods, against paper mode of connector.go.
use go_exchange_connector.Prelude.{ℕ, suc, Text, true, List, [], ◌∷◌, Option, none, some, set}
use go_exchange_connector.Connector.{
  Connector, LimitOrder, MarketOrder, SingleOrderResult, OrderResult, CancelOrdersResult, Returned,
  make_results, placed,
}

-- The loop of `MockConnector.PlaceLimitOrders`.
mock_loop : ℕ → List LimitOrder → List SingleOrderResult → List SingleOrderResult
mock_loop i [] results = results
mock_loop i (o ∷ os) results = mock_loop (suc i) os (set results i (placed o.order_id))

-- `MockConnector.PlaceLimitOrders`
pub mock_place_limit_orders : List LimitOrder → Returned OrderResult
mock_place_limit_orders orders = (
  record { success = true; orders = mock_loop 0 orders (make_results orders); error_msg = [] },
  none,
)

-- `MockConnector.PlaceMarketOrder`
pub mock_place_market_order : MarketOrder → Returned OrderResult
mock_place_market_order o =
    (record { success = true; orders = placed o.order_id ∷ []; error_msg = [] }, none)

-- `MockConnector.CancelOrders`
pub mock_cancel_orders : List Text → Returned (Option CancelOrdersResult)
mock_cancel_orders ids = (some (record { canceled = ids; not_canceled = [] }), none)
