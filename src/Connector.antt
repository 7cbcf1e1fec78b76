-- ===== src/Connector.antt =====
-- connector.go and types.go: the base connector's order routing (paper simulation or the live
-- executor). A float64 stands as its bit pattern, since nothing here computes with one; an error is
-- its message, and nil is `none`. The clock and the loggers have no effect on what is returned.
pub mod Paper
pub mod Dispatch
pub mod Mock
mod Tests
use go_exchange_connector.Prelude.{
  ℕ, suc, ◌+◌, Text, codes, Bool, true, false, not, List, [], ◌∷◌, Option, none, some, length, set,
  if◌then◌else◌, is_some,
}
use go_exchange_connector.Prelude.Int.{ℤ, pos}

pub record LimitOrder : Type 0 where
  pub order_id : Text
  pub asset_id : Text
  pub market_id : Text
  pub side : Text
  pub price : ℕ  -- float64
  pub size : ℕ  -- float64
  pub expires_at : ℤ  -- time.Time: nanoseconds since the zero time

pub record MarketOrder : Type 0 where
  pub order_id : Text
  pub asset_id : Text
  pub market_id : Text
  pub side : Text
  pub price : ℕ  -- float64
  pub size : ℕ  -- float64
  pub expires_at : ℤ  -- time.Time; 0 is the zero time

pub record SingleOrderResult : Type 0 where
  pub order_id : Text
  pub success : Bool
  pub error_msg : Text

pub record OrderResult : Type 0 where
  pub success : Bool
  pub orders : List SingleOrderResult
  pub error_msg : Text

pub record CancelOrdersResult : Type 0 where
  pub canceled : List Text
  pub not_canceled : List (Text × Text)

-- `(value, error)`
abbrev pub Returned : Type 0 → Type 0
Returned A = A × Option Text

-- The interface `LiveExecutor`, as far as orders go.
pub record LiveExecutor : Type 0 where
  pub place_limit_orders : List LimitOrder → Returned OrderResult
  pub place_market_order : MarketOrder → Returned OrderResult
  pub cancel_orders : List Text → Returned (Option CancelOrdersResult)

-- `IsLive`, `Live` and `ValidateOrder` of the struct.
pub record Connector : Type 0 where
  pub is_live : Bool
  pub live : Option LiveExecutor
  pub validate_order : Option (LimitOrder → Option Text)

-- `New`
pub new : Bool → Option LiveExecutor → Connector
new is_live live = record { is_live = is_live; live = live; validate_order = none }

-- `IsPaperMode`
pub is_paper_mode : Connector → Bool
is_paper_mode c = not c.is_live

abbrev not_implemented : Option Text
not_implemented = some (codes "not implemented")

abbrev failed_result : OrderResult
failed_result = record { success = false; orders = []; error_msg = [] }

-- A zero `SingleOrderResult`, as `make` leaves it.
abbrev pub blank : SingleOrderResult
blank = record { order_id = []; success = false; error_msg = [] }

-- `make([]SingleOrderResult, n)` for the length of a list.
pub make_results : List LimitOrder → List SingleOrderResult
make_results [] = []
make_results (o ∷ os) = blank ∷ make_results os

-- What `ValidateOrder` says of an order; with no callback nothing is refused.
pub validate : Option (LimitOrder → Option Text) → LimitOrder → Option Text
validate none o = none
validate (some check) o = check o

abbrev pub placed : Text → SingleOrderResult
placed id = record { order_id = id; success = true; error_msg = [] }

abbrev pub refused : Text → SingleOrderResult
refused reason = record { order_id = []; success = false; error_msg = reason }

-- One round of the loop: the value that is written at index `i`.
pub paper_round : Option (LimitOrder → Option Text) → LimitOrder → SingleOrderResult
paper_round check o = elim (validate check o) [
  | none ↦ placed o.order_id
  | some reason ↦ refused reason
]

-- The loop of `PlaceLimitOrders` in paper mode, from index `i` on.
pub paper_loop :
    Option (LimitOrder → Option Text)
    → ℕ
    → List LimitOrder
    → List SingleOrderResult
    → List SingleOrderResult
paper_loop check i [] results = results
paper_loop check i (o ∷ os) results =
    paper_loop check (suc i) os (set results i (paper_round check o))

-- `PlaceLimitOrders`
pub place_limit_orders : Connector → List LimitOrder → Returned OrderResult
place_limit_orders c orders =
    if c.is_live
    then elim c.live [
      | none ↦ (failed_result, not_implemented)
      | some live ↦ live.place_limit_orders orders
    ]
    else (
      record {
        success = true;
        orders = paper_loop c.validate_order 0 orders (make_results orders);
        error_msg = [];
      },
      none,
    )

-- The limit order that `PlaceMarketOrder` hands to `ValidateOrder`: no expiry is copied.
pub as_limit_order : MarketOrder → LimitOrder
as_limit_order o = record {
  order_id = o.order_id;
  asset_id = o.asset_id;
  market_id = o.market_id;
  side = o.side;
  price = o.price;
  size = o.size;
  expires_at = pos 0;
}

-- `PlaceMarketOrder`
pub place_market_order : Connector → MarketOrder → Returned OrderResult
place_market_order c o =
    if c.is_live
    then elim c.live [
      | none ↦ (failed_result, not_implemented)
      | some live ↦ live.place_market_order o
    ]
    else elim (validate c.validate_order (as_limit_order o)) [
      | some reason ↦
          (record { success = true; orders = refused reason ∷ []; error_msg = [] }, none)
      | none ↦ (record { success = true; orders = placed o.order_id ∷ []; error_msg = [] }, none)
    ]

-- `CancelOrders`
pub cancel_orders : Connector → List Text → Returned (Option CancelOrdersResult)
cancel_orders c ids =
    if c.is_live
    then elim c.live [ none ↦ (none, not_implemented) | some live ↦ live.cancel_orders ids ]
    else (some (record { canceled = ids; not_canceled = [] }), none)
