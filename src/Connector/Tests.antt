-- ===== src/Connector/Tests.antt =====
-- Runs of connector.go and mock.go: a batch with a refused order, and a dispatcher that overflows.
use go_exchange_connector.Prelude.{
  ℕ, Text, codes, true, false, if◌then◌else◌, ◌==◌, List, [], ◌∷◌, ◌++◌, none, some, length,
  get_elem?, ◌≡◌, refl,
}
use go_exchange_connector.Prelude.Int.{pos}
use go_exchange_connector.Connector.{
  Connector, LimitOrder, MarketOrder, SingleOrderResult, new, is_paper_mode, placed, refused,
  place_limit_orders, validate, paper_round, paper_loop, make_results,
}
use go_exchange_connector.Connector.Paper.{Answers, place_limit_orders-Answers}
use go_exchange_connector.Connector.Dispatch.{stop}
use go_exchange_connector.Connector.Dispatch.Fifo.{
  Act, dispatches, works, acts, admitted, async, received-stop-acts,
}

abbrev order_of : Text → ℕ → LimitOrder
order_of id size = record {
  order_id = id;
  asset_id = codes "71321";
  market_id = codes "0x5f65";
  side = codes "BUY";
  price = 4602678819172646912;
  size = size;
  expires_at = pos 0;
}

abbrev market_order : MarketOrder
market_order = record {
  order_id = codes "m1";
  asset_id = codes "71321";
  market_id = codes "0x5f65";
  side = codes "SELL";
  price = 0;
  size = 0;
  expires_at = pos 5;
}

-- Paper mode that refuses orders of size zero.
abbrev strict : Connector
strict = record {
  is_live = false;
  live = none;
  validate_order = some (λ o. if o.size == 0 then some (codes "empty") else none);
}

abbrev batch : List LimitOrder
batch = order_of (codes "a") 4617315517961601024 ∷ order_of (codes "b") 0 ∷ []

batch_results :
    (place_limit_orders strict batch).0.orders ≡ placed (codes "a") ∷ refused (codes "empty") ∷ []
unfolding place_limit_orders paper_loop paper_round validate make_results
batch_results = refl

place_limit_orders-Answers_example :
    let (result, failure) = place_limit_orders strict batch in
    (failure ≡ none)
    × (result.success ≡ true)
    × (length result.orders ≡ length batch)
    × ((r : SingleOrderResult) × (get_elem? result.orders 1 ≡ some r)
        × Answers strict (order_of (codes "b") 0) r)
place_limit_orders-Answers_example =
    place_limit_orders-Answers strict batch 1 (order_of (codes "b") 0) refl refl

-- Paper mode that checks nothing.
abbrev lax : Connector
lax = record { is_live = false; live = none; validate_order = none }

paper_by_default : is_paper_mode (new false none) ≡ true
unfolding is_paper_mode new
paper_by_default = refl

abbrev permissive : Connector
permissive = record strict { validate_order = none }

-- A channel of two events, three dispatches before the goroutine runs, and one after.
abbrev burst : List (Act ℕ)
burst = dispatches 1 ∷ dispatches 2 ∷ dispatches 3 ∷ works ∷ dispatches 4 ∷ []

received-stop-acts_example :
    (stop (acts burst (async 2 [] []))).received ≡ [] ++ ([] ++ admitted 2 0 burst)
received-stop-acts_example = received-stop-acts burst 2 [] []

burst_admits : admitted 2 0 burst ≡ 1 ∷ 2 ∷ 4 ∷ []
burst_admits = refl
