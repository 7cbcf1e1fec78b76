-- ===== src/Connector/Paper.antt =====
-- Paper mode of connector.go: what the order methods return.
use go_exchange_connector.Prelude.{
  ℕ, zero, suc, Text, true, false, List, [], ◌∷◌, ◌++◌, map, Option, none, some, length, set, ◌≡◌,
  refl, ap, ◌∙◌, arith, get_elem?,
}
use go_exchange_connector.Connector.{
  Connector, LimitOrder, MarketOrder, SingleOrderResult, blank, make_results, validate, paper_round,
  paper_loop, place_limit_orders, as_limit_order, place_market_order, placed, refused,
}

set_middle :
    (front rest : List SingleOrderResult) (a b : SingleOrderResult)
    → set (front ++ a ∷ rest) (length front) b ≡ front ++ b ∷ rest
set_middle [] rest a b = refl
set_middle (x ∷ front) rest a b = ap (λ r. x ∷ r) (set_middle front rest a b)

length-snoc :
    (front : List SingleOrderResult) (b : SingleOrderResult)
    → length (front ++ b ∷ []) ≡ suc (length front)
length-snoc [] b = refl
length-snoc (x ∷ front) b = ap suc (length-snoc front b)

snoc_append :
    (front rest : List SingleOrderResult) (b : SingleOrderResult)
    → (front ++ b ∷ []) ++ rest ≡ front ++ b ∷ rest
snoc_append [] rest b = refl
snoc_append (x ∷ front) rest b = ap (λ r. x ∷ r) (snoc_append front rest b)

paper_loop-eq-map :
    (check : Option (LimitOrder → Option Text)) (os : List LimitOrder)
    (front : List SingleOrderResult)
    → paper_loop check (length front) os (front ++ make_results os)
      ≡ front ++ map (paper_round check) os
unfolding paper_loop make_results
paper_loop-eq-map check [] front = refl
paper_loop-eq-map check (o ∷ os) front =
    rw (set_middle front (make_results os) blank (paper_round check o)) (
      rw (← snoc_append front (make_results os) (paper_round check o)) (
        rw (← length-snoc front (paper_round check o)) (
          paper_loop-eq-map check os (front ++ paper_round check o ∷ [])
          ∙ snoc_append front (map (paper_round check) os) (paper_round check o))))

-- An independent description of one paper result: a placed order echoes its identifier, a refused
-- one carries no identifier and the reason.
pub record Answers (c : Connector) (o : LimitOrder) (r : SingleOrderResult) : Type 0 where
  pub placed_if_valid : validate c.validate_order o ≡ none → r ≡ placed o.order_id
  pub refused_if_not :
      (reason : Text) → validate c.validate_order o ≡ some reason → r ≡ refused reason

-- In paper mode a batch always succeeds with no error, and the result at each index answers the
-- order at that index: index by index there is a result exactly where there is an order.
place_limit_orders_paper :
    (c : Connector) (orders : List LimitOrder)
    → c.is_live ≡ false
    → let (result, err) = place_limit_orders c orders in
      (err ≡ none)
      × (result.success ≡ true)
      × (result.orders ≡ map (paper_round c.validate_order) orders)
unfolding place_limit_orders
place_limit_orders_paper c orders paper =
    ground (arith, paper, paper_loop-eq-map c.validate_order orders [])

paper_round-Answers :
    (c : Connector) (o : LimitOrder) → Answers c o (paper_round c.validate_order o)
unfolding paper_round
paper_round-Answers c o = record {
  placed_if_valid = λ h. ground (arith, h);
  refused_if_not = λ reason h. ground (arith, h);
}

get_elem?-map :
    (f : LimitOrder → SingleOrderResult) (os : List LimitOrder) (i : ℕ) (o : LimitOrder)
    → get_elem? os i ≡ some o
    → get_elem? (map f os) i ≡ some (f o)
get_elem?-map f [] i o h = cc
get_elem?-map f (x ∷ os) zero o h = ground (arith, h)
get_elem?-map f (x ∷ os) (suc i) o h = get_elem?-map f os i o h

length-map :
    (f : LimitOrder → SingleOrderResult) (os : List LimitOrder) → length (map f os) ≡ length os
length-map f [] = refl
length-map f (x ∷ os) = ap suc (length-map f os)

-- In paper mode a batch succeeds with no error and has one result for each order: the result at an
-- order's index is that it was placed, with its identifier, if ValidateOrder lets it pass, and that
-- it was refused, with the reason and no identifier, if not.
pub place_limit_orders-Answers :
    (c : Connector) (orders : List LimitOrder) (i : ℕ) (o : LimitOrder)
    → c.is_live ≡ false
    → get_elem? orders i ≡ some o
    → let (result, err) = place_limit_orders c orders in
      (err ≡ none)
      × (result.success ≡ true)
      × (length result.orders ≡ length orders)
      × ((r : SingleOrderResult) × (get_elem? result.orders i ≡ some r) × Answers c o r)
place_limit_orders-Answers c orders i o paper at =
    let (no_err, ok, same) = place_limit_orders_paper c orders paper in
    (
      no_err,
      ok,
      rw same (length-map (paper_round c.validate_order) orders),
      (
        paper_round c.validate_order o,
        rw same (get_elem?-map (paper_round c.validate_order) orders i o at),
        paper_round-Answers c o,
      ),
    )

-- In paper mode a market order is treated as a batch of the one limit order with the same fields
-- and no expiry.
pub place_market_order-eq_limit :
    (c : Connector) (o : MarketOrder)
    → c.is_live ≡ false
    → place_market_order c o ≡ place_limit_orders c (as_limit_order o ∷ [])
unfolding place_market_order place_limit_orders paper_loop make_results paper_round as_limit_order
place_market_order-eq_limit c o paper = ground (arith, paper)
