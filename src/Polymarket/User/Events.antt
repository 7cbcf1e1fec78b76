-- ===== src/Polymarket/User/Events.antt =====
-- pkg/polymarket/user.go: messages of the user channel and the events that are dispatched for
-- them. JSON and Sscanf are arguments; a float64 is a bit pattern with its
-- tests against zero.
use mathlib.Core.List.{Mem, mem-cons_self, mem-cons_of_mem}
use go_exchange_connector.Prelude.{
  ℕ, Text, codes, eqb, is_empty, Bool, true, false, List, [], ◌∷◌, ◌++◌, Option, none, some, ◌≡◌,
  refl, arith, if◌then◌else◌, All, ◌⊎◌, inl, inr, Bool-cases,
}
use go_exchange_connector.Prelude.Int.{ℤ}
use go_exchange_connector.Prelude.Clock.{safe_parse_timestamp}

pub record OrderWsEvent : Type 0 where
  pub id : Text
  pub market : Text
  pub asset_id : Text
  pub side : Text
  pub original_size : Text
  pub price : Text
  pub kind : Text  -- Type
  pub timestamp : Text

pub record TradeMakerOrder : Type 0 where
  pub order_id : Text
  pub matched_amount : Text
  pub price : Text
  pub asset_id : Text
  pub side : Text

pub record TradeWsEvent : Type 0 where
  pub id : Text
  pub taker_order_id : Text
  pub asset_id : Text
  pub side : Text
  pub size : Text
  pub price : Text
  pub status : Text
  pub timestamp : Text
  pub maker_orders : List TradeMakerOrder

-- `OrderFillEvent` of events.go.
pub record Fill : Type 0 where
  pub trade_id : Text
  pub broker_id : Text
  pub asset_id : Text
  pub side : Text
  pub price : ℕ
  pub size : ℕ
  pub is_maker : Bool
  pub status : Text
  pub timestamp : ℤ

-- What is dispatched: `OrderPlacementEvent`, `OrderCancelEvent` and `OrderFillEvent`.
pub data Event : Type 0 where
  placement : Text → Text → Text → Text → ℕ → ℕ → ℤ → Event
  cancel : Text → Text → ℤ → Event
  fill : Fill → Event

-- The standard library's part: Sscanf of "%f" and of "%d", `v > 0` and `v <= 0` (of which neither
-- holds of a NaN), the clock and the
-- decoding of JSON.
pub record Std : Type 0 where
  pub scan_float : Text → ℕ
  pub positive : ℕ → Bool
  pub not_above_zero : ℕ → Bool
  pub scan_int : Text → Option ℤ
  pub now : ℤ
  pub elements : Text → Option (List Text)
  pub element : Text → Option Text
  pub event_type : Text → Option Text
  pub order_of : Text → Option OrderWsEvent
  pub trade_of : Text → Option TradeWsEvent

module _ (std : Std) where
  -- `safeParseFloat`: the zero value stays where nothing is read.
  unfoldable pub safe_parse_float : Text → ℕ
  safe_parse_float s = if is_empty s then 0 else std.scan_float s

  -- `handleOrder`, once the message is decoded.
  pub handle_order : OrderWsEvent → List Event
  unfolding safe_parse_float
  handle_order ev =
      let ts = safe_parse_timestamp std.scan_int std.now ev.timestamp in
      let price = safe_parse_float ev.price in
      let size = safe_parse_float ev.original_size in
      if eqb ev.kind (codes "PLACEMENT")
      then placement ev.id ev.market ev.asset_id ev.side price size ts ∷ []
      else if eqb ev.kind (codes "CANCELLATION")
      then cancel ev.id ev.asset_id ts ∷ []
      else []

  -- The taker's fill of handleTrade.
  pub taker_fill : TradeWsEvent → Fill
  unfolding safe_parse_float
  taker_fill ev = record {
    trade_id = ev.id;
    broker_id = ev.taker_order_id;
    asset_id = ev.asset_id;
    side = ev.side;
    price = safe_parse_float ev.price;
    size = safe_parse_float ev.size;
    is_maker = false;
    status = ev.status;
    timestamp = safe_parse_timestamp std.scan_int std.now ev.timestamp;
  }

  pub maker_fill : TradeWsEvent → TradeMakerOrder → Fill
  unfolding safe_parse_float
  maker_fill ev mo = record {
    trade_id = ev.id;
    broker_id = mo.order_id;
    asset_id = mo.asset_id;
    side = ev.side;
    price =
        if std.not_above_zero (safe_parse_float mo.price)
        then safe_parse_float ev.price
        else safe_parse_float mo.price;
    size = safe_parse_float mo.matched_amount;
    is_maker = true;
    status = ev.status;
    timestamp = safe_parse_timestamp std.scan_int std.now ev.timestamp;
  }

  -- The loop over `MakerOrders`.
  unfoldable pub maker_fills : TradeWsEvent → List TradeMakerOrder → List Event
  unfolding maker_fill
  maker_fills ev [] = []
  maker_fills ev (mo ∷ mos) =
      let rest = maker_fills ev mos in
      if std.not_above_zero (safe_parse_float mo.matched_amount)
      then rest
      else fill (maker_fill ev mo) ∷ rest

  -- `handleTrade`, once the message is decoded.
  unfoldable pub handle_trade : TradeWsEvent → List Event
  unfolding taker_fill maker_fills
  handle_trade ev =
      let makers = maker_fills ev ev.maker_orders in
      if std.positive (safe_parse_float ev.size) then fill (taker_fill ev) ∷ makers else makers

  -- One round of the loop of `onMessage`.
  pub process : Text → List Event
  unfolding handle_order handle_trade
  process raw = elim (std.event_type raw) [
    | none ↦ []
    | some kind ↦
        if eqb kind (codes "order")
        then elim (std.order_of raw) [ none ↦ [] | some ev ↦ handle_order ev ]
        else if eqb kind (codes "trade")
        then elim (std.trade_of raw) [ none ↦ [] | some ev ↦ handle_trade ev ]
        else []
  ]

  pub process_all : List Text → List Event
  process_all [] = []
  process_all (raw ∷ raws) = process raw ++ process_all raws

  -- `onMessage`: a message is an array of values or one value; `none` is the error that it is
  -- neither.
  pub on_message : Text → Option (List Event)
  unfolding process_all
  on_message text = if eqb text (codes "PONG") then some [] else elim (std.elements text) [
    | some raws ↦ some (process_all raws)
    | none ↦ elim (std.element text) [ none ↦ none | some raw ↦ some (process_all (raw ∷ [])) ]
  ]

-- A fill of a trade, of the taker's part or of one maker order's, with what it copies from each.
pub data IsFill (std : Std) (ev : TradeWsEvent) : Event → Type 0 where
  of_taker :
      {f : Fill}
      → std.positive f.size ≡ true
      → f.is_maker ≡ false
      → f.broker_id ≡ ev.taker_order_id
      → f.asset_id ≡ ev.asset_id
      → f.side ≡ ev.side
      → f.size ≡ safe_parse_float std ev.size
      → f.price ≡ safe_parse_float std ev.price
      → f.status ≡ ev.status
      → IsFill std ev (fill f)
  of_maker :
      (mo : TradeMakerOrder) {f : Fill}
      → Mem mo ev.maker_orders
      → std.not_above_zero f.size ≡ false
      → f.is_maker ≡ true
      → f.broker_id ≡ mo.order_id
      → f.asset_id ≡ mo.asset_id
      → f.side ≡ ev.side
      → f.size ≡ safe_parse_float std mo.matched_amount
      → ((f.price ≡ safe_parse_float std mo.price) × (std.not_above_zero f.price ≡ false))
        ⊎ ((f.price ≡ safe_parse_float std ev.price)
            × (std.not_above_zero (safe_parse_float std mo.price) ≡ true))
      → f.status ≡ ev.status
      → IsFill std ev (fill f)

module _ (std : Std) (ev : TradeWsEvent) where
  -- A maker's price: the order's, or the trade's where the order's is zero or below.
  abbrev IsPriceOf : TradeMakerOrder → ℕ → Type 0
  IsPriceOf mo price =
      ((price ≡ safe_parse_float std mo.price) × (std.not_above_zero price ≡ false))
      ⊎ ((price ≡ safe_parse_float std ev.price)
          × (std.not_above_zero (safe_parse_float std mo.price) ≡ true))

  maker_fills-IsFill :
      (mos : List TradeMakerOrder)
      → ((mo : TradeMakerOrder) → Mem mo mos → Mem mo ev.maker_orders)
      → All (IsFill std ev) (maker_fills std ev mos)
  unfolding maker_fills maker_fill
  maker_fills-IsFill [] within = tt
  maker_fills-IsFill (mo ∷ mos) within =
      let rest = maker_fills-IsFill mos (λ m in_rest. within m (mem-cons_of_mem mo in_rest)) in
      elim (Bool-cases (std.not_above_zero (safe_parse_float std mo.matched_amount))) [
        | inl none_matched ↦ rw none_matched rest
        | inr some_matched ↦
            let price : IsPriceOf mo (maker_fill std ev mo).price =
              elim (Bool-cases (std.not_above_zero (safe_parse_float std mo.price))) [
                | inl unpriced ↦ inr (ground (arith, unpriced), unpriced)
                | inr priced ↦ inl (ground (arith, priced), ground (arith, priced))
              ] in
            rw some_matched (
              of_maker mo (within mo mem-cons_self) some_matched refl refl refl refl refl price
                  refl,
              rest,
            )
      ]

  -- Whatever a trade message holds, each event that is dispatched for it is a fill: of the taker's
  -- order, with the trade's asset, size and price, the size above zero; or of one of the trade's
  -- maker orders, with that order's asset and amount, which is not zero or below (it may be a NaN),
  -- and with the order's price, or the trade's where the order's is zero or below. Each has the
  -- trade's side, a maker's too, and the trade's status.
  pub handle_trade-IsFill : All (IsFill std ev) (handle_trade std ev)
  unfolding handle_trade taker_fill
  handle_trade-IsFill =
      let makers = maker_fills-IsFill ev.maker_orders (λ mo h. h) in
      elim (Bool-cases (std.positive (safe_parse_float std ev.size))) [
        | inl sized ↦ rw sized (of_taker sized refl refl refl refl refl refl refl, makers)
        | inr unsized ↦ rw unsized makers
      ]
