-- ===== src/Hyperliquid/Payloads.antt =====
-- pkg/hyperliquid/types.go: the payloads of the channels and of the /info requests. A Num is its text.
pub mod Universe
use go_exchange_connector.Prelude.{
  ℕ, suc, Text, codes, eqb, is_empty, Bool, true, false, ◌||◌, List, [], ◌∷◌, ◌++◌, Option, none,
  some, if◌then◌else◌, ◌==◌, get_elem?,
}
use go_exchange_connector.Prelude.Int.{ℤ}
use go_exchange_connector.Prelude.Trim.{trim_space}

-- `L2Level`
pub record L2Level : Type 0 where
  pub price : Text
  pub size : Text
  pub count : ℤ

-- `L2BookSnapshot`
pub record L2BookSnapshot : Type 0 where
  pub coin : Text
  pub time : ℤ
  pub levels : List (List L2Level)

-- A side of the book, empty if the venue omitted it.
abbrev side_at : ℕ → List (List L2Level) → List L2Level
side_at i levels = elim (get_elem? levels i) [ none ↦ [] | some side ↦ side ]

-- `L2BookSnapshot.Bids` and `Asks`
abbrev pub bids : L2BookSnapshot → List L2Level
bids b = side_at 0 b.levels

abbrev pub asks : L2BookSnapshot → List L2Level
asks b = side_at 1 b.levels

-- `Trade`
pub record Trade : Type 0 where
  pub coin : Text
  pub side : Text
  pub price : Text
  pub size : Text
  pub hash : Text
  pub time : ℤ
  pub trade_id : ℤ
  pub users : List Text

-- `BBO`; a null side is none.
pub record Bbo : Type 0 where
  pub coin : Text
  pub time : ℤ
  pub levels : List (Option L2Level)

abbrev best_at : ℕ → List (Option L2Level) → Option L2Level
best_at i levels = elim (get_elem? levels i) [ none ↦ none | some level ↦ level ]

-- `BBO.Bid` and `BBO.Ask`
abbrev pub best_bid : Bbo → Option L2Level
best_bid b = best_at 0 b.levels

abbrev pub best_ask : Bbo → Option L2Level
best_ask b = best_at 1 b.levels

-- `AssetCtx`
pub record AssetCtx : Type 0 where
  pub funding : Text
  pub open_interest : Text
  pub premium : Text
  pub day_ntl_vlm : Text
  pub prev_day_px : Text
  pub oracle_px : Text
  pub mark_px : Text
  pub mid_px : Text
  pub impact_pxs : List Text
  pub day_base_vlm : Text
  pub circulating_supply : Text

-- `Candle`
pub record Candle : Type 0 where
  pub open_time : ℤ
  pub close_time : ℤ
  pub coin : Text
  pub interval : Text
  pub open_price : Text
  pub close_price : Text
  pub high : Text
  pub low : Text
  pub volume : Text
  pub trade_count : ℤ

abbrev pub starts_with_quote : Text → Bool
starts_with_quote [] = false
starts_with_quote (c ∷ cs) = c == b'"'

-- `Num.UnmarshalJSON`: the decimal text of a JSON string, number or null, or an error. What
-- json.Unmarshal makes of a string, and whether strconv.ParseFloat reads a number, are arguments.
unfoldable pub unmarshal_num : (Text → Option Text) → (Text → Bool) → Text → Option Text
unmarshal_num string_of is_float b =
    let s = trim_space b in
    if is_empty s || eqb s (codes "null")
    then some []
    else if starts_with_quote s
    then string_of b
    else if is_float s
    then some s
    else none

-- `Num.MarshalJSON`
abbrev pub marshal_num : (Text → Text) → Text → Text
marshal_num quote n = quote n

-- `AssetInfo`
pub record AssetInfo : Type 0 where
  pub name : Text
  pub sz_decimals : ℤ
  pub max_leverage : ℤ
  pub margin_table_id : ℤ
  pub only_isolated : Bool
  pub is_delisted : Bool

-- `PerpMeta`, of which the margin tables are raw JSON.
pub record PerpMeta : Type 0 where
  pub universe : List AssetInfo
  pub margin_tables : List Text
  pub collateral_token : ℤ

-- `MetaAndAssetCtxs`
pub record MetaAndAssetCtxs : Type 0 where
  pub meta : PerpMeta
  pub ctxs : List AssetCtx

-- The loop of AssetID, from index `i` on.
unfoldable pub asset_id_from : Text → ℕ → List AssetInfo → Option ℕ
asset_id_from coin i [] = none
asset_id_from coin i (info ∷ rest) =
    let later = asset_id_from coin (suc i) rest in if eqb info.name coin then some i else later

-- `PerpMeta.AssetID`
unfoldable pub asset_id : PerpMeta → Text → Option ℕ
unfolding asset_id_from
asset_id meta coin = asset_id_from coin 0 meta.universe

-- The loop of CoinContext.
unfoldable pub coin_context_from : List AssetCtx → Text → ℕ → List AssetInfo → Option AssetCtx
coin_context_from ctxs coin i [] = none
coin_context_from ctxs coin i (info ∷ rest) =
    let later = coin_context_from ctxs coin (suc i) rest in
    if eqb info.name coin then get_elem? ctxs i else later

-- `CoinContext`
unfoldable pub coin_context : MetaAndAssetCtxs → Text → Option AssetCtx
unfolding coin_context_from
coin_context m coin = coin_context_from m.ctxs coin 0 m.meta.universe

-- The funding rate of a context, if there is one.
abbrev pub funding_of : Option AssetCtx → Option Text
funding_of none = none
funding_of (some ctx) = some ctx.funding

-- `FundingRate`
unfoldable pub funding_rate : MetaAndAssetCtxs → Text → Option Text
unfolding coin_context
funding_rate m coin = funding_of (coin_context m coin)

-- `MetaAndAssetCtxs.UnmarshalJSON`: a list of at least two elements, of which the first two count.
unfoldable pub unmarshal_meta :
    (Text → Option (List Text))
    → (Text → Option PerpMeta)
    → (Text → Option (List AssetCtx))
    → Text
    → Option MetaAndAssetCtxs
unmarshal_meta tuple meta_of ctxs_of b = elim (tuple b) [
  | none ↦ none
  | some parts ↦ elim parts [
    | [] ↦ none
    | first ∷ others ↦ elim others [
      | [] ↦ none
      | second ∷ more ↦ elim (meta_of first) [
        | none ↦ none
        | some meta ↦ elim (ctxs_of second) [
          | none ↦ none
          | some ctxs ↦ some (record { meta = meta; ctxs = ctxs })
        ]
      ]
    ]
  ]
]
