-- ===== src/Polymarket/Clob.antt =====
-- pkg/polymarket/clob.go and connector.go: what the connector sends to the order book's API, and how
-- it turns an order into it. Conversions of float64 are an argument: `micro v` is
-- `int64(v * 1_000_000)`. A time is in nanoseconds since the zero time.
pub mod Amounts
pub mod Market
pub mod Salt
pub mod Api
use go_exchange_connector.Prelude.{
  ℕ, suc, ◌-◌, Text, codes, eqb, is_empty, Bool, true, false, ◌&&◌, [], ◌∷◌, Option, none, some,
  if◌then◌else◌, leb,
}
use go_exchange_connector.Prelude.Int.{ℤ, pos, negsuc, ◌+ℤ◌, ◌*ℤ◌, quot, floor_div, wrap64, eqb_ℤ}
use go_exchange_connector.Connector.{LimitOrder, MarketOrder}
use go_exchange_connector.Prelude.Decimal.{decimal, show_int}

-- `strings.ToUpper`, on ASCII.
upper_char : ℕ → ℕ
upper_char c = if leb b'a' c && leb c b'z' then c - 32 else c

unfoldable pub to_upper : Text → Text
unfolding upper_char
to_upper [] = []
to_upper (c ∷ cs) = upper_char c ∷ to_upper cs

-- `UnixMilli` and `UnixNano`: the zero time is 62,135,596,800 seconds before the epoch.
unfoldable pub unix_milli : ℤ → ℤ
unfolding ◌+ℤ◌ floor_div
unix_milli t = floor_div t 1000000 +ℤ negsuc 62135596799999

pub unix_nano : ℤ → ℤ
unfolding ◌+ℤ◌ wrap64
unix_nano t = wrap64 (t +ℤ negsuc 62135596799999999999)

-- `IsZero`
unfoldable pub is_zero_time : ℤ → Bool
is_zero_time t = eqb_ℤ t (pos 0)

pub record Order : Type 0 where
  pub maker : Text
  pub signer : Text
  pub token_id : Text
  pub maker_amount : Text
  pub taker_amount : Text
  pub side : Text
  pub expiration : Text
  pub timestamp : Text
  pub metadata : Text
  pub builder : Text
  pub signature : Text
  pub salt : Text
  pub signature_type : ℤ

pub record SendOrder : Type 0 where
  pub order : Order
  pub owner : Text
  pub order_type : Text
  pub defer_exec : Bool
  pub post_only : Bool

pub record SendOrderResponse : Type 0 where
  pub success : Bool
  pub order_id : Text
  pub error_msg : Text

-- The identity fields of `ClobClient`.
pub record ClobClient : Type 0 where
  pub base_url : Text
  pub api_key : Text
  pub secret : Text
  pub passphrase : Text
  pub maker_address : Text
  pub signer_address : Text
  pub owner_uuid : Text
  pub signature_type : ℤ

-- What `buildMarketSendOrder` returns; a division by zero panics.
pub data Build : Type 0 where
  built : SendOrder → Build
  invalid_side : Build
  panicked : Build

-- The product of two amounts in millionths, in millionths, with the wrap-around of int64.
pub times_raw : ℤ → ℤ → ℤ
unfolding ◌*ℤ◌ wrap64 quot
times_raw size price = quot (wrap64 (size *ℤ price)) (pos 1000000)

abbrev pub zero_bytes32 : Text
zero_bytes32 = codes "0x0000000000000000000000000000000000000000000000000000000000000000"

-- What `buildSendOrder` and `buildMarketSendOrder` end with, but for the amounts and the type of an
-- order that does not expire.
pub envelope : ClobClient → ℤ → Text → Text → ℤ → Text → ℤ → ℤ → SendOrder
unfolding show_int unix_milli unix_nano is_zero_time to_upper
envelope clob now asset side expires_at lasting making taking = record {
  order = record {
    maker = clob.maker_address;
    signer = clob.signer_address;
    token_id = asset;
    maker_amount = show_int making;
    taker_amount = show_int taking;
    side = to_upper side;
    expiration = if is_zero_time expires_at then codes "0" else show_int (unix_milli expires_at);
    timestamp = show_int (unix_milli now);
    metadata = zero_bytes32;
    builder = zero_bytes32;
    signature = [];
    salt = show_int (unix_nano now);
    signature_type = clob.signature_type;
  };
  owner = clob.owner_uuid;
  order_type = if is_zero_time expires_at then lasting else codes "GTD";
  defer_exec = false;
  post_only = false;
}

abbrev pub buy : Text
buy = codes "BUY"

abbrev pub sell : Text
sell = codes "SELL"

-- `buildSendOrder`; `none` is the error that the side is invalid.
unfoldable pub build_send_order : (ℕ → ℤ) → ClobClient → ℤ → LimitOrder → Option SendOrder
unfolding envelope times_raw to_upper
build_send_order micro clob now lo =
    let size_raw = micro lo.size in
    let price_raw = micro lo.price in
    let send = envelope clob now lo.asset_id lo.side lo.expires_at (codes "GTC") in
    if eqb (to_upper lo.side) buy
    then some (send (times_raw size_raw price_raw) size_raw)
    else if eqb (to_upper lo.side) sell
    then some (send size_raw (times_raw size_raw price_raw))
    else none

-- `(v / n) * n`
pub truncate_to : ℤ → ℕ → ℤ
unfolding ◌*ℤ◌ quot
truncate_to v n = quot v (pos n) *ℤ pos n

abbrev pub maker_trunc : ℕ
maker_trunc = 10000

abbrev pub taker_trunc : ℕ
taker_trunc = 100

-- `usdcRaw * 1_000_000 / priceRaw`, for a price other than zero.
pub shares_for : ℤ → ℤ → ℤ
unfolding ◌*ℤ◌ wrap64 quot
shares_for usdc price = wrap64 (quot (wrap64 (usdc *ℤ pos 1000000)) price)

-- `buildMarketSendOrder`
pub build_market_send_order : (ℕ → ℤ) → ClobClient → ℤ → MarketOrder → Build
unfolding envelope times_raw shares_for truncate_to to_upper
build_market_send_order micro clob now mo =
    let size_raw = micro mo.size in
    let price_raw = micro mo.price in
    let send = envelope clob now mo.asset_id mo.side mo.expires_at (codes "FOK") in
    let rounded = λ (making taking : ℤ).
      built (send (truncate_to making maker_trunc) (truncate_to taking taker_trunc)) in
    if eqb (to_upper mo.side) buy
    then (if eqb_ℤ price_raw (pos 0)
        then panicked
        else rounded size_raw (shares_for size_raw price_raw))
    else if eqb (to_upper mo.side) sell
    then rounded size_raw (times_raw size_raw price_raw)
    else invalid_side
