-- ===== src/Polymarket/CryptoPrice.antt =====
-- pkg/polymarket/crypto_price.go, with GetCryptoPrice of the live executor in connector.go: the
-- window that is asked for, and the reading of the points. HTTP, JSON and the format of times are
-- arguments; a time is in nanoseconds since the zero time, and a float64 is a bit pattern.
pub mod Window
mod Tests
use go_exchange_connector.Prelude.{
  ℕ, suc, ◌*◌, Text, codes, eqb, is_empty, Bool, true, false, not, ◌&&◌, ◌||◌, List, [], ◌∷◌, ◌++◌,
  Option, none, some, if◌then◌else◌, ◌==◌,
}
use go_exchange_connector.Prelude.Int.{ℤ, pos, neg_of, ◌+ℤ◌, ltb_ℤ, leb_ℤ}
use go_exchange_connector.Prelude.Decimal.{decimal, show_int}
use go_exchange_connector.Polymarket.Clob.{unix_milli, is_zero_time}
use go_exchange_connector.Polymarket.Clob.Api.{Outcome, ok, err, ◌>>=◌, wrap_error}
use go_exchange_connector.Polymarket.Gamma as Gamma
use go_exchange_connector.Polymarket.Gamma.{GammaMarket, fetch_market_by_id, fetch_market_by_slug}

pub record CryptoPriceRequest : Type 0 where
  pub symbol : Text
  pub variant : Text
  pub market_id : Text
  pub slug : Text
  pub event_start_time : ℤ
  pub end_date : ℤ
  pub twap_enabled : Bool
  pub twap_lookback_seconds : ℤ

pub record CryptoPrice : Type 0 where
  pub open_price : ℕ
  pub close_price : Option ℕ
  pub timestamp : ℤ
  pub completed : Bool
  pub incomplete : Bool
  pub cached : Bool

-- `priceHistoryPoint`
pub record Point : Type 0 where
  pub timestamp : ℤ
  pub value : ℕ

-- `url_of` is the URL with a query, and `get` is the request: the status, and the points or the error
-- of decoding them.
pub record Std : Type 0 where
  pub gamma : Gamma.Std
  pub format_time : ℤ → Text
  pub url_of : List (Text × Text) → Text
  pub get : Text → Outcome (ℕ × Outcome (List Point))

abbrev minutes : ℕ → ℕ
minutes n = n * 60000000000

-- `variantDuration`
pub variant_duration : Text → Outcome ℕ
variant_duration variant =
    if eqb variant (codes "fiveminute")
    then ok (minutes 5)
    else if eqb variant (codes "fifteen")
    then ok (minutes 15)
    else if eqb variant (codes "hourly")
    then ok (minutes 60)
    else if eqb variant (codes "4h")
    then ok (minutes 240)
    else if eqb variant (codes "daily")
    then ok (minutes 1440)
    else if eqb variant (codes "weekly")
    then ok (minutes 10080)
    else err (codes "price-history: unknown variant " ++ (b'"' ∷ variant ++ b'"' ∷ []))

-- `t.Add(-d)`
pub sub_duration : ℤ → ℕ → ℤ
unfolding ◌+ℤ◌
sub_duration t d = t +ℤ neg_of d

-- `WindowFromMarket`, for a market.
pub window_from_market : GammaMarket → Text → Outcome (ℤ × ℤ)
unfolding variant_duration sub_duration is_zero_time
window_from_market gm variant =
    if is_zero_time gm.end_date
    then err (codes "price-history: market has no endDate")
    else variant_duration variant >>= λ d. ok (sub_duration gm.end_date d, gm.end_date)

-- The query of Fetch.
pub query_of : Std → CryptoPriceRequest → List (Text × Text)
unfolding show_int
query_of std req =
    let lookback =
      if ltb_ℤ (pos 0) req.twap_lookback_seconds
      then (codes "twapLookbackSeconds", show_int req.twap_lookback_seconds) ∷ []
      else [] in
    let twap = if req.twap_enabled then (codes "twapEnabled", codes "true") ∷ lookback else [] in
    (codes "symbol", req.symbol)
    ∷ (codes "variant", req.variant)
    ∷ (codes "eventStartTime", std.format_time req.event_start_time)
    ∷ (codes "endDate", std.format_time req.end_date)
    ∷ twap

-- `pts[len(pts)-1]`
pub last_point : Point → List Point → Point
last_point p [] = p
last_point p (q ∷ qs) = last_point q qs

-- The end of Fetch.
pub read_points : Std → CryptoPriceRequest → List Point → Outcome CryptoPrice
unfolding last_point unix_milli
read_points std req [] = err (
    codes "price-history: empty response for "
    ++ (req.symbol
        ++ (b' ' ∷ std.format_time req.event_start_time
            ++ (codes ".." ++ std.format_time req.end_date))))
read_points std req (p ∷ ps) =
    let last = last_point p ps in
    let completed = leb_ℤ (unix_milli req.end_date) last.timestamp in
    ok (record {
      open_price = p.value;
      close_price = if completed then some last.value else none;
      timestamp = last.timestamp;
      completed = completed;
      incomplete = not completed;
      cached = false;
    })

-- The request of Fetch and the checks of its answer.
pub ask : Std → CryptoPriceRequest → Text → Outcome CryptoPrice
unfolding read_points
ask std req url =
    wrap_error (codes "price-history: request failed: ") (std.get url) >>= λ (status, points).
    if status == 200
    then wrap_error (codes "price-history: decode: ") points >>= read_points std req
    else err (codes "price-history: " ++ (url ++ (codes " returned " ++ decimal status)))

-- `Fetch`
pub fetch : Std → CryptoPriceRequest → Outcome CryptoPrice
unfolding query_of ask is_zero_time
fetch std req =
    if is_empty req.symbol
    then err (codes "price-history: symbol required")
    else if is_empty req.variant
    then err (codes "price-history: variant required")
    else if is_zero_time req.event_start_time
    then err (codes "price-history: eventStartTime required")
    else if is_zero_time req.end_date
    then err (codes "price-history: endDate required")
    else ask std req (std.url_of (query_of std req))

-- The first step of GetCryptoPrice: the window of the market that the request names.
pub resolve_window : Std → Text → CryptoPriceRequest → Outcome CryptoPriceRequest
unfolding window_from_market is_zero_time
resolve_window std base req =
    if is_zero_time req.end_date && (not (is_empty req.market_id) || not (is_empty req.slug))
    then (let market =
          if not (is_empty req.market_id)
          then fetch_market_by_id std.gamma base req.market_id
          else fetch_market_by_slug std.gamma base req.slug in
        wrap_error (codes "price-history: resolve market: ") market >>= λ gm.
        window_from_market gm req.variant >>= λ (start, finish).
        ok (record req { event_start_time = start; end_date = finish }))
    else ok req

-- The second step: the start of a window that has an end only.
pub derive_start : CryptoPriceRequest → Outcome CryptoPriceRequest
unfolding variant_duration sub_duration is_zero_time
derive_start req =
    if is_zero_time req.event_start_time && not (is_zero_time req.end_date)
    then (variant_duration req.variant >>= λ d.
        ok (record req { event_start_time = sub_duration req.end_date d }))
    else ok req

-- `GetCryptoPrice` of the live executor.
pub get_crypto_price : Std → Text → CryptoPriceRequest → Outcome CryptoPrice
unfolding resolve_window derive_start fetch
get_crypto_price std base req =
    resolve_window std base req >>= λ req'. derive_start req' >>= fetch std
