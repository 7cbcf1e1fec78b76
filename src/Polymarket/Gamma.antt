-- ===== src/Polymarket/Gamma.antt =====
-- pkg/polymarket/gamma.go, with the types of types.go and the market of the base connector's types.go:
-- fetching one market. HTTP, JSON and RFC 3339 are arguments, a float64 is a bit pattern, and a time
-- is in nanoseconds since the zero time.
pub mod Markets
mod Tests
use go_exchange_connector.Prelude.{
  ℕ, suc, Text, codes, is_empty, Bool, true, false, not, ◌&&◌, ◌||◌, List, [], ◌∷◌, ◌++◌, Option,
  none, some, if◌then◌else◌, ◌==◌,
}
use go_exchange_connector.Prelude.Int.{ℤ, pos}
use go_exchange_connector.Prelude.Trim.{trim_space}
use go_exchange_connector.Prelude.Decimal.{decimal, show_int}
use go_exchange_connector.Polymarket.Clob.Api.{Outcome, ok, err, ◌>>=◌, wrap_error}

pub record EventRef : Type 0 where
  pub slug : Text
  pub ticker : Text

pub record RawGammaMarket : Type 0 where
  pub id : Text
  pub condition_id : Text
  pub slug : Text
  pub question : Text
  pub group_item_title : Text
  pub description : Text
  pub outcomes : Text
  pub outcome_prices : Text
  pub clob_token_ids : Text
  pub closed : Bool
  pub tick_size : ℕ
  pub neg_risk : Option Bool
  pub neg_risk_market_id : Text
  pub events : List EventRef
  pub start_date : Text
  pub end_date : Text

pub record GammaMarket : Type 0 where
  pub id : Text
  pub condition_id : Text
  pub slug : Text
  pub question : Text
  pub outcomes : List Text
  pub yes_token_id : Text
  pub no_token_id : Text
  pub tick_size : ℕ
  pub neg_risk : Bool
  pub resolution : Option Text
  pub start_date : ℤ
  pub end_date : ℤ
  pub group_item_title : Text
  pub description : Text
  pub neg_risk_market_id : Text
  pub event_slug : Text
  pub event_ticker : Text

-- `connector.Market`
pub record Market : Type 0 where
  pub id : Text
  pub slug : Text
  pub question : Text
  pub condition_id : Text
  pub yes_asset_id : Text
  pub no_asset_id : Text
  pub outcomes : List Text
  pub tick_size : ℕ
  pub is_resolved : Bool
  pub resolution : Option Text
  pub group_item_title : Text
  pub neg_risk : Bool
  pub neg_risk_market_id : Text
  pub event_slug : Text
  pub event_ticker : Text
  pub description : Text
  pub start_date : ℤ
  pub end_date : ℤ

-- An answer: its status and at most 512 bytes of its body, or the whole body.
pub record Answer : Type 0 where
  pub status : ℕ
  pub start : Text
  pub body : Text

-- `strings v` is the slice that decoding leaves (`none` is nil) and whether it succeeded.
pub record Std : Type 0 where
  pub get : Text → Outcome Answer
  pub decode_market : Text → Outcome RawGammaMarket
  pub strings : Text → Option (List Text) × Bool
  pub number : Text → Option ℕ
  pub at_least_half : ℕ → Bool
  pub parse_time : Text → Option ℤ

-- `GammaHTTPError.Error`
pub http_error_text : Text → ℕ → Text → Text
http_error_text url status body =
    let start = codes "gamma: " ++ (url ++ (codes " returned " ++ decimal status)) in
    if is_empty body then start else start ++ (codes ": " ++ body)

-- `ToConnectorMarket`, for a market.
pub to_connector_market : GammaMarket → Market
to_connector_market gm = record {
  id = gm.id;
  slug = gm.slug;
  question = gm.question;
  condition_id = gm.condition_id;
  yes_asset_id = gm.yes_token_id;
  no_asset_id = gm.no_token_id;
  outcomes = gm.outcomes;
  tick_size = gm.tick_size;
  is_resolved = elim gm.resolution [ none ↦ false | some r ↦ true ];
  resolution = gm.resolution;
  group_item_title = gm.group_item_title;
  neg_risk = gm.neg_risk;
  neg_risk_market_id = gm.neg_risk_market_id;
  event_slug = gm.event_slug;
  event_ticker = gm.event_ticker;
  description = gm.description;
  start_date = gm.start_date;
  end_date = gm.end_date;
}

abbrev pub res_yes : Text
res_yes = codes "YES"

abbrev pub res_no : Text
res_no = codes "NO"

-- `yesID` and `noID`.
pub token_pair : Option (List Text) → Text × Text
token_pair none = ([], [])
token_pair (some []) = ([], [])
token_pair (some (y ∷ [])) = ([], [])
token_pair (some (y ∷ n ∷ rest)) = (y, n)

-- `eventSlug` and `eventTicker`.
pub first_event : List EventRef → Text × Text
first_event [] = ([], [])
first_event (e ∷ es) = (e.slug, e.ticker)

-- `[]string{"Yes", "No"}` where nothing was decoded.
pub outcomes_or_default : Option (List Text) → List Text
outcomes_or_default none = codes "Yes" ∷ codes "No" ∷ []
outcomes_or_default (some os) = os

-- What is returned of a fetched market.
pub converted : GammaMarket → Outcome Market
unfolding to_connector_market
converted gm = ok (to_connector_market gm)

module _ (std : Std) where
  -- `parseGammaTime`
  pub parse_gamma_time : Text → ℤ
  parse_gamma_time s =
      if is_empty s then pos 0 else elim (std.parse_time s) [ none ↦ pos 0 | some t ↦ t ]

  -- The end of `resolveFromOutcomePrices`, from the decoded prices and whether decoding succeeded.
  pub verdict : Option (List Text) → Bool → Text
  verdict none decoded = res_no
  verdict (some []) decoded = res_no
  verdict (some (p ∷ [])) decoded = res_no
  verdict (some (p ∷ q ∷ rest)) false = res_no
  verdict (some (p ∷ q ∷ rest)) true = elim (std.number p) [
    | none ↦ res_no
    | some v ↦ if std.at_least_half v then res_yes else res_no
  ]

  -- `resolveFromOutcomePrices`
  pub resolve_from_outcome_prices : Text → Text
  unfolding verdict
  resolve_from_outcome_prices prices = let (ps, decoded) = std.strings prices in verdict ps decoded

  -- A JSON list inside a text that may be empty.
  pub inner_strings : Text → Option (List Text)
  inner_strings s = if is_empty s then none else (std.strings s).0

  -- `normalizeGammaMarket`
  unfoldable pub normalize_gamma_market : RawGammaMarket → GammaMarket
  unfolding token_pair first_event outcomes_or_default parse_gamma_time resolve_from_outcome_prices
      inner_strings
  normalize_gamma_market raw =
      let tokens = token_pair (inner_strings raw.clob_token_ids) in
      let event = first_event raw.events in
      record {
        id = raw.id;
        condition_id = raw.condition_id;
        slug = raw.slug;
        question = raw.question;
        outcomes = outcomes_or_default (inner_strings raw.outcomes);
        yes_token_id = tokens.0;
        no_token_id = tokens.1;
        tick_size = raw.tick_size;
        neg_risk = elim raw.neg_risk [ none ↦ false | some b ↦ b ];
        resolution =
            if raw.closed then some (resolve_from_outcome_prices raw.outcome_prices) else none;
        start_date = parse_gamma_time raw.start_date;
        end_date = parse_gamma_time raw.end_date;
        group_item_title = raw.group_item_title;
        description = raw.description;
        neg_risk_market_id = raw.neg_risk_market_id;
        event_slug = event.0;
        event_ticker = event.1;
      }

  -- `doJSON` for a market: any status but 200 is an error.
  unfoldable pub do_json : Text → Outcome RawGammaMarket
  unfolding http_error_text
  do_json url = wrap_error (codes "gamma: request failed: ") (std.get url) >>= λ answer.
      if answer.status == 200
      then wrap_error (codes "gamma: decode " ++ (url ++ codes ": "))
          (std.decode_market answer.body)
      else err (http_error_text url answer.status (trim_space answer.start))

  -- `fetch`, for a base URL, an identifier and a slug.
  unfoldable pub fetch : Text → Text → Text → Outcome GammaMarket
  unfolding do_json normalize_gamma_market
  fetch base id slug =
      let by = λ (path : Text). do_json (base ++ path) >>= λ raw. ok (normalize_gamma_market raw) in
      if not (is_empty id)
      then by (codes "/markets/" ++ id)
      else if not (is_empty slug)
      then by (codes "/markets/slug/" ++ slug)
      else err (codes "gamma: must provide id or slug")

  -- `FetchMarketByID` and `FetchMarketBySlug`
  unfoldable pub fetch_market_by_id : Text → Text → Outcome GammaMarket
  unfolding fetch
  fetch_market_by_id base id = fetch base id []

  pub fetch_market_by_slug : Text → Text → Outcome GammaMarket
  unfolding fetch
  fetch_market_by_slug base slug = fetch base [] slug

  -- `gammaFetch` of the connector, and `GetMarket` of the live executor.
  pub gamma_fetch : Text → Text → Text → Outcome Market
  unfolding fetch_market_by_id fetch_market_by_slug converted
  gamma_fetch base id slug =
      if not (is_empty id)
      then fetch_market_by_id base id >>= converted
      else if not (is_empty slug)
      then fetch_market_by_slug base slug >>= converted
      else err (codes "polymarket: must provide id or slug")

  pub live_get_market : Text → Text → Text → Outcome Market
  unfolding fetch_market_by_id fetch_market_by_slug converted
  live_get_market base id slug =
      if not (is_empty id)
      then fetch_market_by_id base id >>= converted
      else fetch_market_by_slug base slug >>= converted

  -- `GetResolution` of both: `none` is no resolution.
  pub get_resolution : Text → Text → Outcome (Option Text)
  unfolding fetch_market_by_id
  get_resolution base id = fetch_market_by_id base id >>= λ gm. ok gm.resolution

  -- `GetMarket` of the connector, for a connector that is live, or not, with its executor.
  pub get_market : Bool → Text → Text → Text → Outcome Market
  unfolding gamma_fetch live_get_market
  get_market live base id slug =
      if live then live_get_market base id slug else gamma_fetch base id slug
