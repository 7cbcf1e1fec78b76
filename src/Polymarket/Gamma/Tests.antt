-- ===== src/Polymarket/Gamma/Tests.antt =====
-- A market of pkg/polymarket/gamma.go that is fetched from a venue with one closed market.
use go_exchange_connector.Prelude.{
  Text, codes, true, false, not, [], ◌∷◌, none, some, ◌≡◌, refl, ltb,
}
use go_exchange_connector.Prelude.Int.{pos}
use go_exchange_connector.Polymarket.Clob.Api.{ok}
use go_exchange_connector.Polymarket.Gamma.{
  RawGammaMarket, Market, Std, res_yes, get_market, live_get_market, fetch, fetch_market_by_id,
  do_json, normalize_gamma_market, to_connector_market, converted, inner_strings,
  resolve_from_outcome_prices, verdict, token_pair, first_event, outcomes_or_default,
  parse_gamma_time,
}
use go_exchange_connector.Polymarket.Gamma.Markets.{
  IsConsistent, Fetched, url_of, get_market-IsConsistent,
}

abbrev raw : RawGammaMarket
raw = record {
  id = codes "7";
  condition_id = codes "0xc";
  slug = codes "up-or-down";
  question = codes "Up?";
  group_item_title = [];
  description = [];
  outcomes = [];
  outcome_prices = codes "p";
  clob_token_ids = codes "t";
  closed = true;
  tick_size = 1;
  neg_risk = none;
  neg_risk_market_id = [];
  events = [];
  start_date = [];
  end_date = codes "e";
}

-- Every list has two elements, and every price is one half.
abbrev std : Std
std = record {
  get = λ url. ok (record { status = 200; start = []; body = url });
  decode_market = λ body. ok raw;
  strings = λ text. (some (codes "1" ∷ codes "2" ∷ []), true);
  number = λ text. some 50;
  at_least_half = λ v. not (ltb v 50);
  parse_time = λ text. some (pos 5);
}

abbrev resolved_yes : Market
resolved_yes = record {
  id = codes "7";
  slug = codes "up-or-down";
  question = codes "Up?";
  condition_id = codes "0xc";
  yes_asset_id = codes "1";
  no_asset_id = codes "2";
  outcomes = codes "Yes" ∷ codes "No" ∷ [];
  tick_size = 1;
  is_resolved = true;
  resolution = some res_yes;
  group_item_title = [];
  neg_risk = false;
  neg_risk_market_id = [];
  event_slug = [];
  event_ticker = [];
  description = [];
  start_date = pos 0;
  end_date = pos 5;
}

abbrev base : Text
base = codes "https://gamma"

-- A market that settles at one half each counts as YES.
half_is_yes : get_market std true base (codes "7") [] ≡ ok resolved_yes
unfolding get_market live_get_market fetch_market_by_id fetch do_json normalize_gamma_market
    to_connector_market converted inner_strings resolve_from_outcome_prices verdict token_pair
    first_event outcomes_or_default parse_gamma_time
half_is_yes = refl

get_market-IsConsistent_example :
    (r : RawGammaMarket) × Fetched std base (url_of std base (codes "7") []) r
    × IsConsistent std base r resolved_yes
get_market-IsConsistent_example =
    get_market-IsConsistent std base true (codes "7") [] resolved_yes half_is_yes
