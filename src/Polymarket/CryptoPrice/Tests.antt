-- ===== src/Polymarket/CryptoPrice/Tests.antt =====
-- GetCryptoPrice of pkg/polymarket for the last five minutes before a given end.
use go_exchange_connector.Prelude.{codes, true, false, List, [], ◌∷◌, none, some, ◌≡◌, refl, eqb}
use go_exchange_connector.Prelude.Int.{pos}
use go_exchange_connector.Polymarket.Clob.{is_zero_time, unix_milli}
use go_exchange_connector.Polymarket.Clob.Api.{ok, err}
use go_exchange_connector.Polymarket.Gamma as Gamma
use go_exchange_connector.Polymarket.CryptoPrice.{
  CryptoPriceRequest, CryptoPrice, Point, Std, variant_duration, sub_duration, query_of, last_point,
  read_points, ask, fetch, resolve_window, derive_start, get_crypto_price,
}
use go_exchange_connector.Polymarket.CryptoPrice.Window.{
  IsWindow, Answered, get_crypto_price-IsWindow,
}

abbrev no_gamma : Gamma.Std
no_gamma = record {
  get = λ url. err [];
  decode_market = λ body. err [];
  strings = λ text. (none, false);
  number = λ text. none;
  at_least_half = λ v. false;
  parse_time = λ text. none;
}

abbrev points : List Point
points =
    record { timestamp = pos 0; value = 10 } ∷ record { timestamp = pos 300000; value = 12 } ∷ []

abbrev std : Std
std = record {
  gamma = no_gamma;
  format_time = λ t. [];
  url_of = λ q. [];
  get = λ url. ok (200, ok points);
}

-- The end is five minutes after the epoch.
abbrev request : CryptoPriceRequest
request = record {
  symbol = codes "BTC";
  variant = codes "fiveminute";
  market_id = [];
  slug = [];
  event_start_time = pos 0;
  end_date = pos 62135597100000000000;
  twap_enabled = false;
  twap_lookback_seconds = pos 0;
}

abbrev settled : CryptoPrice
settled = record {
  open_price = 10;
  close_price = some 12;
  timestamp = pos 300000;
  completed = true;
  incomplete = false;
  cached = false;
}

is_settled : get_crypto_price std [] request ≡ ok settled
unfolding get_crypto_price resolve_window derive_start variant_duration sub_duration fetch ask
    read_points last_point query_of eqb is_zero_time unix_milli
is_settled = refl

get_crypto_price-IsWindow_example :
    (req' : CryptoPriceRequest) × IsWindow std [] request req'
    × (is_zero_time req'.event_start_time ≡ false)
    × (is_zero_time req'.end_date ≡ false)
    × Answered std req' settled
get_crypto_price-IsWindow_example = get_crypto_price-IsWindow std [] request settled is_settled
