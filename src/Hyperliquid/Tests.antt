-- ===== src/Hyperliquid/Tests.antt =====
-- Runs of pkg/hyperliquid: coins, keys, a batch, and a registry of two subscriptions.
use go_exchange_connector.Prelude.{Text, codes, eqb, true, false, [], ◌∷◌, none, ◌≡◌, ◌≢◌, refl}
use go_exchange_connector.Prelude.Int.{pos}
use go_exchange_connector.Prelude.Dict.{lookup}
use go_exchange_connector.Prelude.Sets.{has, insert}
use go_exchange_connector.Prelude.Trim.{
  trim_space, trim_left, trim_right, is_space, is_control, join,
}
use go_exchange_connector.Hyperliquid.Channels.{
  SubParams, ok, err, duplicate_coin, l2_book, all_mids, candle, is_listed, is_subscribable,
  valid_candle_interval, check_runes, validate_coin, normalize_coin, validate, validate_candle,
  validate_l2_book,
}
use go_exchange_connector.Hyperliquid.Subscription.{
  Subscription, key, check, check_all, build_loop, build_subscriptions,
}
use go_exchange_connector.Hyperliquid.Key.{SameStream, key_injective}
use go_exchange_connector.Hyperliquid.Registry.{Registry, Link, subscribe, unsubscribe}
use go_exchange_connector.Hyperliquid.Registry.Keyed.{IsKeyed}
use go_exchange_connector.Hyperliquid.Registry.Venue.{venue, subscribe-venue, unsubscribe-venue}

abbrev coin_btc : Text
coin_btc = codes "BTC"

-- A coin of a builder-deployed market holds the separator of keys.
abbrev coin_tsla : Text
coin_tsla = codes "xyz:TSLA"

abbrev book_tsla : Subscription
book_tsla = record {
  channel = l2_book;
  coin = coin_tsla;
  interval = [];
  n_sig_figs = pos 5;
  mantissa = pos 2;
  fast = false;
}

abbrev fast_tsla : Subscription
fast_tsla = record book_tsla { n_sig_figs = pos 0; mantissa = pos 0; fast = true }

both_pass : (check book_tsla ≡ none) × (check fast_tsla ≡ none) × (key book_tsla ≡ key fast_tsla)
unfolding check key is_subscribable is_listed validate validate_l2_book validate_candle
    validate_coin check_runes eqb trim_space trim_left trim_right is_space is_control join
both_pass = (refl, refl, refl)

key_injective_example : SameStream book_tsla fast_tsla
key_injective_example = key_injective book_tsla fast_tsla both_pass.0 both_pass.1 both_pass.2

abbrev hourly : SubParams
hourly = record { interval = codes "1h"; n_sig_figs = pos 0; mantissa = pos 0; fast = false }

abbrev candle_of : Text → Subscription
candle_of coin = record {
  channel = candle;
  coin = coin;
  interval = codes "1h";
  n_sig_figs = pos 0;
  mantissa = pos 0;
  fast = false;
}

two_candles :
    build_subscriptions candle (codes " BTC " ∷ coin_tsla ∷ []) hourly
    ≡ ok (candle_of coin_btc ∷ candle_of coin_tsla ∷ [])
unfolding build_subscriptions build_loop normalize_coin is_subscribable is_listed validate
    validate_candle valid_candle_interval validate_coin check_runes eqb trim_space trim_left
    trim_right is_space is_control has insert
two_candles = refl

-- The same coin twice, once with spaces.
repeated_coin :
    build_subscriptions candle (codes " BTC " ∷ coin_btc ∷ []) hourly ≡ err duplicate_coin
unfolding build_subscriptions build_loop normalize_coin is_subscribable is_listed validate
    validate_candle valid_candle_interval validate_coin check_runes eqb trim_space trim_left
    trim_right is_space is_control has insert
repeated_coin = refl

not_all_mids : eqb candle all_mids ≡ false
unfolding eqb
not_all_mids = refl

abbrev up : Link
up = record { connected = true; accepts = λ f. true }

abbrev held : Registry
held = (key book_tsla, book_tsla) ∷ (key (candle_of coin_btc), candle_of coin_btc) ∷ []

held-IsKeyed : IsKeyed held
unfolding lookup key eqb join
held-IsKeyed = (refl, refl, (refl, refl, tt))

subscribe-venue_example :
    let (reg', frames, failure) = subscribe up (fast_tsla ∷ []) held in
    (venue frames (key book_tsla) (lookup (key book_tsla) held) ≡ lookup (key book_tsla) reg')
    × IsKeyed reg'
    × (failure ≡ check_all (fast_tsla ∷ []))
    × (failure ≢ none → (reg' ≡ held) × (frames ≡ []))
subscribe-venue_example =
    subscribe-venue up (fast_tsla ∷ []) held (key book_tsla) (refl, λ f. refl) held-IsKeyed

-- The caller unsubscribes with other parameters than those subscribed with.
unsubscribe-venue_example :
    let (reg', frames) = unsubscribe up (fast_tsla ∷ []) held in
    (venue frames (key book_tsla) (lookup (key book_tsla) held) ≡ lookup (key book_tsla) reg')
    × IsKeyed reg'
unsubscribe-venue_example =
    unsubscribe-venue up (fast_tsla ∷ []) held (key book_tsla) (refl, λ f. refl) held-IsKeyed
