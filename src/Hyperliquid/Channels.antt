-- ===== src/Hyperliquid/Channels.antt =====
-- pkg/hyperliquid/channels.go: channels, candle intervals, coins and subscription parameters. A
-- check returns its error, or `none` for nil.
use go_exchange_connector.Prelude.{
  ℕ, Text, codes, eqb, eqb_iff, is_empty, Bool, true, false, not, ◌&&◌, ◌||◌, List, [], ◌∷◌, Option,
  none, some, ◌≡◌, ◌≢◌, ◌↔◌, refl, arith, ◌==◌, if◌then◌else◌, All,
}
use go_exchange_connector.Prelude.Int.{ℤ, pos, ltb_ℤ, eqb_ℤ}
use go_exchange_connector.Prelude.Trim.{
  is_space, is_control, trim_space, is_solid, trim_space_solid,
}

-- `Channel` is a string type.
abbrev pub l2_book : Text
l2_book = codes "l2Book"

abbrev pub trades : Text
trades = codes "trades"

abbrev pub bbo : Text
bbo = codes "bbo"

abbrev pub active_asset_ctx : Text
active_asset_ctx = codes "activeAssetCtx"

abbrev pub all_mids : Text
all_mids = codes "allMids"

abbrev pub candle : Text
candle = codes "candle"

abbrev pub subscribable_channels : List Text
subscribable_channels = l2_book ∷ trades ∷ bbo ∷ active_asset_ctx ∷ all_mids ∷ candle ∷ []

abbrev pub candle_intervals : List Text
candle_intervals =
    codes "1m"
    ∷ codes "3m"
    ∷ codes "5m"
    ∷ codes "15m"
    ∷ codes "30m"
    ∷ codes "1h"
    ∷ codes "2h"
    ∷ codes "4h"
    ∷ codes "8h"
    ∷ codes "12h"
    ∷ codes "1d"
    ∷ codes "3d"
    ∷ codes "1w"
    ∷ codes "1M"
    ∷ []

-- The loop of IsSubscribable and ValidCandleInterval.
unfoldable pub is_listed : Text → List Text → Bool
is_listed v [] = false
is_listed v (c ∷ cs) = eqb c v || is_listed v cs

-- `IsSubscribable`
unfoldable pub is_subscribable : Text → Bool
is_subscribable ch = is_listed ch subscribable_channels

-- `ValidCandleInterval`
unfoldable pub valid_candle_interval : Text → Bool
valid_candle_interval interval = is_listed interval candle_intervals

pub data Error : Type 0 where
  unknown_channel : Error
  empty_coin surrounding_whitespace quote_in_coin whitespace_in_coin control_in_coin : Error
  interval_required unsupported_interval l2_book_only candle_only : Error
  bad_sig_figs mantissa_needs_sig_figs bad_mantissa no_parameters : Error
  takes_no_coin needs_coin duplicate_coin : Error

-- The loop of ValidateCoin.
unfoldable pub check_runes : Text → Option Error
check_runes [] = none
check_runes (r ∷ rs) =
    if r == b'"' || r == b'\\'
    then some quote_in_coin
    else if is_space r
    then some whitespace_in_coin
    else if is_control r
    then some control_in_coin
    else check_runes rs

-- `ValidateCoin`
unfoldable pub validate_coin : Text → Option Error
unfolding check_runes
validate_coin coin =
    if is_empty coin
    then some empty_coin
    else if not (eqb coin (trim_space coin))
    then some surrounding_whitespace
    else check_runes coin

-- `NormalizeCoin`: the coin, or the error.
pub data Checked {ℓ} (A : Type ℓ) : Type ℓ where
  ok : A → Checked A
  err : Error → Checked A

abbrev or_else {ℓ} : {A : Type ℓ} → Option Error → A → Checked A
or_else none a = ok a
or_else (some e) a = err e

unfoldable pub normalize_coin : Text → Checked Text
normalize_coin coin = or_else (validate_coin (trim_space coin)) (trim_space coin)

-- `SubParams`
pub record SubParams : Type 0 where
  pub interval : Text
  pub n_sig_figs : ℤ
  pub mantissa : ℤ
  pub fast : Bool

abbrev is_set : ℤ → Bool
is_set n = not (eqb_ℤ n (pos 0))

-- `SubParams.validate` for the candle channel.
unfoldable pub validate_candle : SubParams → Option Error
validate_candle p =
    if is_empty p.interval
    then some interval_required
    else if not (valid_candle_interval p.interval)
    then some unsupported_interval
    else if is_set p.n_sig_figs || is_set p.mantissa || p.fast
    then some l2_book_only
    else none

-- `SubParams.validate` for the l2Book channel.
unfoldable pub validate_l2_book : SubParams → Option Error
validate_l2_book p =
    if not (is_empty p.interval)
    then some candle_only
    else if is_set p.n_sig_figs && (ltb_ℤ p.n_sig_figs (pos 2) || ltb_ℤ (pos 5) p.n_sig_figs)
    then some bad_sig_figs
    else if is_set p.mantissa && not (eqb_ℤ p.n_sig_figs (pos 5))
    then some mantissa_needs_sig_figs
    else if is_set p.mantissa
        && (not (eqb_ℤ p.mantissa (pos 1))
            && (not (eqb_ℤ p.mantissa (pos 2)) && not (eqb_ℤ p.mantissa (pos 5))))
    then some bad_mantissa
    else none

-- `SubParams.validate`
unfoldable pub validate : Text → SubParams → Option Error
unfolding validate_candle validate_l2_book
validate ch p =
    if eqb ch candle
    then validate_candle p
    else if eqb ch l2_book
    then validate_l2_book p
    else if not (is_empty p.interval) || is_set p.n_sig_figs || is_set p.mantissa || p.fast
    then some no_parameters
    else none

-- A character that may stand in a coin.
abbrev pub CoinChar : ℕ → Type 0
CoinChar r = (r ≢ b'"') × (r ≢ b'\\') × (is_space r ≡ false) × (is_control r ≡ false)

check_runes_sound : (s : Text) → check_runes s ≡ none → All CoinChar s
unfolding check_runes
check_runes_sound [] h = tt
check_runes_sound (r ∷ rs) h = ground (arith, h, check_runes_sound rs)

check_runes_complete : (s : Text) → All CoinChar s → check_runes s ≡ none
unfolding check_runes
check_runes_complete [] h = refl
check_runes_complete (r ∷ rs) h = ground (arith, h, check_runes_complete rs h.1)

All-is_solid : (s : Text) → All CoinChar s → is_solid s ≡ true
unfolding is_solid
All-is_solid [] h = refl
All-is_solid (r ∷ rs) h = ground (arith, All-is_solid rs h.1)

-- A coin is accepted exactly if it is not empty and none of its characters is a quote, a backslash,
-- a space or a control character. (The test for surrounding whitespace only picks the message.)
pub validate_coin_iff :
    (coin : Text) → (validate_coin coin ≡ none) ↔ ((coin ≢ []) × All CoinChar coin)
unfolding validate_coin
validate_coin_iff [] = (λ h. cc, λ h. absurd (h.0 refl))
validate_coin_iff (r ∷ rs) = (
  λ h. ((λ e. cc), check_runes_sound (r ∷ rs) (ground (arith, h))),
  λ h. ground (
    arith,
    check_runes_complete (r ∷ rs) h.1,
    trim_space_solid (r ∷ rs) (All-is_solid (r ∷ rs) h.1),
    eqb_iff (r ∷ rs) (trim_space (r ∷ rs)),
  ),
)
