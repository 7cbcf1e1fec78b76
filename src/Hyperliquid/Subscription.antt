-- ===== src/Hyperliquid/Subscription.antt =====
-- pkg/hyperliquid/channels.go: Subscription, its key, BuildSubscriptions; and the checks that
-- Subscribe of pkg/hyperliquid/hyperliquid.go makes of each subscription.
pub mod Build
use go_exchange_connector.Prelude.{
  ℕ, Text, codes, eqb, is_empty, Bool, true, false, not, ◌&&◌, List, [], ◌∷◌, ◌++◌, Option, none,
  some, if◌then◌else◌,
}
use go_exchange_connector.Prelude.Int.{ℤ, pos}
use go_exchange_connector.Prelude.Sets.{has, insert}
use go_exchange_connector.Prelude.Trim.{join}
use go_exchange_connector.Hyperliquid.Channels.{
  all_mids, is_subscribable, validate_coin, normalize_coin, validate, SubParams, Checked, ok, err,
  Error, unknown_channel, takes_no_coin, needs_coin, duplicate_coin,
}

-- `Subscription`; `channel` is the field Type.
pub record Subscription : Type 0 where
  pub channel : Text
  pub coin : Text
  pub interval : Text
  pub n_sig_figs : ℤ
  pub mantissa : ℤ
  pub fast : Bool

abbrev when_set : Text → List Text
when_set t = if is_empty t then [] else t ∷ []

-- `Subscription.Key`
unfoldable pub key : Subscription → Text
key s = join (codes ":") (s.channel ∷ (when_set s.coin ++ when_set s.interval))

-- The parameters of a subscription, as Subscribe hands them to `validate`.
abbrev pub params : Subscription → SubParams
params s = record {
  interval = s.interval;
  n_sig_figs = s.n_sig_figs;
  mantissa = s.mantissa;
  fast = s.fast;
}

-- The subscription that BuildSubscriptions makes for one coin.
abbrev pub make : Text → SubParams → Text → Subscription
make ch p coin = record {
  channel = ch;
  coin = coin;
  interval = p.interval;
  n_sig_figs = p.n_sig_figs;
  mantissa = p.mantissa;
  fast = p.fast;
}

abbrev pub global : Text → Subscription
global ch = record {
  channel = ch;
  coin = [];
  interval = [];
  n_sig_figs = pos 0;
  mantissa = pos 0;
  fast = false;
}

-- The loop of BuildSubscriptions, with `seen` and `subs` as they stand.
unfoldable pub build_loop :
    Text → SubParams → List Text → List Text → List Subscription → Checked (List Subscription)
build_loop ch p [] seen subs = ok subs
build_loop ch p (raw ∷ coins) seen subs = elim (normalize_coin raw) [
  | err e ↦ err e
  | ok coin ↦ elim (has coin seen) [
    | true ↦ err duplicate_coin
    | false ↦ build_loop ch p coins (insert coin seen) (subs ++ make ch p coin ∷ [])
  ]
]

abbrev no_coins : List Text → Bool
no_coins [] = true
no_coins (c ∷ cs) = false

-- `BuildSubscriptions`
unfoldable pub build_subscriptions : Text → List Text → SubParams → Checked (List Subscription)
unfolding build_loop
build_subscriptions ch coins p =
    if not (is_subscribable ch) then err unknown_channel else elim (validate ch p) [
      | some e ↦ err e
      | none ↦
          if eqb ch all_mids
          then if no_coins coins then ok (global ch ∷ []) else err takes_no_coin
          else if no_coins coins
          then err needs_coin
          else build_loop ch p coins [] []
    ]

-- The checks that Subscribe makes of one subscription.
unfoldable pub check : Subscription → Option Error
check s =
    if not (is_subscribable s.channel)
    then some unknown_channel
    else elim (validate s.channel (params s)) [
      | some e ↦ some e
      | none ↦
          if not (eqb s.channel all_mids)
          then validate_coin s.coin
          else if not (is_empty s.coin)
          then some takes_no_coin
          else none
    ]

-- The first loop of Subscribe: the first error stops it.
pub check_all : List Subscription → Option Error
unfolding check
check_all [] = none
check_all (s ∷ ss) = elim (check s) [ some e ↦ some e | none ↦ check_all ss ]
