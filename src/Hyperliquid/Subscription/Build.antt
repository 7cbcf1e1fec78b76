-- ===== src/Hyperliquid/Subscription/Build.antt =====
-- What BuildSubscriptions of pkg/hyperliquid/channels.go returns.
use go_exchange_connector.Prelude.{
  suc, Text, eqb, true, false, List, [], ◌∷◌, ◌++◌, map, none, ◌≡◌, refl, ap, ◌∙◌, sym, subst,
  eqb_iff, arith, length, All, Bool-cases, Option-cases, inl, inr, ◌⊎◌,
}
use mathlib.Core.List.{append_assoc, append-nil}
use go_exchange_connector.Prelude.Sets.{has, insert}
use go_exchange_connector.Prelude.Trim.{trim_space}
use go_exchange_connector.Hyperliquid.Channels.{
  all_mids, is_subscribable, is_listed, validate_coin, normalize_coin, validate, SubParams, Checked,
  ok, err, Error,
}
use go_exchange_connector.Hyperliquid.Subscription.{
  Subscription, make, global, build_loop, build_subscriptions, check, check_all,
}

abbrev Accepted : Text → Type 0
Accepted coin = validate_coin coin ≡ none

-- The coins are pairwise different, and none of them was seen before.
abbrev Fresh : List Text → List Text → Type 0
Fresh seen [] = Unit
Fresh seen (c ∷ cs) = (has c seen ≡ false) × Fresh (insert c seen) cs

-- The subscriptions are those of accepted, pairwise different coins, one for each coin asked for.
abbrev pub Built : Text → SubParams → List Text → List Text → List Subscription → Type 0
Built ch p coins seen subs =
    (cs : List Text) × (subs ≡ map (make ch p) cs)
    × All Accepted cs
    × Fresh seen cs
    × (length cs ≡ length coins)

normalize_coin_sound :
    (raw coin : Text) → normalize_coin raw ≡ ok coin → (coin ≡ trim_space raw) × Accepted coin
unfolding normalize_coin
normalize_coin_sound raw coin h = elim (Option-cases (validate_coin (trim_space raw))) [
  | inl e ↦ ground (arith, e, h)
  | inr (x, e) ↦ absurd (ground (arith, e, h))
]

Checked-cases {ℓ} :
    {A : Type ℓ} (r : Checked A) → ((a : A) × (r ≡ ok a)) ⊎ ((e : Error) × (r ≡ err e))
Checked-cases (ok a) = inl (a, refl)
Checked-cases (err e) = inr (e, refl)

build_loop_sound :
    (ch : Text) (p : SubParams) (coins seen : List Text) (subs out : List Subscription)
    → build_loop ch p coins seen subs ≡ ok out
    → (built : List Subscription) × (out ≡ subs ++ built) × Built ch p coins seen built
unfolding build_loop
build_loop_sound ch p [] seen subs out h = ([], cc (append-nil subs), ([], refl, tt, tt, refl))
build_loop_sound ch p (raw ∷ coins) seen subs out h = elim (Checked-cases (normalize_coin raw)) [
  | inr (e, failed) ↦ absurd (ground (arith, failed, h))
  | inl (coin, normal) ↦ elim (Bool-cases (has coin seen)) [
    | inl dup ↦ absurd (ground (arith, normal, dup, h))
    | inr new ↦
        let (built, same, (cs, made, good, fresh, len)) =
          build_loop_sound ch p coins (insert coin seen) (subs ++ make ch p coin ∷ []) out
            (ground (arith, normal, new, h)) in
        (
          make ch p coin ∷ built,
          same ∙ append_assoc subs (make ch p coin ∷ []) built,
          (
            coin ∷ cs,
            ap (λ (t : List Subscription). make ch p coin ∷ t) made,
            ((normalize_coin_sound raw coin normal).1, good),
            (new, fresh),
            ap suc len,
          ),
        )
  ]
]

-- What a successful BuildSubscriptions says of its request.
module _ (ch : Text) (coins : List Text) (p : SubParams) (out : List Subscription) where
  build_inversion :
      build_subscriptions ch coins p ≡ ok out
      → (is_subscribable ch ≡ true)
        × (validate ch p ≡ none)
        × ((eqb ch all_mids ≡ true) × (coins ≡ []) × (out ≡ global ch ∷ [])
            ⊎ (eqb ch all_mids ≡ false) × (build_loop ch p coins [] [] ≡ ok out))
  unfolding build_subscriptions
  build_inversion h = elim (Bool-cases (is_subscribable ch)) [
    | inr unknown ↦ absurd (ground (arith, unknown, h))
    | inl known ↦ elim (Option-cases (validate ch p)) [
      | inr (e, bad) ↦ absurd (ground (arith, known, bad, h))
      | inl valid ↦ elim (Bool-cases (eqb ch all_mids)) [
        | inl mids ↦ (known, valid, ground (arith, known, valid, mids, h))
        | inr other ↦ (known, valid, inr (other, ground (arith, known, valid, other, h)))
      ]
    ]
  ]

-- On any channel but allMids a successful build returns one subscription for each coin asked for,
-- in order, each with the channel and the parameters of the request, on trimmed coins that pass
-- ValidateCoin and are pairwise different.
pub build_subscriptions-Built :
    (ch : Text) (coins : List Text) (p : SubParams) (out : List Subscription)
    → eqb ch all_mids ≡ false
    → build_subscriptions ch coins p ≡ ok out
    → Built ch p coins [] out
build_subscriptions-Built ch coins p out other h = elim ((build_inversion ch coins p out h).2) [
  | inl (mids, _, _) ↦ absurd (ground (arith, mids, other))
  | inr (_, loop) ↦
      let (built, same, proof) = build_loop_sound ch p coins [] [] out loop in
      subst (Built ch p coins []) (sym same) proof
]

check-make :
    (ch : Text) (p : SubParams) (coin : Text)
    → is_subscribable ch ≡ true
    → validate ch p ≡ none
    → eqb ch all_mids ≡ false
    → Accepted coin
    → check (make ch p coin) ≡ none
unfolding check
check-make ch p coin known valid other good = ground (arith, known, valid, other, good)

check_all-make :
    (ch : Text) (p : SubParams) (cs : List Text)
    → is_subscribable ch ≡ true
    → validate ch p ≡ none
    → eqb ch all_mids ≡ false
    → All Accepted cs
    → check_all (map (make ch p) cs) ≡ none
unfolding check_all
check_all-make ch p [] known valid other good = refl
check_all-make ch p (c ∷ cs) known valid other good = ground (
  arith,
  check-make ch p c known valid other good.0,
  check_all-make ch p cs known valid other good.1,
)

check_all-global : (ch : Text) → eqb ch all_mids ≡ true → check_all (global ch ∷ []) ≡ none
check_all-global ch h =
    subst (λ (t : Text). check_all (global t ∷ []) ≡ none) (sym ((eqb_iff ch all_mids).0 h))
      (unfold check_all check is_subscribable is_listed validate eqb in refl)

-- Subscribe never refuses what BuildSubscriptions has built: a SubscribeL2Book, SubscribeTrades and
-- so on fails only where the build fails.
pub build-check_all :
    (ch : Text) (coins : List Text) (p : SubParams) (out : List Subscription)
    → build_subscriptions ch coins p ≡ ok out
    → check_all out ≡ none
build-check_all ch coins p out h =
    let (known, valid, how) = build_inversion ch coins p out h in
    elim how [
      | inl (mids, _, same) ↦ rw same (check_all-global ch mids)
      | inr (other, loop) ↦
          let (cs, made, good, _, _) = build_subscriptions-Built ch coins p out other h in
          rw made (check_all-make ch p cs known valid other good)
    ]
