-- ===== src/Hyperliquid/Key.antt =====
-- Subscription.Key of pkg/hyperliquid/channels.go on coins that may themselves hold the separator, as
-- in "xyz:TSLA".
use go_exchange_connector.Prelude.{
  ℕ, Text, eqb, eqb_iff, is_empty, Bool, true, false, not, ◌&&◌, List, [], ◌∷◌, ◌++◌, none, ◌≡◌,
  ◌≢◌, refl, ◌∙◌, sym, subst, arith, Bool-cases, Option-cases, inl, inr, ◌⊎◌, ◌==◌, if◌then◌else◌,
}
use go_exchange_connector.Prelude.Trim.{join}
use go_exchange_connector.Hyperliquid.Channels.{
  all_mids, candle, is_subscribable, is_listed, subscribable_channels, candle_intervals,
  valid_candle_interval, validate_coin, validate_coin_iff, validate, validate_candle,
  validate_l2_book,
}
use go_exchange_connector.Hyperliquid.Subscription.{Subscription, key, params, check}

abbrev colon : ℕ
colon = b':'

-- A text without the separator.
is_plain : Text → Bool
is_plain [] = true
is_plain (c ∷ cs) = not (c == colon) && is_plain cs

all_plain : List Text → Bool
unfolding is_plain
all_plain [] = true
all_plain (t ∷ ts) = is_plain t && all_plain ts

-- The first separator ends a plain prefix.
prefix_unique :
    (s t u v : Text)
    → is_plain s ≡ true
    → is_plain t ≡ true
    → s ++ colon ∷ u ≡ t ++ colon ∷ v
    → (s ≡ t) × (u ≡ v)
unfolding is_plain
prefix_unique [] [] u v p q h = (refl, cc)
prefix_unique [] (y ∷ t) u v p q h = absurd (ground (arith, h))
prefix_unique (x ∷ s) [] u v p q h = absurd (ground (arith, h))
prefix_unique (x ∷ s) (y ∷ t) u v p q h =
    let ih = prefix_unique s t u v (ground arith) (ground arith) (cc) in
    (ground (arith, ih, h), ih.1)

plain_no_colon : (s t u : Text) → is_plain s ≡ true → s ≢ t ++ colon ∷ u
unfolding is_plain
plain_no_colon [] [] u p h = cc
plain_no_colon [] (y ∷ t) u p h = cc
plain_no_colon (x ∷ s) [] u p h = ground (arith, h)
plain_no_colon (x ∷ s) (y ∷ t) u p h = plain_no_colon s t u (ground arith) (cc)

-- The last separator starts a plain suffix.
suffix_unique :
    (s t u v : Text)
    → is_plain u ≡ true
    → is_plain v ≡ true
    → s ++ colon ∷ u ≡ t ++ colon ∷ v
    → (s ≡ t) × (u ≡ v)
suffix_unique [] [] u v p q h = (refl, cc)
suffix_unique [] (y ∷ t) u v p q h = absurd (plain_no_colon u t v p (cc))
suffix_unique (x ∷ s) [] u v p q h = absurd (plain_no_colon v s u q (cc))
suffix_unique (x ∷ s) (y ∷ t) u v p q h =
    let ih = suffix_unique s t u v p q (cc) in (cc (ih.0, h), ih.1)

is_listed-plain :
    (v : Text) (l : List Text) → all_plain l ≡ true → is_listed v l ≡ true → is_plain v ≡ true
unfolding is_listed all_plain
is_listed-plain v [] a h = cc
is_listed-plain v (c ∷ l) a h = elim (Bool-cases (eqb c v)) [
  | inl e ↦ subst (λ (t : Text). is_plain t ≡ true) ((eqb_iff c v).0 e) (ground arith)
  | inr e ↦ is_listed-plain v l (ground arith) (ground arith)
]

-- What the checks of Subscribe say of the fields of a subscription.
abbrev Fields : Subscription → Type 0
Fields s =
    (is_plain s.channel ≡ true)
    × ((s.channel ≡ all_mids) × (s.coin ≡ []) × (s.interval ≡ [])
        ⊎ (s.channel ≡ candle) × (s.coin ≢ []) × (s.interval ≢ []) × (is_plain s.interval ≡ true)
        ⊎ (s.channel ≢ all_mids) × (s.channel ≢ candle) × (s.coin ≢ []) × (s.interval ≡ []))

fields_checked :
    (s : Subscription)
    → check s ≡ none
    → (is_subscribable s.channel ≡ true)
      × (validate s.channel (params s) ≡ none)
      × (if eqb s.channel all_mids then is_empty s.coin ≡ true else validate_coin s.coin ≡ none)
unfolding check
fields_checked s h = elim (Bool-cases (is_subscribable s.channel)) [
  | inr unknown ↦ absurd (ground (arith, unknown, h))
  | inl known ↦ elim (Option-cases (validate s.channel (params s))) [
    | inr (e, bad) ↦ absurd (ground (arith, known, bad, h))
    | inl valid ↦ elim (Bool-cases (eqb s.channel all_mids)) [
      | inl mids ↦ (known, valid, rw mids (ground (arith, known, valid, mids, h)))
      | inr other ↦ (known, valid, rw other (ground (arith, known, valid, other, h)))
    ]
  ]
]

empty_of : (t : Text) → is_empty t ≡ true → t ≡ []
empty_of [] h = refl
empty_of (c ∷ cs) h = cc

interval_checked :
    (s : Subscription)
    → validate s.channel (params s) ≡ none
    → (s.channel ≡ candle) × (s.interval ≢ []) × (is_plain s.interval ≡ true)
      ⊎ (s.channel ≢ candle) × (s.interval ≡ [])
unfolding validate validate_candle validate_l2_book
interval_checked s h = elim (Bool-cases (eqb s.channel candle)) [
  | inl is ↦ inl (
    (eqb_iff s.channel candle).0 is,
    (λ e. ground (arith, e, is, h)),
    is_listed-plain s.interval candle_intervals (unfold all_plain in refl)
        (unfold valid_candle_interval in ground (arith, is, h)),
  )
  | inr isnt ↦ inr (
    (λ e. ground (arith, isnt, (eqb_iff s.channel candle).1 e)),
    empty_of s.interval (ground (arith, isnt, h)),
  )
]

candle_not_mids : (ch : Text) → ch ≡ candle → eqb ch all_mids ≡ false
candle_not_mids ch h = rw h (unfold eqb in refl)

check-Fields : (s : Subscription) → check s ≡ none → Fields s
check-Fields s h =
    let (known, valid, rest) = fields_checked s h in
    (
      is_listed-plain s.channel subscribable_channels (unfold all_plain in refl)
          (unfold is_subscribable in known),
      elim (interval_checked s valid) [
        | inl (is, nonempty, plain) ↦ inr (
            inl (
              is,
              ((validate_coin_iff s.coin).0 (rw (candle_not_mids s.channel is) at rest)).0,
              nonempty,
              plain,
            ))
        | inr (isnt, empty) ↦ elim (Bool-cases (eqb s.channel all_mids)) [
          | inl mids ↦
              inl ((eqb_iff s.channel all_mids).0 mids, empty_of s.coin (rw mids at rest), empty)
          | inr other ↦ inr (
              inr (
                (λ e. ground (arith, other, (eqb_iff s.channel all_mids).1 e)),
                isnt,
                ((validate_coin_iff s.coin).0 (rw other at rest)).0,
                empty,
              ))
        ]
      ],
    )

-- The key, by the kind of the channel.
key_parts :
    (s : Subscription)
    → Fields s
    → (s.channel ≡ all_mids) × (s.coin ≡ []) × (s.interval ≡ []) × (key s ≡ s.channel)
      ⊎ (s.channel ≡ candle)
        × (is_plain s.interval ≡ true)
        × (key s ≡ s.channel ++ colon ∷ (s.coin ++ colon ∷ s.interval))
      ⊎ (s.channel ≢ candle) × (s.interval ≡ []) × (key s ≡ s.channel ++ colon ∷ s.coin)
unfolding key join
key_parts s (plain, inl (mids, coin, interval)) =
    inl (mids, coin, interval, ground (arith, coin, interval))
key_parts s (plain, inr (inl (is, coin, interval, p))) =
    inr (inl (is, p, ground (arith, coin, interval)))
key_parts s (plain, inr (inr (mids, isnt, coin, interval))) =
    inr (inr (isnt, interval, ground (arith, coin, interval)))

-- The parts that the venue tells subscriptions apart by.
abbrev pub SameStream : Subscription → Subscription → Type 0
SameStream s t = (s.channel ≡ t.channel) × (s.coin ≡ t.coin) × (s.interval ≡ t.interval)

-- Two subscriptions that pass the checks of Subscribe have the same key only if they have the same
-- channel, coin and interval. So the registry never takes one stream for another, whatever
-- separators a coin holds.
pub key_injective :
    (s t : Subscription) → check s ≡ none → check t ≡ none → key s ≡ key t → SameStream s t
key_injective s t hs ht h =
    let fs = check-Fields s hs in
    let ft = check-Fields t ht in
    elim (key_parts s fs) [
      | inl (ms, cs, is, ks) ↦ elim (key_parts t ft) [
        | inl (mt, ct, it, kt) ↦ (ms ∙ sym mt, cs ∙ sym ct, is ∙ sym it)
        | inr (inl (ct, pt, kt)) ↦
            absurd (plain_no_colon s.channel t.channel _ fs.0 (sym ks ∙ h ∙ kt))
        | inr (inr (ct, it, kt)) ↦
            absurd (plain_no_colon s.channel t.channel _ fs.0 (sym ks ∙ h ∙ kt))
      ]
      | inr (inl (cs, ps, ks)) ↦ elim (key_parts t ft) [
        | inl (mt, ct, it, kt) ↦
            absurd (plain_no_colon t.channel s.channel _ ft.0 (sym kt ∙ sym h ∙ ks))
        | inr (inl (ct, pt, kt)) ↦
            let (chan, rest) = prefix_unique s.channel t.channel _ _ fs.0 ft.0 (sym ks ∙ h ∙ kt) in
            let (coin, interval) = suffix_unique s.coin t.coin s.interval t.interval ps pt rest in
            (chan, coin, interval)
        | inr (inr (ct, it, kt)) ↦
            let (chan, rest) = prefix_unique s.channel t.channel _ _ fs.0 ft.0 (sym ks ∙ h ∙ kt) in
            absurd (ct (sym chan ∙ cs))
      ]
      | inr (inr (cs, is, ks)) ↦ elim (key_parts t ft) [
        | inl (mt, ct, it, kt) ↦
            absurd (plain_no_colon t.channel s.channel _ ft.0 (sym kt ∙ sym h ∙ ks))
        | inr (inl (ct, pt, kt)) ↦
            let (chan, rest) = prefix_unique s.channel t.channel _ _ fs.0 ft.0 (sym ks ∙ h ∙ kt) in
            absurd (cs (chan ∙ ct))
        | inr (inr (ct, it, kt)) ↦
            let (chan, rest) = prefix_unique s.channel t.channel _ _ fs.0 ft.0 (sym ks ∙ h ∙ kt) in
            (chan, rest, is ∙ sym it)
      ]
    ]
