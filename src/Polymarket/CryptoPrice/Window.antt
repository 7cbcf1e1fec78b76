-- ===== src/Polymarket/CryptoPrice/Window.antt =====
-- GetCryptoPrice of pkg/polymarket: which window is asked for, and what its points become.
use go_exchange_connector.Prelude.{
  ℕ, Text, codes, eqb, is_empty, true, false, not, ◌&&◌, ◌||◌, List, [], ◌∷◌, none, some,
  if◌then◌else◌, ◌==◌, ◌≡◌, refl, ◌↔◌, inl, inr, ◌∙◌, arith, Bool-cases,
}
use go_exchange_connector.Prelude.Int.{ℤ, pos, ◌≤ℤ◌, ltb_ℤ}
use go_exchange_connector.Prelude.Decimal.{show_int}
use go_exchange_connector.Prelude.Dict.{lookup}
use go_exchange_connector.Polymarket.Clob.{unix_milli, is_zero_time}
use go_exchange_connector.Polymarket.Clob.Api.{Outcome, ok, Outcome-cases}
use go_exchange_connector.Polymarket.Gamma.{GammaMarket, fetch_market_by_id, fetch_market_by_slug}
use go_exchange_connector.Polymarket.CryptoPrice.{
  CryptoPriceRequest, CryptoPrice, Point, Std, variant_duration, sub_duration, window_from_market,
  query_of, last_point, read_points, ask, fetch, resolve_window, derive_start, get_crypto_price,
}

-- The price says what the first and the last point say: the window is complete exactly if the last
-- point is not before its end, and then and only then there is a close price, the last point's.
pub record IsReading (end_date : ℤ) (p : Point) (ps : List Point) (price : CryptoPrice)
    : Type 0 where
  pub opens : price.open_price ≡ p.value
  pub stamped : price.timestamp ≡ (last_point p ps).timestamp
  pub completes : (price.completed ≡ true) ↔ (unix_milli end_date ≤ℤ (last_point p ps).timestamp)
  pub closes : price.close_price ≡ (if price.completed then some (last_point p ps).value else none)
  pub opposite : price.incomplete ≡ not price.completed

read_points-IsReading :
    (std : Std) (req : CryptoPriceRequest) (p : Point) (ps : List Point) (price : CryptoPrice)
    → read_points std req (p ∷ ps) ≡ ok price
    → IsReading req.end_date p ps price
unfolding read_points
read_points-IsReading std req p ps price h = record {
  opens = ground (arith, h);
  stamped = ground (arith, h);
  completes = ground (arith, h);
  closes = ground (arith, h);
  opposite = ground (arith, h);
}

module _ (std : Std) where
  -- A query asks for the symbol, the variant and the window of a request, and for a TWAP exactly if
  -- the request does, with its lookback if that is positive.
  pub record AsksFor (req : CryptoPriceRequest) (q : List (Text × Text)) : Type 0 where
    pub symbol : lookup (codes "symbol") q ≡ some req.symbol
    pub variant : lookup (codes "variant") q ≡ some req.variant
    pub starts : lookup (codes "eventStartTime") q ≡ some (std.format_time req.event_start_time)
    pub ends : lookup (codes "endDate") q ≡ some (std.format_time req.end_date)
    pub twap :
        lookup (codes "twapEnabled") q ≡ (if req.twap_enabled then some (codes "true") else none)
    pub lookback : lookup (codes "twapLookbackSeconds") q ≡ (
        if req.twap_enabled && ltb_ℤ (pos 0) req.twap_lookback_seconds
        then some (show_int req.twap_lookback_seconds)
        else none)

  query_of-AsksFor : (req : CryptoPriceRequest) → AsksFor req (query_of std req)
  unfolding query_of lookup eqb
  query_of-AsksFor req = record {
    symbol = refl;
    variant = refl;
    starts = refl;
    ends = refl;
    twap = elim (Bool-cases req.twap_enabled) [
      | inr off ↦ rw off refl
      | inl on ↦ elim (Bool-cases (ltb_ℤ (pos 0) req.twap_lookback_seconds)) [
        | inl back ↦ rw on refl
        | inr not_back ↦ rw on refl
      ]
    ];
    lookback = elim (Bool-cases req.twap_enabled) [
      | inr off ↦ rw off refl
      | inl on ↦ elim (Bool-cases (ltb_ℤ (pos 0) req.twap_lookback_seconds)) [
        | inl back ↦ rw (on, back) refl
        | inr not_back ↦ rw (on, not_back) refl
      ]
    ];
  }

  -- A price was read from points that came with status 200 in answer to a query for the request.
  abbrev pub Answered : CryptoPriceRequest → CryptoPrice → Type 0
  Answered req price =
      (q : List (Text × Text)) × (p : Point) × (ps : List Point) × AsksFor req q
      × (std.get (std.url_of q) ≡ ok (200, ok (p ∷ ps)))
      × IsReading req.end_date p ps price

  of_points :
      (req : CryptoPriceRequest) (price : CryptoPrice) (pts : List Point)
      → std.get (std.url_of (query_of std req)) ≡ ok (200, ok pts)
      → read_points std req pts ≡ ok price
      → Answered req price
  of_points req price [] got h = absurd (unfold read_points in ground (arith, h))
  of_points req price (p ∷ ps) got h = (
    query_of std req,
    p,
    ps,
    query_of-AsksFor req,
    got,
    read_points-IsReading std req p ps price h,
  )

  ask-Answered :
      (req : CryptoPriceRequest) (price : CryptoPrice)
      → ask std req (std.url_of (query_of std req)) ≡ ok price
      → Answered req price
  unfolding ask
  ask-Answered req price h = elim (Outcome-cases (std.get (std.url_of (query_of std req)))) [
    | inr (m, bad) ↦ absurd (ground (arith, bad, h))
    | inl ((status, points), got) ↦ elim (Bool-cases (status == 200)) [
      | inr other ↦ absurd (ground (arith, got, other, h))
      | inl fine ↦ elim (Outcome-cases points) [
        | inr (m, bad) ↦ absurd (ground (arith, got, fine, bad, h))
        | inl (pts, decoded) ↦
            let at_200 : status ≡ 200 = ground (arith, fine) in
            of_points req price pts (got ∙ ground (arith, at_200, decoded))
              (ground (arith, got, fine, decoded, h))
      ]
    ]
  ]

  fetch-Answered :
      (req : CryptoPriceRequest) (price : CryptoPrice)
      → fetch std req ≡ ok price
      → (is_zero_time req.event_start_time ≡ false)
        × (is_zero_time req.end_date ≡ false)
        × Answered req price
  unfolding fetch
  fetch-Answered req price h =
      (ground (arith, h), ground (arith, h), ask-Answered req price (ground (arith, h)))

  module _ (base : Text) (req : CryptoPriceRequest) where
    -- The market that the request names.
    abbrev pub named_market : Outcome GammaMarket
    named_market =
        if not (is_empty req.market_id)
        then fetch_market_by_id std.gamma base req.market_id
        else fetch_market_by_slug std.gamma base req.slug

    -- The window that is asked for is the caller's; or, if the caller gives an end only, it is the time
    -- of the variant up to that end; or, if the caller gives no end, up to the end of the market that
    -- the caller names.
    pub data IsWindow (req' : CryptoPriceRequest) : Type 0 where
      as_given : req' ≡ req → IsWindow req'
      up_to_end :
          (d : ℕ)
          → is_zero_time req.event_start_time ≡ true
          → is_zero_time req.end_date ≡ false
          → variant_duration req.variant ≡ ok d
          → req' ≡ record req { event_start_time = sub_duration req.end_date d }
          → IsWindow req'
      up_to_market :
          (gm : GammaMarket) (d : ℕ)
          → is_zero_time req.end_date ≡ true
          → named_market ≡ ok gm
          → variant_duration req.variant ≡ ok d
          → req'
            ≡ record req { event_start_time = sub_duration gm.end_date d; end_date = gm.end_date }
          → IsWindow req'

    window_from_market-ok :
        (gm : GammaMarket) (w : ℤ × ℤ)
        → window_from_market gm req.variant ≡ ok w
        → (d : ℕ) × (variant_duration req.variant ≡ ok d)
          × (w ≡ (sub_duration gm.end_date d, gm.end_date))
    unfolding window_from_market
    window_from_market-ok gm w h = elim (Outcome-cases (variant_duration req.variant)) [
      | inr (m, bad) ↦ absurd (ground (arith, bad, h))
      | inl (d, known) ↦ (d, known, ground (arith, known, h))
    ]

    resolve_window-IsWindow :
        (r : CryptoPriceRequest) → resolve_window std base req ≡ ok r → IsWindow r
    unfolding resolve_window
    resolve_window-IsWindow r h =
        elim (Bool-cases (
          is_zero_time req.end_date && (not (is_empty req.market_id) || not (is_empty req.slug)))) [
            | inr given ↦ as_given (ground (arith, given, h))
            | inl named ↦ elim (Outcome-cases named_market) [
              | inr (m, bad) ↦ absurd (ground (arith, named, bad, h))
              | inl (gm, got) ↦ elim (Outcome-cases (window_from_market gm req.variant)) [
                | inr (m, bad) ↦ absurd (ground (arith, named, got, bad, h))
                | inl ((start, finish), derived) ↦
                    let (d, known, is) = window_from_market-ok gm (start, finish) derived in
                    up_to_market gm d (ground (arith, named)) got known
                      (ground (arith, named, got, derived, is, h))
              ]
            ]
          ]

    derive_start-IsWindow :
        (r r' : CryptoPriceRequest) → IsWindow r → derive_start r ≡ ok r' → IsWindow r'
    unfolding derive_start
    derive_start-IsWindow r r' (as_given same) h =
        elim (Bool-cases (is_zero_time r.event_start_time && not (is_zero_time r.end_date))) [
          | inr whole ↦ as_given (ground (arith, same, whole, h))
          | inl half ↦ elim (Outcome-cases (variant_duration r.variant)) [
            | inr (m, bad) ↦ absurd (ground (arith, half, bad, h))
            | inl (d, known) ↦
                up_to_end d (ground (arith, same, half)) (ground (arith, same, half))
                  (ground (arith, same, known)) (ground (arith, same, half, known, h))
          ]
        ]
    derive_start-IsWindow r r' (up_to_end d no_start ended known same) h =
        elim (Bool-cases (is_zero_time r.event_start_time && not (is_zero_time r.end_date))) [
          | inr whole ↦ up_to_end d no_start ended known (ground (arith, same, whole, h))
          | inl half ↦ up_to_end d no_start ended known (ground (arith, same, half, known, h))
        ]
    derive_start-IsWindow r r' (up_to_market gm d no_end got known same) h =
        elim (Bool-cases (is_zero_time r.event_start_time && not (is_zero_time r.end_date))) [
          | inr whole ↦ up_to_market gm d no_end got known (ground (arith, same, whole, h))
          | inl half ↦ up_to_market gm d no_end got known (ground (arith, same, half, known, h))
        ]

    -- Whenever GetCryptoPrice returns a price, it was read from points that came with status 200 in
    -- answer to a query for the caller's symbol, variant and TWAP and for a window with a start and an
    -- end. That window is the caller's; or, if the caller gives an end and no start, the time of the
    -- variant up to that end; or, if the caller gives no end, up to the end of the market named.
    pub get_crypto_price-IsWindow :
        (price : CryptoPrice)
        → get_crypto_price std base req ≡ ok price
        → (req' : CryptoPriceRequest) × IsWindow req'
          × (is_zero_time req'.event_start_time ≡ false)
          × (is_zero_time req'.end_date ≡ false)
          × Answered req' price
    unfolding get_crypto_price
    get_crypto_price-IsWindow price h = elim (Outcome-cases (resolve_window std base req)) [
      | inr (m, bad) ↦ absurd (ground (arith, bad, h))
      | inl (r, resolved) ↦ elim (Outcome-cases (derive_start r)) [
        | inr (m, bad) ↦ absurd (ground (arith, resolved, bad, h))
        | inl (r', derived) ↦
            let window = derive_start-IsWindow r r' (resolve_window-IsWindow r resolved) derived in
            let (start, finish, answered) =
              fetch-Answered r' price (ground (arith, resolved, derived, h)) in
            (r', window, start, finish, answered)
      ]
    ]
