-- ===== src/Polymarket/Gamma/Markets.antt =====
-- Markets that are fetched by pkg/polymarket/gamma.go: what their fields say together.
use go_exchange_connector.Prelude.{
  ℕ, Text, codes, is_empty, Bool, true, false, not, ◌||◌, List, [], ◌∷◌, ◌++◌, Option, none, some,
  is_some, ◌==◌, ◌≡◌, ◌⊎◌, inl, inr, refl, subst, ◌∙◌, arith, Bool-cases, Option-cases, ◌↔◌, ◌≢◌,
  ap, if◌then◌else◌,
}
use go_exchange_connector.Polymarket.Clob.Api.{ok, Outcome-cases, ◌>>=◌}
use go_exchange_connector.Polymarket.Gamma.{
  RawGammaMarket, GammaMarket, Market, Answer, Std, to_connector_market, res_yes, res_no,
  token_pair, verdict, resolve_from_outcome_prices, inner_strings, normalize_gamma_market, do_json,
  fetch, fetch_market_by_id, fetch_market_by_slug, gamma_fetch, live_get_market, get_market,
  converted,
}

module _ (std : Std) (base : Text) where
  verdict_cases :
      (ps : Option (List Text)) (decoded : Bool)
      → (verdict std ps decoded ≡ res_yes) ⊎ (verdict std ps decoded ≡ res_no)
  unfolding verdict
  verdict_cases none decoded = inr refl
  verdict_cases (some []) decoded = inr refl
  verdict_cases (some (p ∷ [])) decoded = inr refl
  verdict_cases (some (p ∷ q ∷ rest)) false = inr refl
  verdict_cases (some (p ∷ q ∷ rest)) true = ground arith

  no≢yes : res_no ≢ res_yes
  no≢yes h = absurd (ground (arith, h))

  -- The outcome prices of a market settle it as YES: there are two at least, they were decoded, and
  -- the first is a number of one half or more.
  abbrev pub SaysYes : Option (List Text) → Bool → Type 0
  SaysYes none decoded = ⊥
  SaysYes (some []) decoded = ⊥
  SaysYes (some (p ∷ [])) decoded = ⊥
  SaysYes (some (p ∷ q ∷ rest)) false = ⊥
  SaysYes (some (p ∷ q ∷ rest)) true =
      (v : ℕ) × (std.number p ≡ some v) × (std.at_least_half v ≡ true)

  verdict_yes :
      (ps : Option (List Text)) (decoded : Bool)
      → (verdict std ps decoded ≡ res_yes) ↔ SaysYes ps decoded
  unfolding verdict
  verdict_yes none decoded = (no≢yes, λ h. absurd h)
  verdict_yes (some []) decoded = (no≢yes, λ h. absurd h)
  verdict_yes (some (p ∷ [])) decoded = (no≢yes, λ h. absurd h)
  verdict_yes (some (p ∷ q ∷ rest)) false = (no≢yes, λ h. absurd h)
  verdict_yes (some (p ∷ q ∷ rest)) true = elim (Option-cases (std.number p)) [
    | inl unread ↦ (
      (λ h. absurd (no≢yes (ground (arith, unread, h)))),
      (λ (v, read, half). absurd (ground (arith, unread, read))),
    )
    | inr (v, read) ↦ elim (Bool-cases (std.at_least_half v)) [
      | inl half ↦ ((λ h. (v, read, half)), (λ h. ground (arith, read, half)))
      | inr less ↦ (
        (λ h. absurd (no≢yes (ground (arith, read, less, h)))),
        (λ (v', read', half). absurd (ground (arith, read, less, read', half))),
      )
    ]
  ]

  -- A market copies what names it; it says that it is resolved exactly if it has a resolution, which
  -- is YES or NO, and YES exactly if the venue has closed it with prices that say so; and it has both
  -- token identifiers, in the venue's order, or neither comes from the venue.
  pub record IsConsistent (raw : RawGammaMarket) (m : Market) : Type 0 where
    pub same : m.id ≡ raw.id
    pub same_condition : m.condition_id ≡ raw.condition_id
    pub same_slug : m.slug ≡ raw.slug
    pub same_question : m.question ≡ raw.question
    pub yes : (m.resolution ≡ some res_yes) ↔ (
        (raw.closed ≡ true)
        × SaysYes (std.strings raw.outcome_prices).0 (std.strings raw.outcome_prices).1)
    pub resolved_if_closed : m.is_resolved ≡ raw.closed
    pub resolved_if_known : m.is_resolved ≡ is_some m.resolution
    pub yes_or_no :
        (m.resolution ≡ none) ⊎ (m.resolution ≡ some res_yes) ⊎ (m.resolution ≡ some res_no)
    pub tokens :
        ((m.yes_asset_id ≡ []) × (m.no_asset_id ≡ []))
        ⊎ ((y n : Text) × (rest : List Text) × (inner_strings std raw.clob_token_ids
              ≡ some (y ∷ n ∷ rest))
            × (m.yes_asset_id ≡ y)
            × (m.no_asset_id ≡ n))

  token_pair_cases :
      (ts : Option (List Text))
      → (((token_pair ts).0 ≡ []) × ((token_pair ts).1 ≡ []))
        ⊎ ((y n : Text) × (rest : List Text) × (ts ≡ some (y ∷ n ∷ rest))
            × ((token_pair ts).0 ≡ y)
            × ((token_pair ts).1 ≡ n))
  unfolding token_pair
  token_pair_cases none = inl (refl, refl)
  token_pair_cases (some []) = inl (refl, refl)
  token_pair_cases (some (y ∷ [])) = inl (refl, refl)
  token_pair_cases (some (y ∷ n ∷ rest)) = inr (y, n, rest, refl, refl, refl)

  closed_yes :
      (closed : Bool) (ps : Option (List Text)) (decoded : Bool)
      → ((if closed then some (verdict std ps decoded) else none) ≡ some res_yes)
        ↔ ((closed ≡ true) × SaysYes ps decoded)
  closed_yes true ps decoded = (
    (λ h. (refl, (verdict_yes ps decoded).0 (ground (arith, h)))),
    (λ (c, h). ap (λ (t : Text). some t) ((verdict_yes ps decoded).1 h)),
  )
  closed_yes false ps decoded =
      ((λ h. absurd (ground (arith, h))), (λ (c, h). absurd (ground (arith, c))))

  normalize-IsConsistent :
      (raw : RawGammaMarket)
      → IsConsistent raw (to_connector_market (normalize_gamma_market std raw))
  unfolding to_connector_market normalize_gamma_market resolve_from_outcome_prices
  normalize-IsConsistent raw = record {
    same = refl;
    same_condition = refl;
    same_slug = refl;
    same_question = refl;
    yes =
        closed_yes raw.closed (std.strings raw.outcome_prices).0 (std.strings raw.outcome_prices).1;
    resolved_if_closed = ground arith;
    resolved_if_known = ground arith;
    yes_or_no =
        let (ps, decoded) = std.strings raw.outcome_prices in
        ground (arith, verdict_cases ps decoded);
    tokens = token_pair_cases (inner_strings std raw.clob_token_ids);
  }

  -- The URL of a market: by its identifier, or by its slug where no identifier is given.
  abbrev pub url_of : Text → Text → Text
  url_of id slug =
      if not (is_empty id)
      then base ++ (codes "/markets/" ++ id)
      else base ++ (codes "/markets/slug/" ++ slug)

  -- A market was fetched from a URL that answered with status 200, and decoded.
  abbrev pub Fetched : Text → RawGammaMarket → Type 0
  Fetched url raw =
      (a : Answer) × (std.get url ≡ ok a) × (a.status ≡ 200) × (std.decode_market a.body ≡ ok raw)

  do_json-ok : (url : Text) (raw : RawGammaMarket) → do_json std url ≡ ok raw → Fetched url raw
  unfolding do_json
  do_json-ok url raw h = elim (Outcome-cases (std.get url)) [
    | inr (m, bad) ↦ absurd (ground (arith, bad, h))
    | inl (a, got) ↦ elim (Bool-cases (a.status == 200)) [
      | inr other ↦ absurd (ground (arith, got, other, h))
      | inl fine ↦ elim (Outcome-cases (std.decode_market a.body)) [
        | inr (m, bad) ↦ absurd (ground (arith, got, fine, bad, h))
        | inl (raw', decoded) ↦
            (a, got, ground (arith, fine), decoded ∙ ground (arith, got, fine, decoded, h))
      ]
    ]
  ]

  by_path :
      (path : Text) (gm : GammaMarket)
      → (do_json std (base ++ path) >>= λ raw. ok (normalize_gamma_market std raw)) ≡ ok gm
      → (raw : RawGammaMarket) × Fetched (base ++ path) raw × (gm ≡ normalize_gamma_market std raw)
  by_path path gm h = elim (Outcome-cases (do_json std (base ++ path))) [
    | inr (m, bad) ↦ absurd (ground (arith, bad, h))
    | inl (raw, got) ↦ (raw, do_json-ok (base ++ path) raw got, ground (arith, got, h))
  ]

  fetch-ok :
      (id slug : Text) (gm : GammaMarket)
      → fetch std base id slug ≡ ok gm
      → (raw : RawGammaMarket) × Fetched (url_of id slug) raw
        × (gm ≡ normalize_gamma_market std raw)
  unfolding fetch
  fetch-ok id slug gm h = elim (Bool-cases (is_empty id)) [
    | inr given ↦ rw given (by_path (codes "/markets/" ++ id) gm (ground (arith, given, h)))
    | inl missing ↦ elim (Bool-cases (is_empty slug)) [
      | inr given ↦
          rw missing
            (by_path (codes "/markets/slug/" ++ slug) gm (ground (arith, given, missing, h)))
      | inl none_given ↦ absurd (ground (arith, missing, none_given, h))
    ]
  ]

  of_fetch :
      (id slug : Text) (m : Market)
      → (fetch std base id slug >>= converted) ≡ ok m
      → (raw : RawGammaMarket) × Fetched (url_of id slug) raw × IsConsistent raw m
  unfolding converted
  of_fetch id slug m h = elim (Outcome-cases (fetch std base id slug)) [
    | inr (e, bad) ↦ absurd (ground (arith, bad, h))
    | inl (gm, got) ↦
        let (raw, fetched, same) = fetch-ok id slug gm got in
        let whole : to_connector_market (normalize_gamma_market std raw) ≡ m =
          ground (arith, got, h, same) in
        (raw, fetched, subst (IsConsistent raw) whole (normalize-IsConsistent raw))
  ]

  -- Whenever GetMarket returns a market, live or not, the URL of the identifier, or of the slug where
  -- no identifier is given, answered with status 200 and decodes to a raw market, of which the market
  -- has the identifier, the condition, the slug and the question; it is resolved exactly if the venue
  -- has closed it, then as YES or NO, and as YES exactly if two prices were decoded of which the first
  -- is one half or more; and its tokens are the first two of the raw market's, YES first, or empty.
  pub get_market-IsConsistent :
      (live : Bool) (id slug : Text) (m : Market)
      → get_market std live base id slug ≡ ok m
      → (raw : RawGammaMarket) × Fetched (url_of id slug) raw × IsConsistent raw m
  unfolding get_market gamma_fetch live_get_market fetch_market_by_id fetch_market_by_slug
  get_market-IsConsistent live id slug m h = elim (Bool-cases (is_empty id)) [
    | inr given ↦
        let same : url_of id [] ≡ url_of id slug = rw given refl in
        let (raw, fetched, fits) = of_fetch id [] m (ground (arith, given, h)) in
        (raw, subst (λ u. Fetched u raw) same fetched, fits)
    | inl missing ↦ elim (Bool-cases (live || not (is_empty slug))) [
      | inl asks ↦
          let (raw, fetched, fits) = of_fetch [] slug m (ground (arith, missing, asks, h)) in
          (raw, (rw missing fetched), fits)
      | inr none_asked ↦ absurd (ground (arith, missing, none_asked, h))
    ]
  ]
