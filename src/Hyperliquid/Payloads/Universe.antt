-- ===== src/Hyperliquid/Payloads/Universe.antt =====
-- How the lookups of pkg/hyperliquid/types.go agree on a coin.
use go_exchange_connector.Prelude.{
  ℕ, suc, ◌+◌, Text, eqb, eqb_iff, false, List, [], ◌∷◌, Option, none, some, ◌≡◌, refl, arith, ◌⊎◌,
  inl, inr, get_elem?, Bool-cases, Option-cases, All, ◌∙◌, ap, sym,
}
use go_exchange_connector.Hyperliquid.Payloads.{
  AssetCtx, AssetInfo, MetaAndAssetCtxs, asset_id, asset_id_from, coin_context, coin_context_from,
  funding_of, funding_rate,
}

-- The entry of a list that an index names, if there is an index.
abbrev pub at_index {ℓ} : {A : Type ℓ} → List A → Option ℕ → Option A
at_index xs none = none
at_index xs (some i) = get_elem? xs i

coin_context_from-asset_id_from :
    (ctxs : List AssetCtx) (coin : Text) (i : ℕ) (infos : List AssetInfo)
    → coin_context_from ctxs coin i infos ≡ at_index ctxs (asset_id_from coin i infos)
unfolding coin_context_from asset_id_from
coin_context_from-asset_id_from ctxs coin i [] = refl
coin_context_from-asset_id_from ctxs coin i (info ∷ rest) = elim (Bool-cases (eqb info.name coin)) [
  | inl same ↦ rw same refl
  | inr other ↦ rw other (coin_context_from-asset_id_from ctxs coin (suc i) rest)
]

-- The identifier that a coin gets is the index of an entry of that name.
asset_id_from-name :
    (coin : Text) (i k : ℕ) (infos : List AssetInfo)
    → asset_id_from coin i infos ≡ some k
    → (j : ℕ) × (info : AssetInfo) × (k ≡ i + j)
      × (get_elem? infos j ≡ some info)
      × (info.name ≡ coin)
unfolding asset_id_from
asset_id_from-name coin i k [] h = cc
asset_id_from-name coin i k (info ∷ rest) h = elim (Bool-cases (eqb info.name coin)) [
  | inl same ↦ (0, info, ground (arith, same), refl, (eqb_iff info.name coin).0 same)
  | inr other ↦
      let (j, found, at, is, named) =
        asset_id_from-name coin (suc i) k rest (ground (arith, other)) in
      (suc j, found, omega (arith, at), is, named)
]

asset_id_from-absent :
    (coin : Text) (i : ℕ) (infos : List AssetInfo)
    → asset_id_from coin i infos ≡ none
    → All (λ (info : AssetInfo). eqb info.name coin ≡ false) infos
unfolding asset_id_from
asset_id_from-absent coin i [] h = tt
asset_id_from-absent coin i (info ∷ rest) h = elim (Bool-cases (eqb info.name coin)) [
  | inl same ↦ absurd (ground (arith, same))
  | inr other ↦ (other, asset_id_from-absent coin (suc i) rest (ground (arith, other)))
]

funding_rate_lem :
    (m : MetaAndAssetCtxs) (coin : Text) → funding_rate m coin ≡ funding_of (coin_context m coin)
unfolding funding_rate
funding_rate_lem m coin = refl

-- CoinContext, FundingRate and AssetID agree: either no entry of the universe has the name, and then
-- none of them finds anything; or AssetID is the index of an entry of that name, and CoinContext and
-- FundingRate give what stands at that index of the contexts, and nothing if they are too few.
pub asset_id-coin_context :
    (m : MetaAndAssetCtxs) (coin : Text)
    → (All (λ (info : AssetInfo). eqb info.name coin ≡ false) m.meta.universe
        × (asset_id m.meta coin ≡ none)
        × (coin_context m coin ≡ none)
        × (funding_rate m coin ≡ none))
      ⊎ ((k : ℕ) × (info : AssetInfo) × (asset_id m.meta coin ≡ some k)
          × (get_elem? m.meta.universe k ≡ some info)
          × (info.name ≡ coin)
          × (coin_context m coin ≡ get_elem? m.ctxs k)
          × (funding_rate m coin ≡ funding_of (get_elem? m.ctxs k)))
unfolding asset_id coin_context
asset_id-coin_context m coin =
    let same = coin_context_from-asset_id_from m.ctxs coin 0 m.meta.universe in
    elim (Option-cases (asset_id_from coin 0 m.meta.universe)) [
      | inl e ↦
          let found = same ∙ ap (at_index m.ctxs) e in
          inl (
            asset_id_from-absent coin 0 m.meta.universe e,
            e,
            found,
            funding_rate_lem m coin ∙ ap funding_of found,
          )
      | inr (k, e) ↦
          let found = same ∙ ap (at_index m.ctxs) e in
          let (j, info, at, is, named) = asset_id_from-name coin 0 k m.meta.universe e in
          let here : j ≡ k = omega (arith, at) in
          inr (
            k,
            info,
            e,
            ap (get_elem? m.meta.universe) (sym here) ∙ is,
            named,
            found,
            funding_rate_lem m coin ∙ ap funding_of found,
          )
    ]
