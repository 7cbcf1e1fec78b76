-- ===== src/Polymarket/Positions/Reported.antt =====
-- SplitPosition, MergePositions and RedeemPositions of pkg/polymarket/connector.go: what their error
-- and their event stand for.
use go_exchange_connector.Prelude.{
  ℕ, Text, codes, is_empty, Bool, true, false, [], ◌∷◌, none, Bool-cases, ◌≡◌, ◌⊎◌, inl, inr, refl,
  is_some,
}
use go_exchange_connector.Polymarket.Clob.Api.{Outcome-cases}
use go_exchange_connector.Polymarket.Chain.{CtfClient, PositionsResponse, split_call}
use go_exchange_connector.Polymarket.Chain.Mined.{Done}
use go_exchange_connector.Polymarket.Relayer.{RelayerResponse}
use go_exchange_connector.Polymarket.Relayer.Sent.{AmountSent}
use go_exchange_connector.Polymarket.Positions.{
  Config, Std, Event, Reply, prepared, uses_relayer, send, amount_request, split_position_of,
  merge_positions_of, redeem_positions_of,
}

-- An error and no event, or no error and one event.
abbrev pub OneAnswer : Reply → Type 0
OneAnswer (error, events) =
    ((is_some error ≡ true) × (events ≡ [])) ⊎ ((error ≡ none) × ((e : Event) × (events ≡ e ∷ [])))

module _ (std : Std) (cfg : Config) where
  send-OneAnswer : (name : Text) (a b : Event) → OneAnswer (send std cfg name a b)
  unfolding send
  send-OneAnswer name a b = elim (Bool-cases (uses_relayer std cfg)) [
    | inl relays ↦ simp relays (inr (refl, (a, refl)))
    | inr direct ↦ elim (Bool-cases (is_empty cfg.ctf_rpc_url)) [
      | inl missing ↦ simp (direct, missing) (inl (refl, refl))
      | inr given ↦ simp (direct, given) (inr (refl, (b, refl)))
    ]
  ]

  split-OneAnswer :
      (id : Text) (amount : ℕ)
      → cfg.is_live ≡ true
      → OneAnswer (split_position_of std cfg id amount)
  unfolding split_position_of
  split-OneAnswer id amount live = elim (Outcome-cases (prepared std cfg (codes "split") id)) [
    | inr (e, bad) ↦ simp (live, bad) (inl (refl, refl))
    | inl ((key, condition, neg_risk), good) ↦
        simp (live, good) (send-OneAnswer (codes "split") _ _)
  ]

  merge-OneAnswer :
      (id : Text) (amount : ℕ)
      → cfg.is_live ≡ true
      → OneAnswer (merge_positions_of std cfg id amount)
  unfolding merge_positions_of
  merge-OneAnswer id amount live = elim (Outcome-cases (prepared std cfg (codes "merge") id)) [
    | inr (e, bad) ↦ simp (live, bad) (inl (refl, refl))
    | inl ((key, condition, neg_risk), good) ↦
        simp (live, good) (send-OneAnswer (codes "merge") _ _)
  ]

  redeem-OneAnswer : (id : Text) → cfg.is_live ≡ true → OneAnswer (redeem_positions_of std cfg id)
  unfolding redeem_positions_of
  redeem-OneAnswer id live = elim (Outcome-cases (prepared std cfg (codes "redeem") id)) [
    | inr (e, bad) ↦ simp (live, bad) (inl (refl, refl))
    | inl ((key, condition, neg_risk), good) ↦
        simp (live, good) (send-OneAnswer (codes "redeem") _ _)
  ]

  -- In live mode each of the three methods either returns an error and dispatches nothing, or returns
  -- nil and dispatches one event. In paper mode each returns nil and dispatches nothing.
  pub positions-OneAnswer :
      (id : Text) (amount : ℕ)
      → ((cfg.is_live ≡ true)
          × OneAnswer (split_position_of std cfg id amount)
          × OneAnswer (merge_positions_of std cfg id amount)
          × OneAnswer (redeem_positions_of std cfg id))
        ⊎ ((cfg.is_live ≡ false)
            × (split_position_of std cfg id amount ≡ (none, []))
            × (merge_positions_of std cfg id amount ≡ (none, []))
            × (redeem_positions_of std cfg id ≡ (none, [])))
  unfolding split_position_of merge_positions_of redeem_positions_of
  positions-OneAnswer id amount = elim (Bool-cases cfg.is_live) [
    | inl live ↦ inl (
      live,
      split-OneAnswer id amount live,
      merge-OneAnswer id amount live,
      redeem-OneAnswer id live,
    )
    | inr paper ↦ inr (paper, simp paper, simp paper, simp paper)
  ]

  -- The split that a success event stands for: the relayer's or the chain's.
  abbrev pub SplitDone : Text → Text → Bool → ℕ → ℕ → Text → Type 0
  SplitDone key condition neg_risk amount usd hash =
      ((resp : RelayerResponse) × AmountSent std.relayer std.now key split_call
          (amount_request std cfg condition amount) neg_risk resp
        × (resp.transaction_hash ≡ hash)
        × (resp.amount_usd ≡ usd))
      ⊎ ((client : CtfClient) × (resp : PositionsResponse) × Done std.eth client key split_call
            (amount_request std cfg condition amount) resp
          × (resp.transaction_hash ≡ hash)
          × (resp.amount_usd ≡ usd))
