-- ===== src/Polymarket/Positions.antt =====
-- pkg/polymarket/connector.go: SplitPosition, MergePositions and RedeemPositions, with the events
-- that their goroutines dispatch, and the signing key. Decoding of hexadecimal text, ECDSA keys and
-- `int64(amount * 1_000_000)` are arguments; a float64 is a bit pattern.
pub mod Reported
mod Tests
use go_exchange_connector.Prelude.{
  ℕ, Text, codes, eqb, is_empty, Bool, true, false, not, ◌&&◌, ◌||◌, List, [], ◌∷◌, ◌++◌, Option,
  none, some, if◌then◌else◌,
}
use go_exchange_connector.Prelude.Int.{ℤ, pos, eqb_ℤ}
use go_exchange_connector.Polymarket.Clob.Api.{Outcome, ok, err, ◌>>=◌, wrap_error}
use go_exchange_connector.Polymarket.Gamma as Gamma
use go_exchange_connector.Polymarket.Gamma.{GammaMarket, fetch_market_by_id}
use go_exchange_connector.Polymarket.Chain.{
  AmountRequest, RedeemPositionsRequest, Eth, CtfClient, collateral_address, standard_partition,
  polygon_chain_id, new_ctf_client, split_position, merge_positions, redeem_positions,
}
use go_exchange_connector.Polymarket.Relayer as Relayer
use go_exchange_connector.Polymarket.Relayer.{
  split_position_via_relayer, merge_positions_via_relayer, redeem_positions_via_relayer,
}

-- The settings of `Config` that the methods read, and the connector's mode.
pub record Config : Type 0 where
  pub is_live : Bool
  pub gamma_api_url : Text
  pub clob_signing_key_hex : Text
  pub ctf_rpc_url : Text
  pub ctf_chain_id : ℤ
  pub relayer_api_key : Text
  pub relayer_api_key_addr : Text

-- `OrderSplitEvent`, `OrderMergeEvent` and `OrderRedeemEvent`: success, market, amount and hash.
pub data Event : Type 0 where
  split_event merge_event : Bool → Text → ℕ → Text → Event
  redeem_event : Bool → Text → Event

pub record Std : Type 0 where
  pub gamma : Gamma.Std
  pub eth : Eth
  pub relayer : Relayer.Std
  pub now : ℕ
  pub decode_hex : Text → Outcome Text
  pub to_ecdsa : Text → Outcome Text
  pub hex_to_hash : Text → Text
  pub zero_hash : Text
  pub micro : ℕ → ℤ

-- The error that a method returns, and what is dispatched once its goroutine is over.
abbrev pub Reply : Type 0
Reply = Option Text × List Event

-- `strings.TrimPrefix(s, "0x")`
pub trim_0x : Text → Text
trim_0x [] = []
trim_0x (c ∷ []) = c ∷ []
trim_0x (c ∷ d ∷ cs) = if eqb (c ∷ d ∷ []) (codes "0x") then cs else c ∷ d ∷ cs

-- What a goroutine dispatches for the outcome of its operation.
pub split_outcome : Text → ℕ → Outcome (Text × ℕ) → Event
split_outcome market amount (err e) = split_event false market amount []
split_outcome market amount (ok (hash, usd)) = split_event true market usd hash

pub merge_outcome : Text → ℕ → Outcome (Text × ℕ) → Event
merge_outcome market amount (err e) = merge_event false market amount []
merge_outcome market amount (ok (hash, usd)) = merge_event true market usd hash

pub redeem_outcome : Outcome Text → Event
redeem_outcome (err e) = redeem_event false []
redeem_outcome (ok hash) = redeem_event true hash

module _ (std : Std) (cfg : Config) where
  -- `ctfPrivateKey`
  pub ctf_private_key : Outcome Text
  unfolding trim_0x
  ctf_private_key =
      if is_empty cfg.clob_signing_key_hex
      then err (codes "ClobSigningKeyHex not set in Config")
      else (wrap_error (codes "invalid ClobSigningKeyHex: ")
            (std.decode_hex (trim_0x cfg.clob_signing_key_hex))
          >>= λ bytes. wrap_error (codes "invalid ClobSigningKeyHex: ") (std.to_ecdsa bytes))

  -- The key, the market and its condition: what each method needs before it does anything.
  pub prepared : Text → Text → Outcome (Text × Text × Bool)
  unfolding ctf_private_key
  prepared name market_id =
      let start = codes "polymarket: " ++ name in
      wrap_error (start ++ codes ": ") ctf_private_key >>= λ key.
      wrap_error (start ++ codes ": fetch market: ")
        (fetch_market_by_id std.gamma cfg.gamma_api_url market_id)
      >>= λ market.
          let condition = std.hex_to_hash market.condition_id in
          if eqb condition std.zero_hash
          then err (start ++ (codes ": invalid condition ID: " ++ market.condition_id))
          else ok (key, condition, market.neg_risk)

  pub uses_relayer : Bool
  uses_relayer = not (is_empty cfg.relayer_api_key) && not (is_empty cfg.relayer_api_key_addr)

  -- `chainID` with its default.
  pub chain_id : ℤ
  chain_id = if eqb_ℤ cfg.ctf_chain_id (pos 0) then polygon_chain_id else cfg.ctf_chain_id

  -- The choice between the relayer, the chain, and neither, once all is prepared.
  pub send : Text → Event → Event → Reply
  unfolding uses_relayer
  send name by_relayer by_chain =
      if uses_relayer
      then (none, by_relayer ∷ [])
      else if is_empty cfg.ctf_rpc_url
      then (
        some (
            codes "polymarket: "
            ++ (name
                ++ codes
                    ": neither relayer nor RPC URL configured — set RelayerAPIKey+RelayerAPIKeyAddr or CTFRPCURL")),
        [],
      )
      else (none, by_chain ∷ [])

  -- The request of a split or of a merge.
  pub amount_request : Text → ℕ → AmountRequest
  unfolding collateral_address standard_partition
  amount_request condition amount = record {
    collateral_token = collateral_address cfg.ctf_chain_id;
    parent_collection_id = std.zero_hash;
    condition_id = condition;
    partition = standard_partition;
    amount = some (std.micro amount);
  }

  pub redeem_request : Text → RedeemPositionsRequest
  unfolding collateral_address standard_partition
  redeem_request condition = record {
    collateral_token = collateral_address cfg.ctf_chain_id;
    parent_collection_id = std.zero_hash;
    condition_id = condition;
    partition = standard_partition;
  }

  -- What the goroutine of SplitPosition gets from the relayer, and from the chain.
  pub split_relayed : Text → Text → ℕ → Bool → Outcome (Text × ℕ)
  split_relayed key condition amount neg_risk =
      split_position_via_relayer std.relayer std.now (amount_request condition amount) key neg_risk
      >>= λ r. ok (r.transaction_hash, r.amount_usd)

  pub split_on_chain : Text → Text → ℕ → Outcome (Text × ℕ)
  unfolding chain_id
  split_on_chain key condition amount =
      new_ctf_client std.eth cfg.ctf_rpc_url chain_id >>= λ client.
      split_position std.eth client (amount_request condition amount) key >>= λ r.
      ok (r.transaction_hash, r.amount_usd)

  -- `SplitPosition`
  pub split_position_of : Text → ℕ → Reply
  unfolding prepared send split_relayed split_on_chain split_outcome
  split_position_of market_id amount =
      if not cfg.is_live then (none, []) else elim (prepared (codes "split") market_id) [
        | err e ↦ (some e, [])
        | ok (key, condition, neg_risk) ↦
            send (codes "split")
              (split_outcome market_id amount (split_relayed key condition amount neg_risk))
              (split_outcome market_id amount (split_on_chain key condition amount))
      ]

  -- The same of MergePositions.
  pub merge_relayed : Text → Text → ℕ → Bool → Outcome (Text × ℕ)
  merge_relayed key condition amount neg_risk =
      merge_positions_via_relayer std.relayer std.now (amount_request condition amount) key neg_risk
      >>= λ r. ok (r.transaction_hash, r.amount_usd)

  pub merge_on_chain : Text → Text → ℕ → Outcome (Text × ℕ)
  unfolding chain_id
  merge_on_chain key condition amount =
      new_ctf_client std.eth cfg.ctf_rpc_url chain_id >>= λ client.
      merge_positions std.eth client (amount_request condition amount) key >>= λ r.
      ok (r.transaction_hash, r.amount_usd)

  -- `MergePositions`
  pub merge_positions_of : Text → ℕ → Reply
  unfolding prepared send merge_relayed merge_on_chain merge_outcome
  merge_positions_of market_id amount =
      if not cfg.is_live then (none, []) else elim (prepared (codes "merge") market_id) [
        | err e ↦ (some e, [])
        | ok (key, condition, neg_risk) ↦
            send (codes "merge")
              (merge_outcome market_id amount (merge_relayed key condition amount neg_risk))
              (merge_outcome market_id amount (merge_on_chain key condition amount))
      ]

  -- The same of RedeemPositions.
  pub redeem_relayed : Text → Text → Bool → Outcome Text
  redeem_relayed key condition neg_risk =
      redeem_positions_via_relayer std.relayer std.now (redeem_request condition) key neg_risk
      >>= λ r. ok r.transaction_hash

  pub redeem_on_chain : Text → Text → Outcome Text
  unfolding chain_id
  redeem_on_chain key condition = new_ctf_client std.eth cfg.ctf_rpc_url chain_id >>= λ client.
      redeem_positions std.eth client (redeem_request condition) key >>= λ r. ok r.transaction_hash

  -- `RedeemPositions`
  pub redeem_positions_of : Text → Reply
  unfolding prepared send redeem_relayed redeem_on_chain redeem_outcome
  redeem_positions_of market_id =
      if not cfg.is_live then (none, []) else elim (prepared (codes "redeem") market_id) [
        | err e ↦ (some e, [])
        | ok (key, condition, neg_risk) ↦
            send (codes "redeem") (redeem_outcome (redeem_relayed key condition neg_risk))
              (redeem_outcome (redeem_on_chain key condition))
      ]
