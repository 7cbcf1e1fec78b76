-- ===== src/Polymarket/Chain.antt =====
-- pkg/polymarket/ctf.go: splitting, merging and redeeming positions by transactions on the chain.
-- go-ethereum is an argument; addresses and hashes are texts, and a float64 is a bit pattern.
pub mod Ops
pub mod Mined
use go_exchange_connector.Prelude.{
  ℕ, Text, codes, Bool, true, false, List, [], ◌∷◌, ◌++◌, Option, none, some, if◌then◌else◌,
}
use go_exchange_connector.Prelude.Int.{ℤ, pos, eqb_ℤ}
use go_exchange_connector.Prelude.Decimal.{show_int}
use go_exchange_connector.Polymarket.Clob.Api.{Outcome, ok, err, ◌>>=◌, wrap_error}

-- `SplitPositionRequest` and `MergePositionsRequest`, which have the same fields; nil is `none`.
pub record AmountRequest : Type 0 where
  pub collateral_token : Text
  pub parent_collection_id : Text
  pub condition_id : Text
  pub partition : List ℕ
  pub amount : Option ℤ

pub record RedeemPositionsRequest : Type 0 where
  pub collateral_token : Text
  pub parent_collection_id : Text
  pub condition_id : Text
  pub partition : List ℕ

-- The responses: a redemption leaves the amount at zero.
pub record PositionsResponse : Type 0 where
  pub transaction_hash : Text
  pub block_number : ℕ
  pub amount_usd : ℕ

-- A call of the contract: its method and its arguments.
pub data ContractCall : Type 0 where
  split_call merge_call : Text → Text → Text → List ℕ → ℤ → ContractCall
  redeem_call : Text → Text → Text → List ℕ → ContractCall

-- What `bind.WaitMined` returns of a receipt: the status is 0 for a transaction that was reverted.
pub record Receipt : Type 0 where
  pub status : ℕ
  pub block_number : Option ℕ

-- go-ethereum: `dial` and `transactor` give the error, if there is one.
pub record Eth : Type 0 where
  pub dial : Text → Option Text
  pub transactor : Text → ℤ → Option Text
  pub transact : Text → ContractCall → Outcome Text
  pub wait_mined : Text → Outcome (Option Receipt)
  pub raw_to_usd : ℤ → ℕ

abbrev pub polygon_chain_id : ℤ
polygon_chain_id = pos 137

abbrev pub amoy_chain_id : ℤ
amoy_chain_id = pos 80002

abbrev pub polygon_address : Text
polygon_address = codes "0x4D97DCd97eC945f40cF65F87097ACe5EA0476045"

abbrev pub amoy_address : Text
amoy_address = codes "0x69308FB512518e39F9b16112fA8d994F4e2Bf8bB"

abbrev default_collateral_address : Text
default_collateral_address = codes "0xC011a7E12a19f7B1f670d46F03B03f3342E82DFB"

-- `CollateralAddress`
unfoldable pub collateral_address : ℤ → Text
collateral_address chain_id =
    if eqb_ℤ chain_id polygon_chain_id
    then default_collateral_address
    else default_collateral_address

-- `StandardPartition`
unfoldable pub standard_partition : List ℕ
standard_partition = 1 ∷ 2 ∷ []

pub record CtfClient : Type 0 where
  pub contract : Text
  pub chain_id : ℤ

module _ (eth : Eth) where
  -- `NewCTFClient`: the ABI is a constant that parses.
  unfoldable pub new_ctf_client : Text → ℤ → Outcome CtfClient
  unfolding show_int
  new_ctf_client rpc_url chain_id = elim (eth.dial rpc_url) [
    | some e ↦ err (codes "ctf: dial rpc: " ++ e)
    | none ↦
        if eqb_ℤ chain_id polygon_chain_id
        then ok (record { contract = polygon_address; chain_id = chain_id })
        else if eqb_ℤ chain_id amoy_chain_id
        then ok (record { contract = amoy_address; chain_id = chain_id })
        else err (codes "ctf: unsupported chain ID " ++ show_int chain_id)
  ]

  -- The end of each method: only that there is a receipt with a block number is checked.
  unfoldable pub mined : Text → Text → Option Receipt → ℕ → Outcome PositionsResponse
  mined name hash none usd = err (codes "ctf: " ++ (name ++ codes ": receipt missing block number"))
  mined name hash (some r) usd = elim r.block_number [
    | none ↦ err (codes "ctf: " ++ (name ++ codes ": receipt missing block number"))
    | some n ↦ ok (record { transaction_hash = hash; block_number = n; amount_usd = usd })
  ]

  -- The transaction of each method, with the name that its errors carry.
  unfoldable pub transact_and_wait :
      CtfClient → Text → Text → ContractCall → ℕ → Outcome PositionsResponse
  unfolding mined
  transact_and_wait c key name call usd = elim (eth.transactor key c.chain_id) [
    | some e ↦ err (codes "ctf: " ++ (name ++ (codes ": create transactor: " ++ e)))
    | none ↦
        wrap_error (codes "ctf: " ++ (name ++ codes ": send tx: ")) (eth.transact c.contract call)
        >>= λ hash.
            wrap_error (codes "ctf: " ++ (name ++ codes ": wait receipt: ")) (eth.wait_mined hash)
            >>= λ receipt. mined name hash receipt usd
  ]

  -- `SplitPosition`
  unfoldable pub split_position : CtfClient → AmountRequest → Text → Outcome PositionsResponse
  unfolding transact_and_wait
  split_position c req key = elim req.amount [
    | none ↦ err (codes "ctf: split: amount is required")
    | some amount ↦ elim req.partition [
      | [] ↦ err (codes "ctf: split: partition is required")
      | p ∷ ps ↦
          transact_and_wait c key (codes "split")
            (split_call req.collateral_token req.parent_collection_id req.condition_id (p ∷ ps)
              amount)
            (eth.raw_to_usd amount)
    ]
  ]

  -- `MergePositions`
  pub merge_positions : CtfClient → AmountRequest → Text → Outcome PositionsResponse
  unfolding transact_and_wait
  merge_positions c req key = elim req.amount [
    | none ↦ err (codes "ctf: merge: amount is required")
    | some amount ↦ elim req.partition [
      | [] ↦ err (codes "ctf: merge: partition is required")
      | p ∷ ps ↦
          transact_and_wait c key (codes "merge")
            (merge_call req.collateral_token req.parent_collection_id req.condition_id (p ∷ ps)
              amount)
            (eth.raw_to_usd amount)
    ]
  ]

  -- `RedeemPositions`
  pub redeem_positions : CtfClient → RedeemPositionsRequest → Text → Outcome PositionsResponse
  unfolding transact_and_wait
  redeem_positions c req key = elim req.partition [
    | [] ↦ err (codes "ctf: redeem: partition is required")
    | p ∷ ps ↦
        transact_and_wait c key (codes "redeem")
          (redeem_call req.collateral_token req.parent_collection_id req.condition_id (p ∷ ps)) 0
  ]
