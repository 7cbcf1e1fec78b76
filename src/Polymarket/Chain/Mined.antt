-- ===== src/Polymarket/Chain/Mined.antt =====
-- What a success of the methods of pkg/polymarket/ctf.go stands for.
use go_exchange_connector.Prelude.{
  ℕ, Text, codes, List, Option, none, some, Option-cases, List-cases, ◌≡◌, inl, inr, refl, arith,
}
use go_exchange_connector.Prelude.Int.{ℤ}
use go_exchange_connector.Polymarket.Clob.Api.{ok, Outcome-cases}
use go_exchange_connector.Polymarket.Chain.{
  AmountRequest, RedeemPositionsRequest, PositionsResponse, ContractCall, split_call, merge_call,
  redeem_call, Receipt, Eth, CtfClient, mined, transact_and_wait, split_position, merge_positions,
  redeem_positions,
}
use go_exchange_connector.Polymarket.Chain.Ops.{Op, split, merge, redeem, call_of, perform, usd_of}

module _ (eth : Eth) (c : CtfClient) (key : Text) where
  -- A call was sent to the client's contract and mined, in the block of the response.
  pub record IsMined (call : ContractCall) (resp : PositionsResponse) : Type 0 where
    pub sent : eth.transact c.contract call ≡ ok resp.transaction_hash
    pub receipt : Receipt
    pub waited : eth.wait_mined resp.transaction_hash ≡ ok (some receipt)
    pub block : receipt.block_number ≡ some resp.block_number

  -- Conversely a receipt with a block number is enough, whatever its status.
  transact_and_wait-mined :
      (name hash : Text) (call : ContractCall) (usd n : ℕ) (r : Receipt)
      → eth.transactor key c.chain_id ≡ none
      → eth.transact c.contract call ≡ ok hash
      → eth.wait_mined hash ≡ ok (some r)
      → r.block_number ≡ some n
      → transact_and_wait eth c key name call usd
        ≡ ok (record { transaction_hash = hash; block_number = n; amount_usd = usd })
  unfolding transact_and_wait mined
  transact_and_wait-mined name hash call usd n r may sent waited block =
      ground (arith, may, sent, waited, block)

  mined-ok :
      (name hash : Text) (r : Option Receipt) (usd : ℕ) (resp : PositionsResponse)
      → mined eth name hash r usd ≡ ok resp
      → (receipt : Receipt) × (r ≡ some receipt)
        × (receipt.block_number ≡ some resp.block_number)
        × (resp.transaction_hash ≡ hash)
        × (resp.amount_usd ≡ usd)
  unfolding mined
  mined-ok name hash none usd resp h = absurd (ground (arith, h))
  mined-ok name hash (some r) usd resp h = elim (Option-cases r.block_number) [
    | inl no_block ↦ absurd (ground (arith, no_block, h))
    | inr (n, block) ↦
        (r, refl, ground (arith, block, h), ground (arith, block, h), ground (arith, block, h))
  ]

  transact_and_wait-IsMined :
      (name : Text) (call : ContractCall) (usd : ℕ) (resp : PositionsResponse)
      → transact_and_wait eth c key name call usd ≡ ok resp
      → IsMined call resp × (resp.amount_usd ≡ usd)
  unfolding transact_and_wait
  transact_and_wait-IsMined name call usd resp h =
      elim (Option-cases (eth.transactor key c.chain_id)) [
        | inr (e, refused) ↦ absurd (ground (arith, refused, h))
        | inl may ↦ elim (Outcome-cases (eth.transact c.contract call)) [
          | inr (m, bad) ↦ absurd (ground (arith, may, bad, h))
          | inl (hash, sent) ↦ elim (Outcome-cases (eth.wait_mined hash)) [
            | inr (m, bad) ↦ absurd (ground (arith, may, sent, bad, h))
            | inl (r, waited) ↦
                let (receipt, is, block, same, usd_is) =
                  mined-ok name hash r usd resp (ground (arith, may, sent, waited, h)) in
                (
                  record {
                    sent = ground (arith, sent, same);
                    receipt = receipt;
                    waited = ground (arith, waited, is, same);
                    block = block;
                  },
                  usd_is,
                )
          ]
        ]
      ]

  -- An operation with an amount has done what its request says.
  abbrev pub Done :
      (Text → Text → Text → List ℕ → ℤ → ContractCall) → AmountRequest → PositionsResponse → Type 0
  Done call req resp =
      (amount : ℤ) × (req.amount ≡ some amount)
      × IsMined
          (call req.collateral_token req.parent_collection_id req.condition_id req.partition amount)
          resp
      × (resp.amount_usd ≡ eth.raw_to_usd amount)

  answer_shape :
      (name : Text) (call : Text → Text → Text → List ℕ → ℤ → ContractCall) (req : AmountRequest)
      (resp : PositionsResponse) (amount : ℤ)
      → req.amount ≡ some amount
      → transact_and_wait eth c key name
          (call req.collateral_token req.parent_collection_id req.condition_id req.partition amount)
          (eth.raw_to_usd amount)
        ≡ ok resp
      → Done call req resp
  answer_shape name call req resp amount given h =
      let (is, usd) =
        transact_and_wait-IsMined name
          (call req.collateral_token req.parent_collection_id req.condition_id req.partition amount)
          (eth.raw_to_usd amount) resp h in
      (amount, given, is, usd)

  pub split_position-Done :
      (req : AmountRequest) (resp : PositionsResponse)
      → split_position eth c req key ≡ ok resp
      → Done split_call req resp
  unfolding split_position
  split_position-Done req resp h = elim (Option-cases req.amount) [
    | inl no_amount ↦ absurd (ground (arith, no_amount, h))
    | inr (amount, given) ↦ elim (List-cases req.partition) [
      | inl no_parts ↦ absurd (ground (arith, no_parts, given, h))
      | inr (p, ps, parts) ↦
          answer_shape (codes "split") split_call req resp amount given
            (ground (arith, given, parts, h))
    ]
  ]

  merge_positions-Done :
      (req : AmountRequest) (resp : PositionsResponse)
      → merge_positions eth c req key ≡ ok resp
      → Done merge_call req resp
  unfolding merge_positions
  merge_positions-Done req resp h = elim (Option-cases req.amount) [
    | inl no_amount ↦ absurd (ground (arith, no_amount, h))
    | inr (amount, given) ↦ elim (List-cases req.partition) [
      | inl no_parts ↦ absurd (ground (arith, no_parts, given, h))
      | inr (p, ps, parts) ↦
          answer_shape (codes "merge") merge_call req resp amount given
            (ground (arith, given, parts, h))
    ]
  ]

  redeem_positions-IsMined :
      (req : RedeemPositionsRequest) (resp : PositionsResponse)
      → redeem_positions eth c req key ≡ ok resp
      → IsMined
          (redeem_call req.collateral_token req.parent_collection_id req.condition_id req.partition)
          resp
        × (resp.amount_usd ≡ 0)
  unfolding redeem_positions
  redeem_positions-IsMined req resp h = elim (List-cases req.partition) [
    | inl no_parts ↦ absurd (ground (arith, no_parts, h))
    | inr (p, ps, parts) ↦
        transact_and_wait-IsMined (codes "redeem")
          (redeem_call req.collateral_token req.parent_collection_id req.condition_id req.partition)
          0 resp (ground (arith, parts, h))
  ]

  -- Each of the three methods, called with an amount where it takes one, succeeds only if its call
  -- with the fields that were given was sent to the client's contract, and a receipt came that names
  -- the block of the response; the amount of a split or a merge is the one given, in dollars, and
  -- that of a redemption is zero.
  pub perform-IsMined :
      (op : Op) (collateral parent condition : Text) (parts : List ℕ) (amount : ℤ)
      (resp : PositionsResponse)
      → perform eth c key op collateral parent condition parts amount ≡ ok resp
      → IsMined (call_of op collateral parent condition parts amount) resp
        × (resp.amount_usd ≡ usd_of eth op amount)
  unfolding perform
  perform-IsMined split collateral parent condition parts amount resp h =
      let (amount', same, is, usd) = split_position-Done _ resp h in ground (arith, same, is, usd)
  perform-IsMined merge collateral parent condition parts amount resp h =
      let (amount', same, is, usd) = merge_positions-Done _ resp h in ground (arith, same, is, usd)
  perform-IsMined redeem collateral parent condition parts amount resp h =
      redeem_positions-IsMined _ resp h
