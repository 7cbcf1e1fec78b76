-- ===== src/Polymarket/Relayer/Sent.antt =====
-- What a success of the operations of pkg/polymarket/relayer.go stands for.
use go_exchange_connector.Prelude.{
  ℕ, Text, codes, eqb, is_empty, Bool, false, ◌||◌, List, [], ◌∷◌, some, Option-cases, List-cases,
  ◌≡◌, inl, inr, refl, subst, arith, if◌then◌else◌, ◌++◌,
}
use go_exchange_connector.Prelude.Int.{ℤ}
use go_exchange_connector.Polymarket.Clob.Api.{Outcome, ok, >>=-eq-ok, wrap_error-eq-ok, wrap_error}
use go_exchange_connector.Polymarket.Chain.{
  AmountRequest, RedeemPositionsRequest, ContractCall, split_call, merge_call, redeem_call,
}
use go_exchange_connector.Polymarket.Relayer.{
  RelayPayload, RelayerTransaction, RelayerResponse, ProxyCall, Submission, Std, Polled, done,
  failed, out_of_fuel, get_relay_payload, submit_transaction, poll_until_confirmed, hash_of,
  submit_proxy_call, adapter, send_amount, split_position_via_relayer, merge_positions_via_relayer,
  redeem_positions_via_relayer,
}
use go_exchange_connector.Polymarket.Chain.Ops.{Op, split, merge, redeem, request_of, redemption_of}

module _ (std : Std) (now : ℕ) (key : Text) where
  -- Calls were packed into the data of one submission of the signer, signed with the nonce and the
  -- relay that the relayer gave for it and that the submission carries; the relayer took it, and the
  -- poll of its identifier ended with a transaction whose text for the hash, neither empty nor "0x",
  -- common.HexToHash reads as the hash.
  pub record IsSent (calls : List ProxyCall) (hash : Text) : Type 0 where
    pub submission : Submission
    pub payload : RelayPayload
    pub id : Text
    pub tx : RelayerTransaction
    pub answered : get_relay_payload std (std.signer_address key) ≡ ok payload
    pub from_signer : submission.from ≡ std.lower (std.signer_address key)
    pub for_wallet : submission.proxy_wallet ≡ std.lower (std.proxy_wallet (std.signer_address key))
    pub with_nonce : submission.nonce ≡ payload.nonce
    pub with_relay : submission.relay ≡ std.lower payload.address
    pub packed : std.pack_proxy calls ≡ ok submission.calldata
    pub signed :
        std.sign key (std.signer_address key) submission.calldata payload.nonce payload.address
        ≡ ok submission.signature
    pub taken : submit_transaction std submission ≡ ok id
    pub polled : poll_until_confirmed std now id ≡ done tx
    pub is_hash : std.hex_to_hash tx.transaction_hash ≡ hash
    pub some_hash : (is_empty tx.transaction_hash || eqb tx.transaction_hash (codes "0x")) ≡ false

  hash_of-ok :
      (id : Text) (result : Polled) (resp : RelayerResponse)
      → hash_of std id result ≡ ok resp
      → (tx : RelayerTransaction) × (result ≡ done tx)
        × (std.hex_to_hash tx.transaction_hash ≡ resp.transaction_hash)
        × ((is_empty tx.transaction_hash || eqb tx.transaction_hash (codes "0x")) ≡ false)
  unfolding hash_of
  hash_of-ok id (failed e) resp h = absurd (ground (arith, h))
  hash_of-ok id out_of_fuel resp h = absurd (ground (arith, h))
  hash_of-ok id (done tx) resp h =
      let none_missing : (is_empty tx.transaction_hash || eqb tx.transaction_hash (codes "0x"))
          ≡ false =
        ground (arith, h) in
      (tx, refl, ground (arith, h, none_missing), none_missing)

  submit_proxy_call-IsSent :
      (calls : List ProxyCall) (resp : RelayerResponse)
      → submit_proxy_call std now calls key ≡ ok resp
      → IsSent calls resp.transaction_hash
  unfolding submit_proxy_call
  submit_proxy_call-IsSent calls resp h =
      let signer = std.signer_address key in
      let (calldata, packed, h1) =
        >>=-eq-ok (wrap_error (codes "relayer: encode proxy calldata: ") (std.pack_proxy calls)) _
          h in
      let (rp, answered, h2) =
        >>=-eq-ok (wrap_error (codes "relayer: get relay payload: ") (get_relay_payload std signer))
          _ h1 in
      let (sig, signed, h3) =
        >>=-eq-ok
          (wrap_error (codes "relayer: sign: ") (std.sign key signer calldata rp.nonce rp.address))
          _ h2 in
      let body : Submission = record {
        from = std.lower signer;
        proxy_wallet = std.lower (std.proxy_wallet signer);
        calldata = calldata;
        nonce = rp.nonce;
        signature = sig;
        relay = std.lower rp.address;
      } in
      let (id, taken, h4) =
        >>=-eq-ok (wrap_error (codes "relayer: submit: ") (submit_transaction std body)) _ h3 in
      let (tx, polled, same, some_hash) = hash_of-ok id (poll_until_confirmed std now id) resp h4 in
      record {
        submission = body;
        payload = rp;
        id = id;
        tx = tx;
        answered =
            wrap_error-eq-ok (codes "relayer: get relay payload: ") (get_relay_payload std signer)
              answered;
        from_signer = refl;
        for_wallet = refl;
        with_nonce = refl;
        with_relay = refl;
        packed =
            wrap_error-eq-ok (codes "relayer: encode proxy calldata: ") (std.pack_proxy calls)
              packed;
        signed =
            wrap_error-eq-ok (codes "relayer: sign: ")
              (std.sign key signer calldata rp.nonce rp.address) signed;
        taken = wrap_error-eq-ok (codes "relayer: submit: ") (submit_transaction std body) taken;
        polled = polled;
        is_hash = same;
        some_hash = some_hash;
      }

  -- One call, with the data that was packed, was sent to the adapter for the kind of market.
  abbrev pub SentTo : Bool → Outcome Text → Text → Type 0
  SentTo neg_risk packed hash =
      (calldata : Text) × (packed ≡ ok calldata)
      × IsSent (record { to = adapter std neg_risk; calldata = calldata } ∷ []) hash

  send_amount-SentTo :
      (name : Text) (neg_risk : Bool) (amount : ℤ) (packed : Outcome Text) (resp : RelayerResponse)
      → send_amount std now key name neg_risk amount packed ≡ ok resp
      → SentTo neg_risk packed resp.transaction_hash × (resp.amount_usd ≡ std.raw_to_usd amount)
  unfolding send_amount
  send_amount-SentTo name neg_risk amount packed resp h =
      let prefix = codes "relayer: " ++ (name ++ codes ": encode calldata: ") in
      let (calldata, is_packed, h1) = >>=-eq-ok (wrap_error prefix packed) _ h in
      let calls = record { to = adapter std neg_risk; calldata = calldata } ∷ [] in
      let (sent, submitted, h2) = >>=-eq-ok (submit_proxy_call std now calls key) _ h1 in
      let same : sent.transaction_hash ≡ resp.transaction_hash = ground (arith, h2) in
      (
        (
          calldata,
          wrap_error-eq-ok prefix packed is_packed,
          subst (IsSent calls) same (submit_proxy_call-IsSent calls sent submitted),
        ),
        ground (arith, h2),
      )

  -- The data that a redemption packs.
  abbrev pub redeem_data : RedeemPositionsRequest → Bool → Outcome Text
  redeem_data req neg_risk =
      if neg_risk
      then std.pack_neg_risk_redeem req.condition_id req.partition
      else std.pack
          (redeem_call req.collateral_token req.parent_collection_id req.condition_id req.partition)

  -- An operation with an amount was sent with its request's fields.
  abbrev pub AmountSent :
      (Text → Text → Text → List ℕ → ℤ → ContractCall)
      → AmountRequest
      → Bool
      → RelayerResponse
      → Type 0
  AmountSent call req neg_risk resp =
      (amount : ℤ) × (req.amount ≡ some amount)
      × SentTo neg_risk
          (std.pack (
            call req.collateral_token req.parent_collection_id req.condition_id req.partition
              amount))
          resp.transaction_hash
      × (resp.amount_usd ≡ std.raw_to_usd amount)

  pub split-AmountSent :
      (req : AmountRequest) (neg_risk : Bool) (resp : RelayerResponse)
      → split_position_via_relayer std now req key neg_risk ≡ ok resp
      → AmountSent split_call req neg_risk resp
  unfolding split_position_via_relayer
  split-AmountSent req neg_risk resp h = elim (Option-cases req.amount) [
    | inl no_amount ↦ absurd (ground (arith, no_amount, h))
    | inr (amount, given) ↦ elim (List-cases req.partition) [
      | inl no_parts ↦ absurd (ground (arith, no_parts, given, h))
      | inr (p, ps, parts) ↦
          let (sent, usd) =
            send_amount-SentTo (codes "split") neg_risk amount
              (std.pack (
                split_call req.collateral_token req.parent_collection_id req.condition_id
                  req.partition amount))
              resp (ground (arith, given, parts, h)) in
          (amount, given, sent, usd)
    ]
  ]

  -- The data that an operation packs.
  abbrev pub packed_of : Op → Text → Text → Text → List ℕ → ℤ → Bool → Outcome Text
  packed_of split collateral parent condition parts amount neg_risk =
      std.pack (split_call collateral parent condition parts amount)
  packed_of merge collateral parent condition parts amount neg_risk =
      std.pack (merge_call collateral parent condition parts amount)
  packed_of redeem collateral parent condition parts amount neg_risk =
      redeem_data (redemption_of collateral parent condition parts) neg_risk

  unfoldable pub perform_via_relayer :
      Op → Text → Text → Text → List ℕ → ℤ → Bool → Outcome RelayerResponse
  perform_via_relayer split collateral parent condition parts amount neg_risk =
      split_position_via_relayer std now (request_of collateral parent condition parts amount) key
        neg_risk
  perform_via_relayer merge collateral parent condition parts amount neg_risk =
      merge_positions_via_relayer std now (request_of collateral parent condition parts amount) key
        neg_risk
  perform_via_relayer redeem collateral parent condition parts amount neg_risk =
      redeem_positions_via_relayer std now (redemption_of collateral parent condition parts) key
        neg_risk
