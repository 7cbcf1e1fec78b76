-- ===== src/Polymarket/Relayer.antt =====
-- pkg/polymarket/relayer.go: splitting, merging and redeeming through the relayer, which is polled
-- until it has a transaction. ABI packing, hashing, signing, HTTP, JSON and the clock are arguments.
pub mod Polls
pub mod Found
pub mod Sent
mod Tests
use go_exchange_connector.Prelude.{
  ℕ, zero, suc, ◌+◌, ◌<◌, Text, codes, eqb, is_empty, Bool, true, false, ◌||◌, List, [], ◌∷◌, ◌++◌,
  Option, none, some, if◌then◌else◌, ◌==◌, ltb,
}
use go_exchange_connector.Prelude.Int.{ℤ}
use go_exchange_connector.Prelude.Trim.{trim_space}
use go_exchange_connector.Prelude.Decimal.{decimal, show_int}
use go_exchange_connector.Polymarket.Clob.Api.{Outcome, ok, err, ◌>>=◌, wrap_error, Response}
use go_exchange_connector.Polymarket.Chain.{
  AmountRequest, RedeemPositionsRequest, ContractCall, split_call, merge_call, redeem_call,
}

pub record RelayPayload : Type 0 where
  pub address : Text
  pub nonce : Text

pub record RelayerTransaction : Type 0 where
  pub transaction_hash : Text
  pub state : Text

-- `proxyCall`: the type code is always 1 and the value always zero.
pub record ProxyCall : Type 0 where
  pub to : Text
  pub calldata : Text

-- The body of a submission, but for its constants.
pub record Submission : Type 0 where
  pub from : Text
  pub proxy_wallet : Text
  pub calldata : Text
  pub nonce : Text
  pub signature : Text
  pub relay : Text

-- The hash and the amount of a response.
pub record RelayerResponse : Type 0 where
  pub transaction_hash : Text
  pub amount_usd : ℕ

pub record Std : Type 0 where
  pub pack : ContractCall → Outcome Text
  pub pack_neg_risk_redeem : Text → List ℕ → Outcome Text
  pub pack_approve : Text → ℤ → Outcome Text
  pub pack_proxy : List ProxyCall → Outcome Text
  pub signer_address : Text → Text
  pub proxy_wallet : Text → Text
  pub lower : Text → Text
  pub hex_to_hash : Text → Text  -- common.HexToHash, which takes any text
  pub sign : Text → Text → Text → Text → Text → Outcome Text
  pub get_payload : Text → Outcome Response
  pub decode_payload : Text → Outcome RelayPayload
  pub submit : Text → Submission → Outcome Response
  pub decode_submit : Text → Outcome Text
  pub get_transaction : ℕ → Text → Outcome Response
  pub decode_transactions : Text → Outcome (List RelayerTransaction)
  pub clock : ℕ → ℕ
  pub cancelled : ℕ → Option Text
  pub raw_to_usd : ℤ → ℕ

abbrev pub relayer_url : Text
relayer_url = codes "https://relayer-v2.polymarket.com"

abbrev pub collateral_adapter : Text
collateral_adapter = codes "0xAdA100Db00Ca00073811820692005400218FcE1f"

abbrev pub neg_risk_collateral_adapter : Text
neg_risk_collateral_adapter = codes "0xadA2005600Dec949baf300f4C6120000bDB6eAab"

-- What ends a poll.
pub data Polled : Type 0 where
  done : RelayerTransaction → Polled
  failed : Text → Polled
  out_of_fuel : Polled

-- The states that end a poll.
pub is_final : Text → Bool
is_final state =
    eqb state (codes "STATE_CONFIRMED")
    || eqb state (codes "STATE_MINED")
    || eqb state (codes "STATE_FAILED")
    || eqb state (codes "STATE_INVALID")

-- `&txs[0]`, if there is one.
pub first_transaction : List RelayerTransaction → Option RelayerTransaction
first_transaction [] = none
first_transaction (tx ∷ txs) = some tx

abbrev pub two_minutes : ℕ
two_minutes = 120000000000

abbrev pub poll_interval : ℕ
poll_interval = 2000000000

module _ (std : Std) where
  -- `getRelayPayload`
  pub get_relay_payload : Text → Outcome RelayPayload
  get_relay_payload signer =
      let url =
        relayer_url ++ (codes "/relay-payload?address=" ++ (signer ++ codes "&type=PROXY")) in
      std.get_payload url >>= λ r.
      if r.status == 200
      then wrap_error (codes "decode relay payload: ") (std.decode_payload r.body)
      else err (
          codes "relay payload: "
          ++ (url
              ++ (codes " returned " ++ (decimal r.status ++ (codes ": " ++ trim_space r.body)))))

  -- `submitTransaction`: the identifier of the transaction.
  pub submit_transaction : Submission → Outcome Text
  submit_transaction body =
      let url = relayer_url ++ codes "/submit" in
      std.submit url body >>= λ r.
      if r.status == 200
      then wrap_error (codes "decode submit response: ") (std.decode_submit r.body)
      else err (
          codes "submit: "
          ++ (url
              ++ (codes " returned " ++ (decimal r.status ++ (codes ": " ++ trim_space r.body)))))

  -- `getTransaction`, the n-th time; `none` is that it is not found yet.
  pub get_transaction : ℕ → Text → Outcome (Option RelayerTransaction)
  unfolding first_transaction
  get_transaction n id =
      std.get_transaction n (relayer_url ++ (codes "/transaction?id=" ++ id)) >>= λ r.
      if r.status == 200
      then (std.decode_transactions r.body >>= λ txs. ok (first_transaction txs))
      else ok none

  -- What one poll decides; `none` is that the loop sleeps and goes on.
  pub poll_round : ℕ → Text → Option Polled
  unfolding get_transaction is_final
  poll_round n id = elim (std.cancelled n) [
    | some e ↦ some (failed e)
    | none ↦ elim (get_transaction n id) [
      | err e ↦ some (failed e)
      | ok found ↦ elim found [
        | none ↦ none
        | some tx ↦ if is_final tx.state then some (done tx) else none
      ]
    ]
  ]

  -- The loop of `pollUntilConfirmed` from the n-th round on, on fuel.
  pub poll_loop : ℕ → ℕ → ℕ → Text → Polled
  unfolding poll_round
  poll_loop zero deadline n id = out_of_fuel
  poll_loop (suc fuel) deadline n id =
      let more = poll_loop fuel deadline (suc n) id in
      if ltb (std.clock n) deadline
      then elim (poll_round n id) [ some result ↦ result | none ↦ more ]
      else failed (codes "timed out waiting for transaction " ++ id)

  -- `pollUntilConfirmed`, entered at a time. There are at most 60 rounds before the deadline, since
  -- each sleeps two seconds.
  pub poll_until_confirmed : ℕ → Text → Polled
  unfolding poll_loop
  poll_until_confirmed now id = poll_loop 61 (now + two_minutes) 0 id

  -- The end of `submitProxyCall`: a transaction with a hash counts, whatever its state.
  pub hash_of : Text → Polled → Outcome RelayerResponse
  hash_of id (failed e) = err (codes "relayer: poll: " ++ e)
  hash_of id out_of_fuel = err []
  hash_of id (done tx) =
      if is_empty tx.transaction_hash || eqb tx.transaction_hash (codes "0x")
      then err (
          codes "relayer: transaction "
          ++ (id ++ (codes " has no hash (state: " ++ (tx.state ++ codes ")"))))
      else ok (record { transaction_hash = std.hex_to_hash tx.transaction_hash; amount_usd = 0 })

  -- `submitProxyCall`, for a key, with the time at which the poll begins.
  pub submit_proxy_call : ℕ → List ProxyCall → Text → Outcome RelayerResponse
  unfolding get_relay_payload submit_transaction poll_until_confirmed hash_of
  submit_proxy_call now calls key =
      let signer = std.signer_address key in
      wrap_error (codes "relayer: encode proxy calldata: ") (std.pack_proxy calls) >>= λ calldata.
      wrap_error (codes "relayer: get relay payload: ") (get_relay_payload signer) >>= λ rp.
      wrap_error (codes "relayer: sign: ") (std.sign key signer calldata rp.nonce rp.address)
      >>= λ sig.
          wrap_error (codes "relayer: submit: ") (
            submit_transaction (record {
              from = std.lower signer;
              proxy_wallet = std.lower (std.proxy_wallet signer);
              calldata = calldata;
              nonce = rp.nonce;
              signature = sig;
              relay = std.lower rp.address;
            }))
          >>= λ id. hash_of id (poll_until_confirmed now id)

  abbrev pub adapter : Bool → Text
  adapter neg_risk = if neg_risk then neg_risk_collateral_adapter else collateral_adapter

  -- An operation with an amount, once it is packed.
  pub send_amount : ℕ → Text → Text → Bool → ℤ → Outcome Text → Outcome RelayerResponse
  unfolding submit_proxy_call
  send_amount now key name neg_risk amount packed =
      wrap_error (codes "relayer: " ++ (name ++ codes ": encode calldata: ")) packed >>= λ calldata.
      submit_proxy_call now (record { to = adapter neg_risk; calldata = calldata } ∷ []) key
      >>= λ resp. ok (record resp { amount_usd = std.raw_to_usd amount })

  -- `SplitPositionViaRelayer`
  pub split_position_via_relayer : ℕ → AmountRequest → Text → Bool → Outcome RelayerResponse
  unfolding send_amount
  split_position_via_relayer now req key neg_risk = elim req.amount [
    | none ↦ err (codes "relayer: split: amount is required")
    | some amount ↦ elim req.partition [
      | [] ↦ err (codes "relayer: split: partition is required")
      | p ∷ ps ↦ send_amount now key (codes "split") neg_risk amount (
          std.pack (
            split_call req.collateral_token req.parent_collection_id req.condition_id (p ∷ ps)
              amount))
    ]
  ]

  -- `MergePositionsViaRelayer`
  pub merge_positions_via_relayer : ℕ → AmountRequest → Text → Bool → Outcome RelayerResponse
  unfolding send_amount
  merge_positions_via_relayer now req key neg_risk = elim req.amount [
    | none ↦ err (codes "relayer: merge: amount is required")
    | some amount ↦ elim req.partition [
      | [] ↦ err (codes "relayer: merge: partition is required")
      | p ∷ ps ↦ send_amount now key (codes "merge") neg_risk amount (
          std.pack (
            merge_call req.collateral_token req.parent_collection_id req.condition_id (p ∷ ps)
              amount))
    ]
  ]

  -- `RedeemPositionsViaRelayer`
  pub redeem_positions_via_relayer :
      ℕ → RedeemPositionsRequest → Text → Bool → Outcome RelayerResponse
  unfolding submit_proxy_call
  redeem_positions_via_relayer now req key neg_risk = elim req.partition [
    | [] ↦ err (codes "relayer: redeem: partition is required")
    | p ∷ ps ↦
        let packed =
          if neg_risk
          then std.pack_neg_risk_redeem req.condition_id (p ∷ ps)
          else std.pack (
              redeem_call req.collateral_token req.parent_collection_id req.condition_id
                (p ∷ ps)) in
        wrap_error (codes "relayer: redeem: encode calldata: ") packed >>= λ calldata.
        submit_proxy_call now (record { to = adapter neg_risk; calldata = calldata } ∷ []) key
  ]

  -- `ApproveTokenViaRelayer`
  pub approve_token_via_relayer : ℕ → Text → Text → ℤ → Text → Outcome RelayerResponse
  unfolding submit_proxy_call
  approve_token_via_relayer now token spender amount key =
      wrap_error (codes "relayer: approve: encode calldata: ") (std.pack_approve spender amount)
      >>= λ calldata. submit_proxy_call now (record { to = token; calldata = calldata } ∷ []) key
