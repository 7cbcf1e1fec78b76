-- ===== src/Polymarket/Chain/Ops.antt =====
-- The operations of pkg/polymarket/ctf.go on positions, in one function.
use go_exchange_connector.Prelude.{ℕ, Text, List, some}
use go_exchange_connector.Prelude.Int.{ℤ}
use go_exchange_connector.Polymarket.Clob.Api.{Outcome}
use go_exchange_connector.Polymarket.Chain.{
  AmountRequest, RedeemPositionsRequest, PositionsResponse, ContractCall, split_call, merge_call,
  redeem_call, Eth, CtfClient, split_position, merge_positions, redeem_positions,
}

pub data Op : Type 0 where
  split merge redeem : Op

abbrev pub call_of : Op → Text → Text → Text → List ℕ → ℤ → ContractCall
call_of split collateral parent condition parts amount =
    split_call collateral parent condition parts amount
call_of merge collateral parent condition parts amount =
    merge_call collateral parent condition parts amount
call_of redeem collateral parent condition parts amount =
    redeem_call collateral parent condition parts

abbrev pub request_of : Text → Text → Text → List ℕ → ℤ → AmountRequest
request_of collateral parent condition parts amount = record {
  collateral_token = collateral;
  parent_collection_id = parent;
  condition_id = condition;
  partition = parts;
  amount = some amount;
}

abbrev pub redemption_of : Text → Text → Text → List ℕ → RedeemPositionsRequest
redemption_of collateral parent condition parts = record {
  collateral_token = collateral;
  parent_collection_id = parent;
  condition_id = condition;
  partition = parts;
}

unfoldable pub perform :
    Eth → CtfClient → Text → Op → Text → Text → Text → List ℕ → ℤ → Outcome PositionsResponse
perform eth c key split collateral parent condition parts amount =
    split_position eth c (request_of collateral parent condition parts amount) key
perform eth c key merge collateral parent condition parts amount =
    merge_positions eth c (request_of collateral parent condition parts amount) key
perform eth c key redeem collateral parent condition parts amount =
    redeem_positions eth c (redemption_of collateral parent condition parts) key

abbrev pub usd_of : Eth → Op → ℤ → ℕ
usd_of eth split amount = eth.raw_to_usd amount
usd_of eth merge amount = eth.raw_to_usd amount
usd_of eth redeem amount = 0
