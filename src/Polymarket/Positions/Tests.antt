-- ===== src/Polymarket/Positions/Tests.antt =====
-- Splits of pkg/polymarket/connector.go and ctf.go on a chain that mines every transaction, and
-- reverts it.
use go_exchange_connector.Prelude.{ℕ, codes, true, false, List, [], ◌∷◌, none, some, ◌≡◌, ◌⊎◌, refl}
use go_exchange_connector.Prelude.Int.{pos, pos_part}
use go_exchange_connector.Polymarket.Clob.Api.{ok, err}
use go_exchange_connector.Polymarket.Gamma as Gamma
use go_exchange_connector.Polymarket.Gamma.{RawGammaMarket}
use go_exchange_connector.Polymarket.Chain.{
  Eth, CtfClient, PositionsResponse, Receipt, polygon_address, polygon_chain_id, split_position,
  transact_and_wait, mined,
}
use go_exchange_connector.Polymarket.Chain.Ops.{split, call_of, usd_of, perform}
use go_exchange_connector.Polymarket.Chain.Mined.{IsMined, perform-IsMined}
use go_exchange_connector.Polymarket.Relayer as Relayer
use go_exchange_connector.Polymarket.Positions.{
  Config, Std, chain_id, split_position_of, merge_positions_of, redeem_positions_of,
}
use go_exchange_connector.Polymarket.Positions.Reported.{OneAnswer, positions-OneAnswer}

abbrev mined_receipt : Receipt
mined_receipt = record { status = 1; block_number = some 9 }

abbrev eth : Eth
eth = record {
  dial = λ url. none;
  transactor = λ key chain. none;
  transact = λ contract call. ok (codes "0xh");
  wait_mined = λ hash. ok (some mined_receipt);
  raw_to_usd = λ raw. pos_part raw;
}

abbrev client : CtfClient
client = record { contract = polygon_address; chain_id = polygon_chain_id }

abbrev parts : List ℕ
parts = 1 ∷ 2 ∷ []

abbrev response : PositionsResponse
response = record { transaction_hash = codes "0xh"; block_number = 9; amount_usd = 5 }

perform-IsMined_example :
    IsMined eth client
      (codes "key")
      (call_of split (codes "0xc") [] (codes "0x1") parts (pos 5))
      response
    × (◌≡◌ {A = ℕ} 5 (usd_of eth split (pos 5)))
unfolding perform split_position transact_and_wait mined
perform-IsMined_example =
    perform-IsMined eth client (codes "key") split (codes "0xc") [] (codes "0x1") parts (pos 5)
      response refl

abbrev raw : RawGammaMarket
raw = record {
  id = codes "7";
  condition_id = codes "0x1";
  slug = [];
  question = [];
  group_item_title = [];
  description = [];
  outcomes = [];
  outcome_prices = [];
  clob_token_ids = [];
  closed = false;
  tick_size = 1;
  neg_risk = none;
  neg_risk_market_id = [];
  events = [];
  start_date = [];
  end_date = [];
}

abbrev gamma : Gamma.Std
gamma = record {
  get = λ url. ok (record { status = 200; start = []; body = [] });
  decode_market = λ body. ok raw;
  strings = λ text. (none, false);
  number = λ text. none;
  at_least_half = λ v. false;
  parse_time = λ text. none;
}

abbrev no_relayer : Relayer.Std
no_relayer = record {
  pack = λ call. err [];
  pack_neg_risk_redeem = λ condition parts. err [];
  pack_approve = λ spender amount. err [];
  pack_proxy = λ calls. err [];
  signer_address = λ key. [];
  proxy_wallet = λ signer. [];
  lower = λ t. t;
  hex_to_hash = λ t. t;
  sign = λ key signer calldata nonce relay. err [];
  get_payload = λ url. err [];
  decode_payload = λ body. err [];
  submit = λ url body. err [];
  decode_submit = λ body. err [];
  get_transaction = λ n url. err [];
  decode_transactions = λ body. err [];
  clock = λ n. n;
  cancelled = λ n. none;
  raw_to_usd = λ raw. 0;
}

abbrev std : Std
std = record {
  gamma = gamma;
  eth = eth;
  relayer = no_relayer;
  now = 0;
  decode_hex = λ t. ok t;
  to_ecdsa = λ t. ok t;
  hex_to_hash = λ t. t;
  zero_hash = [];
  micro = λ v. pos v;
}

abbrev config : Config
config = record {
  is_live = true;
  gamma_api_url = codes "https://gamma";
  clob_signing_key_hex = codes "0xkey";
  ctf_rpc_url = codes "https://rpc";
  ctf_chain_id = pos 0;
  relayer_api_key = [];
  relayer_api_key_addr = [];
}

positions-OneAnswer_example :
    ((true ≡ true)
      × OneAnswer (split_position_of std config (codes "7") 5)
      × OneAnswer (merge_positions_of std config (codes "7") 5)
      × OneAnswer (redeem_positions_of std config (codes "7")))
    ⊎ ((true ≡ false)
        × (split_position_of std config (codes "7") 5 ≡ (none, []))
        × (merge_positions_of std config (codes "7") 5 ≡ (none, []))
        × (redeem_positions_of std config (codes "7") ≡ (none, [])))
positions-OneAnswer_example = positions-OneAnswer std config (codes "7") 5
