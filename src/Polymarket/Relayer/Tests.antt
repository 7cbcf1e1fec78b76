-- ===== src/Polymarket/Relayer/Tests.antt =====
-- A split through the relayer of pkg/polymarket/relayer.go: the transaction is mined at the third
-- poll.
use go_exchange_connector.Prelude.{
  ℕ, ◌+◌, ◌*◌, ◌<◌, Text, codes, eqb, List, [], ◌∷◌, none, ◌≡◌, ◌⊎◌, refl, arith, ltb,
  if◌then◌else◌,
}
use go_exchange_connector.Prelude.Int.{pos_part}
use go_exchange_connector.Polymarket.Clob.Api.{ok, Response}
use go_exchange_connector.Polymarket.Relayer.{
  RelayerTransaction, RelayerResponse, Std, done, failed, is_final, two_minutes, poll_interval,
  get_transaction, first_transaction, poll_round, poll_until_confirmed,
}
use go_exchange_connector.Polymarket.Relayer.Polls.{Advances, IsReported, poll_until_confirmed-ends}
use go_exchange_connector.Polymarket.Relayer.Found.{poll_until_confirmed-done}

abbrev mined_tx : RelayerTransaction
mined_tx = record { transaction_hash = codes "0xabc"; state = codes "STATE_MINED" }

abbrev fine : Response
fine = record { status = 200; body = [] }

abbrev missing : Response
missing = record { status = 404; body = [] }

abbrev std : Std
std = record {
  pack = λ call. ok (codes "call");
  pack_neg_risk_redeem = λ condition parts. ok (codes "redeem");
  pack_approve = λ spender amount. ok [];
  pack_proxy = λ calls. ok (codes "proxy");
  signer_address = λ key. codes "0xsigner";
  proxy_wallet = λ signer. codes "0xproxy";
  lower = λ t. t;
  hex_to_hash = λ t. t;
  sign = λ key signer calldata nonce relay. ok (codes "0xsig");
  get_payload = λ url. ok fine;
  decode_payload = λ body. ok (record { address = codes "0xrelay"; nonce = codes "4" });
  submit = λ url body. ok fine;
  decode_submit = λ body. ok (codes "tx");
  get_transaction = λ n url. ok (if ltb n 2 then missing else fine);
  decode_transactions = λ body. ok (mined_tx ∷ []);
  clock = λ n. n * poll_interval;
  cancelled = λ n. none;
  raw_to_usd = λ raw. pos_part raw;
}

advances : Advances std 0
advances = record { starts = omega arith; sleeps = λ n. omega arith }

poll_until_confirmed-ends_example :
    ((e : Text) × (poll_until_confirmed std 0 (codes "tx") ≡ failed e))
    ⊎ ((tx : RelayerTransaction) × (poll_until_confirmed std 0 (codes "tx") ≡ done tx)
        × IsReported std 0 (codes "tx") (0 + two_minutes) tx)
poll_until_confirmed-ends_example = poll_until_confirmed-ends std 0 (codes "tx") advances

quiet : (k : ℕ) → k < 2 → poll_round std k (codes "tx") ≡ none
unfolding poll_round get_transaction
quiet k h = ground (arith, h)

poll_until_confirmed-done_example : poll_until_confirmed std 0 (codes "tx") ≡ done mined_tx
unfolding get_transaction first_transaction is_final eqb
poll_until_confirmed-done_example =
    poll_until_confirmed-done std 0 (codes "tx") mined_tx 2 advances quiet (omega arith) refl refl
      refl

abbrev parts : List ℕ
parts = 1 ∷ 2 ∷ []

abbrev response : RelayerResponse
response = record { transaction_hash = codes "0xabc"; amount_usd = 5000000 }
