-- ===== src/Polymarket/Executor/Tests.antt =====
-- The live executor of pkg/polymarket/connector.go on concrete orders, against a venue that answers
-- every request but one.
use go_exchange_connector.Prelude.{
  ℕ, zero, suc, ◌+◌, ◌<◌, Text, codes, eqb, true, false, List, [], ◌∷◌, ◌++◌, none, some, ◌≡◌, ◌≢◌,
  ◌⊎◌, refl, arith, if◌then◌else◌, ◌==◌,
}
use go_exchange_connector.Prelude.Int.{ℤ, pos}
use go_exchange_connector.Prelude.Sets.{has}
use go_exchange_connector.Connector.{LimitOrder, MarketOrder, CancelOrdersResult}
use go_exchange_connector.Polymarket.Clob.{
  SendOrder, ClobClient, built, panicked, invalid_side, to_upper, buy, sell, build_send_order,
  build_market_send_order, envelope, maker_trunc, taker_trunc,
}
use go_exchange_connector.Polymarket.Clob.Api.{
  Outcome, ok, err, Services, Request, Response, post_order, ask, do_request, check_status,
}
use go_exchange_connector.Polymarket.Clob.Amounts.{Trades, IsCost, build_send_order_amounts}
use go_exchange_connector.Polymarket.Clob.Market.{
  IsTruncated, Buys, build_market_send_order_amounts,
}
use go_exchange_connector.Polymarket.Clob.Salt.{json_salt, after_epoch, json_salt-envelope}
use go_exchange_connector.Polymarket.Executor.{
  Executor, World, prepare, prepare_all, single_result, post_all, place_limit_orders,
  sign_send_order, any_success, cancel_orders,
}
use go_exchange_connector.Polymarket.Executor.Accounted.{
  accounted, LeftOut, cancel_orders-accounted,
}

-- A list of texts as one text: each code is raised by one, and a zero ends a text.
raise : Text → Text
raise [] = 0 ∷ []
raise (c ∷ cs) = suc c ∷ raise cs

pack : List Text → Text
pack [] = []
pack (t ∷ ts) = raise t ++ pack ts

grow : ℕ → List Text → List Text
grow c [] = (c ∷ []) ∷ []
grow c (t ∷ ts) = (c ∷ t) ∷ ts

unpack : Text → List Text
unpack [] = []
unpack (zero ∷ cs) = [] ∷ unpack cs
unpack (suc c ∷ cs) = grow c (unpack cs)

-- The second request fails; every other one is answered by its own body.
echo : ℕ → Request → Outcome Response
echo n r = if n == 1 then err (codes "timeout") else ok (record { status = 200; body = r.body })

abbrev services : Services
services = record {
  new_request = λ method url. none;
  send = echo;
  unix_seconds = λ n. 1700000000;
  base64_std = λ t. some t;
  base64_url = λ t. some t;
  hmac = λ key text. codes "mac";
  marshal_order = λ so. ok so.order.token_id;
  marshal_orders = λ sos. ok [];
  marshal_ids = λ ids. ok (pack ids);
  marshal_id = λ id. ok id;
  unmarshal_error = λ t. none;
  decode_order = λ t. ok (record { success = true; order_id = t; error_msg = [] });
  decode_orders = λ t. ok [];
  decode_cancel = λ t. ok (record { canceled = unpack t; not_canceled = [] });
}

-- The clock starts well after the epoch.
later : ℕ → ℤ
later i = after_epoch (1700000000000000000 + i)

-- Prices and sizes are given in millionths.
abbrev world : World
world = record {
  services = services;
  micro = λ v. pos v;
  clock = later;
  sign = λ key o. ok (codes "0xsig");
}

abbrev client : ClobClient
client = record {
  base_url = codes "https://clob";
  api_key = codes "k";
  secret = codes "s";
  passphrase = codes "p";
  maker_address = codes "0xm";
  signer_address = [];
  owner_uuid = codes "u";
  signature_type = pos 1;
}

abbrev executor : Executor
executor = record { clob = some client; signing_key = some (codes "key") }

abbrev order_of : Text → LimitOrder
order_of asset = record {
  order_id = codes "o";
  asset_id = asset;
  market_id = codes "m";
  side = codes "buy";
  price = 500000;
  size = 3000001;
  expires_at = pos 0;
}

abbrev three_orders : List LimitOrder
three_orders = order_of (codes "a") ∷ order_of (codes "b") ∷ order_of (codes "c") ∷ []

-- The request for the second order fails, and the third is placed all the same.
three_placed : (place_limit_orders world executor 0 three_orders).1 ≡ (
  record {
    success = true;
    orders =
        record { order_id = codes "a"; success = true; error_msg = [] }
        ∷ record {
          order_id = [];
          success = false;
          error_msg = codes "clob: request failed: timeout";
        }
        ∷ record { order_id = codes "c"; success = true; error_msg = [] }
        ∷ [];
    error_msg = [];
  },
  none,
)
unfolding place_limit_orders prepare_all prepare sign_send_order post_all post_order ask do_request
    check_status single_result any_success build_send_order to_upper eqb echo
three_placed = refl

abbrev canceled_ids : List Text
canceled_ids = codes "x" ∷ codes "y" ∷ []

cancel_orders-accounted_example :
    let (result, error) = (cancel_orders world executor 1 canceled_ids).1 in
    (error ≡ none)
    × ((r : CancelOrdersResult) × (result ≡ some r)
        × ((accounted (codes "y") r.canceled r.not_canceled ≡ true)
            ⊎ LeftOut world client canceled_ids (codes "y")))
unfolding has eqb
cancel_orders-accounted_example =
    cancel_orders-accounted world client canceled_ids executor 1 (codes "y") refl refl

build_send_order_amounts_example :
    let result = build_send_order world.micro client (after_epoch 5) (order_of (codes "a")) in
    ((to_upper (codes "buy") ≡ buy)
      × ((so : SendOrder) × (cash : ℕ) × (result ≡ some so)
          × Trades so cash 3000001
          × IsCost 3000001 500000 cash))
    ⊎ ((to_upper (codes "buy") ≡ sell)
        × ((so : SendOrder) × (cash : ℕ) × (result ≡ some so)
            × Trades so 3000001 cash
            × IsCost 3000001 500000 cash))
    ⊎ ((to_upper (codes "buy") ≢ buy) × (to_upper (codes "buy") ≢ sell) × (result ≡ none))
build_send_order_amounts_example =
    build_send_order_amounts world.micro client (after_epoch 5) (order_of (codes "a")) 3000001
      500000 refl refl (omega arith)

abbrev market_order : MarketOrder
market_order = record {
  order_id = codes "o";
  asset_id = codes "a";
  market_id = codes "m";
  side = codes "BUY";
  price = 300000;
  size = 1000000;
  expires_at = pos 0;
}

build_market_send_order_amounts_example :
    let result = build_market_send_order world.micro client (after_epoch 5) market_order in
    ((to_upper (codes "BUY") ≡ buy) × (◌≡◌ {A = ℕ} 300000 0) × (result ≡ panicked))
    ⊎ ((to_upper (codes "BUY") ≡ buy)
        × (0 < 300000)
        × ((so : SendOrder) × (shares making taking : ℕ) × (result ≡ built so)
            × Trades so making taking
            × Buys 1000000 300000 shares
            × IsTruncated maker_trunc 1000000 making
            × IsTruncated taker_trunc shares taking))
    ⊎ ((to_upper (codes "BUY") ≡ sell)
        × ((so : SendOrder) × (cash making taking : ℕ) × (result ≡ built so)
            × Trades so making taking
            × IsCost 1000000 300000 cash
            × IsTruncated maker_trunc 1000000 making
            × IsTruncated taker_trunc cash taking))
    ⊎ ((to_upper (codes "BUY") ≢ buy) × (to_upper (codes "BUY") ≢ sell) × (result ≡ invalid_side))
build_market_send_order_amounts_example =
    build_market_send_order_amounts world.micro client (after_epoch 5) market_order 1000000 300000
      refl refl (omega arith) (omega arith)

json_salt-envelope_example :
    json_salt (envelope client (after_epoch 5) [] buy (pos 0) [] (pos 1) (pos 2)).order ≡ 5
json_salt-envelope_example =
    json_salt-envelope client 5 [] buy [] (pos 0) (pos 1) (pos 2) (omega arith)
