-- ===== src/Polymarket/User/Tests.antt =====
-- The user channel of pkg/polymarket/user.go on concrete calls and messages.
use go_exchange_connector.Prelude.{
  ℕ, suc, Text, codes, eqb, true, false, List, [], ◌∷◌, ◌++◌, none, some, ◌≡◌, refl, All, ltb, leb,
}
use go_exchange_connector.Prelude.Int.{pos}
use go_exchange_connector.Prelude.Sets.{has}
use go_exchange_connector.Polymarket.User.Filter.{
  Machine, Event, caller_subscribes, connects, drops, run, new_machine, intents,
}
use go_exchange_connector.Polymarket.User.Filter.Reconnect.{
  sub, unsub, as_events, first_connection-serves, resubscribe_silent,
}
use go_exchange_connector.Polymarket.User.Events as Events
use go_exchange_connector.Polymarket.User.Events.{
  Std, TradeWsEvent, TradeMakerOrder, handle_trade, IsFill, handle_trade-IsFill, maker_fills,
  taker_fill, maker_fill, safe_parse_float,
}

abbrev one_market : List Text
one_market = codes "a" ∷ []

abbrev life : List Event
life = caller_subscribes one_market ∷ connects ∷ drops ∷ connects ∷ []

first_connection-serves_example :
    let es = as_events (sub one_market ∷ []) ++ connects ∷ as_events (unsub [] ∷ []) in
    (run es (new_machine (λ f. true))).served (codes "a") ≡ intents es (codes "a") false
first_connection-serves_example =
    first_connection-serves (λ f. true) (sub one_market ∷ []) [] (unsub []) (codes "a") (λ f. refl)

abbrev subscribed_once : Machine
subscribed_once = record {
  registry = record { subscribed = one_market; pending_subscribe = []; pending_unsubscribe = [] };
  connected = true;
  accepts = λ f. true;
  served = λ j. has j one_market;
}

resubscribe_silent_example :
    (run (drops ∷ connects ∷ caller_subscribes one_market ∷ []) subscribed_once).served (codes "a")
    ≡ false
unfolding has eqb
resubscribe_silent_example =
    resubscribe_silent subscribed_once one_market (codes "a") refl refl (refl, tt)

-- Numbers are read as their length.
measure : Text → ℕ
measure [] = 0
measure (c ∷ cs) = suc (measure cs)

abbrev std : Std
std = record {
  scan_float = measure;
  positive = λ v. ltb 0 v;
  not_above_zero = λ v. leb v 0;
  scan_int = λ t. none;
  now = pos 7;
  elements = λ t. some (t ∷ []);
  element = λ t. some t;
  event_type = λ t. some t;
  order_of = λ t. none;
  trade_of = λ t. none;
}

abbrev maker : TradeMakerOrder
maker = record {
  order_id = codes "m";
  matched_amount = codes "1";
  price = [];
  asset_id = codes "no";
  side = codes "SELL";
}

abbrev trade : TradeWsEvent
trade = record {
  id = codes "t";
  taker_order_id = codes "o";
  asset_id = codes "yes";
  side = codes "BUY";
  size = codes "12";
  price = codes "345";
  status = codes "MATCHED";
  timestamp = [];
  maker_orders = maker ∷ [];
}

handle_trade-IsFill_example : All (IsFill std trade) (handle_trade std trade)
handle_trade-IsFill_example = handle_trade-IsFill std trade

two_fills :
    handle_trade std trade
    ≡ Events.fill (taker_fill std trade) ∷ Events.fill (maker_fill std trade maker) ∷ []
unfolding handle_trade maker_fills safe_parse_float measure
two_fills = refl
