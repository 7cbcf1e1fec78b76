-- ===== src/Polymarket/Market/Events/Tests.antt =====
-- The market channel of pkg/polymarket on a concrete message, and the witnesses of the theorems about
-- its events.
use go_exchange_connector.Prelude.{ℕ, Text, codes, eqb, List, [], ◌∷◌, ◌++◌, none, some, ◌≡◌, refl}
use go_exchange_connector.Prelude.Int.{ℤ, pos, quot, wrap64, ◌+ℤ◌}
use go_exchange_connector.Prelude.Sets.{has}
use go_exchange_connector.Connector.Dispatch.Numbered.{Numbered}
use go_exchange_connector.Polymarket.Market.{Registry, is_subscribed}
use go_exchange_connector.Polymarket.Market.Latency.{
  new_tracker, record_all, report, average, latest, total_of, record_sample, zeros,
}
use go_exchange_connector.Polymarket.Market.Payloads.{
  PriceChangeItem, PriceChangeWsEvent, BookWsEvent,
}
use go_exchange_connector.Polymarket.Market.Events.{
  Std, Moment, State, process_message, dispatch_messages, own_items,
}
use go_exchange_connector.Polymarket.Market.Events.Owned.{IsFit, number, process_message-Numbered}
use go_exchange_connector.Polymarket.Market.Events.Timed.{latencies, dispatch_messages-report}

abbrev change : Text → PriceChangeItem
change asset_id = record {
  asset_id = asset_id;
  price = codes "0.51";
  size = codes "100";
  side = codes "BUY";
  hash = codes "0x1";
  best_bid = codes "0.5";
  best_ask = codes "0.52";
}

abbrev registry : Registry
registry = record {
  subscribed = codes "yes" ∷ [];
  pending_subscribe = [];
  pending_unsubscribe = [];
}

-- Two of the three changes are of an asset that is subscribed to.
abbrev changes : PriceChangeWsEvent
changes = record {
  market = codes "0xm";
  timestamp = codes "5";
  price_changes = change (codes "yes") ∷ change (codes "no") ∷ change (codes "yes") ∷ [];
}

abbrev book : BookWsEvent
book = record {
  market = codes "0xm";
  asset_id = codes "yes";
  timestamp = codes "5";
  hash = codes "0x2";
  bids = [];
  asks = [];
}

-- Every message is an array of a price change and a book.
abbrev std : Std
std = record {
  raw_messages = λ body. some (codes "price_change" ∷ codes "book" ∷ []);
  raw_message = λ body. none;
  event_type = λ raw. some raw;
  price_change_of = λ raw. some changes;
  book_of = λ raw. some book;
  last_trade_price_of = λ raw. none;
  tick_size_change_of = λ raw. none;
  market_resolved_of = λ raw. none;
  scan_int = λ ts. some (pos 5);
}

abbrev moments : ℕ → Moment
moments n = record {
  registry = registry;
  received_at = pos 62135596800007000000;
  now = pos 62135596800007000000;
}

abbrev start : State
start = record { seq = pos 0; tracker = new_tracker; event_count = pos 0 }

own_items_kept :
    own_items registry changes.price_changes ≡ change (codes "yes") ∷ change (codes "yes") ∷ []
unfolding own_items is_subscribed has eqb
own_items_kept = refl

-- Two samples of two milliseconds.
two_samples : report (record_all (pos 2000000 ∷ pos 2000000 ∷ []) new_tracker) ≡ (pos 2000000, 2)
unfolding report record_all record_sample total_of zeros quot wrap64 ◌+ℤ◌
two_samples = refl

process_message-Numbered_example :
    let (st', events) = process_message std moments (codes "[..]") start in
    Numbered number (IsFit moments) (pos 0) (events, st'.seq)
process_message-Numbered_example = process_message-Numbered std moments (codes "[..]") start

dispatch_messages-report_example :
    let (st', events) = dispatch_messages std ((moments, codes "[..]") ∷ []) start in
    (older newer : List ℤ) × (latest (latencies events) ≡ older ++ newer)
    × (report st'.tracker ≡ average (newer ++ older))
dispatch_messages-report_example =
    dispatch_messages-report std ((moments, codes "[..]") ∷ []) start refl
