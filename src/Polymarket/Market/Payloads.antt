-- ===== src/Polymarket/Market/Payloads.antt =====
-- The messages of the market channel in pkg/polymarket/types.go, with the fields that are read.
use go_exchange_connector.Prelude.{Text, List}

-- `WSPriceLevel`, and `Level` of events.go, which has the same fields.
pub record Level : Type 0 where
  pub price : Text
  pub size : Text

-- `PriceChangeItem`, of types.go and of events.go, which has the same fields.
pub record PriceChangeItem : Type 0 where
  pub asset_id : Text
  pub price : Text
  pub size : Text
  pub side : Text
  pub hash : Text
  pub best_bid : Text
  pub best_ask : Text

pub record PriceChangeWsEvent : Type 0 where
  pub market : Text
  pub timestamp : Text
  pub price_changes : List PriceChangeItem

pub record BookWsEvent : Type 0 where
  pub market : Text
  pub asset_id : Text
  pub timestamp : Text
  pub hash : Text
  pub bids : List Level
  pub asks : List Level

pub record LastTradePriceWsEvent : Type 0 where
  pub asset_id : Text
  pub price : Text
  pub side : Text
  pub size : Text
  pub timestamp : Text

pub record TickSizeChangeWsEvent : Type 0 where
  pub asset_id : Text
  pub market : Text
  pub old_tick_size : Text
  pub new_tick_size : Text
  pub timestamp : Text

pub record MarketResolvedWsEvent : Type 0 where
  pub id : Text
  pub market : Text
  pub winning_asset_id : Text
  pub winning_outcome : Text
  pub timestamp : Text
