-- ===== src/Hyperliquid/Frames/Tests.antt =====
-- Frames of pkg/hyperliquid at concrete inputs, and the witnesses of the theorems about them.
use go_exchange_connector.Prelude.{
  ℕ, Text, codes, eqb, true, false, [], ◌∷◌, map, none, some, ◌≡◌, refl, ◌⊎◌, All, get_elem?,
}
use go_exchange_connector.Prelude.Int.{pos, ◌+ℤ◌, ◌*ℤ◌, wrap64}
use go_exchange_connector.Prelude.Sets.{has}
use go_exchange_connector.Prelude.Trim.{join}
use go_exchange_connector.Prelude.Dict.{lookup}
use go_exchange_connector.Connector.Dispatch.{next_seq_id}
use go_exchange_connector.Hyperliquid.Channels.{trades}
use go_exchange_connector.Hyperliquid.Subscription.{Subscription, key, global}
use go_exchange_connector.Hyperliquid.Registry.{Registry, Link, has_subscription}
use go_exchange_connector.Hyperliquid.Payloads.{
  Trade, AssetCtx, AssetInfo, MetaAndAssetCtxs, asset_id, coin_context, funding_of, funding_rate,
}
use go_exchange_connector.Hyperliquid.Payloads.Universe.{asset_id-coin_context}
use go_exchange_connector.Hyperliquid.Frames.{
  Json, Frame, process_frame, trades_loop, trade_event, subscribed,
}
use go_exchange_connector.Connector.Dispatch.Numbered.{Numbered, stamp}
use go_exchange_connector.Hyperliquid.Frames.Admitted.{IsFit, number, process_frame-Numbered}
use go_exchange_connector.Hyperliquid.Frames.Queue.{World, arrives, works, unsubscribes, run}
use go_exchange_connector.Hyperliquid.Frames.Silent.{AreSilent, unsubscribed_silent}

abbrev print : Text → Trade
print coin = record {
  coin = coin;
  side = codes "B";
  price = codes "97500.5";
  size = codes "0.1";
  hash = codes "0x0";
  time = pos 1000;
  trade_id = pos 7;
  users = [];
}

abbrev btc : Subscription
btc = record (global trades) { coin = codes "BTC" }

abbrev one_stream : Registry
one_stream = (codes "trades:BTC", btc) ∷ []

-- A decoder that reads every frame as a batch of three prints.
abbrev json : Json
json = record {
  envelope = λ body. some (trades, body);
  l2_book_of = λ body. none;
  trades_of = λ body. some (print (codes "BTC") ∷ print (codes "ETH") ∷ print (codes "BTC") ∷ []);
  bbo_of = λ body. none;
  asset_message = λ body. none;
  asset_ctx_of = λ body. none;
  mids_of = λ body. none;
  candle_of = λ body. none;
  candles_of = λ body. none;
  string_of = λ body. none;
  fields_of = λ body. none;
}

abbrev batch : Frame
batch = record { data_of = codes "{trades}"; rx = pos 9 }

process_frame-Numbered_example :
    Numbered number (IsFit one_stream (pos 9)) (pos 4) (process_frame json one_stream (pos 4) batch)
process_frame-Numbered_example = process_frame-Numbered json one_stream (pos 4) batch

-- The prints of the coin that is subscribed to, and no others.
two_of_three :
    trades_loop one_stream
      (pos 9)
      (pos 4)
      (print (codes "BTC") ∷ print (codes "ETH") ∷ print (codes "BTC") ∷ [])
    ≡ (
      trade_event (stamp (pos 4) (pos 9) (pos 62135596801000000000)) (print (codes "BTC"))
          ∷ trade_event (stamp (pos 5) (pos 9) (pos 62135596801000000000)) (print (codes "BTC"))
          ∷ [],
      pos 6,
    )
unfolding trades_loop subscribed has_subscription key join lookup eqb next_seq_id ◌+ℤ◌ ◌*ℤ◌ wrap64
two_of_three = refl

abbrev world : World
world = record { registry = one_stream; queue = []; seq = pos 0 }

abbrev open_link : Link
open_link = record { connected = true; accepts = λ f. true }

abbrev waiting : World
waiting = record world { queue = batch ∷ [] }

key_named : has (codes "trades:BTC") (map key (btc ∷ [])) ≡ true
unfolding has key join eqb
key_named = refl

unsubscribed_silent_example :
    AreSilent
      (codes "trades:BTC")
      (run json (unsubscribes open_link (btc ∷ []) ∷ works ∷ arrives batch ∷ works ∷ []) waiting).1
unsubscribed_silent_example =
    unsubscribed_silent json open_link (btc ∷ []) (codes "trades:BTC")
      (works ∷ arrives batch ∷ works ∷ []) waiting key_named refl

abbrev context : Text → AssetCtx
context funding = record {
  funding = funding;
  open_interest = [];
  premium = [];
  day_ntl_vlm = [];
  prev_day_px = [];
  oracle_px = [];
  mark_px = [];
  mid_px = [];
  impact_pxs = [];
  day_base_vlm = [];
  circulating_supply = [];
}

abbrev asset : Text → AssetInfo
asset name = record {
  name = name;
  sz_decimals = pos 5;
  max_leverage = pos 40;
  margin_table_id = pos 56;
  only_isolated = false;
  is_delisted = false;
}

-- Two coins, of which the second has no context.
abbrev short : MetaAndAssetCtxs
short = record {
  meta = record {
    universe = asset (codes "BTC") ∷ asset (codes "ETH") ∷ [];
    margin_tables = [];
    collateral_token = pos 0;
  };
  ctxs = context (codes "0.0000125") ∷ [];
}

asset_id-coin_context_example :
    (All (λ (info : AssetInfo). eqb info.name (codes "ETH") ≡ false) short.meta.universe
      × (asset_id short.meta (codes "ETH") ≡ none)
      × (coin_context short (codes "ETH") ≡ none)
      × (funding_rate short (codes "ETH") ≡ none))
    ⊎ ((k : ℕ) × (info : AssetInfo) × (asset_id short.meta (codes "ETH") ≡ some k)
        × (get_elem? short.meta.universe k ≡ some info)
        × (info.name ≡ codes "ETH")
        × (coin_context short (codes "ETH") ≡ get_elem? short.ctxs k)
        × (funding_rate short (codes "ETH") ≡ funding_of (get_elem? short.ctxs k)))
asset_id-coin_context_example = asset_id-coin_context short (codes "ETH")
