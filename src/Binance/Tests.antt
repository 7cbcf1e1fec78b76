-- ===== src/Binance/Tests.antt =====
-- Runs of the order book of pkg/binance/binance.go.
use go_exchange_connector.Prelude.{Text, codes, eqb, if◌then◌else◌, List, [], ◌∷◌, none, some}
use go_exchange_connector.Prelude.Int.{ℤ, pos, leb_ℤ}
use go_exchange_connector.Binance.Levels.{Level, Side}
use go_exchange_connector.Binance.Book.{Update, Snapshot, Event, diff, snapshot, reset}
use go_exchange_connector.Binance.Book.Tracks.{Venue, Tracks}

abbrev one_bid : Side
one_bid = (codes "100", codes "1") ∷ []

abbrev two_changes : List Level
two_changes =
    record { price = codes "100"; qty = codes "0" }
    ∷ record { price = codes "101"; qty = codes "3" }
    ∷ []

-- A venue whose one bid changes from 1 to 2 at update 5.
abbrev best : Text
best = codes "100"

abbrev quantity : ℤ → Text
quantity u = if leb_ℤ (pos 5) u then codes "2" else codes "1"

abbrev moving : Venue
moving = record { bids = λ u p. if eqb p best then some (quantity u) else none; asks = λ u p. none }

abbrev seed : Snapshot
seed = record { last_update_id = pos 4; bids = (best ∷ codes "1" ∷ []) ∷ []; asks = [] }

abbrev change : Update
change = record {
  first_update_id = pos 5;
  final_update_id = pos 5;
  bids = (best ∷ codes "2" ∷ []) ∷ [];
  asks = [];
}

-- A diff before the snapshot, the snapshot, the diff and its repetition, and a disconnect.
abbrev feed : List Event
feed = diff change ∷ snapshot (some seed) ∷ diff change ∷ diff change ∷ reset ∷ []
