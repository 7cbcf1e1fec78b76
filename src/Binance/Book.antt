-- ===== src/Binance/Book.antt =====
-- pkg/binance/binance.go: the order book of one symbol under diffs, REST snapshots and disconnects.
-- Update identifiers are int64. The rendering of the sides as sorted levels is left out: an event
-- carries the sides as maps.
pub mod Meaning
pub mod Tracks
use go_exchange_connector.Prelude.{
  ℕ, Text, Bool, true, false, List, [], ◌∷◌, Option, none, some, if◌then◌else◌,
}
use go_exchange_connector.Prelude.Int.{ℤ, pos, ◌+ℤ◌, leb_ℤ, ltb_ℤ, wrap64}
use go_exchange_connector.Binance.Levels.{Level, Side, parse_levels, apply_levels, level_map}

-- `binanceBook`
pub record Book : Type 0 where
  pub snapshotted : Bool
  pub last_update_id : ℤ
  pub bids : Side
  pub asks : Side

-- `binanceDepthUpdate`, with its two lists of pairs decoded.
pub record Update : Type 0 where
  pub first_update_id : ℤ
  pub final_update_id : ℤ
  pub bids : List (List Text)
  pub asks : List (List Text)

-- `binanceDepthSnapshot`
pub record Snapshot : Type 0 where
  pub last_update_id : ℤ
  pub bids : List (List Text)
  pub asks : List (List Text)

-- What a handler does beside changing the book: nothing, a goroutine that fetches a snapshot, or an
-- event with the book.
pub data Reaction : Type 0 where
  ignores : Reaction
  fetches : Reaction
  dispatches : ℤ → Side → Side → Reaction

-- The book that `bookFor` makes.
pub new_book : Book
new_book = record { snapshotted = false; last_update_id = pos 0; bids = []; asks = [] }

-- The two sides after a diff.
pub apply_update : Update → Book → Book
apply_update u b = record b {
  bids = apply_levels (parse_levels u.bids) b.bids;
  asks = apply_levels (parse_levels u.asks) b.asks;
  last_update_id = u.final_update_id;
}

abbrev shown : Book → Book × Reaction
shown b = (b, dispatches b.last_update_id b.bids b.asks)

-- `handleDepth`, once the frame is known to be a diff of a subscribed symbol.
pub handle_depth : Update → Book → Book × Reaction
handle_depth u b =
    if b.snapshotted
    then if leb_ℤ u.final_update_id b.last_update_id
      then (b, ignores)
      else if ltb_ℤ (wrap64 (b.last_update_id +ℤ pos 1)) u.first_update_id
      then (record b { snapshotted = false }, fetches)
      else shown (apply_update u b)
    else (b, fetches)

-- `snapshotDepthBook`; `none` is a request or a decoding that failed.
pub snapshot_depth_book : Option Snapshot → Book → Book × Reaction
snapshot_depth_book none b = (b, ignores)
snapshot_depth_book (some snap) b = shown (record {
  snapshotted = true;
  last_update_id = snap.last_update_id;
  bids = level_map snap.bids;
  asks = level_map snap.asks;
})

-- `resetDepthBooks`, for one book.
unfoldable pub reset_book : Book → Book
reset_book b = record b { snapshotted = false }

-- What happens to a book, in any order.
pub data Event : Type 0 where
  diff : Update → Event
  snapshot : Option Snapshot → Event
  reset : Event

pub step : Event → Book → Book × Reaction
unfolding handle_depth snapshot_depth_book reset_book
step (diff u) b = handle_depth u b
step (snapshot s) b = snapshot_depth_book s b
step reset b = (reset_book b, ignores)

pub run : List Event → Book → Book × List Reaction
run [] b = (b, [])
run (e ∷ es) b = let (b₁, r) = step e b in let (b₂, rs) = run es b₁ in (b₂, r ∷ rs)
