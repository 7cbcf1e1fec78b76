-- ===== src/Binance/Book/Tracks.antt =====
-- The local book of pkg/binance/binance.go against the book that the venue has.
use go_exchange_connector.Prelude.{
  ◌<◌, ◌≤◌, ◌+◌, length, Text, true, false, List, Option, none, some, ◌≡◌, refl, arith,
}
use go_exchange_connector.Prelude.Int.{ℤ, pos, pos_part, neg_part, ◌+ℤ◌, ◌≤ℤ◌}
use go_exchange_connector.Prelude.Dict.{lookup}
use go_exchange_connector.Binance.Book.Meaning.{named, meaning, IsPlain, IsSome, OfEach}
use go_exchange_connector.Binance.Book.{
  Book, Update, Snapshot, Reaction, ignores, fetches, dispatches, new_book, Event, diff, snapshot,
  reset,
}

-- The venue's book: the quantity at each price of each side after each update.
pub record Venue : Type 0 where
  pub bids : ℤ → Text → Option Text
  pub asks : ℤ → Text → Option Text

-- Pairs of texts take a side of the venue from update `v` to update `u`: the prices that they name
-- have what the quantity named means, and the others have not changed.
abbrev Leads : (ℤ → Text → Option Text) → List (List Text) → ℤ → ℤ → Type 0
Leads side pairs v u =
    (p : Text) → side u p ≡ elim (named p pairs) [ some q ↦ meaning q | none ↦ side v p ]

-- The documented meaning of a diff with the identifiers U to u: it carries every price that changed
-- in these updates, with the quantity after the last of them. So it leads from any update between
-- U - 1 and u to u. And a level that is gone has its zero written without decimals.
pub record IsDiffOf (venue : Venue) (d : Update) : Type 0 where
  pub plain_bids : OfEach IsPlain d.bids
  pub plain_asks : OfEach IsPlain d.asks
  pub leads :
      (v : ℤ)
      → d.first_update_id ≤ℤ v +ℤ pos 1
      → v ≤ℤ d.final_update_id
      → Leads venue.bids d.bids v d.final_update_id × Leads venue.asks d.asks v d.final_update_id

-- A snapshot lists the venue's whole book at its identifier, and no quantity of zero. (The code asks
-- for 50 levels a side, so the venue's book has no more.)
pub record IsSnapshotOf (venue : Venue) (s : Snapshot) : Type 0 where
  pub some_bids : OfEach IsSome s.bids
  pub some_asks : OfEach IsSome s.asks
  pub few_bids : length s.bids ≤ 50
  pub few_asks : length s.asks ≤ 50
  pub whole :
      (p : Text)
      → (venue.bids s.last_update_id p ≡ named p s.bids)
        × (venue.asks s.last_update_id p ≡ named p s.asks)

-- An identifier is not negative and is not the largest int64.
abbrev IsId : ℤ → Type 0
IsId z = (neg_part z ≡ 0) × (pos_part z + 1 < 9223372036854775808)

-- What the venue sends is true.
abbrev pub IsTrue : Venue → Event → Type 0
IsTrue venue (diff d) = IsDiffOf venue d × IsId d.final_update_id
IsTrue venue (snapshot none) = Unit
IsTrue venue (snapshot (some s)) = IsSnapshotOf venue s × IsId s.last_update_id
IsTrue venue reset = Unit

-- A seeded book is the venue's book at its last update.
pub record Tracks (venue : Venue) (b : Book) : Type 0 where
  pub bids_at : b.snapshotted ≡ true → (p : Text) → lookup p b.bids ≡ venue.bids b.last_update_id p
  pub asks_at : b.snapshotted ≡ true → (p : Text) → lookup p b.asks ≡ venue.asks b.last_update_id p
  pub in_range : b.snapshotted ≡ true → IsId b.last_update_id

-- A book that is not seeded tracks the venue whatever it holds.
unseeded-Tracks : (venue : Venue) (b : Book) → b.snapshotted ≡ false → Tracks venue b
unseeded-Tracks venue b e = record {
  bids_at = λ h. ground (arith, h, e);
  asks_at = λ h. ground (arith, h, e);
  in_range = λ h. ground (arith, h, e);
}

-- What is shown to the application is the venue's book at the identifier shown.
abbrev pub IsFaithful : Venue → Reaction → Type 0
IsFaithful venue ignores = Unit
IsFaithful venue fetches = Unit
IsFaithful venue (dispatches u bids asks) =
    (p : Text) → (lookup p bids ≡ venue.bids u p) × (lookup p asks ≡ venue.asks u p)

-- From the book that is made on the first subscription, likewise.
pub new_book-Tracks : (venue : Venue) → Tracks venue new_book
unfolding new_book
new_book-Tracks venue = unseeded-Tracks venue new_book refl
