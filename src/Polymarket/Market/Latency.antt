-- ===== src/Polymarket/Market/Latency.antt =====
-- pkg/polymarket/market.go: latencyTracker, which keeps the latest samples in a ring buffer.
pub mod Ring
use go_exchange_connector.Prelude.{
  ℕ, zero, suc, ◌+◌, ◌-◌, ◌%◌, List, [], ◌∷◌, length, take, drop, set, ltb, if◌then◌else◌, ◌==◌,
}
use go_exchange_connector.Prelude.Int.{ℤ, pos, ◌+ℤ◌, wrap64, quot}

-- The length of the array `samples`.
abbrev pub slots : ℕ
slots = 100

-- `latencyTracker`
pub record Tracker : Type 0 where
  pub samples : List ℤ
  pub count : ℕ
  pub idx : ℕ

-- An array of zeros.
unfoldable pub zeros : ℕ → List ℤ
zeros zero = []
zeros (suc n) = pos 0 ∷ zeros n

abbrev pub new_tracker : Tracker
new_tracker = record { samples = zeros slots; count = 0; idx = 0 }

-- The method `record`.
unfoldable pub record_sample : ℤ → Tracker → Tracker
record_sample d lt = record {
  samples = set lt.samples lt.idx d;
  count = if ltb lt.count slots then lt.count + 1 else lt.count;
  idx = (lt.idx + 1) % slots;
}

-- The loop of `report`, which adds in int64.
unfoldable pub total_of : ℤ → List ℤ → ℤ
total_of total [] = total
total_of total (d ∷ ds) = total_of (wrap64 (total +ℤ d)) ds

-- `report`
unfoldable pub report : Tracker → ℤ × ℕ
unfolding total_of
report lt =
    if lt.count == 0
    then (pos 0, 0)
    else (quot (total_of (pos 0) (take lt.count lt.samples)) (pos lt.count), lt.count)

-- A tracker after a list of samples.
unfoldable pub record_all : List ℤ → Tracker → Tracker
unfolding record_sample
record_all [] lt = lt
record_all (d ∷ ds) lt = record_all ds (record_sample d lt)

-- What is to be reported of a list of samples: their average and their number.
abbrev pub average : List ℤ → ℤ × ℕ
average [] = (pos 0, 0)
average (d ∷ ds) = (quot (total_of (pos 0) (d ∷ ds)) (pos (length (d ∷ ds))), length (d ∷ ds))

-- The latest samples of a list, as many as there are slots.
abbrev pub latest : List ℤ → List ℤ
latest ds = drop (length ds - slots) ds
