-- ===== src/Polymarket/Market/Latency/Ring.antt =====
-- What latencyTracker of pkg/polymarket/market.go reports.
use mathlib.Core.List.{append_assoc, append-nil}
use go_exchange_connector.Prelude.{
  ℕ, zero, suc, ◌+◌, ◌-◌, ◌≤◌, ◌<◌, false, List, [], ◌∷◌, ◌++◌, ◌≡◌, refl, sym, ap, ◌∙◌, arith,
  length, take, drop, set, length-append, ltb, Bool-cases, inl, inr, ◌==◌,
}
use go_exchange_connector.Prelude.Int.{ℤ}
use go_exchange_connector.Polymarket.Market.Latency.{
  slots, Tracker, zeros, new_tracker, record_sample, report, record_all, average, latest,
}

-- The tracker holds a window, the oldest sample first: the slots are filled one by one, and then the
-- oldest is overwritten.
data Holds (lt : Tracker) (w : List ℤ) : Type 0 where
  filling :
      (rest : List ℤ)
      → lt.samples ≡ w ++ rest
      → lt.count ≡ length w
      → lt.idx ≡ length w
      → length w + length rest ≡ slots
      → 0 < length rest
      → Holds lt w
  full :
      (newer older : List ℤ)
      → lt.samples ≡ newer ++ older
      → lt.count ≡ slots
      → lt.idx ≡ length newer
      → length newer + length older ≡ slots
      → 0 < length older
      → w ≡ older ++ newer
      → Holds lt w

-- The window after one more sample.
unfoldable push : ℤ → List ℤ → List ℤ
push d w = drop (length w + 1 - slots) w ++ d ∷ []

set-append :
    (xs : List ℤ) (y : ℤ) (ys : List ℤ) (v : ℤ) → set (xs ++ y ∷ ys) (length xs) v ≡ xs ++ v ∷ ys
set-append [] y ys v = refl
set-append (x ∷ xs) y ys v = ap (λ (l : List ℤ). x ∷ l) (set-append xs y ys v)

drop-append : (n : ℕ) (xs ys : List ℤ) → n ≤ length xs → drop n (xs ++ ys) ≡ drop n xs ++ ys
drop-append zero xs ys h = refl
drop-append (suc n) [] ys h = absurd (omega (arith, h))
drop-append (suc n) (x ∷ xs) ys h = drop-append n xs ys (omega (arith, h))

drop-drop : (n : ℕ) (xs : List ℤ) → drop 1 (drop n xs) ≡ drop (suc n) xs
drop-drop zero [] = refl
drop-drop zero (x ∷ xs) = refl
drop-drop (suc n) [] = refl
drop-drop (suc n) (x ∷ xs) = drop-drop n xs

length-drop : (n : ℕ) (xs : List ℤ) → length (drop n xs) ≡ length xs - n
length-drop zero xs = omega arith
length-drop (suc n) [] = omega arith
length-drop (suc n) (x ∷ xs) = omega (arith, length-drop n xs)

take-length : (xs ys : List ℤ) → take (length xs) (xs ++ ys) ≡ xs
take-length [] ys = refl
take-length (x ∷ xs) ys = ap (λ (l : List ℤ). x ∷ l) (take-length xs ys)

latest-push : (ds : List ℤ) (d : ℤ) → latest (ds ++ d ∷ []) ≡ push d (latest ds)
unfolding push
latest-push ds d = elim (Bool-cases (ltb (length ds) slots)) [
  | inl few ↦
      let same : length ds - slots ≡ 0 = ground (arith, few) in
      let none_out : length (ds ++ d ∷ []) - slots ≡ 0 =
        ground (arith, few, length-append ds (d ∷ [])) in
      let kept : length ds + 1 - slots ≡ 0 = ground (arith, few) in rw (none_out, same, kept) refl
  | inr many ↦
      let k = length ds - slots in
      let one_more : length (ds ++ d ∷ []) - slots ≡ suc k =
        ground (arith, many, length-append ds (d ∷ [])) in
      let one_out : length (drop k ds) + 1 - slots ≡ 1 = ground (arith, many, length-drop k ds) in
      let within : suc k ≤ length ds = ground (arith, many) in
      rw (one_more, one_out, drop-append (suc k) ds (d ∷ []) within, drop-drop k ds) refl
]

push_short : (d : ℤ) (w : List ℤ) → length w < slots → push d w ≡ w ++ d ∷ []
unfolding push
push_short d w h = let kept : length w + 1 - slots ≡ 0 = omega (arith, h) in rw kept refl

push_full : (d o : ℤ) (w : List ℤ) → length (o ∷ w) ≡ slots → push d (o ∷ w) ≡ w ++ d ∷ []
unfolding push
push_full d o w h =
    let one_out : length (o ∷ w) + 1 - slots ≡ 1 = omega (arith, h) in rw one_out refl

length-snoc : (xs : List ℤ) (d : ℤ) → length (xs ++ d ∷ []) ≡ length xs + 1
length-snoc xs d = length-append xs (d ∷ [])

-- The slot at the index is overwritten.
overwritten :
    (d : ℤ) (lt : Tracker) (xs : List ℤ) (y : ℤ) (ys : List ℤ)
    → lt.samples ≡ xs ++ y ∷ ys
    → lt.idx ≡ length xs
    → (record_sample d lt).samples ≡ xs ++ d ∷ ys
unfolding record_sample
overwritten d lt xs y ys s i = rw (s, i) (set-append xs y ys d)

push-Holds :
    (d : ℤ) (lt : Tracker) (w : List ℤ) → Holds lt w → Holds (record_sample d lt) (push d w)
unfolding record_sample
push-Holds d lt w (filling [] s c i n z) = absurd (omega (arith, z))
push-Holds d lt w (filling (r ∷ []) s c i n z) =
    full [] (w ++ d ∷ []) (overwritten d lt w r [] s i) (ground (arith, c, n))
      (ground (arith, i, n)) (omega (arith, n, length-snoc w d)) (omega (arith, length-snoc w d))
      (push_short d w (omega (arith, n)) ∙ sym (append-nil (w ++ d ∷ [])))
push-Holds d lt w (filling (r ∷ r' ∷ rest) s c i n z) = rw (push_short d w (omega (arith, n))) (
    filling (r' ∷ rest)
      (overwritten d lt w r (r' ∷ rest) s i ∙ sym (append_assoc w (d ∷ []) (r' ∷ rest)))
      (ground (arith, c, n, length-snoc w d)) (ground (arith, i, n, length-snoc w d))
      (omega (arith, n, length-snoc w d)) (omega arith))
push-Holds d lt w (full newer [] s c i n z e) = absurd (omega (arith, z))
push-Holds d lt w (full newer (o ∷ []) s c i n z e) =
    full [] (newer ++ d ∷ []) (overwritten d lt newer o [] s i) (ground (arith, c))
      (ground (arith, i, n)) (omega (arith, n, length-snoc newer d))
      (omega (arith, length-snoc newer d))
      (rw e (push_full d o newer (omega (arith, n)) ∙ sym (append-nil (newer ++ d ∷ []))))
push-Holds d lt w (full newer (o ∷ o' ∷ older) s c i n z e) =
    full (newer ++ d ∷ []) (o' ∷ older)
      (overwritten d lt newer o (o' ∷ older) s i ∙ sym (append_assoc newer (d ∷ []) (o' ∷ older)))
      (ground (arith, c)) (ground (arith, i, n, length-snoc newer d))
      (omega (arith, n, length-snoc newer d)) (omega arith)
      (rw e (
        push_full d o (o' ∷ older ++ newer) (omega (arith, n, length-append older newer))
        ∙ append_assoc (o' ∷ older) newer (d ∷ [])))

report-average :
    (lt : Tracker) (xs ys : List ℤ)
    → lt.samples ≡ xs ++ ys
    → lt.count ≡ length xs
    → report lt ≡ average xs
unfolding report
report-average lt [] ys s c = rw c refl
report-average lt (x ∷ xs) ys s c =
    let some_held : (length (x ∷ xs) == 0) ≡ false = ground arith in
    rw (c, s, take-length xs ys, some_held) refl

report-Holds :
    (lt : Tracker) (w : List ℤ)
    → Holds lt w
    → (older newer : List ℤ) × (w ≡ older ++ newer) × (report lt ≡ average (newer ++ older))
report-Holds lt w (filling rest s c i n z) =
    (w, [], sym (append-nil w), report-average lt w rest s c)
report-Holds lt w (full newer older s c i n z e) = (
  older,
  newer,
  e,
  report-average lt (newer ++ older) [] (s ∙ sym (append-nil (newer ++ older)))
      (c ∙ omega (arith, n, length-append newer older)),
)

record_all-Holds :
    (ds before : List ℤ) (lt : Tracker)
    → Holds lt (latest before)
    → Holds (record_all ds lt) (latest (before ++ ds))
unfolding record_all
record_all-Holds [] before lt h = rw (append-nil before) h
record_all-Holds (d ∷ ds) before lt h = rw (sym (append_assoc before (d ∷ []) ds)) (
    record_all-Holds ds (before ++ d ∷ []) (record_sample d lt)
      (rw (latest-push before d) (push-Holds d lt (latest before) h)))

-- After any samples, report gives the average and the number of exactly the latest 100 of them, or of
-- all where there are fewer: with those in order of arrival split in two, the sum takes the newer part
-- first, and wraps around as an int64 does.
pub report-latest :
    (ds : List ℤ)
    → (older newer : List ℤ) × (latest ds ≡ older ++ newer)
      × (report (record_all ds new_tracker) ≡ average (newer ++ older))
unfolding zeros
report-latest ds =
    report-Holds (record_all ds new_tracker) (latest ds)
      (record_all-Holds ds [] new_tracker (filling (zeros slots) refl refl refl refl (omega arith)))
