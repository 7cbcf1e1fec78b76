-- ===== src/Polymarket/Series/Pages.antt =====
-- One page of ListSeriesEvents of pkg/polymarket/series.go, against a description of what is to be
-- listed.
pub mod Listing
use go_exchange_connector.Prelude.{
  ℕ, zero, suc, ◌+◌, ◌-◌, ◌≤◌, ◌<◌, min, Text, is_empty, Bool, true, false, not, ◌&&◌, List, [],
  ◌∷◌, ◌++◌, Option, none, some, ◌≡◌, refl, ◌∙◌, sym, ap, arith, inl, inr, Bool-cases, Option-cases,
  if◌then◌else◌, length, take, drop, ltb, leb, ltb→lt, length-append,
}
use mathlib.Core.List.{append_assoc, append-nil}
use go_exchange_connector.Prelude.Int.{ℤ, pos, ◌+ℤ◌, wrap64}
use go_exchange_connector.Prelude.Sets.{has, insert}
use go_exchange_connector.Polymarket.Series.{
  GammaEvent, EventQuery, Gamma, clamp_limit, open_only, event_key, Scan, scan_page, Outcome,
  failed, listed, out_of_fuel, list_pages, list_series_events, series_events_page_size, nonempty,
}

-- The events whose key has not been seen, each once.
abbrev pub distinct : List Text → List GammaEvent → List GammaEvent
distinct seen [] = []
distinct seen (ev ∷ evs) =
    let later = distinct seen evs in
    let rest = distinct (insert (event_key ev) seen) evs in
    if has (event_key ev) seen then later else ev ∷ rest

-- A venue whose answer to a request is the slice asked for.
abbrev pub Slices : Gamma → List GammaEvent → Type 0
Slices fetch all = (n off : ℕ) → fetch n (pos off) ≡ some (take n (drop off all))

take_push :
    (m n : ℕ) (ev : GammaEvent) (evs : List GammaEvent)
    → m ≡ suc n
    → take m (ev ∷ evs) ≡ ev ∷ take n evs
take_push m n ev evs h = rw h refl

pub take_none : (m : ℕ) (evs : List GammaEvent) → m ≡ 0 → take m evs ≡ []
take_none m evs h = rw h refl

pub take_empty : (n : ℕ) → take {A = GammaEvent} n [] ≡ []
take_empty zero = refl
take_empty (suc n) = refl

-- An event that is taken now or later.
push_event :
    (limit : ℕ) (evs : List GammaEvent) (ev : GammaEvent) (rest : List GammaEvent)
    → length evs < limit
    → evs ++ take (limit - length evs) (ev ∷ rest)
      ≡ (evs ++ ev ∷ []) ++ take (limit - length (evs ++ ev ∷ [])) rest
push_event limit evs ev rest h =
    ap (λ (t : List GammaEvent). evs ++ t)
      (take_push (limit - length evs) (limit - length (evs ++ ev ∷ [])) ev rest
        (omega (arith, length-append evs (ev ∷ []))))
    ∙ sym (append_assoc evs (ev ∷ []) (take (limit - length (evs ++ ev ∷ [])) rest))

-- Once the limit is reached, nothing more is taken.
full_event :
    (limit : ℕ) (evs : List GammaEvent) (ev : GammaEvent) (rest later : List GammaEvent)
    → length evs < limit
    → limit ≤ suc (length evs)
    → evs ++ take (limit - length evs) (ev ∷ rest)
      ≡ (evs ++ ev ∷ []) ++ take (limit - length (evs ++ ev ∷ [])) later
full_event limit evs ev rest later h full =
    let none_left : limit - length (evs ++ ev ∷ []) ≡ 0 =
      omega (arith, length-append evs (ev ∷ [])) in
    push_event limit evs ev rest h
    ∙ ap (λ (t : List GammaEvent). (evs ++ ev ∷ []) ++ t)
        (take_none _ rest none_left ∙ sym (take_none _ later none_left))

-- What is still to come is the same before and after a page is scanned.
pub scan_page-distinct :
    (limit : ℕ) (page rest : List GammaEvent) (s : Scan)
    → length s.events < limit
    → let s' = scan_page limit page s in
      s.events ++ take (limit - length s.events) (distinct s.seen (page ++ rest))
      ≡ s'.events ++ take (limit - length s'.events) (distinct s'.seen rest)
unfolding scan_page
scan_page-distinct limit [] rest s h = refl
scan_page-distinct limit (ev ∷ page) rest s h =
    let later = distinct (insert (event_key ev) s.seen) (page ++ rest) in
    elim (Bool-cases (has (event_key ev) s.seen)) [
      | inl dup ↦ simp dup (
          scan_page-distinct limit page rest (record s { all_closed = s.all_closed && ev.closed })
            h)
      | inr new ↦ elim (Bool-cases (leb limit (suc (length s.events)))) [
        | inl full ↦
            simp (new, full)
              (full_event limit s.events ev later (distinct (insert (event_key ev) s.seen) rest) h
                (ground (arith, full)))
        | inr room ↦
            simp (new, room)
              (push_event limit s.events ev later h
                ∙ scan_page-distinct limit page rest
                    (record s {
                      all_closed = s.all_closed && ev.closed;
                      events = s.events ++ ev ∷ [];
                      seen = insert (event_key ev) s.seen;
                    })
                    (ground (arith, room, length-append s.events (ev ∷ []))))
      ]
    ]

pub take-drop : (n : ℕ) (evs : List GammaEvent) → take n evs ++ drop n evs ≡ evs
take-drop zero evs = refl
take-drop (suc n) [] = refl
take-drop (suc n) (ev ∷ evs) = ap (λ (t : List GammaEvent). ev ∷ t) (take-drop n evs)

drop_nil : (n : ℕ) → drop {A = GammaEvent} n [] ≡ []
drop_nil zero = refl
drop_nil (suc n) = refl

pub drop-drop : (m n : ℕ) (evs : List GammaEvent) → drop m (drop n evs) ≡ drop (n + m) evs
drop-drop m zero evs = let same : m ≡ 0 + m = omega arith in ap (λ (k : ℕ). drop k evs) same
drop-drop m (suc n) [] = drop_nil m ∙ sym (drop_nil (suc n + m))
drop-drop m (suc n) (ev ∷ evs) =
    let same : suc (n + m) ≡ suc n + m = omega arith in
    drop-drop m n evs ∙ ap (λ (k : ℕ). drop k (ev ∷ evs)) same

pub length-take : (n : ℕ) (evs : List GammaEvent) → length (take n evs) ≡ min n (length evs)
length-take zero evs = omega arith
length-take (suc n) [] = omega arith
length-take (suc n) (ev ∷ evs) = omega (arith, length-take n evs)

pub length-drop : (n : ℕ) (evs : List GammaEvent) → length (drop n evs) ≡ length evs - n
length-drop zero evs = omega arith
length-drop (suc n) [] = omega arith
length-drop (suc n) (ev ∷ evs) = omega (arith, length-drop n evs)

pub drop_all : (n : ℕ) (evs : List GammaEvent) → length evs ≤ n → drop n evs ≡ []
drop_all zero [] h = refl
drop_all zero (ev ∷ evs) h = absurd (omega arith)
drop_all (suc n) [] h = refl
drop_all (suc n) (ev ∷ evs) h = drop_all n evs (omega arith)
