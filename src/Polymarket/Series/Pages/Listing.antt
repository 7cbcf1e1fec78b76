-- ===== src/Polymarket/Series/Pages/Listing.antt =====
-- The loop over the pages of ListSeriesEvents in pkg/polymarket/series.go, run to its end.
use go_exchange_connector.Prelude.{
  ℕ, zero, suc, ◌+◌, ◌-◌, ◌≤◌, ◌<◌, min, Text, is_empty, Bool, false, ◌&&◌, List, [], ◌∷◌, ◌++◌,
  ◌≡◌, ◌∙◌, sym, ap, arith, inl, inr, Bool-cases, Option-cases, length, take, drop, ltb, leb,
  length-append,
}
use mathlib.Core.List.{append-nil}
use go_exchange_connector.Prelude.Int.{ℤ, pos, ◌+ℤ◌, wrap64}
use go_exchange_connector.Prelude.Sets.{insert}
use go_exchange_connector.Polymarket.Series.{
  GammaEvent, EventQuery, Gamma, clamp_limit, open_only, event_key, Scan, scan_page, listed,
  list_pages, list_series_events, series_events_page_size, nonempty,
}
use go_exchange_connector.Polymarket.Series.Pages.{
  distinct, Slices, scan_page-distinct, take-drop, drop-drop, length-take, length-drop, drop_all,
  take_none, take_empty,
}

pos-+ℤ : (a b : ℕ) → a + b < 9223372036854775808 → wrap64 (pos a +ℤ pos b) ≡ pos (a + b)
unfolding ◌+ℤ◌ wrap64
pos-+ℤ a b h = ground arith

-- A page that ends the venue's list leaves nothing to come.
last_page :
    (limit size : ℕ) (left : List GammaEvent) (s : Scan)
    → length s.events < limit
    → length left ≤ size
    → (scan_page limit (take size left) s).events
      ≡ s.events ++ take (limit - length s.events) (distinct s.seen left)
last_page limit size left s h short =
    let s' = scan_page limit (take size left) s in
    sym (
      ap (λ (l : List GammaEvent). s.events ++ take (limit - length s.events) (distinct s.seen l))
        (sym (take-drop size left))
      ∙ scan_page-distinct limit (take size left) (drop size left) s h
      ∙ rw (drop_all size left short) (
          ap (λ (t : List GammaEvent). s'.events ++ t) (take_empty (limit - length s'.events))
          ∙ append-nil s'.events))

list_pages-distinct :
    (fuel : ℕ) (fetch : Gamma) (all : List GammaEvent) (limit off : ℕ) (events : List GammaEvent)
    (seen : List Text)
    → Slices fetch all
    → length all < 9223372036854775808
    → length all - off < fuel
    → list_pages fuel fetch false limit (pos off) events seen
      ≡ listed (events ++ take (limit - length events) (distinct seen (drop off all)))
unfolding list_pages
list_pages-distinct zero fetch all limit off events seen slices small enough = absurd (omega arith)
list_pages-distinct (suc fuel) fetch all limit off events seen slices small enough =
    elim (Bool-cases (leb limit (length events))) [
      | inl full ↦ simp full (
          ap listed (
            sym (
              ap (λ (t : List GammaEvent). events ++ t) (take_none _ _ (ground (arith, full)))
              ∙ append-nil events)))
      | inr room ↦
          let size = min (limit - length events) series_events_page_size in
          let left = drop off all in
          let page = take size left in
          let s : Scan = record { events = events; seen = seen; all_closed = nonempty page } in
          let s' = scan_page limit page s in
          let h : length events < limit = ground (arith, room) in
          elim (Bool-cases (ltb (length page) size)) [
            | inl short ↦
                simp (room, slices size off, short)
                  (ap listed
                    (last_page limit size left s h (ground (arith, short, length-take size left))))
            | inr long ↦
                let whole : length page ≡ size = ground (arith, long, length-take size left) in
                let within : off + size ≤ length all =
                  ground (arith, whole, h, length-take size left, length-drop off all) in
                let next : wrap64 (pos off +ℤ pos (length page)) ≡ pos (off + size) =
                  rw whole (pos-+ℤ off size (omega arith)) in
                simp (room, slices size off, long, next)
                  (list_pages-distinct fuel fetch all limit (off + size) s'.events s'.seen slices
                      small (omega arith)
                    ∙ ap listed (
                        rw (← drop-drop size off all) (
                          sym (
                            ap
                              (λ (l : List GammaEvent).
                                events ++ take (limit - length events) (distinct seen l))
                              (sym (take-drop size left))
                            ∙ scan_page-distinct limit page (drop size left) s h))))
          ]
    ]

-- ListSeriesEvents against a venue that answers each request with the slice asked for, for a query
-- that names a series and does not ask for open events only: with more fuel than the venue has
-- events, it returns the events from the offset on, each key once, in the venue's order, up to the
-- limit (100 for none, 500 at most). In particular it ends.
pub list_series_events-distinct :
    (fuel : ℕ) (fetch : Gamma) (all : List GammaEvent) (q : EventQuery) (off : ℕ)
    → is_empty q.series_id ≡ false
    → open_only q.closed ≡ false
    → q.offset ≡ pos off
    → Slices fetch all
    → length all < 9223372036854775808
    → length all < fuel
    → list_series_events fuel fetch q
      ≡ listed (take (clamp_limit q.limit) (distinct [] (drop off all)))
unfolding list_series_events
list_series_events-distinct fuel fetch all q off named any at slices small enough =
    let none_taken : clamp_limit q.limit - 0 ≡ clamp_limit q.limit = omega arith in
    simp (named, any, at)
      (list_pages-distinct fuel fetch all (clamp_limit q.limit) off [] [] slices small (omega arith)
        ∙ ap (λ (k : ℕ). listed (take k (distinct [] (drop off all)))) none_taken)

scan_page_bounded :
    (limit : ℕ) (page : List GammaEvent) (s : Scan)
    → length s.events < limit
    → length (scan_page limit page s).events ≤ limit
unfolding scan_page
scan_page_bounded limit [] s h = omega arith
scan_page_bounded limit (ev ∷ page) s h =
    let s₁ : Scan = record s { all_closed = s.all_closed && ev.closed } in
    let s₂ : Scan = record s₁ {
      events = s.events ++ ev ∷ [];
      seen = insert (event_key ev) s.seen;
    } in
    ground (
      arith,
      length-append s.events (ev ∷ []),
      scan_page_bounded limit page s₁ h,
      scan_page_bounded limit page s₂,
    )

list_pages_bounded :
    (fuel : ℕ) (fetch : Gamma) (only : Bool) (limit : ℕ) (offset : ℤ) (events : List GammaEvent)
    (seen : List Text) (out : List GammaEvent)
    → length events ≤ limit
    → list_pages fuel fetch only limit offset events seen ≡ listed out
    → length out ≤ limit
unfolding list_pages
list_pages_bounded zero fetch only limit offset events seen out h run = cc
list_pages_bounded (suc fuel) fetch only limit offset events seen out h run =
    elim (Bool-cases (leb limit (length events))) [
      | inl full ↦ ground (arith, full, run)
      | inr room ↦
          let size = min (limit - length events) series_events_page_size in
          elim (Option-cases (fetch size offset)) [
            | inl e ↦ ground (arith, room, e, run)
            | inr (page, e) ↦
                let s : Scan = record {
                  events = events;
                  seen = seen;
                  all_closed = nonempty page;
                } in
                let s' = scan_page limit page s in
                let kept = scan_page_bounded limit page s (ground (arith, room)) in
                ground (
                  arith,
                  room,
                  e,
                  run,
                  kept,
                  list_pages_bounded fuel fetch only limit (wrap64 (offset +ℤ pos (length page)))
                      s'.events s'.seen out kept,
                )
          ]
    ]

-- Whatever the venue answers and whatever limit is asked for, ListSeriesEvents never returns more
-- than 500 events.
pub list_series_events_bounded :
    (fuel : ℕ) (fetch : Gamma) (q : EventQuery) (out : List GammaEvent)
    → list_series_events fuel fetch q ≡ listed out
    → length out ≤ 500
unfolding list_series_events clamp_limit
list_series_events_bounded fuel fetch q out run = elim (Bool-cases (is_empty q.series_id)) [
  | inl e ↦ ground (arith, e, run)
  | inr e ↦
      let bound =
        list_pages_bounded fuel fetch (open_only q.closed) (clamp_limit q.limit) q.offset [] [] out
          (omega arith) in
      ground (arith, e, run, bound)
]
