-- ===== src/Polymarket/Series.antt =====
-- pkg/polymarket/series.go: the pages of ListSeriesEvents. The Gamma API is a parameter: what it
-- answers to a request for a page.
pub mod Pages
pub mod Cache
mod Tests
use go_exchange_connector.Prelude.{
  ℕ, zero, suc, ◌-◌, Text, is_empty, Bool, true, false, not, ◌&&◌, List, [], ◌∷◌, ◌++◌, Option,
  none, some, if◌then◌else◌, length, ltb, leb, min,
}
use go_exchange_connector.Prelude.Int.{ℤ, pos, pos_part, ◌+ℤ◌, leb_ℤ, ltb_ℤ, wrap64}
use go_exchange_connector.Prelude.Sets.{has, insert}

-- The fields of `GammaEvent` that the loop reads.
pub record GammaEvent : Type 0 where
  pub id : Text
  pub slug : Text
  pub closed : Bool

-- The fields of `EventQuery` that the loop reads; `closed` is a pointer in the source.
pub record EventQuery : Type 0 where
  pub series_id : Text
  pub closed : Option Bool
  pub limit : ℤ
  pub offset : ℤ

-- The answer to a request for a page size at an offset; `none` is an error.
abbrev pub Gamma : Type 0
Gamma = ℕ → ℤ → Option (List GammaEvent)

-- `defaultSeriesEventsLimit`, `maxSeriesEventsLimit` and `seriesEventsPageSize`
abbrev default_series_events_limit : ℕ
default_series_events_limit = 100

abbrev max_series_events_limit : ℕ
max_series_events_limit = 500

abbrev pub series_events_page_size : ℕ
series_events_page_size = 100

-- The limit that the loop works with.
pub clamp_limit : ℤ → ℕ
clamp_limit limit =
    let l = if leb_ℤ limit (pos 0) then pos default_series_events_limit else limit in
    if ltb_ℤ (pos max_series_events_limit) l then max_series_events_limit else pos_part l

-- `openOnly`
pub open_only : Option Bool → Bool
open_only none = false
open_only (some closed) = not closed

-- The key by which an event is told apart.
abbrev pub event_key : GammaEvent → Text
event_key ev = if is_empty ev.id then ev.slug else ev.id

-- What the loop over a page leaves: `events`, `seen` and `allClosed`.
pub record Scan : Type 0 where
  pub events : List GammaEvent
  pub seen : List Text
  pub all_closed : Bool

-- The loop over a page; it stops when the limit is reached.
pub scan_page : ℕ → List GammaEvent → Scan → Scan
scan_page limit [] s = s
scan_page limit (ev ∷ page) s =
    let s₁ : Scan = record s { all_closed = s.all_closed && ev.closed } in
    let s₂ : Scan = record s₁ {
      events = s.events ++ ev ∷ [];
      seen = insert (event_key ev) s.seen;
    } in
    let repeated = scan_page limit page s₁ in
    let more = scan_page limit page s₂ in
    if has (event_key ev) s.seen
    then repeated
    else if leb limit (suc (length s.events))
    then s₂
    else more

pub data Outcome : Type 0 where
  failed : Outcome
  listed : List GammaEvent → Outcome
  out_of_fuel : Outcome

abbrev pub nonempty : List GammaEvent → Bool
nonempty [] = false
nonempty (ev ∷ page) = true

-- The loop over the pages, on fuel.
pub list_pages : ℕ → Gamma → Bool → ℕ → ℤ → List GammaEvent → List Text → Outcome
unfolding scan_page
list_pages zero fetch only limit offset events seen = out_of_fuel
list_pages (suc fuel) fetch only limit offset events seen =
    if leb limit (length events)
    then listed events
    else let size = min (limit - length events) series_events_page_size in
      elim (fetch size offset) [
        | none ↦ failed
        | some page ↦
            let s =
              scan_page limit page
                (record { events = events; seen = seen; all_closed = nonempty page }) in
            let rest =
              list_pages fuel fetch only limit (wrap64 (offset +ℤ pos (length page))) s.events
                s.seen in
            if ltb (length page) size
            then listed s.events
            else if only && s.all_closed
            then listed s.events
            else rest
      ]

-- `ListSeriesEvents`
pub list_series_events : ℕ → Gamma → EventQuery → Outcome
unfolding list_pages clamp_limit open_only
list_series_events fuel fetch q =
    if is_empty q.series_id
    then failed
    else list_pages fuel fetch (open_only q.closed) (clamp_limit q.limit) q.offset [] []
