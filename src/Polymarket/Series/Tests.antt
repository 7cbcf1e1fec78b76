-- ===== src/Polymarket/Series/Tests.antt =====
-- Runs of pkg/polymarket/series.go: two pages with a repeated event, and a cached lookup.
use go_exchange_connector.Prelude.{
  Text, codes, eqb, false, List, [], ◌∷◌, none, some, ◌≡◌, refl, arith, take, drop,
}
use go_exchange_connector.Prelude.Int.{pos, ◌+ℤ◌, wrap64}
use go_exchange_connector.Prelude.Sets.{has, insert}
use go_exchange_connector.Polymarket.Series.{
  GammaEvent, EventQuery, Gamma, listed, clamp_limit, open_only, scan_page, list_pages,
  list_series_events,
}
use go_exchange_connector.Polymarket.Series.Pages.{distinct}
use go_exchange_connector.Polymarket.Series.Pages.Listing.{list_series_events-distinct}
use go_exchange_connector.Polymarket.Series.Cache.{SeriesCache}

abbrev event_of : Text → GammaEvent
event_of id = record { id = id; slug = []; closed = false }

-- The second event is listed twice.
abbrev venue_events : List GammaEvent
venue_events =
    event_of (codes "1") ∷ event_of (codes "2") ∷ event_of (codes "2") ∷ event_of (codes "3") ∷ []

abbrev slices : Gamma
slices n (pos off) = some (take n (drop off venue_events))
slices n _ = none

-- Two events from the second on.
abbrev two_from_one : EventQuery
two_from_one = record { series_id = codes "10151"; closed = none; limit = pos 2; offset = pos 1 }

nothing_excluded : open_only none ≡ false
unfolding open_only
nothing_excluded = refl

list_series_events-distinct_example :
    list_series_events 5 slices two_from_one
    ≡ listed (take (clamp_limit (pos 2)) (distinct [] (drop 1 venue_events)))
list_series_events-distinct_example =
    list_series_events-distinct 5 slices venue_events two_from_one 1 refl nothing_excluded refl
      (λ n off. refl) (omega arith) (omega arith)

two_listed :
    list_series_events 5 slices two_from_one
    ≡ listed (event_of (codes "2") ∷ event_of (codes "3") ∷ [])
unfolding list_series_events list_pages scan_page clamp_limit open_only has insert eqb wrap64 ◌+ℤ◌
two_listed = refl

abbrev no_series : SeriesCache Text
no_series = record { ttl = pos 0; entries = [] }
