-- ===== src/Polymarket/Series/Cache.antt =====
-- pkg/polymarket/series.go: the cache of series lookups, and GetSeries on it. What is cached is a
-- value of any type. Times are nanoseconds; the answer of the API is an argument.
use go_exchange_connector.Prelude.{
  ℕ, ◌+◌, ◌≤◌, ◌<◌, Text, eqb_refl, is_empty, false, List, Option, none, some, ◌≡◌, refl, arith,
  if◌then◌else◌, ltb,
}
use go_exchange_connector.Prelude.Int.{ℤ, pos, pos_part, leb_ℤ}
use go_exchange_connector.Prelude.Dict.{lookup, put, remove, lookup-put, lookup-remove}

-- `seriesCacheEntry`
pub record SeriesCacheEntry (Series : Type 0) : Type 0 where
  series : Series
  pub expires_at : ℕ

-- `seriesCache`; a nil map and an empty one are read alike.
pub record SeriesCache (Series : Type 0) : Type 0 where
  pub ttl : ℤ
  pub entries : List (Text × SeriesCacheEntry Series)

-- What GetSeries returns, and where it has it from.
pub data Answer (Series : Type 0) : Type 0 where
  slug_required : Answer Series
  request_failed : Answer Series
  cached : Series → Answer Series
  fetched : Series → Answer Series

-- `seriesCacheTTL`
abbrev series_cache_ttl : ℕ
series_cache_ttl = 3600000000000

-- The time to live that `store` works with.
abbrev pub effective_ttl : ℤ → ℕ
effective_ttl ttl = if leb_ℤ ttl (pos 0) then series_cache_ttl else pos_part ttl

module _ {Series : Type 0} where
  -- `lookup` at a time: an entry that has expired is deleted.
  lookup_series : ℕ → Text → SeriesCache Series → Option Series × SeriesCache Series
  lookup_series now slug c = elim (lookup slug c.entries) [
    | none ↦ (none, c)
    | some entry ↦
        if ltb entry.expires_at now
        then (none, record c { entries = remove slug c.entries })
        else (some entry.series, c)
  ]

  -- `store` at a time
  pub store_series : ℕ → Text → Series → SeriesCache Series → SeriesCache Series
  store_series now slug series c = record c {
    entries =
        put slug (record { series = series; expires_at = now + effective_ttl c.ttl }) c.entries;
  }

  -- `invalidate`
  pub invalidate : Text → SeriesCache Series → SeriesCache Series
  invalidate slug c = record c { entries = remove slug c.entries }

  -- What the API answers, as GetSeries passes it on and stores it.
  abbrev ask : Option Series → ℕ → Text → SeriesCache Series → Answer Series × SeriesCache Series
  ask none stored slug c = (request_failed, c)
  ask (some series) stored slug c = (fetched series, store_series stored slug series c)

  -- `GetSeries`: looked up at `now`; the API would answer `api`, which would be stored at `stored`.
  pub get_series :
      ℕ → Option Series → ℕ → Text → SeriesCache Series → Answer Series × SeriesCache Series
  unfolding lookup_series store_series
  get_series now api stored slug c =
      if is_empty slug
      then (slug_required, c)
      else let (found, c₁) = lookup_series now slug c in
        elim found [ some series ↦ (cached series, c₁) | none ↦ ask api stored slug c₁ ]

  -- What GetSeries returns if it has to ask the API.
  abbrev pub from_api : Option Series → Answer Series
  from_api none = request_failed
  from_api (some series) = fetched series

  ask_answers :
      (api : Option Series) (stored : ℕ) (slug : Text) (c : SeriesCache Series)
      → (ask api stored slug c).0 ≡ from_api api
  ask_answers none stored slug c = refl
  ask_answers (some series) stored slug c = refl

  -- Once a lookup has been stored at a time, GetSeries returns it without asking the API until the
  -- time to live is over, whatever the API would answer; it asks the API once that is over, and also
  -- at once if the slug was invalidated.
  pub get_series-store :
      (slug : Text) (series : Series) (stored now later : ℕ) (api : Option Series)
      (c : SeriesCache Series)
      → is_empty slug ≡ false
      → let c₁ = store_series stored slug series c in
        (now ≤ stored + effective_ttl c.ttl → (get_series now api later slug c₁).0 ≡ cached series)
        × (stored + effective_ttl c.ttl < now → (get_series now api later slug c₁).0 ≡ from_api api)
        × ((get_series now api later slug (invalidate slug c₁)).0 ≡ from_api api)
  unfolding get_series store_series lookup_series invalidate
  get_series-store slug series stored now later api c named =
      let entry : SeriesCacheEntry Series = record {
        series = series;
        expires_at = stored + effective_ttl c.ttl;
      } in
      let found = lookup-put slug slug entry c.entries in
      let gone = lookup-remove slug slug (put slug entry c.entries) in
      let same = eqb_refl slug in
      (
        λ fresh. ground (arith, named, found, same, fresh),
        λ over. ground (arith, named, found, same, over, ask_answers api),
        ground (arith, named, gone, same, ask_answers api),
      )
