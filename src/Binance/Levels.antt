-- ===== src/Binance/Levels.antt =====
-- pkg/binance/types.go and pkg/binance/binance.go: price levels, and the maps from price to quantity
-- that hold one side of a book. Prices and quantities are texts, as on the wire.
use go_exchange_connector.Prelude.{
  ℕ, zero, suc, Text, codes, eqb, eqb_iff, Bool, false, not, ◌||◌, List, [], ◌∷◌, Option, none,
  some, ◌≡◌, refl, arith, if◌then◌else◌, Option-cases, inl, inr,
}
use go_exchange_connector.Prelude.Dict.{lookup, put, remove, lookup-put, lookup-remove}

-- `binanceLevel`
pub record Level : Type 0 where
  pub price : Text
  pub qty : Text

-- One side of a book: `map[string]string`, price to quantity.
abbrev pub Side : Type 0
Side = List (Text × Text)

-- `parseBinanceLevels`, on the decoded pairs: entries with fewer than two parts are dropped.
unfoldable pub parse_levels : List (List Text) → List Level
parse_levels [] = []
parse_levels ([] ∷ pairs) = parse_levels pairs
parse_levels ((p ∷ []) ∷ pairs) = parse_levels pairs
parse_levels ((p ∷ q ∷ more) ∷ pairs) = record { price = p; qty = q } ∷ parse_levels pairs

-- The test by which `applyLevels` removes a level.
unfoldable pub removes : Text → Bool
removes q = eqb q (codes "0") || eqb q []

apply_level : Level → Side → Side
unfolding removes
apply_level l m = if removes l.qty then remove l.price m else put l.price l.qty m

-- `applyLevels`
pub apply_levels : List Level → Side → Side
unfolding apply_level
apply_levels [] m = m
apply_levels (l ∷ ls) m = apply_levels ls (apply_level l m)

-- `levelMap`, from `m` on.
unfoldable pub level_map_from : List (List Text) → Side → Side
level_map_from [] m = m
level_map_from ([] ∷ pairs) m = level_map_from pairs m
level_map_from ((p ∷ []) ∷ pairs) m = level_map_from pairs m
level_map_from ((p ∷ q ∷ more) ∷ pairs) m =
    level_map_from pairs (if not (eqb q (codes "0")) then put p q m else m)

-- `levelMap`
unfoldable pub level_map : List (List Text) → Side
unfolding level_map_from
level_map pairs = level_map_from pairs []

-- The quantity that a list of levels gives a price: the last one counts.
abbrev pub last_qty : Text → List Level → Option Text
last_qty p [] = none
last_qty p (l ∷ ls) = elim (last_qty p ls) [
  | some q ↦ some q
  | none ↦ if eqb p l.price then some l.qty else none
]

-- What a quantity on the wire leaves in the book.
abbrev pub kept : Text → Option Text
kept q = if removes q then none else some q

lookup-apply_level :
    (p : Text) (l : Level) (m : Side)
    → lookup p (apply_level l m) ≡ (if eqb p l.price then kept l.qty else lookup p m)
unfolding apply_level
lookup-apply_level p l m = ground (arith, lookup-put p l.price l.qty m, lookup-remove p l.price m)

-- After a diff, a price that the diff names has the last quantity that the diff gives it, or no
-- level if that quantity is "0" or empty; any other price is as before.
pub lookup-apply_levels :
    (p : Text) (ls : List Level) (m : Side)
    → lookup p (apply_levels ls m) ≡ elim (last_qty p ls) [ some q ↦ kept q | none ↦ lookup p m ]
unfolding apply_levels
lookup-apply_levels p [] m = refl
lookup-apply_levels p (l ∷ ls) m = elim (Option-cases (last_qty p ls)) [
  | inl e ↦ ground (arith, e, lookup-apply_levels p ls (apply_level l m), lookup-apply_level p l m)
  | inr (q, e) ↦ ground (arith, e, lookup-apply_levels p ls (apply_level l m))
]

abbrev zeros : ℕ → Text
zeros zero = []
zeros (suc n) = b'0' ∷ zeros n

-- "0." and n more zeros.
abbrev pub padded_zero : ℕ → Text
padded_zero n = b'0' ∷ b'.' ∷ zeros n

padded_zero_stays : (n : ℕ) → removes (padded_zero n) ≡ false
unfolding removes eqb
padded_zero_stays n = refl

-- A removal written with decimals, as in "0.00000000", is not recognised: whatever the number of
-- decimals, the level stays in the book with a quantity of zero.
pub padded_zero_kept :
    (n : ℕ) (p : Text) (m : Side)
    → lookup p (apply_levels (record { price = p; qty = padded_zero n } ∷ []) m)
      ≡ some (padded_zero n)
unfolding apply_levels
padded_zero_kept n p m = ground (
  arith,
  lookup-apply_level p (record { price = p; qty = padded_zero n }) m,
  (eqb_iff p p).1 refl,
  padded_zero_stays n,
)
