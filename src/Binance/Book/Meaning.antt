-- ===== src/Binance/Book/Meaning.antt =====
-- What price levels on the wire say of the venue's book, apart from how pkg/binance reads them.
use go_exchange_connector.Prelude.{
  Text, codes, eqb, eqb_iff, Bool, true, false, not, ◌&&◌, ◌||◌, List, [], ◌∷◌, Option, none, some,
  ◌≡◌, refl, ◌∙◌, subst, arith, if◌then◌else◌, Option-cases, Bool-cases, inl, inr, ◌⊎◌, ◌==◌,
}
use go_exchange_connector.Prelude.Dict.{lookup, put, lookup-put}
use go_exchange_connector.Binance.Levels.{
  Side, parse_levels, removes, level_map, level_map_from, apply_levels, last_qty, kept,
  lookup-apply_levels,
}

-- The last quantity that pairs of texts give a price.
abbrev pub named : Text → List (List Text) → Option Text
named p [] = none
named p ([] ∷ pairs) = named p pairs
named p ((x ∷ []) ∷ pairs) = named p pairs
named p ((x ∷ q ∷ more) ∷ pairs) = elim (named p pairs) [
  | some later ↦ some later
  | none ↦ if eqb p x then some q else none
]

-- A quantity of zero, with or without decimals.
unfoldable pub is_zero_text : Text → Bool
is_zero_text [] = true
is_zero_text (c ∷ cs) = (c == b'0' || c == b'.') && is_zero_text cs

-- What a quantity says: a level, or that there is none.
abbrev pub meaning : Text → Option Text
meaning q = if is_zero_text q then none else some q

-- A quantity that is zero is written without decimals.
abbrev pub IsPlain : Text → Type 0
IsPlain q = is_zero_text q ≡ true → (q ≡ codes "0") ⊎ (q ≡ [])

-- Something holds of the quantity of every level.
abbrev pub OfEach : (Text → Type 0) → List (List Text) → Type 0
OfEach P [] = Unit
OfEach P ([] ∷ pairs) = OfEach P pairs
OfEach P ((x ∷ []) ∷ pairs) = OfEach P pairs
OfEach P ((x ∷ q ∷ more) ∷ pairs) = P q × OfEach P pairs

last_qty-parse_levels :
    (p : Text) (pairs : List (List Text)) → last_qty p (parse_levels pairs) ≡ named p pairs
unfolding parse_levels
last_qty-parse_levels p [] = refl
last_qty-parse_levels p ([] ∷ pairs) = last_qty-parse_levels p pairs
last_qty-parse_levels p ((x ∷ []) ∷ pairs) = last_qty-parse_levels p pairs
last_qty-parse_levels p ((x ∷ q ∷ more) ∷ pairs) = rw (last_qty-parse_levels p pairs) refl

OfEach-named :
    (P : Text → Type 0) (p q : Text) (pairs : List (List Text))
    → OfEach P pairs
    → named p pairs ≡ some q
    → P q
OfEach-named P p q [] each h = cc
OfEach-named P p q ([] ∷ pairs) each h = OfEach-named P p q pairs each h
OfEach-named P p q ((x ∷ []) ∷ pairs) each h = OfEach-named P p q pairs each h
OfEach-named P p q ((x ∷ y ∷ more) ∷ pairs) each h = elim (Option-cases (named p pairs)) [
  | inr (later, found) ↦ OfEach-named P p q pairs each.1 (found ∙ ground (arith, found, h))
  | inl nothing ↦ let same : y ≡ q = ground (arith, nothing, h) in subst P same each.0
]

removed_zero : (q : Text) → removes q ≡ true → is_zero_text q ≡ true
unfolding removes is_zero_text
removed_zero q h = elim (Bool-cases (eqb q (codes "0"))) [
  | inl digit ↦ rw ((eqb_iff q (codes "0")).0 digit) refl
  | inr other ↦ rw ((eqb_iff q []).0 (ground (arith, other, h))) refl
]

-- A plain quantity is kept exactly if it means a level.
kept-meaning : (q : Text) → IsPlain q → kept q ≡ meaning q
unfolding removes is_zero_text eqb
kept-meaning q plain = elim (Bool-cases (is_zero_text q)) [
  | inl zero ↦ elim (plain zero) [ inl e ↦ rw e refl | inr e ↦ rw e refl ]
  | inr more ↦ elim (Bool-cases (removes q)) [
    | inr stays ↦ rw (stays, more) refl
    | inl out ↦ absurd (ground (arith, more, removed_zero q out))
  ]
]

-- After the levels of a diff, a price that it names has what its last quantity means, and any other
-- price is as before.
pub lookup-apply_named :
    (p : Text) (pairs : List (List Text)) (m : Side)
    → OfEach IsPlain pairs
    → lookup p (apply_levels (parse_levels pairs) m)
      ≡ elim (named p pairs) [ some q ↦ meaning q | none ↦ lookup p m ]
lookup-apply_named p pairs m plain =
    let applied = lookup-apply_levels p (parse_levels pairs) m in
    let same = last_qty-parse_levels p pairs in
    elim (Option-cases (named p pairs)) [
      | inl nothing ↦ rw nothing (applied ∙ rw (same ∙ nothing) refl)
      | inr (q, found) ↦ rw found (
          applied
          ∙ rw (same ∙ found) refl
          ∙ kept-meaning q (OfEach-named IsPlain p q pairs plain found))
    ]

-- A quantity that is not zero.
abbrev pub IsSome : Text → Type 0
IsSome q = is_zero_text q ≡ false

some-kept : (q : Text) → IsSome q → not (eqb q (codes "0")) ≡ true
some-kept q h = elim (Bool-cases (eqb q (codes "0"))) [
  | inr other ↦ ground (arith, other)
  | inl digit ↦
      let zero : is_zero_text q ≡ true =
        rw ((eqb_iff q (codes "0")).0 digit) (unfold is_zero_text in refl) in
      absurd (ground (arith, h, zero))
]

lookup-level_map_from :
    (p : Text) (pairs : List (List Text)) (m : Side)
    → OfEach IsSome pairs
    → lookup p (level_map_from pairs m)
      ≡ elim (named p pairs) [ some q ↦ some q | none ↦ lookup p m ]
unfolding level_map_from
lookup-level_map_from p [] m each = refl
lookup-level_map_from p ([] ∷ pairs) m each = lookup-level_map_from p pairs m each
lookup-level_map_from p ((x ∷ []) ∷ pairs) m each = lookup-level_map_from p pairs m each
lookup-level_map_from p ((x ∷ q ∷ more) ∷ pairs) m (now, each) = rw (some-kept q now) (
    lookup-level_map_from p pairs (put x q m) each ∙ elim (Option-cases (named p pairs)) [
      | inl nothing ↦ rw nothing (ground (arith, lookup-put p x q m, eqb_iff p x))
      | inr (later, found) ↦ rw found refl
    ])

-- The map of a snapshot has the last quantity that it gives each price.
pub lookup-level_map :
    (p : Text) (pairs : List (List Text))
    → OfEach IsSome pairs
    → lookup p (level_map pairs) ≡ named p pairs
unfolding level_map lookup
lookup-level_map p pairs each =
    lookup-level_map_from p pairs [] each ∙ elim (Option-cases (named p pairs)) [
      | inl nothing ↦ rw nothing refl
      | inr (q, found) ↦ rw found refl
    ]
