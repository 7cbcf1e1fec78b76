-- ===== src/Polymarket/Rtds/Symbols.antt =====
-- Symbols of pkg/polymarket/rtds.go: normalising, and the loops that add and remove them.
use go_exchange_connector.Prelude.{
  ℕ, Text, eqb, is_empty, Bool, true, false, not, ◌&&◌, ◌||◌, List, [], ◌∷◌, ◌≡◌, refl, ◌∙◌, ap,
  arith,
}
use go_exchange_connector.Prelude.Sets.{has, insert, delete, has-insert, has-delete, has_congr}
use go_exchange_connector.Prelude.Trim.{
  lower_char, to_lower, is_space, trim_left, trim_right, trim_space,
}
use go_exchange_connector.Polymarket.Rtds.{normalize_symbol, add_loop, remove_loop, none_in}

is_space-lower_char : (c : ℕ) → is_space (lower_char c) ≡ is_space c
unfolding is_space lower_char
is_space-lower_char c = ground arith

lower_char_idem : (c : ℕ) → lower_char (lower_char c) ≡ lower_char c
unfolding lower_char
lower_char_idem c = ground arith

to_lower_idem : (s : Text) → to_lower (to_lower s) ≡ to_lower s
unfolding to_lower
to_lower_idem [] = refl
to_lower_idem (c ∷ cs) = cc (lower_char_idem c, to_lower_idem cs)

trim_left-to_lower : (s : Text) → trim_left (to_lower s) ≡ to_lower (trim_left s)
unfolding to_lower trim_left
trim_left-to_lower [] = refl
trim_left-to_lower (c ∷ cs) = ground (arith, is_space-lower_char c, trim_left-to_lower cs)

trim_right-to_lower : (s : Text) → trim_right (to_lower s) ≡ to_lower (trim_right s)
unfolding to_lower trim_right
trim_right-to_lower [] = refl
trim_right-to_lower (c ∷ cs) = ground (arith, is_space-lower_char c, trim_right-to_lower cs)

trim_right_idem : (s : Text) → trim_right (trim_right s) ≡ trim_right s
unfolding trim_right
trim_right_idem [] = refl
trim_right_idem (c ∷ cs) = ground (arith, trim_right_idem cs)

trim_space_idem : (s : Text) → trim_space (trim_space s) ≡ trim_space s
unfolding trim_space trim_left trim_right
trim_space_idem [] = refl
trim_space_idem (c ∷ cs) =
    ground (arith, trim_space_idem cs, trim_right_idem (trim_left cs), trim_right_idem cs)

-- Normalising a symbol again changes nothing.
pub normalize_symbol_idem : (s : Text) → normalize_symbol (normalize_symbol s) ≡ normalize_symbol s
unfolding normalize_symbol trim_space
normalize_symbol_idem s =
    let t = trim_left s in
    ap to_lower (
      ap trim_right (trim_left-to_lower (trim_right t))
      ∙ trim_right-to_lower _
      ∙ ap to_lower (trim_space_idem s))
    ∙ to_lower_idem (trim_space s)

-- Is a symbol among the raw ones? The empty symbol never is.
abbrev pub asked : Text → List Text → Bool
asked j [] = false
asked j (raw ∷ raws) =
    (eqb j (normalize_symbol raw) && not (is_empty (normalize_symbol raw))) || asked j raws

pub has-add_loop :
    (j : Text) (raws set : List Text) → has j (add_loop raws set).0 ≡ (asked j raws || has j set)
unfolding add_loop
has-add_loop j [] set = refl
has-add_loop j (raw ∷ raws) set =
    let s = normalize_symbol raw in
    ground (
      arith,
      has-add_loop j raws set,
      has-add_loop j raws (insert s set),
      has-insert j s set,
      has_congr j s set,
    )

pub has-remove_loop :
    (j : Text) (raws set : List Text)
    → has j (remove_loop raws set).0 ≡ (not (asked j raws) && has j set)
unfolding remove_loop
has-remove_loop j [] set = refl
has-remove_loop j (raw ∷ raws) set =
    let s = normalize_symbol raw in
    ground (
      arith,
      has-remove_loop j raws set,
      has-remove_loop j raws (delete s set),
      has-delete j s set,
      has_congr j s set,
    )

-- The symbols that were added are those asked for that were not there.
pub asked-add_loop :
    (j : Text) (raws set : List Text)
    → asked j (add_loop raws set).1 ≡ (asked j raws && not (has j set))
unfolding add_loop
asked-add_loop j [] set = refl
asked-add_loop j (raw ∷ raws) set =
    let s = normalize_symbol raw in
    ground (
      arith,
      asked-add_loop j raws set,
      asked-add_loop j raws (insert s set),
      has-insert j s set,
      has_congr j s set,
      normalize_symbol_idem raw,
    )

-- The symbols that were removed are those asked for that were there.
pub asked-remove_loop :
    (j : Text) (raws set : List Text)
    → asked j (remove_loop raws set).1 ≡ (asked j raws && has j set)
unfolding remove_loop
asked-remove_loop j [] set = refl
asked-remove_loop j (raw ∷ raws) set =
    let s = normalize_symbol raw in
    ground (
      arith,
      asked-remove_loop j raws set,
      asked-remove_loop j raws (delete s set),
      has-delete j s set,
      has_congr j s set,
      normalize_symbol_idem raw,
    )

-- If nothing was added, the set is as before.
pub add_loop_none :
    (raws set : List Text) → none_in (add_loop raws set).1 ≡ true → (add_loop raws set).0 ≡ set
unfolding add_loop
add_loop_none [] set h = refl
add_loop_none (raw ∷ raws) set h = ground (arith, h, add_loop_none raws set)

pub remove_loop_none :
    (raws set : List Text)
    → none_in (remove_loop raws set).1 ≡ true
    → (remove_loop raws set).0 ≡ set
unfolding remove_loop
remove_loop_none [] set h = refl
remove_loop_none (raw ∷ raws) set h = ground (arith, h, remove_loop_none raws set)

none_in-insert : (s : Text) (set : List Text) → none_in (insert s set) ≡ false
unfolding insert has
none_in-insert s [] = refl
none_in-insert s (t ∷ set) = ground arith

-- Adding never empties a set.
pub add_loop_nonempty :
    (raws set : List Text) → none_in set ≡ false → none_in (add_loop raws set).0 ≡ false
unfolding add_loop
add_loop_nonempty [] set h = h
add_loop_nonempty (raw ∷ raws) set h =
    let s = normalize_symbol raw in
    ground (
      arith,
      add_loop_nonempty raws set h,
      add_loop_nonempty raws (insert s set) (none_in-insert s set),
    )

-- Nothing is removed from an empty set.
pub remove_loop_empty : (raws : List Text) → remove_loop raws [] ≡ ([], [])
unfolding remove_loop has
remove_loop_empty [] = refl
remove_loop_empty (raw ∷ raws) = ground (arith, remove_loop_empty raws)
