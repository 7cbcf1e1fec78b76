-- ===== src/Prelude/Sets.antt =====
-- Go's `map[string]struct{}` as a list of its keys. Go leaves the order of iteration open, so what
-- is proved of a set speaks of membership alone.
use go_exchange_connector.Prelude.Tests.{if◌then◌else◌}
use go_exchange_connector.Prelude.Texts.{Text, eqb, eqb_iff}
use mathlib.Core.Path.{◌≡◌, refl}
use mathlib.Core.Bool.{Bool, true, false, not, ◌&&◌, ◌||◌}
use mathlib.Core.List.{List, [], ◌∷◌, ◌++◌}
use native.Mathlib.Omega.{arith}

-- `_, ok := s[k]`
unfoldable pub has : Text → List Text → Bool
has j [] = false
has j (x ∷ xs) = eqb j x || has j xs

-- `s[k] = struct{}{}`
unfoldable pub insert : Text → List Text → List Text
insert k s = if has k s then s else k ∷ s

-- `delete(s, k)`
unfoldable pub delete : Text → List Text → List Text
delete k [] = []
delete k (x ∷ xs) = let rest = delete k xs in if eqb k x then rest else x ∷ rest

pub has_congr : (j k : Text) (s : List Text) → eqb j k ≡ true → has j s ≡ has k s
has_congr j k s h = cc ((eqb_iff j k).0 h)

pub has-insert : (j k : Text) (s : List Text) → has j (insert k s) ≡ (eqb j k || has j s)
unfolding insert has
has-insert j k s = ground (arith, has_congr j k s)

pub has-delete : (j k : Text) (s : List Text) → has j (delete k s) ≡ (not (eqb j k) && has j s)
unfolding delete has
has-delete j k [] = ground arith
has-delete j k (x ∷ xs) = ground (arith, has-delete j k xs, eqb_iff j k, eqb_iff k x, eqb_iff j x)

pub has-append : (j : Text) (s t : List Text) → has j (s ++ t) ≡ (has j s || has j t)
unfolding has
has-append j [] t = refl
has-append j (x ∷ xs) t = ground (arith, has-append j xs t)

-- The loop that adds every key of a list.
unfoldable pub insert_all : List Text → List Text → List Text
insert_all [] s = s
insert_all (k ∷ ks) s = insert_all ks (insert k s)

-- The loop that deletes every key of a list.
unfoldable pub delete_all : List Text → List Text → List Text
delete_all [] s = s
delete_all (k ∷ ks) s = delete_all ks (delete k s)

pub has-insert_all : (j : Text) (ks s : List Text) → has j (insert_all ks s) ≡ (has j ks || has j s)
unfolding insert_all has
has-insert_all j [] s = refl
has-insert_all j (k ∷ ks) s = ground (arith, has-insert_all j ks (insert k s), has-insert j k s)

pub has-delete_all :
    (j : Text) (ks s : List Text) → has j (delete_all ks s) ≡ (not (has j ks) && has j s)
unfolding delete_all has
has-delete_all j [] s = ground arith
has-delete_all j (k ∷ ks) s = ground (arith, has-delete_all j ks (delete k s), has-delete j k s)
