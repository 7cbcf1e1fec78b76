-- ===== src/Prelude/Sort.antt =====
-- Go's order on strings, and sorting by it (`sort.Strings`).
use mathlib.Core.Path.{◌≡◌, refl}
use mathlib.Core.Bool.{Bool, true, false, ◌||◌}
use mathlib.Core.List.{List, [], ◌∷◌}
use native.Mathlib.Omega.{arith}
use go_exchange_connector.Prelude.Tests.{ltb, ◌==◌, if◌then◌else◌}
use go_exchange_connector.Prelude.Texts.{Text, eqb}
use go_exchange_connector.Prelude.Sets.{has}

-- `<` on Go strings.
unfoldable pub text_lt : Text → Text → Bool
text_lt [] [] = false
text_lt [] (y ∷ ys) = true
text_lt (x ∷ xs) [] = false
text_lt (x ∷ xs) (y ∷ ys) = let rest = text_lt xs ys in if x == y then rest else ltb x y

unfoldable pub insert_text : Text → List Text → List Text
insert_text s [] = s ∷ []
insert_text s (t ∷ ts) = let rest = insert_text s ts in if text_lt s t then s ∷ t ∷ ts else t ∷ rest

unfoldable pub sort_texts : List Text → List Text
unfolding insert_text
sort_texts [] = []
sort_texts (t ∷ ts) = insert_text t (sort_texts ts)

has-insert_text : (j s : Text) (ts : List Text) → has j (insert_text s ts) ≡ (eqb j s || has j ts)
unfolding insert_text has
has-insert_text j s [] = refl
has-insert_text j s (t ∷ ts) = ground (arith, has-insert_text j s ts)

-- Sorting keeps the members.
pub has-sort_texts : (j : Text) (ts : List Text) → has j (sort_texts ts) ≡ has j ts
unfolding sort_texts has
has-sort_texts j [] = refl
has-sort_texts j (t ∷ ts) = ground (arith, has-sort_texts j ts, has-insert_text j t (sort_texts ts))
