-- ===== src/Prelude/Texts.antt =====
-- Go strings as lists of character codes (code points, which are the bytes of ASCII text).
use Prim.Native.Nat.{ℕ}
use Prim.Native.Char.{code}
use Prim.Native.String.{String}
use mathlib.Core.Path.{◌≡◌, refl}
use mathlib.Core.Logic.{◌↔◌}
use mathlib.Core.Bool.{Bool, true, false, ◌&&◌}
use mathlib.Core.List.{List, [], ◌∷◌}
use native.Mathlib.Omega.{arith}
use go_exchange_connector.Prelude.Tests.{◌==◌}

abbrev pub Text : Type 0
Text = List ℕ

-- A literal.
abbrev pub codes : String → Text
codes String.[] = []
codes (String.◌∷◌ c s) = code c ∷ codes s

-- Go's `==` on strings.
unfoldable pub eqb : Text → Text → Bool
eqb [] [] = true
eqb [] (y ∷ ys) = false
eqb (x ∷ xs) [] = false
eqb (x ∷ xs) (y ∷ ys) = x == y && eqb xs ys

pub eqb_refl : (s : Text) → eqb s s ≡ true
unfolding eqb
eqb_refl [] = refl
eqb_refl (x ∷ xs) = ground (arith, eqb_refl xs)

eq_of_eqb : (s t : Text) → eqb s t ≡ true → s ≡ t
unfolding eqb
eq_of_eqb [] [] h = refl
eq_of_eqb [] (y ∷ ys) h = cc
eq_of_eqb (x ∷ xs) [] h = cc
eq_of_eqb (x ∷ xs) (y ∷ ys) h = ground (arith, eq_of_eqb xs ys)

eqb_of_eq : (s t : Text) → s ≡ t → eqb s t ≡ true
eqb_of_eq s t h = cc (eqb_refl s)

pub eqb_iff : (s t : Text) → (eqb s t ≡ true) ↔ (s ≡ t)
eqb_iff s t = (eq_of_eqb s t, eqb_of_eq s t)

-- `s == ""`
abbrev pub is_empty : Text → Bool
is_empty [] = true
is_empty (x ∷ xs) = false
