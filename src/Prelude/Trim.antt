-- ===== src/Prelude/Trim.antt =====
-- strings.TrimSpace and strings.Join over lists of code points, and the character classes of Go's
-- unicode package that they need.
use Prim.Native.Nat.{ℕ, ◌+◌}
use mathlib.Core.Path.{◌≡◌, refl}
use mathlib.Core.Bool.{Bool, true, not, ◌&&◌, ◌||◌}
use mathlib.Core.List.{List, [], ◌∷◌, ◌++◌}
use native.Mathlib.Omega.{arith}
use go_exchange_connector.Prelude.Tests.{ltb, leb, ◌==◌, if◌then◌else◌}
use go_exchange_connector.Prelude.Texts.{Text, is_empty}

abbrev between : ℕ → ℕ → ℕ → Bool
between lo hi r = leb lo r && leb r hi

-- `unicode.IsSpace`
unfoldable pub is_space : ℕ → Bool
is_space r =
    between 9 13 r
    || r == 32
    || r == 0x85
    || r == 0xa0
    || r == 0x1680
    || between 0x2000 0x200a r
    || r == 0x2028
    || r == 0x2029
    || r == 0x202f
    || r == 0x205f
    || r == 0x3000

-- `unicode.IsControl`
unfoldable pub is_control : ℕ → Bool
is_control r = ltb r 32 || between 0x7f 0x9f r

unfoldable pub trim_left : Text → Text
trim_left [] = []
trim_left (c ∷ cs) = let rest = trim_left cs in if is_space c then rest else c ∷ cs

unfoldable pub trim_right : Text → Text
trim_right [] = []
trim_right (c ∷ cs) =
    let rest = trim_right cs in if is_space c && is_empty rest then [] else c ∷ rest

-- `strings.TrimSpace`
unfoldable pub trim_space : Text → Text
unfolding trim_left trim_right is_space
trim_space s = trim_right (trim_left s)

-- `strings.Join`
unfoldable pub join : Text → List Text → Text
join sep [] = []
join sep (t ∷ []) = t
join sep (t ∷ u ∷ ts) = t ++ (sep ++ join sep (u ∷ ts))

-- A text with no space in it.
unfoldable pub is_solid : Text → Bool
is_solid [] = true
is_solid (c ∷ cs) = not (is_space c) && is_solid cs

trim_left_solid : (s : Text) → is_solid s ≡ true → trim_left s ≡ s
unfolding trim_left is_solid
trim_left_solid [] h = refl
trim_left_solid (c ∷ cs) h = ground (arith, h)

trim_right_solid : (s : Text) → is_solid s ≡ true → trim_right s ≡ s
unfolding trim_right is_solid
trim_right_solid [] h = refl
trim_right_solid (c ∷ cs) h = ground (arith, trim_right_solid cs)

pub trim_space_solid : (s : Text) → is_solid s ≡ true → trim_space s ≡ s
unfolding trim_space
trim_space_solid s h = ground (arith, trim_left_solid s h, trim_right_solid s h)

-- `strings.ToLower` on one ASCII character.
unfoldable pub lower_char : ℕ → ℕ
lower_char c = if leb 65 c && leb c 90 then c + 32 else c

-- `strings.ToLower`
unfoldable pub to_lower : Text → Text
unfolding lower_char
to_lower [] = []
to_lower (c ∷ cs) = lower_char c ∷ to_lower cs
