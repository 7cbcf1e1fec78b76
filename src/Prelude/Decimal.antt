-- ===== src/Prelude/Decimal.antt =====
-- fmt's `%d`.
use Prim.Native.Nat.{ℕ, zero, suc, ◌+◌, ◌/◌, ◌%◌}
use mathlib.Core.List.{[], ◌∷◌}
use go_exchange_connector.Prelude.Tests.{◌==◌, if◌then◌else◌}
use go_exchange_connector.Prelude.Texts.{Text}
use go_exchange_connector.Prelude.Int.{ℤ, pos, negsuc}

-- The digits of a number in front of a text, on fuel.
unfoldable pub digits : ℕ → ℕ → Text → Text
digits zero n acc = acc
digits (suc fuel) n acc =
    let acc' = (48 + n % 10) ∷ acc in
    let more = digits fuel (n / 10) acc' in if n / 10 == 0 then acc' else more

-- `%d`
unfoldable pub decimal : ℕ → Text
unfolding digits
decimal n = digits (suc n) n []

-- `%d` of a signed number.
unfoldable pub show_int : ℤ → Text
unfolding decimal
show_int (pos n) = decimal n
show_int (negsuc n) = b'-' ∷ decimal (suc n)
