-- ===== src/Polymarket/Clob/Salt.antt =====
-- The salt of an order of pkg/polymarket/connector.go, and its JSON form in clob.go.
use go_exchange_connector.Prelude.{ℕ, ◌+◌, ◌<◌, Text, ◌≡◌, arith}
use go_exchange_connector.Prelude.Int.{ℤ, pos, ◌+ℤ◌, wrap64}
use go_exchange_connector.Polymarket.Rtds.Keys.{atoi_value, atoi_value-decimal}
use go_exchange_connector.Prelude.Decimal.{show_int}
use go_exchange_connector.Polymarket.Clob.{Order, ClobClient, envelope, unix_nano}

-- The number that `MarshalJSON` writes for the salt: `strconv.ParseInt`, its error ignored.
pub json_salt : Order → ℕ
json_salt o = atoi_value o.salt

-- A time from the Unix epoch on that UnixNano does not wrap around, n nanoseconds after the epoch.
abbrev pub after_epoch : ℕ → ℤ
after_epoch n = pos (62135596800000000000 + n)

unix_nano_after : (n : ℕ) → n < 9223372036854775808 → unix_nano (after_epoch n) ≡ pos n
unfolding unix_nano ◌+ℤ◌ wrap64
unix_nano_after n h = ground arith

-- An order that is built n nanoseconds after the epoch, with n below 2^63, is sent with the number n
-- as its salt, whatever else it holds: the text of the salt is read back as the clock that made it.
pub json_salt-envelope :
    (clob : ClobClient) (n : ℕ) (asset side lasting : Text) (expires making taking : ℤ)
    → n < 9223372036854775808
    → json_salt (envelope clob (after_epoch n) asset side expires lasting making taking).order ≡ n
unfolding json_salt envelope show_int
json_salt-envelope clob n asset side lasting expires making taking h =
    let one = unix_nano_after n h in rw one (atoi_value-decimal n h)
