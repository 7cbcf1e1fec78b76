-- ===== src/Prelude/Clock.antt =====
-- Times of Go's time package, in nanoseconds since the zero time, and internal/utils/parser.go.
use mathlib.Core.Option.{Option, none, some}
use go_exchange_connector.Prelude.Tests.{if◌then◌else◌}
use go_exchange_connector.Prelude.Texts.{Text, is_empty}
use go_exchange_connector.Prelude.Int.{ℤ, pos, negsuc, ◌+ℤ◌, ◌*ℤ◌, opposite, ltb_ℤ}

-- `time.UnixMilli`
abbrev pub at_millis : ℤ → ℤ
at_millis ms = (ms *ℤ pos 1000000) +ℤ pos 62135596800000000000

-- `Time.Sub`, a difference that stops at the ends of an int64.
unfoldable pub sub_time : ℤ → ℤ → ℤ
sub_time t u =
    let d = t +ℤ opposite u in
    if ltb_ℤ (pos 9223372036854775807) d
    then pos 9223372036854775807
    else if ltb_ℤ d (negsuc 9223372036854775807)
    then negsuc 9223372036854775807
    else d

-- `SafeParseTimestamp`, with `parseInt64`: what Sscanf reads with "%d", and time.Now().
unfoldable pub safe_parse_timestamp : (Text → Option ℤ) → ℤ → Text → ℤ
safe_parse_timestamp scan_int now ts =
    if is_empty ts then now else elim (scan_int ts) [ none ↦ now | some millis ↦ at_millis millis ]
