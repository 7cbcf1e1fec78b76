-- ===== src/Polymarket/Rtds/Keys.antt =====
-- pkg/polymarket/rtds.go: the keys of the topic registry, which carry the window of the Chainlink
-- TWAP topic. A window is not negative; a sign, which `strconv.Atoi` also reads, is left out.
use go_exchange_connector.Prelude.{
  ℕ, zero, suc, ◌+◌, ◌*◌, ◌-◌, ◌/◌, ◌%◌, ◌<◌, Text, is_empty, Bool, true, false, not, ◌&&◌, [], ◌∷◌,
  ◌++◌, Option, none, some, ◌≡◌, refl, ◌∙◌, ap, arith, ◌⊎◌, inl, inr, if◌then◌else◌, leb, ltb, ◌==◌,
  Bool-cases,
}
use go_exchange_connector.Prelude.Decimal.{digits, decimal}

-- `subsKey`
unfoldable pub subs_key : Text → ℕ → Text
unfolding decimal
subs_key topic window = if ltb 0 window then topic ++ b'|' ∷ decimal window else topic

-- The text before the last bar and the text after it (`strings.LastIndex`).
split_last : Text → Option (Text × Text)
split_last [] = none
split_last (c ∷ cs) = elim (split_last cs) [
  | some (before, after) ↦ some (c ∷ before, after)
  | none ↦ if c == b'|' then some ([], cs) else none
]

-- The number that the digits after `v` make; `none` is a syntax error.
unfoldable pub read_digits : Text → ℕ → Option ℕ
read_digits [] v = some v
read_digits (c ∷ cs) v =
    let more = read_digits cs (v * 10 + (c - 48)) in if leb 48 c && leb c 57 then more else none

-- The value of `strconv.Atoi`, also where its error is ignored.
unfoldable pub atoi_value : Text → ℕ
unfolding read_digits
atoi_value s = if is_empty s then 0 else elim (read_digits s 0) [
  | none ↦ 0
  | some v ↦ if leb 9223372036854775808 v then 9223372036854775807 else v
]

-- `splitSubsKey`
pub split_subs_key : Text → Text × ℕ
unfolding split_last atoi_value
split_subs_key key = elim (split_last key) [
  | some (topic, window) ↦ (topic, atoi_value window)
  | none ↦ (key, 0)
]

-- A text with no bar in it.
abbrev no_bar : Text → Bool
no_bar [] = true
no_bar (c ∷ cs) = not (c == b'|') && no_bar cs

read_digit :
    (n : ℕ) (acc : Text) (v : ℕ)
    → read_digits ((48 + n % 10) ∷ acc) v ≡ read_digits acc (v * 10 + (48 + n % 10 - 48))
unfolding read_digits
read_digit n acc v = ground arith

read_digits-digits :
    (fuel n : ℕ) (acc : Text) → n < fuel → read_digits (digits fuel n acc) 0 ≡ read_digits acc n
unfolding digits
read_digits-digits zero n acc h = absurd (omega arith)
read_digits-digits (suc fuel) n acc h = elim (Bool-cases (n / 10 == 0)) [
  | inl one ↦
      let same : 0 * 10 + (48 + n % 10 - 48) ≡ n = ground (arith, one) in
      simp one (read_digit n acc 0 ∙ ap (read_digits acc) same)
  | inr more ↦
      let same : n / 10 * 10 + (48 + n % 10 - 48) ≡ n = omega arith in
      simp more (
        read_digits-digits fuel (n / 10) ((48 + n % 10) ∷ acc) (ground (arith, more))
        ∙ read_digit n acc (n / 10)
        ∙ ap (read_digits acc) same)
]

no_bar-digits : (fuel n : ℕ) (acc : Text) → no_bar acc ≡ true → no_bar (digits fuel n acc) ≡ true
unfolding digits
no_bar-digits zero n acc h = h
no_bar-digits (suc fuel) n acc h =
    ground (arith, h, no_bar-digits fuel (n / 10) ((48 + n % 10) ∷ acc) (ground (arith, h)))

split_last-none : (s : Text) → no_bar s ≡ true → split_last s ≡ none
unfolding split_last
split_last-none [] h = refl
split_last-none (c ∷ cs) h = ground (arith, h, split_last-none cs)

split_last_at_bar : (a b : Text) → no_bar b ≡ true → split_last (a ++ b'|' ∷ b) ≡ some (a, b)
unfolding split_last
split_last_at_bar [] b h = ground (arith, split_last-none b h)
split_last_at_bar (c ∷ a) b h = ground (arith, split_last_at_bar a b h)

digits_nonempty :
    (fuel n : ℕ) (acc : Text) → is_empty acc ≡ false → is_empty (digits fuel n acc) ≡ false
unfolding digits
digits_nonempty zero n acc h = h
digits_nonempty (suc fuel) n acc h =
    ground (arith, digits_nonempty fuel (n / 10) ((48 + n % 10) ∷ acc) refl)

decimal_nonempty : (n : ℕ) → is_empty (decimal n) ≡ false
unfolding decimal digits
decimal_nonempty n = ground (arith, digits_nonempty n (n / 10) ((48 + n % 10) ∷ []) refl)

read_decimal : (n : ℕ) → read_digits (decimal n) 0 ≡ some n
unfolding decimal
read_decimal n = read_digits-digits (suc n) n [] (omega arith) ∙ unfold read_digits in refl

pub atoi_value-decimal : (n : ℕ) → n < 9223372036854775808 → atoi_value (decimal n) ≡ n
unfolding atoi_value
atoi_value-decimal n h = ground (arith, decimal_nonempty n, read_decimal n)

no_bar-decimal : (n : ℕ) → no_bar (decimal n) ≡ true
unfolding decimal
no_bar-decimal n = no_bar-digits (suc n) n [] refl

-- Reading a key back gives the topic and the window it was made of, if the window is an int64 and
-- either it is positive or the topic holds no bar.
pub split_subs_key-subs_key :
    (topic : Text) (window : ℕ)
    → window < 9223372036854775808
    → (0 < window) ⊎ (no_bar topic ≡ true)
    → split_subs_key (subs_key topic window) ≡ (topic, window)
unfolding split_subs_key subs_key
split_subs_key-subs_key topic window small how = ground (
  arith,
  how,
  small,
  split_last-none topic,
  split_last_at_bar topic (decimal window) (no_bar-decimal window),
  atoi_value-decimal window small,
)

-- A topic with no bar is its own key.
pub split_plain : (topic : Text) → no_bar topic ≡ true → split_subs_key topic ≡ (topic, 0)
unfolding split_subs_key
split_plain topic h = ground (arith, h, split_last-none topic)
