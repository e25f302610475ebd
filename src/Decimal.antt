-- ===== src/Decimal.antt =====
-- The standard library's decimal text of a number and its reading as a `u64`, which src/counter.rs
-- and src/store.rs use: `to_string` and `parse::<u64>`.
pub mod RoundTrip
use digital_garden_visitor_c.Common.{
  ℕ, zero, suc, ◌+◌, ◌-◌, ◌*◌, ◌/◌, ◌%◌, ◌^◌, [], ◌∷◌, Bool, Option, none, some, Text,
  if◌then◌else◌, ltb, leb, ◌==◌, ◌&&◌,
}

-- The digits of `n` in front of `out`. Each round divides by ten, so `n` rounds are enough.
unfoldable pub digits : ℕ → ℕ → Text → Text
digits zero n out = (b'0' + n) ∷ out
digits (suc fuel) n out =
    let more = digits fuel (n / 10) ((b'0' + n % 10) ∷ out) in
    if ltb n 10 then (b'0' + n) ∷ out else more

unfoldable pub to_string : ℕ → Text
unfolding digits
to_string n = digits n n []

abbrev pub is_digit : ℕ → Bool
is_digit c = leb b'0' c && leb c b'9'

-- The value of digits behind the value `n` of those before them; `none` is an error: a character
-- that is no digit, or a value past `u64::MAX`.
unfoldable pub parse_digits : ℕ → Text → Option ℕ
parse_digits n [] = some n
parse_digits n (c ∷ s) =
    let rest = parse_digits (n * 10 + (c - b'0')) s in
    if is_digit c && ltb (n * 10 + (c - b'0')) (2 ^ 64) then rest else none

-- A sign `+` may stand before the digits, and there is a digit.
unfoldable pub parse_u64 : Text → Option ℕ
unfolding parse_digits
parse_u64 [] = none
parse_u64 (c ∷ []) = parse_digits 0 (c ∷ [])
parse_u64 (c ∷ d ∷ s) = if c == b'+' then parse_digits 0 (d ∷ s) else parse_digits 0 (c ∷ d ∷ s)
