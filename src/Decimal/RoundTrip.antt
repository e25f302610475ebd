-- ===== src/Decimal/RoundTrip.antt =====
-- The decimal text of a `u64` is read back as that number.
use native.Mathlib.Nat.{pow-suc}
use digital_garden_visitor_c.Common.{
  ℕ, zero, suc, ◌+◌, ◌-◌, ◌*◌, ◌/◌, ◌%◌, ◌^◌, ◌≤◌, ◌<◌, ◌≡◌, refl, arith, [], ◌∷◌, true, some, Text,
  inl, inr, Bool-cases, ◌==◌, ltb, lt→ltb, All, length, ◌∙◌,
}
use digital_garden_visitor_c.Decimal.{digits, to_string, parse_digits, parse_u64}

abbrev pub IsDigit : ℕ → Type 0
IsDigit c = (b'0' ≤ c) × (c ≤ b'9')

-- Reading the last digit of `n` after the digits before it gives `n`.
parse_last :
    (n : ℕ) (out : Text)
    → n < 2 ^ 64
    → parse_digits (n / 10) ((b'0' + n % 10) ∷ out) ≡ parse_digits n out
unfolding parse_digits
parse_last n out h = ground arith

parse_first : (n : ℕ) (out : Text) → n < 10 → parse_digits 0 ((b'0' + n) ∷ out) ≡ parse_digits n out
unfolding parse_digits
parse_first n out h = ground arith

parse_digits-digits :
    (fuel n : ℕ) (out : Text)
    → n ≤ fuel
    → n < 2 ^ 64
    → parse_digits 0 (digits fuel n out) ≡ parse_digits n out
unfolding digits
parse_digits-digits zero n out le h = parse_first n out (omega arith)
parse_digits-digits (suc fuel) n out le h = elim (Bool-cases (ltb n 10)) [
  | inl e ↦ rw e (parse_first n out (ground arith))
  | inr e ↦ rw e (
      parse_digits-digits fuel (n / 10) ((b'0' + n % 10) ∷ out) (ground arith) (omega arith)
      ∙ parse_last n out h)
]

digits-IsDigit :
    (fuel n : ℕ) (out : Text) → n ≤ fuel → All IsDigit out → All IsDigit (digits fuel n out)
unfolding digits
digits-IsDigit zero n out le h = ((omega arith, omega arith), h)
digits-IsDigit (suc fuel) n out le h = elim (Bool-cases (ltb n 10)) [
  | inl e ↦ rw e ((omega arith, ground arith), h)
  | inr e ↦ rw e (
      digits-IsDigit fuel (n / 10) ((b'0' + n % 10) ∷ out) (ground arith)
        ((omega arith, omega arith), h))
]

length-digits :
    (k fuel n : ℕ) (out : Text)
    → n ≤ fuel
    → n < 10 ^ suc k
    → (length out < length (digits fuel n out)) × (length (digits fuel n out) ≤ suc k + length out)
unfolding digits
length-digits k zero n out le h = (omega arith, omega arith)
length-digits zero (suc fuel) n out le h =
    let e : ltb n 10 ≡ true = lt→ltb n 10 (omega arith) in rw e (omega arith, omega arith)
length-digits (suc k) (suc fuel) n out le h = elim (Bool-cases (ltb n 10)) [
  | inl e ↦ rw e (omega arith, omega arith)
  | inr e ↦
      let small : n / 10 < 10 ^ suc k = omega (arith, pow-suc 10 (suc k)) in
      let (lower, upper) =
        length-digits k fuel (n / 10) ((b'0' + n % 10) ∷ out) (ground arith) small in
      rw e (omega arith, omega arith)
]

-- The text of a number consists of decimal digits.
pub to_string-IsDigit : (n : ℕ) → All IsDigit (to_string n)
unfolding to_string
to_string-IsDigit n = digits-IsDigit n n [] (omega arith) tt

parse_u64-parse_digits : (s : Text) → 0 < length s → All IsDigit s → parse_u64 s ≡ parse_digits 0 s
unfolding parse_u64
parse_u64-parse_digits [] h _ = absurd (omega arith)
parse_u64-parse_digits (c ∷ []) h _ = refl
parse_u64-parse_digits (c ∷ d ∷ s) h (p, _) = ground arith

pub length-to_string :
    (n : ℕ) → n < 2 ^ 64 → (0 < length (to_string n)) × (length (to_string n) ≤ 20)
unfolding to_string
length-to_string n h =
    let (lower, upper) = length-digits 19 n n [] (omega arith) (omega arith) in
    (omega arith, omega arith)

pub length-to_string_le : (n k : ℕ) → n < 10 ^ suc k → length (to_string n) ≤ suc k
unfolding to_string
length-to_string_le n k h =
    let (lower, upper) = length-digits k n n [] (omega arith) h in omega arith

-- Every `u64` is read back from its decimal text.
pub parse_u64-to_string : (n : ℕ) → n < 2 ^ 64 → parse_u64 (to_string n) ≡ some n
unfolding to_string
parse_u64-to_string n h =
    parse_u64-parse_digits (to_string n) (length-to_string n h).0 (to_string-IsDigit n)
    ∙ parse_digits-digits n n [] (omega arith) h
    ∙ unfold parse_digits in refl

parse_digits-lt : (n : ℕ) (s : Text) {m : ℕ} → n < 2 ^ 64 → parse_digits n s ≡ some m → m < 2 ^ 64
unfolding parse_digits
parse_digits-lt n [] h e = ground arith
parse_digits-lt n (c ∷ s) {m} h e = ground (arith, parse_digits-lt (n * 10 + (c - b'0')) s {m = m})

-- A number that is read is a `u64`: nothing wraps.
pub parse_u64-lt : (s : Text) {m : ℕ} → parse_u64 s ≡ some m → m < 2 ^ 64
unfolding parse_u64
parse_u64-lt [] e = cc
parse_u64-lt (c ∷ []) e = parse_digits-lt 0 (c ∷ []) (omega arith) e
parse_u64-lt (c ∷ d ∷ s) {m} e = elim (Bool-cases (c == b'+')) [
  | inl p ↦ parse_digits-lt 0 (d ∷ s) {m = m} (omega arith) (rw p at e)
  | inr p ↦ parse_digits-lt 0 (c ∷ d ∷ s) {m = m} (omega arith) (rw p at e)
]
