-- ===== src/Counter/Render/Legible.antt =====
-- The image of src/counter.rs tells the number: no two numbers have the same image.
use mathlib.Core.Path.{subst}
use digital_garden_visitor_c.Common.{
  ℕ, zero, suc, ◌+◌, ◌-◌, ◌*◌, ◌/◌, ◌^◌, ◌≤◌, ◌<◌, ◌≡◌, ◌≢◌, refl, sym, ap, ◌∙◌, arith, some, none,
  List, [], ◌∷◌, length, get_elem?, get_elem?-lt, inl, inr, All-get, get_elem?-ext, Bool, ◌&&◌,
  ◌==◌, Bool-cases, true,
}
use digital_garden_visitor_c.Decimal.{to_string, parse_u64}
use digital_garden_visitor_c.Decimal.RoundTrip.{
  IsDigit, to_string-IsDigit, length-to_string, parse_u64-to_string,
}
use digital_garden_visitor_c.Counter.Bitmaps.{glyph_bitmaps}
use digital_garden_visitor_c.Counter.Font.{glyph_for_char}
use digital_garden_visitor_c.Counter.Font.Canvas.{place}
use digital_garden_visitor_c.Counter.Font.Glyphs.{dot}
use digital_garden_visitor_c.Counter.Font.Written.{dot_of}
use digital_garden_visitor_c.Counter.Layout.{first_offset}
use digital_garden_visitor_c.Counter.Layout.Columns.{image_width-eq, column-le}
use digital_garden_visitor_c.Counter.Render.{Render, render_separated_number}
use digital_garden_visitor_c.Counter.Render.Drawn.{
  IsRendering, digit_column, render_separated_number-IsRendering,
}

-- The characters by the four pixels that tell them apart.
abbrev characters : List ℕ
characters =
    b' ' ∷ b'4' ∷ b'1' ∷ b' ' ∷ b'0' ∷ b' ' ∷ b' ' ∷ b' ' ∷ b' ' ∷ b'7' ∷ b'5' ∷ b'6' ∷ b'2' ∷ b'9'
    ∷ b'3' ∷ b'8' ∷ []

unfoldable read_dots : ℕ → ℕ → ℕ → ℕ → ℕ
read_dots a b c d = elim (get_elem? characters ((8 * a + 4 * b + 2 * c + d) / 255)) [
  | none ↦ b' '
  | some c ↦ c
]

-- The character that a cell of eight by sixteen pixels shows.
unfoldable read_cell : (ℕ → ℕ → ℕ) → ℕ
read_cell cell = read_dots (cell 1 1) (cell 7 4) (cell 3 7) (cell 2 8)

unfoldable all_below : (ℕ → Bool) → ℕ → Bool
all_below test zero = true
all_below test (suc n) = test n && all_below test n

all_below-lt : (test : ℕ → Bool) (n d : ℕ) → all_below test n ≡ true → d < n → test d ≡ true
unfolding all_below
all_below-lt test zero d all h = absurd (omega arith)
all_below-lt test (suc n) d all h = elim (Bool-cases (d == n)) [
  | inl e ↦ let same : d ≡ n = ground arith in rw same (ground arith)
  | inr e ↦ all_below-lt test n d (ground arith) (ground arith)
]

digits_read : all_below (λ d. read_cell (dot_of (b'0' + d)) == b'0' + d) 10 ≡ true
unfolding all_below read_cell read_dots dot_of dot glyph_for_char glyph_bitmaps
digits_read = refl

blank_read : read_cell (λ col row. 0) ≡ b' '
unfolding read_cell read_dots
blank_read = refl

-- Each digit is read from its glyph.
read_cell-dot_of : (c : ℕ) → IsDigit c → read_cell (dot_of c) ≡ c
read_cell-dot_of c (low, high) =
    let same : b'0' + (c - b'0') ≡ c = omega arith in
    let read =
      all_below-lt (λ d. read_cell (dot_of (b'0' + d)) == b'0' + d) 10 (c - b'0') digits_read
        (omega arith) in
    let read_same : (read_cell (dot_of c) == c) ≡ true = rw same at read in ground arith

-- Cells with the same pixels are read alike.
read_cell-ext :
    (p q : ℕ → ℕ → ℕ)
    → ((col row : ℕ) → col < 8 → row < 16 → p col row ≡ q col row)
    → read_cell p ≡ read_cell q
unfolding read_cell
read_cell-ext p q h =
    rw
      (
        h 1 1 (omega arith) (omega arith),
        h 7 4 (omega arith) (omega arith),
        h 3 7 (omega arith) (omega arith),
        h 2 8 (omega arith) (omega arith),
      )
      refl

to_string-get-IsDigit : (n i c : ℕ) → get_elem? (to_string n) i ≡ some c → IsDigit c
to_string-get-IsDigit n i c e = All-get IsDigit (to_string n) i c (to_string-IsDigit n) e

to_string-injective : (n m : ℕ) → n < 2 ^ 64 → m < 2 ^ 64 → to_string n ≡ to_string m → n ≡ m
to_string-injective n m hn hm e =
    let left = parse_u64-to_string n hn in
    let right = parse_u64-to_string m hm in
    let same : parse_u64 (to_string n) ≡ parse_u64 (to_string m) = ap parse_u64 e in cc

module _ (n m reserve : ℕ) (r : Render) (bound : reserve ≤ 2 ^ 53) (hn : n < 2 ^ 64)
    (hm : m < 2 ^ 64) (shows_n : IsRendering n reserve r) (shows_m : IsRendering m reserve r) where
  -- Digits at the same place of numbers with as many digits.
  same_digit :
      length (to_string n) ≡ length (to_string m)
      → (i c d : ℕ) → get_elem? (to_string n) i ≡ some c
      → get_elem? (to_string m) i ≡ some d
      → c ≡ d
  same_digit len i c d at_c at_d =
      let column : digit_column n reserve i ≡ digit_column m reserve i = rw len refl in
      let pixels : (col row : ℕ) → col < 8 → row < 16 → dot_of c col row ≡ dot_of d col row =
        λ col row hc hr.
          let left = shows_n.digit i c col row 0 at_c hc hr (omega arith) in
          let right : get_elem? r.pixels
                (place r.width (digit_column n reserve i + col) (1 + row) 0)
              ≡ some (dot_of d col row) =
            rw column (shows_m.digit i d col row 0 at_d hc hr (omega arith)) in
          cc (left, right) in
      sym (read_cell-dot_of c (to_string-get-IsDigit n i c at_c))
      ∙ read_cell-ext (dot_of c) (dot_of d) pixels
      ∙ read_cell-dot_of d (to_string-get-IsDigit m i d at_d)

  -- The first digit of a longer number stands left of all digits of a shorter one.
  columns_apart :
      length (to_string n) < length (to_string m)
      → (i : ℕ) → digit_column m reserve 0 + 8 ≤ digit_column n reserve i
  unfolding first_offset
  columns_apart less i =
      let (pos, few) = length-to_string m hm in
      let left = shows_n.width in let right = shows_m.width in ground arith

  not-shorter : ¬ (length (to_string n) < length (to_string m))
  not-shorter less =
      let (pos, few) = length-to_string m hm in
      let (d, at_d) = get_elem?-lt (to_string m) 0 pos in
      let digit = to_string-get-IsDigit m 0 d at_d in
      let inside = column-le (length (to_string m)) reserve few bound 0 pos in
      let wide = shows_m.width in
      let exact = image_width-eq (length (to_string m)) reserve few bound in
      let high = shows_m.height in
      let pixels : (col row : ℕ) → col < 8 → row < 16 → dot_of d col row ≡ 0 = λ col row hc hr.
        let shown = shows_m.digit 0 d col row 0 at_d hc hr (omega arith) in
        let blank =
          shows_n.blank (digit_column m reserve 0 + col) (1 + row) 0 (omega arith) (omega arith)
            (omega arith) (inl (λ i c _. let apart = columns_apart less i in inl (omega arith))) in
        cc (shown, blank) in
      let read =
        sym (read_cell-dot_of d digit) ∙ read_cell-ext (dot_of d) (λ _ _. 0) pixels ∙ blank_read in
      omega arith

same_number :
    (n m reserve : ℕ) (r : Render)
    → reserve ≤ 2 ^ 53
    → n < 2 ^ 64
    → m < 2 ^ 64
    → IsRendering n reserve r
    → IsRendering m reserve r
    → n ≡ m
same_number n m reserve r bound hn hm shows_n shows_m =
    let less = not-shorter n m reserve r bound hn hm shows_n shows_m in
    let more = not-shorter m n reserve r bound hm hn shows_m shows_n in
    let len : length (to_string n) ≡ length (to_string m) = omega arith in
    to_string-injective n m hn hm (
      get_elem?-ext (to_string n) (to_string m) len
        (same_digit n m reserve r bound hn hm shows_n shows_m len))

-- The image tells the number: with one reserved width, which is at most 2^53, two different `u64`
-- are never rendered to the same image, whether they have as many digits or not.
pub render_separated_number-ne :
    (n m reserve : ℕ)
    → reserve ≤ 2 ^ 53
    → n < 2 ^ 64
    → m < 2 ^ 64
    → n ≢ m
    → render_separated_number n reserve ≢ render_separated_number m reserve
render_separated_number-ne n m reserve bound hn hm ne e =
    let (r, at_n, shows_n) = render_separated_number-IsRendering n reserve bound hn in
    let (q, at_m, shows_m) = render_separated_number-IsRendering m reserve bound hm in
    let same : q ≡ r = cc (at_n, at_m, e) in
    ne (same_number n m reserve r bound hn hm shows_n (subst (IsRendering m reserve) same shows_m))
