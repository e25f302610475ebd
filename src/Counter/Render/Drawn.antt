-- ===== src/Counter/Render/Drawn.antt =====
-- The image that `render_separated_number` of src/counter.rs returns.
use digital_garden_visitor_c.Common.{
  ℕ, ◌+◌, ◌-◌, ◌*◌, ◌/◌, ◌%◌, ◌^◌, max, ◌≤◌, ◌<◌, ◌≡◌, refl, ap, ◌∙◌, arith, ◌==◌, some, List, [],
  ◌∷◌, Bytes, Text, if◌then◌else◌, length, replicate, length-replicate, get_elem?-replicate, All,
  All-of-get, get_elem?, zeroed, ltb, true, lt→ltb, lt-get_elem?, u64, inl, inr, ◌⊎◌,
}
use digital_garden_visitor_c.Decimal.{to_string}
use digital_garden_visitor_c.Decimal.RoundTrip.{IsDigit, to_string-IsDigit, length-to_string}
use digital_garden_visitor_c.Counter.Font.Canvas.{Picture, Shows, place, place-lt}
use digital_garden_visitor_c.Counter.Font.Written.{
  Placed, place_text, draw, draw-append, draw-get, draw-Beside, draw_outside, Beside, dot_of,
  blit_into-Shows,
}
use digital_garden_visitor_c.Counter.Layout.{groups_of, image_width, image_height, first_offset}
use digital_garden_visitor_c.Counter.Layout.Groups.{place_groups, span}
use digital_garden_visitor_c.Counter.Layout.Columns.{
  column, groups_of-Laid, Laid-get, Laid-Apart, image_width-eq, first_offset-image_width,
  first_offset-le, column-le,
}
use digital_garden_visitor_c.Counter.Render.{Render, blit_groups, render_separated_number}

blit_groups-Shows :
    (width height : ℕ) (gs : List Text) (x : ℕ) (p : Picture) (b : Bytes)
    → width * height * 4 ≤ 2 ^ 64
    → 17 ≤ height
    → All (All IsDigit) gs
    → x + span gs ≤ width + 3
    → Shows width height p b
    → (b' : Bytes) × (blit_groups b width gs x ≡ some b')
      × Shows width height (draw (place_groups gs x) p) b'
unfolding blit_groups
blit_groups-Shows width height [] x p b small high _ fits shows = (b, refl, shows)
blit_groups-Shows width height (g ∷ gs) x p b small high (digit, digits) fits shows =
    let (t, run, shown) =
      blit_into-Shows width height small high g x p b digit (omega arith) shows in
    let (b', rest, done) =
      blit_groups-Shows width height gs (x + (length g * 9 + 3)) (draw (place_text g x) p) t small
        high digits (omega arith) shown in
    (
      b',
      rw run rest,
      rw (draw-append (place_text g x) (place_groups gs (x + (length g * 9 + 3))) p) done,
    )

-- The column of the digit `i` of the number.
abbrev pub digit_column : ℕ → ℕ → ℕ → ℕ
digit_column n reserve i =
    first_offset (length (to_string n)) reserve + column (length (to_string n)) i

-- The image shows the digits, each at its column and in the rows 1 to 16, and nothing else.
pub record IsRendering (n reserve : ℕ) (r : Render) : Type 0 where
  pub width :
      r.width
      ≡ 2
        + 9 * max (length (to_string n)) reserve
        + 3 * max (reserve / 3) (length (to_string n) / 3)
  pub height : r.height ≡ 18
  pub size : length r.pixels ≡ r.width * r.height * 4
  pub digit :
      (i c col row channel : ℕ)
      → get_elem? (to_string n) i ≡ some c
      → col < 8
      → row < 16
      → channel < 4
      → get_elem? r.pixels (place r.width (digit_column n reserve i + col) (1 + row) channel)
        ≡ some (dot_of c col row)
  pub blank :
      (x y channel : ℕ)
      → x < r.width
      → y < r.height
      → channel < 4
      → ((i c : ℕ) → get_elem? (to_string n) i ≡ some c → Beside x (digit_column n reserve i, c))
        ⊎ ((y < 1) ⊎ (17 ≤ y))
      → get_elem? r.pixels (place r.width x y channel) ≡ some 0
  pub margin :
      r.width
      ≡ digit_column n reserve (length (to_string n) - 1)
        + 8
        + (if length (to_string n) % 3 == 0 then 5 else 2)

module _ (n reserve : ℕ) (bound : reserve ≤ 2 ^ 53) where
  abbrev len : ℕ
  len = length (to_string n)

  abbrev start : ℕ
  start = first_offset len reserve

  abbrev placed : List Placed
  placed = place_groups (groups_of (to_string n)) start

  abbrev blank_picture : Picture
  blank_picture x y = 0

  -- The buffer that the pixels are drawn into.
  blank-Shows :
      (width height : ℕ) → Shows width height blank_picture (replicate (width * height * 4) 0)
  blank-Shows width height = (
    length-replicate (width * height * 4) 0,
    λ x y c hx hy hc.
        get_elem?-replicate (width * height * 4) (place width x y c) 0
          (place-lt width height x y c hx hy hc),
  )

  render_run :
      (p : Bytes)
      → u64 (image_width len reserve * 18 * 4) ≡ image_width len reserve * 18 * 4
      → ltb (image_width len reserve * 18 * 4) (2 ^ 63) ≡ true
      → blit_groups
          (replicate (image_width len reserve * 18 * 4) 0)
          (image_width len reserve)
          (groups_of (to_string n))
          start
        ≡ some p
      → render_separated_number n reserve
        ≡ some (record { width = image_width len reserve; height = 18; pixels = p })
  unfolding render_separated_number image_height zeroed
  render_run p size fits run = rw (size, fits, run)

  -- The groups are drawn without a panic.
  render-draw :
      n < 2 ^ 64
      → (p : Bytes) × (render_separated_number n reserve
          ≡ some (record { width = image_width len reserve; height = 18; pixels = p }))
        × Shows (image_width len reserve) 18 (draw placed blank_picture) p
  render-draw small =
      let (pos, few) = length-to_string n small in
      let wide = image_width-eq len reserve few bound in
      let inside = first_offset-le len reserve few bound pos in
      let laid = groups_of-Laid (to_string n) in
      let advance = laid.advance in
      let size : u64 (image_width len reserve * 18 * 4) ≡ image_width len reserve * 18 * 4 =
        omega arith in
      let fits = lt→ltb (image_width len reserve * 18 * 4) (2 ^ 63) (omega arith) in
      let (p, run, shows) =
        blit_groups-Shows (image_width len reserve) 18 (groups_of (to_string n)) start blank_picture
          (replicate (image_width len reserve * 18 * 4) 0) (omega arith) (omega arith)
          (laid.digits (to_string-IsDigit n)) (omega arith)
          (blank-Shows (image_width len reserve) 18) in
      (p, render_run p size fits run, shows)

  -- A placed character is a digit of the number at its column.
  placed-Beside :
      (x : ℕ)
      → ((i c : ℕ) → get_elem? (to_string n) i ≡ some c → Beside x (digit_column n reserve i, c))
      → All (Beside x) placed
  placed-Beside x h = All-of-get (Beside x) placed (λ i q e.
      let (c, f, at) =
        Laid-get (to_string n) (groups_of (to_string n)) start i q (groups_of-Laid (to_string n))
          e in
      rw at (h i c f))

  -- The number is rendered without a panic, for every `u64` and every reserved width up to 2^53:
  -- each digit stands at its column, no other pixel is set, and the right margin does not depend
  -- on the reserved width: it is two pixels, or five if the digits fill their groups.
  pub render_separated_number-IsRendering :
      n < 2 ^ 64
      → (r : Render) × (render_separated_number n reserve ≡ some r) × IsRendering n reserve r
  render_separated_number-IsRendering small =
      let (p, run, (size, shown)) = render-draw small in
      let (pos, few) = length-to_string n small in
      let laid = groups_of-Laid (to_string n) in
      let apart = Laid-Apart (to_string n) (groups_of (to_string n)) start laid in
      (
        record { width = image_width len reserve; height = 18; pixels = p },
        run,
        record {
          width = image_width-eq len reserve few bound;
          height = refl;
          size = size;
          digit = λ i c col row channel e hc hr hch.
              let inside = column-le len reserve few bound i (lt-get_elem? (to_string n) i c e) in
              shown (digit_column n reserve i + col) (1 + row) channel (omega arith) (omega arith)
                hch
              ∙ ap some (
                  draw-get placed blank_picture i (digit_column n reserve i) c col row apart
                    (laid.at_column start i c e) hc hr);
          blank = λ x y channel hx hy hc beside.
              shown x y channel hx hy hc
              ∙ ap some (elim beside [
                | inl left ↦ draw-Beside placed blank_picture x y (placed-Beside x left)
                | inr out ↦ draw_outside placed blank_picture x y out
              ]);
          margin = first_offset-image_width len reserve few bound pos;
        },
      )

-- Two numbers with at most the reserved number of digits are rendered to images of the same width.
pub render_separated_number-same_width :
    (n m reserve : ℕ)
    → reserve ≤ 2 ^ 53
    → n < 2 ^ 64
    → m < 2 ^ 64
    → length (to_string n) ≤ reserve
    → length (to_string m) ≤ reserve
    → (r q : Render) × (render_separated_number n reserve ≡ some r)
      × (render_separated_number m reserve ≡ some q)
      × (r.width ≡ q.width)
render_separated_number-same_width n m reserve bound hn hm short_n short_m =
    let (r, at_n, drawn_n) = render_separated_number-IsRendering n reserve bound hn in
    let (q, at_m, drawn_m) = render_separated_number-IsRendering m reserve bound hm in
    let wide_n = drawn_n.width in let wide_m = drawn_m.width in (r, q, at_n, at_m, omega arith)
