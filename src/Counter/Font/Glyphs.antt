-- ===== src/Counter/Font/Glyphs.antt =====
-- The glyphs of src/counter.rs as pictures, and what `blit_glyph_into` draws.
use digital_garden_visitor_c.Common.{
  ℕ, ◌+◌, ◌-◌, ◌*◌, ◌^◌, ◌≤◌, ◌<◌, ◌≡◌, refl, arith, true, ◌&&◌, none, some, List, Bytes,
  if◌then◌else◌, ltb, leb, ◌==◌, length, get_elem?, get_elem?-lt, All, All-get, u64, for_range,
  for_range_inv,
}
use digital_garden_visitor_c.Decimal.RoundTrip.{IsDigit}
use digital_garden_visitor_c.Counter.Bitmaps.{glyph_bitmaps}
use digital_garden_visitor_c.Counter.Font.{glyph_for_char, shade, blit_pixel, blit_glyph_into}
use digital_garden_visitor_c.Counter.Font.Canvas.{
  Picture, Shows, Shows-ext, paint, place, place-lt, store_pixel-Shows,
}

-- The byte of the pixel in a column and a row of a glyph.
unfoldable pub dot : List ℕ → ℕ → ℕ → ℕ
dot glyph col row = elim (get_elem? glyph (row * 8 + col)) [ none ↦ 0 | some bit ↦ shade bit ]

dot-shade :
    (glyph : List ℕ) (row col bit : ℕ)
    → get_elem? glyph (row * 8 + col) ≡ some bit
    → dot glyph col row ≡ shade bit
unfolding dot
dot-shade glyph row col bit e = rw (e, dot)

-- A picture with the first rows of a glyph drawn at (x, y).
abbrev pub stamp : List ℕ → ℕ → ℕ → ℕ → Picture → Picture
stamp glyph x y rows picture px py =
    if leb x px && ltb px (x + 8) && leb y py && ltb py (y + rows)
    then dot glyph (px - x) (py - y)
    else picture px py

-- The same with the first columns of one row.
abbrev stamp_row : List ℕ → ℕ → ℕ → ℕ → ℕ → Picture → Picture
stamp_row glyph x y row cols picture px py =
    if leb x px && ltb px (x + cols) && py == y + row then dot glyph (px - x) row else picture px py

row_begun :
    (glyph : List ℕ) (x y row : ℕ) (p : Picture) (px py : ℕ)
    → p px py ≡ stamp_row glyph x y row 0 p px py
row_begun glyph x y row p px py = ground arith

row_more :
    (glyph : List ℕ) (x y row col : ℕ) (p : Picture) (px py : ℕ)
    → paint (x + col) (y + row) (dot glyph col row) (stamp_row glyph x y row col p) px py
      ≡ stamp_row glyph x y row (col + 1) p px py
row_more glyph x y row col p px py = ground arith

rows_begun :
    (glyph : List ℕ) (x y : ℕ) (p : Picture) (px py : ℕ) → p px py ≡ stamp glyph x y 0 p px py
rows_begun glyph x y p px py = ground arith

rows_more :
    (glyph : List ℕ) (x y row : ℕ) (p : Picture) (px py : ℕ)
    → stamp_row glyph x y row 8 (stamp glyph x y row p) px py ≡ stamp glyph x y (row + 1) p px py
rows_more glyph x y row p px py = ground arith

-- A picture that a glyph of 128 bits at (x, y) is drawn into: the glyph is inside, and the places
-- of the buffer are below 2^64.
pub record Inside (width height : ℕ) (glyph : List ℕ) (x y : ℕ) : Type 0 where
  pub bits : length glyph ≡ 128
  pub columns : x + 8 ≤ width
  pub rows : y + 16 ≤ height
  pub small : width * height * 4 ≤ 2 ^ 64

module _ (width height : ℕ) (glyph : List ℕ) (x y : ℕ)
    (inside : Inside width height glyph x y) where
  blit_pixel-Shows :
      (row col : ℕ) (p : Picture) (b : Bytes)
      → row < 16
      → col < 8
      → Shows width height p b
      → (b' : Bytes) × (blit_pixel width glyph x y row col b ≡ some b')
        × Shows width height (paint (x + col) (y + row) (dot glyph col row) p) b'
  unfolding blit_pixel
  blit_pixel-Shows row col p b hr hc shows =
      let bits = inside.bits in
      let columns = inside.columns in
      let rows = inside.rows in
      let small = inside.small in
      let (bit, e) = get_elem?-lt glyph (row * 8 + col) (omega arith) in
      let below =
        place-lt width height (x + col) (y + row) 0 (omega arith) (omega arith) (omega arith) in
      let index : u64 (((y + row) * width + (x + col)) * 4) ≡ place width (x + col) (y + row) 0 =
        omega arith in
      rw (e, index, dot-shade glyph row col bit e)
        (store_pixel-Shows width height p b (x + col) (y + row) (shade bit) shows (omega arith)
          (omega arith))

  blit_row-Shows :
      (row : ℕ) (p : Picture) (b : Bytes)
      → row < 16
      → Shows width height p b
      → (b' : Bytes) × (for_range 8 0 (blit_pixel width glyph x y row) b ≡ some b')
        × Shows width height (stamp_row glyph x y row 8 p) b'
  blit_row-Shows row p b hr shows =
      for_range_inv (λ k t. Shows width height (stamp_row glyph x y row k p) t)
        (blit_pixel width glyph x y row) 8 0 8 b refl
        (λ col t lo hi shown.
          let (t', run, after) =
            blit_pixel-Shows row col (stamp_row glyph x y row col p) t hr hi shown in
          (
            t',
            run,
            Shows-ext width height _ (stamp_row glyph x y row (col + 1) p) t'
                (row_more glyph x y row col p) after,
          ))
        (Shows-ext width height p _ b (row_begun glyph x y row p) shows)

  -- The glyph is drawn without a panic, and nothing else changes.
  pub blit_glyph_into-Shows :
      (p : Picture) (b : Bytes)
      → Shows width height p b
      → (b' : Bytes) × (blit_glyph_into b width glyph x y ≡ some b')
        × Shows width height (stamp glyph x y 16 p) b'
  unfolding blit_glyph_into
  blit_glyph_into-Shows p b shows =
      for_range_inv (λ k t. Shows width height (stamp glyph x y k p) t)
        (λ row. for_range 8 0 (blit_pixel width glyph x y row)) 16 0 16 b refl
        (λ row t lo hi shown.
          let (t', run, after) = blit_row-Shows row (stamp glyph x y row p) t hi shown in
          (
            t',
            run,
            Shows-ext width height _ (stamp glyph x y (row + 1) p) t' (rows_more glyph x y row p)
                after,
          ))
        (Shows-ext width height p _ b (rows_begun glyph x y p) shows)

-- Each digit has a glyph of 128 bits.
bitmaps-bits : All (λ glyph. length glyph ≡ 128) glyph_bitmaps
unfolding glyph_bitmaps
bitmaps-bits = (refl, (refl, (refl, (refl, (refl, (refl, (refl, (refl, (refl, (refl, tt))))))))))

bitmaps-length : length glyph_bitmaps ≡ 10
unfolding glyph_bitmaps
bitmaps-length = refl

pub glyph_for_char-IsDigit :
    (c : ℕ) → IsDigit c → (glyph : List ℕ) × (glyph_for_char c ≡ some glyph) × (length glyph ≡ 128)
unfolding glyph_for_char
glyph_for_char-IsDigit c (lo, hi) =
    let count = bitmaps-length in
    let (glyph, e) = get_elem?-lt glyph_bitmaps (c - b'0') (omega arith) in
    let digit : (leb b'0' c && leb c b'9') ≡ true = ground arith in
    (glyph, rw digit e, All-get (λ g. length g ≡ 128) glyph_bitmaps (c - b'0') glyph bitmaps-bits e)
