-- ===== src/Counter/Font.antt =====
-- The module `font` of src/counter.rs: sizes, the glyph of a character, and the copying of glyphs
-- into a buffer of RGBA pixels. An index out of range is a panic, `none`.
pub mod Canvas
pub mod Glyphs
pub mod Written
use digital_garden_visitor_c.Common.{
  ℕ, ◌+◌, ◌-◌, ◌*◌, List, [], ◌∷◌, Option, none, some, Bytes, Text, if◌then◌else◌, leb, ◌==◌, ◌&&◌,
  get_elem?, u64, store_at, for_range, ◌>>=◌,
}
use digital_garden_visitor_c.Counter.Bitmaps.{glyph_bitmaps}

abbrev pub glyph_width : ℕ
glyph_width = 8

abbrev pub glyph_height : ℕ
glyph_height = 16

abbrev pub glyph_size : ℕ
glyph_size = glyph_width * glyph_height

abbrev pub glyph_kern : ℕ
glyph_kern = 1

abbrev pub glyph_count : ℕ
glyph_count = 10

-- `size_of::<u32>()`
abbrev pub pixel_bytes : ℕ
pixel_bytes = 4

-- Width and height of a text of so many characters, before the wrap to `usize`.
abbrev pub text_size : ℕ → ℕ × ℕ
text_size char_count = (char_count * (glyph_width + glyph_kern), glyph_height)

-- The indexing is checked, as in the source; `none` is also the answer for a non-digit.
unfoldable pub glyph_for_char : ℕ → Option (List ℕ)
glyph_for_char c = if leb b'0' c && leb c b'9' then get_elem? glyph_bitmaps (c - b'0') else none

-- The four stores of one arm of the `match`.
unfoldable pub store_pixel : Bytes → ℕ → ℕ → Option Bytes
store_pixel buffer dest v = do
  b ← store_at buffer dest v
  b' ← store_at b (dest + 1) v
  b'' ← store_at b' (dest + 2) v
  store_at b'' (dest + 3) v

-- The byte that the `match` on a bit of the glyph writes.
abbrev pub shade : ℕ → ℕ
shade bit = if bit == 0 then 0x00 else 0xFF

-- The body of the inner loop.
unfoldable pub blit_pixel : ℕ → List ℕ → ℕ → ℕ → ℕ → ℕ → Bytes → Option Bytes
blit_pixel buffer_width glyph x y row col buffer = do
  let dest_index = u64 (((y + row) * buffer_width + (x + col)) * pixel_bytes)
  bit ← get_elem? glyph (row * glyph_width + col)
  store_pixel buffer dest_index (shade bit)

unfoldable pub blit_glyph_into : Bytes → ℕ → List ℕ → ℕ → ℕ → Option Bytes
blit_glyph_into buffer buffer_width glyph x y =
    for_range glyph_height 0
      (λ row. for_range glyph_width 0 (blit_pixel buffer_width glyph x y row)) buffer

-- The loop over the characters; one without a glyph is passed over.
unfoldable pub blit_into : Bytes → ℕ → Text → ℕ → ℕ → Option Bytes
blit_into buffer buffer_width [] x offset_y = some buffer
blit_into buffer buffer_width (c ∷ text) x offset_y = elim (glyph_for_char c) [
  | none ↦ blit_into buffer buffer_width text x offset_y
  | some glyph ↦ blit_glyph_into buffer buffer_width glyph x offset_y >>= λ b.
      blit_into b buffer_width text (x + (glyph_width + glyph_kern)) offset_y
]
