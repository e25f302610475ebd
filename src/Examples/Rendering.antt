-- ===== src/Examples/Rendering.antt =====
-- Tests of src/counter.rs: small numbers, groups and sizes, one glyph, and two images.
use digital_garden_visitor_c.Common.{
  ◌≡◌, ◌≢◌, refl, arith, [], ◌∷◌, none, some, codes, ◌>>=◌, get_elem?, zeroed, store_at, for_range,
}
use digital_garden_visitor_c.Counter.Bitmaps.{glyph_bitmaps}
use digital_garden_visitor_c.Counter.Font.{
  blit_into, glyph_for_char, store_pixel, blit_pixel, blit_glyph_into,
}
use digital_garden_visitor_c.Decimal.{to_string, parse_u64}
use digital_garden_visitor_c.Counter.Render.{render_separated_number}
use digital_garden_visitor_c.Counter.Render.Legible.{render_separated_number-ne}
use digital_garden_visitor_c.Counter.Layout.{groups_of, image_width, first_offset}

printed : to_string 1234567 ≡ codes "1234567"
unfolding to_string
printed = refl

printed-zero : to_string 0 ≡ codes "0"
unfolding to_string
printed-zero = refl

parsed : parse_u64 (codes "+0018446744073709551615") ≡ some 18446744073709551615
unfolding parse_u64
parsed = refl

too_large : parse_u64 (codes "18446744073709551616") ≡ none
unfolding parse_u64
too_large = refl

grouped : groups_of (codes "1234567") ≡ codes "1" ∷ codes "234" ∷ codes "567" ∷ []
unfolding groups_of
grouped = refl

size-five : image_width 4 5 ≡ 50
unfolding image_width
size-five = refl

offset-five : first_offset 3 5 ≡ 19
unfolding first_offset
offset-five = refl

glyphs_complete : glyph_for_char b'9' ≡ get_elem? glyph_bitmaps 9
unfolding glyph_for_char
glyphs_complete = refl

-- One glyph in a buffer of 8 by 16 pixels: its fourth pixel is set.
blitted : (zeroed 512 >>= λ b. blit_into b 8 (codes "1") 0 0 >>= λ p. get_elem? p 12) ≡ some 255
unfolding zeroed blit_into blit_glyph_into blit_pixel store_pixel store_at for_range glyph_for_char
    glyph_bitmaps
blitted = refl

-- A number with more digits is another image even where the reserved width is the same.
render_separated_number-ne_example : render_separated_number 111 5 ≢ render_separated_number 1111 5
render_separated_number-ne_example =
    render_separated_number-ne 111 1111 5 (omega arith) (omega arith) (omega arith)
      (λ e. omega arith)
