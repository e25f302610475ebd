-- ===== src/Counter/Render.antt =====
-- `Render` and `render_separated_number` of src/counter.rs. `none` is a panic.
pub mod Drawn
pub mod Legible
use digital_garden_visitor_c.Common.{
  ℕ, ◌+◌, ◌*◌, List, [], ◌∷◌, Option, some, Bytes, Text, length, u64, zeroed, ◌>>=◌,
}
use digital_garden_visitor_c.Counter.Font.{text_size, pixel_bytes, blit_into}
use digital_garden_visitor_c.Decimal.{to_string}
use digital_garden_visitor_c.Counter.Layout.{
  group_spacing, groups_of, image_width, image_height, first_offset,
}

pub record Render : Type 0 where
  pub width : ℕ
  pub height : ℕ
  pub pixels : Bytes

-- The loop over the groups.
unfoldable pub blit_groups : Bytes → ℕ → List Text → ℕ → Option Bytes
blit_groups pixels width [] x = some pixels
blit_groups pixels width (group ∷ groups) x = blit_into pixels width group x 1 >>= λ p.
    blit_groups p width groups (x + ((text_size (length group)).0 + group_spacing))

unfoldable pub render_separated_number : ℕ → ℕ → Option Render
render_separated_number n reserve_width = do
  let number = to_string n
  let width = image_width (length number) reserve_width
  let height = image_height (length number) reserve_width
  blank ← zeroed (u64 (width * height * pixel_bytes))
  pixels ← blit_groups blank width (groups_of number) (first_offset (length number) reserve_width)
  some (record { width = width; height = height; pixels = pixels })
