-- ===== src/Counter/Layout.antt =====
-- The groups of three digits and the sizes that `render_separated_number` of src/counter.rs
-- computes from the number of digits and the reserved width.
pub mod Groups
pub mod Columns
use mathlib.Core.List.{reverse}
use digital_garden_visitor_c.Common.{
  ℕ, zero, suc, ◌+◌, ◌-◌, ◌*◌, ◌/◌, max, List, [], ◌∷◌, Text, if◌then◌else◌, length, take, drop,
  u64, isize_sub, isize_pos,
}
use digital_garden_visitor_c.Counter.Font.{text_size}

-- Spacing between groups of digits in pixels.
abbrev pub group_spacing : ℕ
group_spacing = 3

-- The standard library's `rchunks`: chunks of `size` elements from the end, the last one perhaps
-- shorter. Each chunk has an element, so the length is fuel enough.
unfoldable pub rchunks_from : ℕ → ℕ → Text → List Text
rchunks_from zero size s = []
rchunks_from (suc fuel) size [] = []
rchunks_from (suc fuel) size (c ∷ s) =
    let split = length (c ∷ s) - size in
    drop split (c ∷ s) ∷ rchunks_from fuel size (take split (c ∷ s))

unfoldable pub groups_of : Text → List Text
unfolding rchunks_from
groups_of number = reverse (rchunks_from (length number) 3 number)

-- The width in pixels, for a number of `len` digits.
unfoldable pub image_width : ℕ → ℕ → ℕ
image_width len reserve_width =
    u64 (
      2 + (text_size (max len reserve_width)).0 + group_spacing * max (reserve_width / 3) (len / 3))

unfoldable pub image_height : ℕ → ℕ → ℕ
image_height len reserve_width = 2 + (text_size (max len reserve_width)).1

-- The x offset of the first group.
unfoldable pub first_offset : ℕ → ℕ → ℕ
first_offset len reserve_width =
    let chars = isize_sub reserve_width len in
    let gaps = isize_sub (reserve_width / 3) (len / 3) in
    1
    + (if isize_pos chars then (text_size chars).0 else 0)
    + (if isize_pos gaps then gaps * group_spacing else 0)
