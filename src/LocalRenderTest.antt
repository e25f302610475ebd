-- ===== src/LocalRenderTest.antt =====
-- The window of local-render-test/src/main.rs: the frames that it shows, as buffers of one `u32` for
-- each pixel. The window is the crate minifb's; how many frames are shown is its user's choice.
pub mod Frames
pub mod Session
pub mod Shown
use digital_garden_visitor_c.Common.{
  ℕ, zero, suc, ◌+◌, ◌*◌, ◌^◌, List, [], ◌∷◌, Option, none, some, Bytes, get_elem?, if◌then◌else◌,
  ltb, u64, ◌>>=◌,
}
use digital_garden_visitor_c.Counter.Render.{Render, render_separated_number}

-- The `u32` of a pixel. The bytes are shifted apart, so that `|` is the sum.
unfoldable pub pixel_value : Bytes → ℕ → Option ℕ
pixel_value pixels i = do
  red ← get_elem? pixels (i * 4 + 1)
  green ← get_elem? pixels (i * 4 + 2)
  blue ← get_elem? pixels (i * 4 + 3)
  some (red * 2 ^ 16 + green * 2 ^ 8 + blue)

-- The loop that fills so many places of the buffer, from the index on.
unfoldable pub fill_from : Bytes → ℕ → ℕ → Option (List ℕ)
fill_from pixels i zero = some []
fill_from pixels i (suc count) = do
  value ← pixel_value pixels i
  rest ← fill_from pixels (i + 1) count
  some (value ∷ rest)

-- The buffer of so many `u32`, whose `vec!` panics where its bytes pass `isize::MAX`; so the indices
-- of the loop do not wrap.
unfoldable pub buffer_of : Bytes → ℕ → Option (List ℕ)
unfolding fill_from pixel_value
buffer_of pixels count = if ltb (count * 4) (2 ^ 63) then fill_from pixels 0 count else none

-- The arguments of `update_with_buffer`.
pub record Frame : Type 0 where
  pub buffer : List ℕ
  pub width : ℕ
  pub height : ℕ

-- The body of the `while` loop.
unfoldable pub frame_of : ℕ → Option Frame
unfolding buffer_of
frame_of num = do
  render ← render_separated_number num 10
  buffer ← buffer_of render.pixels (u64 (render.width * render.height))
  some (record { buffer = buffer; width = render.width; height = render.height })

-- So many rounds of the loop, from the number on. The sum wraps, as in a release build.
unfoldable pub frames_from : ℕ → ℕ → Option (List Frame)
unfolding frame_of
frames_from zero num = some []
frames_from (suc rounds) num = do
  frame ← frame_of num
  rest ← frames_from rounds (u64 (num + 12321))
  some (frame ∷ rest)
