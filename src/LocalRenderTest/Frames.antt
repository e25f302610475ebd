-- ===== src/LocalRenderTest/Frames.antt =====
-- The frames of local-render-test/src/main.rs show the numbers in white on black.
use mathlib.Core.Path.{subst}
use digital_garden_visitor_c.Common.{
  ℕ, zero, suc, ◌+◌, ◌*◌, ◌/◌, ◌^◌, max, ◌≤◌, ◌<◌, ◌≡◌, refl, ap, ◌∙◌, arith, List, [], ◌∷◌, some,
  Bytes, length, get_elem?, get_elem?-lt, lt-get_elem?, lt→ltb, u64, ◌⊎◌,
}
use digital_garden_visitor_c.Decimal.{to_string}
use digital_garden_visitor_c.Decimal.RoundTrip.{length-to_string}
use digital_garden_visitor_c.Counter.Font.Written.{dot_of, Beside}
use digital_garden_visitor_c.Counter.Render.{Render, render_separated_number}
use digital_garden_visitor_c.Counter.Render.Drawn.{
  digit_column, render_separated_number-IsRendering,
}
use digital_garden_visitor_c.LocalRenderTest.{
  pixel_value, fill_from, buffer_of, Frame, frame_of, frames_from,
}

pixel_value-some :
    (pixels : Bytes) (i : ℕ)
    → i * 4 + 4 ≤ length pixels
    → (value : ℕ) × (pixel_value pixels i ≡ some value)
unfolding pixel_value
pixel_value-some pixels i h =
    let (red, r) = get_elem?-lt pixels (i * 4 + 1) (omega arith) in
    let (green, g) = get_elem?-lt pixels (i * 4 + 2) (omega arith) in
    let (blue, b) = get_elem?-lt pixels (i * 4 + 3) (omega arith) in
    (red * 2 ^ 16 + green * 2 ^ 8 + blue, rw (r, g, b) refl)

-- A pixel whose channels are the same byte.
pixel_value-grey :
    (pixels : Bytes) (i v : ℕ)
    → ((channel : ℕ) → channel < 4 → get_elem? pixels (i * 4 + channel) ≡ some v)
    → pixel_value pixels i ≡ some (v * 65793)
unfolding pixel_value
pixel_value-grey pixels i v h =
    rw (h 1 (omega arith), h 2 (omega arith), h 3 (omega arith)) (ap some (omega arith))

cons-get :
    (pixels : Bytes) (i value : ℕ) (rest : List ℕ) (count : ℕ)
    → pixel_value pixels i ≡ some value
    → ((j : ℕ) → j < count → get_elem? rest j ≡ pixel_value pixels (i + 1 + j))
    → (j : ℕ) → j < suc count
    → get_elem? (value ∷ rest) j ≡ pixel_value pixels (i + j)
cons-get pixels i value rest count e at zero below =
    let same : i + 0 ≡ i = omega arith in rw (same, e) refl
cons-get pixels i value rest count e at (suc j) below =
    let same : i + 1 + j ≡ i + suc j = omega arith in
    at j (omega arith) ∙ ap (pixel_value pixels) same

-- The filled buffer has the value of each pixel.
fill_from-get :
    (pixels : Bytes) (i count : ℕ)
    → (i + count) * 4 ≤ length pixels
    → (buffer : List ℕ) × (fill_from pixels i count ≡ some buffer)
      × (length buffer ≡ count)
      × ((j : ℕ) → j < count → get_elem? buffer j ≡ pixel_value pixels (i + j))
unfolding fill_from
fill_from-get pixels i zero h = ([], refl, refl, λ j below. elim below [ ])
fill_from-get pixels i (suc count) h =
    let (value, e) = pixel_value-some pixels i (omega arith) in
    let (rest, run, size, at) = fill_from-get pixels (i + 1) count (omega arith) in
    (value ∷ rest, rw (e, run) refl, omega arith, cons-get pixels i value rest count e at)

-- The frame shows the number: a pixel is white or black as the digit's glyph has it, and black
-- elsewhere. White is 255 * 65793, the three bytes of a pixel being the same.
pub record IsFrame (num : ℕ) (f : Frame) : Type 0 where
  pub width :
      f.width ≡ 2 + 9 * max (length (to_string num)) 10 + 3 * max 3 (length (to_string num) / 3)
  pub height : f.height ≡ 18
  pub size : length f.buffer ≡ f.width * f.height
  pub digit :
      (i c col row : ℕ)
      → get_elem? (to_string num) i ≡ some c
      → col < 8
      → row < 16
      → get_elem? f.buffer ((1 + row) * f.width + (digit_column num 10 i + col))
        ≡ some (dot_of c col row * 65793)
  pub blank :
      (x y : ℕ)
      → x < f.width
      → y < f.height
      → ((i c : ℕ) → get_elem? (to_string num) i ≡ some c → Beside x (digit_column num 10 i, c))
        ⊎ ((y < 1) ⊎ (17 ≤ y))
      → get_elem? f.buffer (y * f.width + x) ≡ some 0

-- A grey pixel of the image, as the buffer has it.
grey-get :
    (pixels : Bytes) (count i v : ℕ) (buffer : List ℕ)
    → length pixels ≡ count * 4
    → ((j : ℕ) → j < count → get_elem? buffer j ≡ pixel_value pixels j)
    → ((channel : ℕ) → channel < 4 → get_elem? pixels (i * 4 + channel) ≡ some v)
    → get_elem? buffer i ≡ some (v * 65793)
grey-get pixels count i v buffer size at grey =
    let inside = lt-get_elem? pixels (i * 4 + 3) v (grey 3 (omega arith)) in
    at i (omega arith) ∙ pixel_value-grey pixels i v grey

buffer_of-get :
    (pixels : Bytes) (count : ℕ)
    → length pixels ≡ count * 4
    → count < 2 ^ 61
    → (buffer : List ℕ) × (buffer_of pixels count ≡ some buffer)
      × (length buffer ≡ count)
      × ((j : ℕ) → j < count → get_elem? buffer j ≡ pixel_value pixels j)
unfolding buffer_of
buffer_of-get pixels count size small =
    let (buffer, run, full, at) = fill_from-get pixels 0 count (omega arith) in
    let fits = lt→ltb (count * 4) (2 ^ 63) (omega arith) in
    (
      buffer,
      rw (fits, run) refl,
      full,
      λ j below. let same : 0 + j ≡ j = omega arith in at j below ∙ ap (pixel_value pixels) same,
    )

frame_of_run :
    (num : ℕ) (r : Render) (buffer : List ℕ)
    → render_separated_number num 10 ≡ some r
    → u64 (r.width * r.height) ≡ r.width * r.height
    → buffer_of r.pixels (r.width * r.height) ≡ some buffer
    → frame_of num ≡ some (record { buffer = buffer; width = r.width; height = r.height })
unfolding frame_of
frame_of_run num r buffer drawn word run = rw (drawn, word, run) refl

-- Each `u64` is shown: the frame is made without a panic, and its buffer shows the number.
pub frame_of-IsFrame :
    (num : ℕ) → num < 2 ^ 64 → (f : Frame) × (frame_of num ≡ some f) × IsFrame num f
frame_of-IsFrame num small =
    let (r, drawn, shows) = render_separated_number-IsRendering num 10 (omega arith) small in
    let (pos, few) = length-to_string num small in
    let wide = shows.width in
    let high = shows.height in
    let below : r.width * r.height < 2 ^ 61 = rw high (omega arith) in
    let size = shows.size in
    let (buffer, run, full, at) = buffer_of-get r.pixels (r.width * r.height) size below in
    (
      record { buffer = buffer; width = r.width; height = r.height },
      frame_of_run num r buffer drawn (omega arith) run,
      record {
        width = wide;
        height = high;
        size = full;
        digit = λ i c col row e hc hr.
            grey-get r.pixels (r.width * r.height)
              ((1 + row) * r.width + (digit_column num 10 i + col)) (dot_of c col row) buffer size
              at (λ ch h. shows.digit i c col row ch e hc hr h);
        blank = λ x y hx hy beside.
            grey-get r.pixels (r.width * r.height) (y * r.width + x) 0 buffer size at
              (λ ch h. shows.blank x y ch hx hy h beside);
      },
    )

-- The frames after the first show the numbers from the next one on.
frame-get :
    (num : ℕ) (frame : Frame) (rest : List Frame)
    → num < 2 ^ 64
    → IsFrame num frame
    → ((i : ℕ) (f : Frame)
        → get_elem? rest i ≡ some f
        → IsFrame (u64 (u64 (num + 12321) + i * 12321)) f)
    → (i : ℕ) (f : Frame) → get_elem? (frame ∷ rest) i ≡ some f
    → IsFrame (u64 (num + i * 12321)) f
frame-get num frame rest small shows at zero f e =
    let same : frame ≡ f = cc in
    let first : num ≡ u64 (num + 0 * 12321) = omega arith in
    subst (λ n. IsFrame n f) first (subst (IsFrame num) same shows)
frame-get num frame rest small shows at (suc i) f e =
    let next : u64 (u64 (num + 12321) + i * 12321) ≡ u64 (num + suc i * 12321) = omega arith in
    subst (λ n. IsFrame n f) next (at i f e)

-- From any `u64` and for so many rounds, the loop shows so many frames without a panic, and each
-- shows the number that is 12321 more than the last one's, modulo 2^64.
pub frames_from-IsFrame :
    (rounds num : ℕ)
    → num < 2 ^ 64
    → (frames : List Frame) × (frames_from rounds num ≡ some frames)
      × (length frames ≡ rounds)
      × ((i : ℕ) (f : Frame) → get_elem? frames i ≡ some f → IsFrame (u64 (num + i * 12321)) f)
unfolding frames_from
frames_from-IsFrame zero num small = ([], refl, refl, λ i f e. cc)
frames_from-IsFrame (suc rounds) num small =
    let (frame, made, shows) = frame_of-IsFrame num small in
    let (rest, run, size, at) = frames_from-IsFrame rounds (u64 (num + 12321)) (omega arith) in
    (frame ∷ rest, rw (made, run) refl, omega arith, frame-get num frame rest small shows at)
