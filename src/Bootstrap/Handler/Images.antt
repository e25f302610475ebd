-- ===== src/Bootstrap/Handler/Images.antt =====
-- The end of `function_handler` of src/bin/bootstrap.rs, which renders and encodes the count.
use digital_garden_visitor_c.Common.{
  ℕ, ◌*◌, ◌%◌, ◌^◌, ◌≤◌, ◌<◌, ◌≡◌, ap, ◌∙◌, arith, true, Bytes, Text, ok, length,
}
use digital_garden_visitor_c.Decimal.RoundTrip.{length-to_string}
use digital_garden_visitor_c.Counter.Render.{Render}
use digital_garden_visitor_c.Counter.Render.Drawn.{IsRendering, render_separated_number-IsRendering}
use digital_garden_visitor_c.Store.Dynamo.{done}
use digital_garden_visitor_c.Bootstrap.Handler.{Crates, image_answer, to_png_bytes, respond}
use digital_garden_visitor_c.Bootstrap.Handler.Answers.{respond-done}

-- The encoder takes every image that is not empty, that is no larger than the format allows, and
-- whose buffer has its size.
pub record PngLaws (crates : Crates) : Type 0 where
  pub encodes :
      (width height : ℕ) (pixels : Bytes)
      → 0 < width
      → width < 2 ^ 31
      → 0 < height
      → height < 2 ^ 31
      → length pixels ≡ width * height * 4
      → (png : Bytes) × (crates.png width height pixels ≡ ok png)

module _ (crates : Crates) (laws : PngLaws crates) where
  uncast :
      (r : Render)
      → r.width % 2 ^ 32 ≡ r.width
      → r.height % 2 ^ 32 ≡ r.height
      → to_png_bytes crates r ≡ crates.png r.width r.height r.pixels
  unfolding to_png_bytes
  uncast r width height =
      ap (λ w. crates.png w (r.height % 2 ^ 32) r.pixels) width
      ∙ ap (λ h. crates.png r.width h r.pixels) height

  pub to_png_bytes-IsRendering :
      (min_width count : ℕ) (r : Render)
      → count < 2 ^ 64
      → min_width ≤ 200_000_000
      → IsRendering count min_width r
      → (p : Bytes) × (crates.png r.width r.height r.pixels ≡ ok p) × (to_png_bytes crates r ≡ ok p)
  to_png_bytes-IsRendering min_width count r word narrow drawn =
      let (pos, few) = length-to_string count word in
      let w = drawn.width in
      let h = drawn.height in
      let (p, e) =
        laws.encodes r.width r.height r.pixels (omega arith) (omega arith) (omega arith)
          (omega arith) drawn.size in
      let width : r.width % 2 ^ 32 ≡ r.width = omega arith in
      let height : r.height % 2 ^ 32 ≡ r.height = omega arith in (p, e, uncast r width height ∙ e)

module _ (crates : Crates) (laws : PngLaws crates) (min_width : ℕ) (name : Text)
    (tag count : ℕ) where
  -- For every `u64` count and every configured width up to 200,000,000, the end of the handler
  -- neither panics nor fails, if the encoder takes every image that the format allows and the name
  -- can be a header value: it answers with the encoding of the image of the count, whose dimensions
  -- the casts to `u32` do not change.
  pub respond-IsRendering :
      count < 2 ^ 64
      → min_width ≤ 200_000_000
      → crates.valid_header name ≡ true
      → (r : Render) × (p : Bytes) × IsRendering count min_width r
        × (crates.png r.width r.height r.pixels ≡ ok p)
        × (respond crates min_width name tag count ≡ done (image_answer name tag count p))
  respond-IsRendering word narrow valid =
      let (r, run, drawn) =
        render_separated_number-IsRendering count min_width (omega arith) word in
      let (p, png, bytes) =
        to_png_bytes-IsRendering crates laws min_width count r word narrow drawn in
      (r, p, drawn, png, respond-done crates min_width name tag count r p run bytes valid)
