-- ===== src/LocalRenderTest/Shown.antt =====
-- What a session of local-render-test/src/main.rs shows and writes.
use mathlib.Core.Path.{subst}
use digital_garden_visitor_c.Common.{
  ℕ, zero, suc, ◌+◌, ◌*◌, ◌^◌, ◌<◌, ◌≡◌, refl, ◌∙◌, arith, List, ◌∷◌, some, Bytes, Text, codes, ok,
  length, get_elem?, u64,
}
use digital_garden_visitor_c.Decimal.RoundTrip.{length-to_string_le}
use digital_garden_visitor_c.Counter.Render.{Render, render_separated_number}
use digital_garden_visitor_c.Counter.Render.Drawn.{IsRendering, render_separated_number-IsRendering}
use digital_garden_visitor_c.Bootstrap.Handler.{Crates, to_png_bytes}
use digital_garden_visitor_c.Bootstrap.Handler.Images.{PngLaws, to_png_bytes-IsRendering}
use digital_garden_visitor_c.LocalRenderTest.{Frame, frame_of, frames_from}
use digital_garden_visitor_c.LocalRenderTest.Frames.{IsFrame, frame_of-IsFrame, frames_from-IsFrame}
use digital_garden_visitor_c.LocalRenderTest.Session.{Desktop, Session, show_from, main}

-- A window of a size that is not zero opens, the file is written, and an update succeeds whose buffer
-- has the size that it is said to have.
pub record DesktopLaws (desktop : Desktop) : Type 0 where
  pub opens :
      (title : Text) (width height : ℕ)
      → 0 < width
      → 0 < height
      → desktop.new_window title width height ≡ ok tt
  pub writes : (path : Text) (bytes : Bytes) → desktop.write path bytes ≡ ok tt
  pub updates :
      (frame : Frame)
      → length frame.buffer ≡ frame.width * frame.height
      → desktop.update_with_buffer frame ≡ ok tt

-- The file is the image of 1234567890. So many frames are shown, each of the number that is 12321 more
-- than the last one's; as long as the number has at most ten digits, the frame has the size of the
-- window.
pub record IsSession (crates : Crates) (rounds : ℕ) (session : Session) : Type 0 where
  pub width : session.width ≡ 101
  pub height : session.height ≡ 18
  pub picture : Render
  pub drawn : IsRendering 1_234_567_890 10 picture
  pub file : crates.png picture.width picture.height picture.pixels ≡ ok session.file
  pub count : length session.frames ≡ rounds
  pub shows :
      (i : ℕ) (frame : Frame)
      → get_elem? session.frames i ≡ some frame
      → IsFrame (u64 (i * 12321)) frame
  pub fits :
      (i : ℕ) (frame : Frame)
      → get_elem? session.frames i ≡ some frame
      → i * 12321 < 10 ^ 10
      → (frame.width ≡ session.width) × (frame.height ≡ session.height)

module _ (crates : Crates) (png_laws : PngLaws crates) (desktop : Desktop)
    (laws : DesktopLaws desktop) where
  show_from_step :
      (rounds num : ℕ) (frame : Frame) (rest : List Frame)
      → frame_of num ≡ some frame
      → length frame.buffer ≡ frame.width * frame.height
      → show_from desktop rounds (u64 (num + 12321)) ≡ some rest
      → show_from desktop (suc rounds) num ≡ some (frame ∷ rest)
  unfolding show_from
  show_from_step rounds num frame rest made size run =
      let updated = laws.updates frame size in rw (made, updated, run) refl

  -- Each update succeeds, so the loop shows the frames.
  show_from-frames_from :
      (rounds num : ℕ) → num < 2 ^ 64 → show_from desktop rounds num ≡ frames_from rounds num
  unfolding show_from frames_from
  show_from-frames_from zero num small = refl
  show_from-frames_from (suc rounds) num small =
      let (frame, made, shows) = frame_of-IsFrame num small in
      let updated = laws.updates frame shows.size in
      let rest = show_from-frames_from rounds (u64 (num + 12321)) (omega arith) in
      rw (made, updated, rest) refl

  session_run :
      (render picture : Render) (png : Bytes) (frames : List Frame)
      → render_separated_number 1 10 ≡ some render
      → desktop.new_window (codes "Test") render.width render.height ≡ ok tt
      → render_separated_number 1_234_567_890 10 ≡ some picture
      → to_png_bytes crates picture ≡ ok png
      → show_from desktop desktop.rounds 0 ≡ some frames
      → main crates desktop
        ≡ some
            (record { width = render.width; height = render.height; file = png; frames = frames })
  unfolding main
  session_run render picture png frames at_one opens at_all encodes shown =
      let writes = laws.writes (codes "test-output.png") png in
      rw (at_one, opens, at_all, encodes, writes, shown) refl

  IsFrame-zero :
      (i : ℕ) (frame : Frame)
      → IsFrame (u64 (0 + i * 12321)) frame
      → IsFrame (u64 (i * 12321)) frame
  IsFrame-zero i frame shows =
      let same : u64 (0 + i * 12321) ≡ u64 (i * 12321) = omega arith in
      subst (λ num. IsFrame num frame) same shows

  IsFrame-fits :
      (i : ℕ) (frame : Frame)
      → i * 12321 < 10 ^ 10
      → IsFrame (u64 (i * 12321)) frame
      → (frame.width ≡ 101) × (frame.height ≡ 18)
  IsFrame-fits i frame low shows =
      let few = length-to_string_le (u64 (i * 12321)) 9 (omega arith) in
      let wide = shows.width in (omega arith, shows.height)

  -- The local render test does what it shows. Let the window open, the file be written, the encoder
  -- take every image that the format allows, and each update succeed whose buffer has the size of the
  -- frame. Then for however many rounds the window stays open, nothing panics: the window has the size
  -- of the image of a ten-digit number, the file is the encoding of the image of 1234567890, and the
  -- frames show the multiples of 12321 from 0 on, modulo 2^64. Each frame has the size of the window
  -- as long as its number has at most ten digits.
  pub main-IsSession :
      (session : Session) × (main crates desktop ≡ some session)
      × IsSession crates desktop.rounds session
  main-IsSession =
      let (render, at_one, shown_one) =
        render_separated_number-IsRendering 1 10 (omega arith) (omega arith) in
      let (picture, at_all, drawn) =
        render_separated_number-IsRendering 1_234_567_890 10 (omega arith) (omega arith) in
      let one = length-to_string_le 1 0 (omega arith) in
      let wide : render.width ≡ 101 = let w = shown_one.width in omega arith in
      let high = shown_one.height in
      let (png, bytes, encodes) =
        to_png_bytes-IsRendering crates png_laws 10 1_234_567_890 picture (omega arith)
          (omega arith) drawn in
      let (frames, run, count, at) = frames_from-IsFrame desktop.rounds 0 (omega arith) in
      let opens =
        laws.opens (codes "Test") render.width render.height (omega arith) (omega arith) in
      let session : Session = record {
        width = render.width;
        height = render.height;
        file = png;
        frames = frames;
      } in
      (
        session,
        session_run render picture png frames at_one opens at_all encodes
            (show_from-frames_from desktop.rounds 0 (omega arith) ∙ run),
        record {
          width = wide;
          height = high;
          picture = picture;
          drawn = drawn;
          file = bytes;
          count = count;
          shows = λ i frame e. IsFrame-zero i frame (at i frame e);
          fits = λ i frame e low.
              let (w, h) = IsFrame-fits i frame low (IsFrame-zero i frame (at i frame e)) in
              (omega arith, omega arith);
        },
      )
