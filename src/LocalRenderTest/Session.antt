-- ===== src/LocalRenderTest/Session.antt =====
-- `main` of local-render-test/src/main.rs: the window, the image in a file, and the loop. A panic is
-- `none`.
use digital_garden_visitor_c.Common.{
  ℕ, zero, suc, ◌+◌, List, [], ◌∷◌, Option, some, Bytes, Text, codes, Result, unwrap, u64, ◌>>=◌,
}
use digital_garden_visitor_c.Counter.Render.{render_separated_number}
use digital_garden_visitor_c.Bootstrap.Handler.{Crates, to_png_bytes}
use digital_garden_visitor_c.LocalRenderTest.{Frame, frame_of}

-- What the crate minifb and the file system answer, and in how many rounds of the loop the window is
-- found open and the key escape not pressed.
pub record Desktop : Type 0 where
  pub new_window : Text → ℕ → ℕ → Result (Unit {0}) ℕ
  pub write : Text → Bytes → Result (Unit {0}) ℕ
  pub update_with_buffer : Frame → Result (Unit {0}) ℕ
  pub rounds : ℕ

-- The size of the window, the bytes of the file, and what the window showed.
pub record Session : Type 0 where
  pub width : ℕ
  pub height : ℕ
  pub file : Bytes
  pub frames : List Frame

-- The `while` loop, from the number on.
unfoldable pub show_from : Desktop → ℕ → ℕ → Option (List Frame)
unfolding frame_of
show_from desktop zero num = some []
show_from desktop (suc rounds) num = do
  frame ← frame_of num
  updated ← unwrap (desktop.update_with_buffer frame)
  rest ← show_from desktop rounds (u64 (num + 12321))
  some (frame ∷ rest)

unfoldable pub main : Crates → Desktop → Option Session
unfolding show_from to_png_bytes
main crates desktop = do
  render ← render_separated_number 1 10
  opened ← unwrap (desktop.new_window (codes "Test") render.width render.height)
  picture ← render_separated_number 1_234_567_890 10
  png_bytes ← unwrap (to_png_bytes crates picture)
  written ← unwrap (desktop.write (codes "test-output.png") png_bytes)
  frames ← show_from desktop desktop.rounds 0
  some (record { width = render.width; height = render.height; file = png_bytes; frames = frames })
