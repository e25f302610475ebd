-- ===== src/Examples/Sessions.antt =====
-- The local render test on a desktop that checks each buffer, and the instance of the theorem.
use digital_garden_visitor_c.Common.{
  ◌*◌, ◌≡◌, refl, arith, some, ok, err, length, if◌then◌else◌, ◌==◌, ◌||◌,
}
use digital_garden_visitor_c.LocalRenderTest.Session.{Desktop, Session, main}
use digital_garden_visitor_c.LocalRenderTest.Shown.{DesktopLaws, IsSession, main-IsSession}
use digital_garden_visitor_c.Examples.Handler.{crates, crates-PngLaws}

abbrev desktop : Desktop
desktop = record {
  new_window = λ title width height. if width == 0 || height == 0 then err 1 else ok tt;
  write = λ path bytes. ok tt;
  update_with_buffer =
      λ frame. if length frame.buffer == frame.width * frame.height then ok tt else err 2;
  rounds = 60;
}

desktop-DesktopLaws : DesktopLaws desktop
desktop-DesktopLaws = record {
  opens = λ title width height w h. ground arith;
  writes = λ path bytes. refl;
  updates = λ frame size. ground arith;
}

main-IsSession_example :
    (session : Session) × (main crates desktop ≡ some session) × IsSession crates 60 session
main-IsSession_example = main-IsSession crates crates-PngLaws desktop desktop-DesktopLaws
