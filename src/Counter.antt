-- ===== src/Counter.antt =====
-- The rendering of the counter, src/counter.rs: `Layout` cuts the printed number into
-- groups and places them, `Font` copies the glyphs of `Bitmaps` into the buffer, and `Render` puts
-- the parts together.
pub mod Bitmaps
pub mod Font
pub mod Layout
pub mod Render
