-- ===== src/Counter/Font/Written.antt =====
-- What `blit_into` of src/counter.rs draws: the glyphs of a text of digits, one after the other.
use digital_garden_visitor_c.Common.{
  ℕ, zero, suc, ◌+◌, ◌-◌, ◌*◌, ◌^◌, ◌≤◌, ◌<◌, ◌≡◌, refl, ◌∙◌, arith, ◌&&◌, none, some, List, [],
  ◌∷◌, ◌++◌, Bytes, Text, if◌then◌else◌, ltb, leb, length, All, get_elem?, inl, ◌⊎◌,
}
use digital_garden_visitor_c.Decimal.RoundTrip.{IsDigit}
use digital_garden_visitor_c.Counter.Font.{glyph_for_char, blit_glyph_into, blit_into}
use digital_garden_visitor_c.Counter.Font.Canvas.{Picture, Shows, Shows-ext}
use digital_garden_visitor_c.Counter.Font.Glyphs.{
  dot, stamp, blit_glyph_into-Shows, glyph_for_char-IsDigit,
}

-- A character and the column of its left edge.
abbrev pub Placed : Type 0
Placed = ℕ × ℕ

-- The characters of a text from the column `x` on.
abbrev pub place_text : Text → ℕ → List Placed
place_text [] x = []
place_text (c ∷ text) x = (x, c) ∷ place_text text (x + 9)

-- The byte of the pixel in a column and a row of a character.
unfoldable pub dot_of : ℕ → ℕ → ℕ → ℕ
dot_of c col row = elim (glyph_for_char c) [ none ↦ 0 | some glyph ↦ dot glyph col row ]

-- The pixels of a character in the rows 1 to 16.
abbrev stamp_char : Placed → Picture → Picture
stamp_char (x, c) picture px py =
    if leb x px && ltb px (x + 8) && leb 1 py && ltb py 17
    then dot_of c (px - x) (py - 1)
    else picture px py

-- The characters drawn in order.
abbrev pub draw : List Placed → Picture → Picture
draw [] picture = picture
draw (q ∷ qs) picture = draw qs (stamp_char q picture)

pub draw-append : (qs rs : List Placed) (p : Picture) → draw (qs ++ rs) p ≡ draw rs (draw qs p)
draw-append [] rs p = refl
draw-append (q ∷ qs) rs p = draw-append qs rs (stamp_char q p)

dot_of-glyph :
    (c : ℕ) (glyph : List ℕ) (col row : ℕ)
    → glyph_for_char c ≡ some glyph
    → dot_of c col row ≡ dot glyph col row
unfolding dot_of
dot_of-glyph c glyph col row e = rw (e, dot_of)

stamp-char :
    (c x : ℕ) (glyph : List ℕ) (p : Picture) (px py : ℕ)
    → glyph_for_char c ≡ some glyph
    → stamp glyph x 1 16 p px py ≡ stamp_char (x, c) p px py
stamp-char c x glyph p px py e = let same = dot_of-glyph c glyph (px - x) (py - 1) e in ground arith

blit_into_step :
    (width c : ℕ) (text : Text) (x : ℕ) (b t : Bytes) (glyph : List ℕ)
    → glyph_for_char c ≡ some glyph
    → blit_glyph_into b width glyph x 1 ≡ some t
    → blit_into b width (c ∷ text) x 1 ≡ blit_into t width text (x + 9) 1
unfolding blit_into
blit_into_step width c text x b t glyph e run = rw (e, blit_into, run)

module _ (width height : ℕ) (small : width * height * 4 ≤ 2 ^ 64) (high : 17 ≤ height) where
  -- A text of digits that fits is drawn without a panic.
  pub blit_into-Shows :
      (text : Text) (x : ℕ) (p : Picture) (b : Bytes)
      → All IsDigit text
      → x + 9 * length text ≤ width
      → Shows width height p b
      → (b' : Bytes) × (blit_into b width text x 1 ≡ some b')
        × Shows width height (draw (place_text text x) p) b'
  unfolding blit_into
  blit_into-Shows [] x p b digits fits shows = (b, refl, shows)
  blit_into-Shows (c ∷ text) x p b (digit, digits) fits shows =
      let (glyph, e, bits) = glyph_for_char-IsDigit c digit in
      let (t, run, shown) =
        blit_glyph_into-Shows width height glyph x 1
          (record { bits = bits; columns = omega arith; rows = high; small = small }) p b shows in
      let (b', rest, done) =
        blit_into-Shows text (x + 9) (stamp_char (x, c) p) t digits (omega arith) (
          Shows-ext width height _ (stamp_char (x, c) p) t (λ px py. stamp-char c x glyph p px py e)
            shown) in
      (b', blit_into_step width c text x b t glyph e run ∙ rest, done)

-- A column beside a character.
abbrev pub Beside : ℕ → Placed → Type 0
Beside px (x, c) = (px < x) ⊎ (x + 8 ≤ px)

-- No character is drawn beside it.
pub draw-Beside :
    (qs : List Placed) (p : Picture) (px py : ℕ) → All (Beside px) qs → draw qs p px py ≡ p px py
draw-Beside [] p px py _ = refl
draw-Beside ((x, c) ∷ qs) p px py (beside, besides) =
    draw-Beside qs (stamp_char (x, c) p) px py besides ∙ ground arith

-- Nor above or below the line.
pub draw_outside :
    (qs : List Placed) (p : Picture) (px py : ℕ) → (py < 1) ⊎ (17 ≤ py) → draw qs p px py ≡ p px py
draw_outside [] p px py _ = refl
draw_outside ((x, c) ∷ qs) p px py out =
    draw_outside qs (stamp_char (x, c) p) px py out ∙ ground arith

-- The characters stand from left to right with a pixel between them at least.
abbrev pub Apart : List Placed → Type 0
Apart [] = Unit
Apart ((x, c) ∷ qs) = All (λ q. x + 9 ≤ q.0) qs × Apart qs

apart-Beside :
    (x col : ℕ) (qs : List Placed) → col < 8 → All (λ q. x + 9 ≤ q.0) qs → All (Beside (x + col)) qs
apart-Beside x col [] h _ = tt
apart-Beside x col ((y, c) ∷ qs) h (a, rest) = (inl (omega arith), apart-Beside x col qs h rest)

stamp-own :
    (x c : ℕ) (p : Picture) (col row : ℕ)
    → col < 8
    → row < 16
    → stamp_char (x, c) p (x + col) (1 + row) ≡ dot_of c col row
stamp-own x c p col row hc hr =
    let column : x + col - x ≡ col = omega arith in
    let line : 1 + row - 1 ≡ row = omega arith in ground arith

-- The pixels of each character are its own.
pub draw-get :
    (qs : List Placed) (p : Picture) (i x c col row : ℕ)
    → Apart qs
    → get_elem? qs i ≡ some (x, c)
    → col < 8
    → row < 16
    → draw qs p (x + col) (1 + row) ≡ dot_of c col row
draw-get [] p i x c col row _ e hc hr = cc
draw-get ((y, d) ∷ qs) p zero x c col row (apart, _) e hc hr =
    let left : y ≡ x = cc in
    let same : d ≡ c = cc in
    rw (← left, ← same)
      (draw-Beside qs (stamp_char (y, d) p) (y + col) (1 + row) (apart-Beside y col qs hc apart)
        ∙ stamp-own y d p col row hc hr)
draw-get ((y, d) ∷ qs) p (suc i) x c col row (_, apart) e hc hr =
    draw-get qs (stamp_char (y, d) p) i x c col row apart e hc hr
