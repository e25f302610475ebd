-- ===== src/Counter/Bitmaps.antt =====
-- The font of src/counter.rs: the bitmaps of the ten digits, row by row, eight pixels to a row.
use digital_garden_visitor_c.Common.{ℕ, List, [], ◌∷◌}

-- Foreground.
abbrev F : ℕ
F = 1

abbrev o : ℕ
o = 0

-- One line of a bitmap, in front of the lines below it.
abbrev line : ℕ → ℕ → ℕ → ℕ → ℕ → ℕ → ℕ → ℕ → List ℕ → List ℕ
line a b c d e f g h below = a ∷ b ∷ c ∷ d ∷ e ∷ f ∷ g ∷ h ∷ below

-- The lines stand one below the other.
infixr 1 ◌//◌
abbrev ◌//◌ : (List ℕ → List ℕ) → List ℕ → List ℕ
(l // below) = l below

abbrev glyph_0 : List ℕ
glyph_0 =
    line o o o F F o o o
    // line o o F F F F o o
    // line o F F o o F F o
    // line o F o o o o F o
    // line F F o o o o F F
    // line F F o o o o F F
    // line F F o o o o F F
    // line F F o o F o F F
    // line F F o F o o F F
    // line F F o o o o F F
    // line F F o o o o F F
    // line F F o o o o F F
    // line o F o o o o F o
    // line o F F o o F F o
    // line o o F F F F o o
    // line o o o F F o o o
    // []

abbrev glyph_1 : List ℕ
glyph_1 =
    line o o o F F o o o
    // line o o F F F o o o
    // line o F F F F o o o
    // line F F o F F o o o
    // line F o o F F o o o
    // line o o o F F o o o
    // line o o o F F o o o
    // line o o o F F o o o
    // line o o o F F o o o
    // line o o o F F o o o
    // line o o o F F o o o
    // line o o o F F o o o
    // line o o o F F o o o
    // line o o o F F o o o
    // line F F F F F F F F
    // line F F F F F F F F
    // []

abbrev glyph_2 : List ℕ
glyph_2 =
    line o o o F F o o o
    // line o F F F F F o o
    // line o F F o o F F o
    // line F F o o o o F F
    // line F F o o o o F F
    // line o o o o o o F F
    // line o o o o o F F o
    // line o o o o o F F o
    // line o o o o F F o o
    // line o o o o F F o o
    // line o o o F F o o o
    // line o o o F F o o o
    // line o o F F o o o o
    // line o F F F o o o o
    // line F F F F F F F F
    // line F F F F F F F F
    // []

abbrev glyph_3 : List ℕ
glyph_3 =
    line o o o F F o o o
    // line o F F F F F F o
    // line F F F o o F F o
    // line F F o o o o F F
    // line o o o o o o F F
    // line o o o o o o F F
    // line o o o o o F F o
    // line o o o F F F o o
    // line o o o F F F o o
    // line o o o o o F F o
    // line o o o o o o F F
    // line o o o o o o F F
    // line F F o o o o F F
    // line F F F o o F F o
    // line o F F F F F F o
    // line o o o F F o o o
    // []

abbrev glyph_4 : List ℕ
glyph_4 =
    line o o o o o F F o
    // line o o o o F F F o
    // line o o o F F F F o
    // line o o o F o F F o
    // line o o F F o F F o
    // line o F F o o F F o
    // line o F F o o F F o
    // line F F o o o F F o
    // line F F F F F F F F
    // line F F F F F F F F
    // line o o o o o F F o
    // line o o o o o F F o
    // line o o o o o F F o
    // line o o o o o F F o
    // line o o o o F F F F
    // line o o o o F F F F
    // []

abbrev glyph_5 : List ℕ
glyph_5 =
    line F F F F F F F o
    // line F F F F F F F o
    // line F F o o o o o o
    // line F F o o o o o o
    // line F F o o o o o o
    // line F F o o o o o o
    // line F F o F F F o o
    // line F F F F F F F o
    // line o F o o o F F o
    // line o o o o o o F F
    // line o o o o o o F F
    // line o o o o o o F F
    // line F F o o o o F F
    // line F F F o o F F o
    // line o F F F F F o o
    // line o o o F F o o o
    // []

abbrev glyph_6 : List ℕ
glyph_6 =
    line o o o F F o o o
    // line o F F F F F F o
    // line o F F o o F F o
    // line F F o o o o o o
    // line F F o o o o o o
    // line F F o o o o o o
    // line F F o F F o o o
    // line F F F F F F F o
    // line F F F o o F F o
    // line F F o o o o F F
    // line F F o o o o F F
    // line F F o o o o F F
    // line o F o o o o F o
    // line o F F o o F F o
    // line o F F F F F F o
    // line o o o F F o o o
    // []

abbrev glyph_7 : List ℕ
glyph_7 =
    line F F F F F F F F
    // line F F F F F F F F
    // line o o o o o o F F
    // line o o o o o o F F
    // line o o o o o F F o
    // line o o o o o F F o
    // line o o o o F F o o
    // line o o o o F F o o
    // line o o F F F F F o
    // line o o F F F F F o
    // line o o o F F o o o
    // line o o o F F o o o
    // line o o o F F o o o
    // line o o o F F o o o
    // line o o o F F o o o
    // line o o o F F o o o
    // []

abbrev glyph_8 : List ℕ
glyph_8 =
    line o o o F F o o o
    // line o F F F F F F o
    // line o F F o o F F o
    // line o F o o o o F o
    // line F F o o o o F F
    // line F F o o o o F F
    // line o F F o o F F o
    // line o F F F F F F o
    // line o o F F F F o o
    // line o F F o o F F o
    // line F F F o o F F F
    // line F F o o o o F F
    // line F F o o o o F F
    // line o F F o o F F o
    // line o F F F F F F o
    // line o o o F F o o o
    // []

abbrev glyph_9 : List ℕ
glyph_9 =
    line o o o F F o o o
    // line o F F F F F F o
    // line o F F o o F F o
    // line o F o o o o F o
    // line F F o o o o F F
    // line F F o o o o F F
    // line F F o o o o F F
    // line o F F o o F F F
    // line o F F F F F F F
    // line o o o F F o F F
    // line o o o o o o F F
    // line o o o o o o F F
    // line o o o o o o F F
    // line o F F o o F F o
    // line o F F F F F F o
    // line o o o F F o o o
    // []

unfoldable pub glyph_bitmaps : List (List ℕ)
glyph_bitmaps =
    glyph_0 ∷ glyph_1 ∷ glyph_2 ∷ glyph_3 ∷ glyph_4 ∷ glyph_5 ∷ glyph_6 ∷ glyph_7 ∷ glyph_8
    ∷ glyph_9 ∷ []
