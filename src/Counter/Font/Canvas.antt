-- ===== src/Counter/Font/Canvas.antt =====
-- What a buffer of RGBA pixels shows, for the stores of `blit_glyph_into` in src/counter.rs: a
-- picture gives each pixel the one byte that all its four channels have.
use native.Mathlib.Nat.{mul-le-mul_right}
use digital_garden_visitor_c.Common.{
  ℕ, suc, ◌+◌, ◌*◌, ◌≤◌, ◌<◌, ◌≡◌, refl, ap, ◌∙◌, arith, Bool, true, false, ◌&&◌, Option, some,
  Bytes, if◌then◌else◌, ltb, leb, ◌==◌, lt→ltb, ltb→lt, Bool-cases, length, get_elem?, set,
  length-set, get_elem?-set, store_at, inl, inr,
}
use digital_garden_visitor_c.Counter.Font.{store_pixel}

abbrev pub Picture : Type 0
Picture = ℕ → ℕ → ℕ

-- The place of a channel of the pixel at (x, y).
abbrev pub place : ℕ → ℕ → ℕ → ℕ → ℕ
place width x y c = (y * width + x) * 4 + c

abbrev pub Shows : ℕ → ℕ → Picture → Bytes → Type 0
Shows width height picture b =
    (length b ≡ width * height * 4)
    × ((x y c : ℕ)
        → x < width
        → y < height
        → c < 4
        → get_elem? b (place width x y c) ≡ some (picture x y))

pub Shows-ext :
    (width height : ℕ) (p q : Picture) (b : Bytes)
    → ((x y : ℕ) → p x y ≡ q x y)
    → Shows width height p b
    → Shows width height q b
Shows-ext width height p q b e (len, shown) =
    (len, λ x y c hx hy hc. shown x y c hx hy hc ∙ ap some (e x y))

-- One pixel of a picture replaced.
abbrev pub paint : ℕ → ℕ → ℕ → Picture → Picture
paint px py v picture x y = if x == px && y == py then v else picture x y

pub place-lt :
    (width height x y c : ℕ)
    → x < width
    → y < height
    → c < 4
    → place width x y c < width * height * 4
place-lt width height x y c hx hy hc =
    let row : suc y * width ≤ height * width = mul-le-mul_right width hy in omega arith

-- Different pixels have different places.
place_rows-ne : (width x y x' y' : ℕ) → x < width → y < y' → y * width + x < y' * width + x'
place_rows-ne width x y x' y' hx hy =
    let row : suc y * width ≤ y' * width = mul-le-mul_right width hy in omega arith

-- A store at one channel, read at any place.
store_at-some : (b : Bytes) (i v : ℕ) → i < length b → store_at b i v ≡ some (set b i v)
unfolding store_at
store_at-some b i v h = rw (lt→ltb i (length b) h)

-- The four stores of a pixel, read at any place.
four : Bytes → ℕ → ℕ → Bytes
four b i v = set (set (set (set b i v) (i + 1) v) (i + 2) v) (i + 3) v

get_elem?-four :
    (b : Bytes) (i v j : ℕ)
    → i + 3 < length b
    → get_elem? (four b i v) j ≡ (if leb i j && leb j (i + 3) then some v else get_elem? b j)
unfolding four
get_elem?-four b i v j h =
    let l1 = length-set b i v in
    let l2 = length-set (set b i v) (i + 1) v in
    let l3 = length-set (set (set b i v) (i + 1) v) (i + 2) v in
    rw
      (
        get_elem?-set (set (set (set b i v) (i + 1) v) (i + 2) v) (i + 3) j v (omega arith),
        get_elem?-set (set (set b i v) (i + 1) v) (i + 2) j v (omega arith),
        get_elem?-set (set b i v) (i + 1) j v (omega arith),
        get_elem?-set b i j v (omega arith),
      )
      (ground arith)

store_pixel-four : (b : Bytes) (i v : ℕ) → i + 3 < length b → store_pixel b i v ≡ some (four b i v)
unfolding store_pixel four
store_pixel-four b i v h =
    let l1 = length-set b i v in
    let l2 = length-set (set b i v) (i + 1) v in
    let l3 = length-set (set (set b i v) (i + 1) v) (i + 2) v in
    rw (
      store_at-some b i v (omega arith),
      store_at-some (set b i v) (i + 1) v (omega arith),
      store_at-some (set (set b i v) (i + 1) v) (i + 2) v (omega arith),
      store_at-some (set (set (set b i v) (i + 1) v) (i + 2) v) (i + 3) v (omega arith),
    )

length-four : (b : Bytes) (i v : ℕ) → length (four b i v) ≡ length b
unfolding four
length-four b i v = rw (length-set, length-set, length-set, length-set)

-- The place of (x, y) is among the four of (px, py) just when the pixels are equal.
painted :
    (width px py v x y c : ℕ) (o : Option ℕ)
    → px < width
    → x < width
    → c < 4
    → (if leb (place width px py 0) (place width x y c)
          && leb (place width x y c) (place width px py 0 + 3)
        then some v
        else o)
      ≡ (if x == px && y == py then some v else o)
painted width px py v x y c o hp hx hc = elim (Bool-cases (ltb y py)) [
  | inl less ↦ let below = place_rows-ne width x y px py hx (ltb→lt y py less) in ground arith
  | inr geq ↦ elim (Bool-cases (ltb py y)) [
    | inl less ↦ let below = place_rows-ne width px py x y hp (ltb→lt py y less) in ground arith
    | inr leq ↦
        let same : y ≡ py = ground arith in
        let rows : y * width ≡ py * width = ap (λ t. t * width) same in ground arith
  ]
]

if_some : (t : Bool) (v w : ℕ) → (if t then some v else some w) ≡ some (if t then v else w)
if_some true v w = refl
if_some false v w = refl

-- A pixel inside the picture is stored without a panic, and then shown.
pub store_pixel-Shows :
    (width height : ℕ) (picture : Picture) (b : Bytes) (px py v : ℕ)
    → Shows width height picture b
    → px < width
    → py < height
    → (b' : Bytes) × (store_pixel b (place width px py 0) v ≡ some b')
      × Shows width height (paint px py v picture) b'
store_pixel-Shows width height picture b px py v (len, shown) hx hy =
    let inside = place-lt width height px py 3 hx hy (omega arith) in
    let fits : place width px py 0 + 3 < length b = omega arith in
    (
      four b (place width px py 0) v,
      store_pixel-four b (place width px py 0) v fits,
      (
        length-four b (place width px py 0) v ∙ len,
        λ x y c hx' hy' hc.
            rw
              (
                get_elem?-four b (place width px py 0) v (place width x y c) fits,
                shown x y c hx' hy' hc,
              )
              (painted width px py v x y c (some (picture x y)) hx hx' hc
                ∙ if_some (x == px && y == py) v (picture x y)),
      ),
    )
