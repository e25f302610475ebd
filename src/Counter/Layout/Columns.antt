-- ===== src/Counter/Layout/Columns.antt =====
-- The column of each digit in closed form, and the bounds that keep the digits inside the image.
use digital_garden_visitor_c.Common.{
  ℕ, suc, ◌+◌, ◌-◌, ◌*◌, ◌/◌, ◌%◌, ◌==◌, ◌^◌, max, ◌≤◌, ◌<◌, ◌≡◌, refl, ap, arith, some, List, [],
  ◌∷◌, ◌++◌, Text, if◌then◌else◌, ltb, length, All, All-of-get, All-append, All-split, get_elem?,
  get_elem?-append, get_elem?-lt, lt-get_elem?, length-append, Bool-cases, inl, inr, ◌⊎◌,
}
use digital_garden_visitor_c.Decimal.RoundTrip.{IsDigit}
use digital_garden_visitor_c.Counter.Font.Written.{Placed, place_text, Apart}
use digital_garden_visitor_c.Counter.Layout.{groups_of, image_width, first_offset}
use digital_garden_visitor_c.Counter.Layout.Groups.{
  groups_of_ind, place_groups, span, span_snoc, place_groups_snoc, length-place_text,
  get_elem?-place_text,
}

-- The column of digit `i` of `len` digits, from the column of the first: nine pixels for each digit
-- before it, and three for each group that ends before it.
abbrev pub column : ℕ → ℕ → ℕ
column len i = 9 * i + 3 * ((len - 1) / 3 - (len - 1 - i) / 3)

-- The groups of a text have its characters, in its order and at their columns.
pub record Laid (s : Text) (gs : List Text) : Type 0 where
  pub count : (x : ℕ) → length (place_groups gs x) ≡ length s
  pub at_column :
      (x i c : ℕ)
      → get_elem? s i ≡ some c
      → get_elem? (place_groups gs x) i ≡ some (x + column (length s) i, c)
  pub advance : span gs ≡ 9 * length s + 3 * ((length s + 2) / 3)
  pub digits : All IsDigit s → All (All IsDigit) gs

column-group :
    (s t : Text) (gs : List Text) (x i c : ℕ)
    → 0 < length t
    → length t ≤ 3
    → (0 < length s → length t ≡ 3)
    → Laid s gs
    → get_elem? (s ++ t) i ≡ some c
    → get_elem? (place_groups (gs ++ t ∷ []) x) i ≡ some (x + column (length (s ++ t)) i, c)
column-group s t gs x i c pos most full laid e =
    let count = laid.count x in
    let sum = length-append s t in
    let below = lt-get_elem? (s ++ t) i c e in
    let split = get_elem?-append s t i in
    rw
      (
        place_groups_snoc gs t x,
        get_elem?-append (place_groups gs x) (place_text t (x + span gs)) i,
        count,
      )
      (elim (Bool-cases (ltb i (length s))) [
        | inl before ↦
            let three : length t ≡ 3 = full (ground arith) in
            let same : column (length s) i ≡ column (length (s ++ t)) i = ground arith in
            let front : get_elem? s i ≡ some c = ground arith in
            rw (before, ← same) (laid.at_column x i c front)
        | inr after ↦
            let advance = laid.advance in
            let back : get_elem? t (i - length s) ≡ some c = ground arith in
            let same : x + span gs + 9 * (i - length s) ≡ x + column (length (s ++ t)) i =
              ground arith in
            rw (after, ← same) (get_elem?-place_text t (x + span gs) (i - length s) c back)
      ])

pub groups_of-Laid : (s : Text) → Laid s (groups_of s)
groups_of-Laid =
    groups_of_ind Laid
      (record { count = λ x. refl; at_column = λ x i c e. cc; advance = refl; digits = λ d. tt })
      (λ s t gs pos most full laid. record {
        count = λ x.
            let count = laid.count x in
            let sum = length-append s t in
            let text = length-place_text t (x + span gs) in
            rw
              (
                place_groups_snoc gs t x,
                length-append (place_groups gs x) (place_text t (x + span gs)),
              )
              (omega arith);
        at_column = λ x i c e. column-group s t gs x i c pos most full laid e;
        advance =
            let advance = laid.advance in
            let sum = length-append s t in
            let snoc = span_snoc gs t in
            let three : (length s ≡ 0) ⊎ (length t ≡ 3) = ground (arith, full) in ground arith;
        digits = λ d.
            let (a, b) = All-split IsDigit s t d in
            All-append (All IsDigit) gs (t ∷ []) (laid.digits a) (b, tt);
      })

-- Each placed character is one of the text.
pub Laid-get :
    (s : Text) (gs : List Text) (x i : ℕ) (q : Placed)
    → Laid s gs
    → get_elem? (place_groups gs x) i ≡ some q
    → (c : ℕ) × (get_elem? s i ≡ some c) × (q ≡ (x + column (length s) i, c))
Laid-get s gs x i q laid e =
    let count = laid.count x in
    let below = lt-get_elem? (place_groups gs x) i q e in
    let (c, f) = get_elem?-lt s i (omega arith) in let g = laid.at_column x i c f in (c, f, cc)

Apart-of-get :
    (qs : List Placed)
    → ((i j : ℕ) (q r : Placed)
        → get_elem? qs i ≡ some q
        → get_elem? qs j ≡ some r
        → i < j
        → q.0 + 9 ≤ r.0)
    → Apart qs
Apart-of-get [] h = tt
Apart-of-get ((x, c) ∷ qs) h = (
  All-of-get (λ r. x + 9 ≤ r.0) qs (λ j r e. h 0 (suc j) (x, c) r refl e (omega arith)),
  Apart-of-get qs (λ i j q r e f lt. h (suc i) (suc j) q r e f (omega arith)),
)

-- The digits do not overlap.
pub Laid-Apart : (s : Text) (gs : List Text) (x : ℕ) → Laid s gs → Apart (place_groups gs x)
Laid-Apart s gs x laid = Apart-of-get (place_groups gs x) (λ i j q r e f lt.
    let (c, _, q_at) = Laid-get s gs x i q laid e in
    let (d, _, r_at) = Laid-get s gs x j r laid f in
    let q_column : q.0 ≡ x + column (length s) i = ap (λ p. p.0) q_at in
    let r_column : r.0 ≡ x + column (length s) j = ap (λ p. p.0) r_at in omega arith)

module _ (len reserve : ℕ) (few : len ≤ 20) (bound : reserve ≤ 2 ^ 53) where
  -- The width does not wrap.
  pub image_width-eq :
      image_width len reserve ≡ 2 + 9 * max len reserve + 3 * max (reserve / 3) (len / 3)
  unfolding image_width
  image_width-eq = omega arith

  -- Between the last digit and the right edge are two pixels, and three more if the digits fill
  -- their groups.
  pub first_offset-image_width :
      0 < len
      → image_width len reserve
        ≡ first_offset len reserve + column len (len - 1) + 8 + (if len % 3 == 0 then 5 else 2)
  unfolding first_offset image_width
  first_offset-image_width pos = ground arith

  -- The groups fit into the width.
  pub first_offset-le :
      0 < len
      → first_offset len reserve + (9 * len + 3 * ((len + 2) / 3)) ≤ image_width len reserve + 3
  unfolding first_offset image_width
  first_offset-le pos = ground arith

  -- So does each digit.
  pub column-le :
      (i : ℕ) → i < len → first_offset len reserve + column len i + 8 ≤ image_width len reserve
  column-le i h = let fits = first_offset-le (omega arith) in omega arith
