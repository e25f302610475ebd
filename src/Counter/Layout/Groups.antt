-- ===== src/Counter/Layout/Groups.antt =====
-- The groups of three digits of src/counter.rs, and the columns that the loop over them gives the
-- digits.
use mathlib.Core.Path.{subst}
use mathlib.Core.List.{reverse, reverse-cons}
use digital_garden_visitor_c.Common.{
  ℕ, zero, suc, ◌+◌, ◌-◌, ◌*◌, ◌≤◌, ◌<◌, ◌≡◌, refl, arith, some, List, [], ◌∷◌, ◌++◌, append_assoc,
  append-nil, Text, length, take, drop, get_elem?, length-take, length-drop, take-append-drop,
}
use digital_garden_visitor_c.Counter.Font.Written.{Placed, place_text}
use digital_garden_visitor_c.Counter.Layout.{rchunks_from, groups_of}

-- Induction over the groups of a text, from the left: a group has one to three characters, and
-- three unless it is the first.
module _ {κ} (P : Text → List Text → Type κ) (nothing : P [] [])
    (group : (s t : Text) (gs : List Text)
      → 0 < length t
      → length t ≤ 3
      → (0 < length s → length t ≡ 3)
      → P s gs
      → P (s ++ t) (gs ++ t ∷ [])) where
  rchunks_from_ind : (fuel : ℕ) (s : Text) → length s ≤ fuel → P s (reverse (rchunks_from fuel 3 s))
  unfolding rchunks_from
  rchunks_from_ind zero [] h = nothing
  rchunks_from_ind zero (c ∷ s) h = elim h [ ]
  rchunks_from_ind (suc fuel) [] h = nothing
  rchunks_from_ind (suc fuel) (c ∷ s) h =
      let split = length (c ∷ s) - 3 in
      let front = take split (c ∷ s) in
      let back = drop split (c ∷ s) in
      let front_length = length-take split (c ∷ s) (omega arith) in
      let back_length = length-drop split (c ∷ s) in
      let rest = rchunks_from_ind fuel front (omega arith) in
      let step =
        group front back (reverse (rchunks_from fuel 3 front)) (omega arith) (omega arith)
          (λ pos. omega arith) rest in
      rw (reverse-cons back (rchunks_from fuel 3 front)) (
        subst (λ u. P u (reverse (rchunks_from fuel 3 front) ++ back ∷ []))
          (take-append-drop split (c ∷ s)) step)

  pub groups_of_ind : (s : Text) → P s (groups_of s)
  unfolding groups_of
  groups_of_ind s = rchunks_from_ind (length s) s (omega arith)

-- The characters of the groups, as the loop over the groups places them.
abbrev pub place_groups : List Text → ℕ → List Placed
place_groups [] x = []
place_groups (g ∷ gs) x = place_text g x ++ place_groups gs (x + (length g * 9 + 3))

-- How far the loop advances over the groups.
abbrev pub span : List Text → ℕ
span [] = 0
span (g ∷ gs) = length g * 9 + 3 + span gs

pub span_snoc : (gs : List Text) (g : Text) → span (gs ++ g ∷ []) ≡ span gs + (length g * 9 + 3)
span_snoc [] g = omega arith
span_snoc (h ∷ gs) g = omega (arith, span_snoc gs g)

pub place_groups_snoc :
    (gs : List Text) (g : Text) (x : ℕ)
    → place_groups (gs ++ g ∷ []) x ≡ place_groups gs x ++ place_text g (x + span gs)
place_groups_snoc [] g x = let start : x + 0 ≡ x = omega arith in rw (start, append-nil) refl
place_groups_snoc (h ∷ gs) g x =
    let start : x + (length h * 9 + 3) + span gs ≡ x + (length h * 9 + 3 + span gs) = omega arith in
    rw (place_groups_snoc gs g (x + (length h * 9 + 3)), start, append_assoc)

pub length-place_text : (text : Text) (x : ℕ) → length (place_text text x) ≡ length text
length-place_text [] x = refl
length-place_text (c ∷ text) x = omega (arith, length-place_text text (x + 9))

pub get_elem?-place_text :
    (text : Text) (x i c : ℕ)
    → get_elem? text i ≡ some c
    → get_elem? (place_text text x) i ≡ some (x + 9 * i, c)
get_elem?-place_text [] x i c e = cc
get_elem?-place_text (d ∷ text) x zero c e =
    let same : d ≡ c = cc in let start : x + 9 * 0 ≡ x = omega arith in rw (same, start) refl
get_elem?-place_text (d ∷ text) x (suc i) c e =
    let column : x + 9 + 9 * i ≡ x + 9 * suc i = omega arith in
    rw (← column) (get_elem?-place_text text (x + 9) i c e)
