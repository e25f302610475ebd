-- ===== src/Store/Recent/Tags.antt =====
-- The tags of a visitor list: distinct tags, and the list read as a map from tags to times.
use mathlib.Core.HLevel.{⊥_prop}
use mathlib.Core.List.{
  Mem, Nodup, Nodup-cons, Nodup-nil, Perm, not-mem-nil, eq-or-mem_of_mem-cons, mem-cons_self,
  mem-cons_of_mem, map-append,
}
use mathlib.Core.List.Perm
use mathlib.Core.List.Nodup
use mathlib.Core.Logic.Or
use digital_garden_visitor_c.Common.{
  ℕ, ◌+◌, ◌≡◌, ◌≢◌, refl, sym, arith, List, [], ◌∷◌, ◌++◌, Bool, Option, none, some, map, inl, inr,
  Bool-cases, ltb, ◌==◌, if◌then◌else◌, keep, All,
}
use digital_garden_visitor_c.Store.Time.{SystemTime, recent_cutoff}
use digital_garden_visitor_c.Store.Visitor.{Visitor}
use digital_garden_visitor_c.Store.Recent.Prune.{fresh}

abbrev pub Other : ℕ → Visitor → Type 0
Other tag v = v.tag ≢ tag

-- No two visitors have one tag.
abbrev pub Distinct : List Visitor → Type 0
Distinct [] = Unit
Distinct (v ∷ vs) = All (Other v.tag) vs × Distinct vs

abbrev tags : List Visitor → List ℕ
tags = map (λ v. v.tag)

not-mem_of_Other : (tag : ℕ) (vs : List Visitor) → All (Other tag) vs → ¬ Mem tag (tags vs)
not-mem_of_Other tag [] _ = not-mem-nil
not-mem_of_Other tag (v ∷ vs) (p, ps) =
    λ m. Or.elim ⊥_prop (eq-or-mem_of_mem-cons m) (λ e. p (sym e)) (not-mem_of_Other tag vs ps)

Other-of_not-mem : (tag : ℕ) (vs : List Visitor) → ¬ Mem tag (tags vs) → All (Other tag) vs
Other-of_not-mem tag [] _ = tt
Other-of_not-mem tag (v ∷ vs) h =
    (λ e. h (rw e mem-cons_self), Other-of_not-mem tag vs (λ m. h (mem-cons_of_mem v.tag m)))

Distinct-Nodup : (vs : List Visitor) → Distinct vs → Nodup (tags vs)
Distinct-Nodup [] _ = Nodup-nil
Distinct-Nodup (v ∷ vs) (p, d) = Nodup-cons.1 (not-mem_of_Other v.tag vs p, Distinct-Nodup vs d)

Nodup-Distinct : (vs : List Visitor) → Nodup (tags vs) → Distinct vs
Nodup-Distinct [] _ = tt
Nodup-Distinct (v ∷ vs) h =
    let (p, d) = Nodup-cons.0 h in (Other-of_not-mem v.tag vs p, Nodup-Distinct vs d)

-- A part of a rearranged list has distinct tags, if the list has.
pub Distinct-perm : (vs ws rest : List Visitor) → Perm (vs ++ rest) ws → Distinct ws → Distinct vs
Distinct-perm vs ws rest p d = Nodup-Distinct vs (
    Nodup.of_append_left (tags rest)
      (rw map-append at (Perm.nodup (Perm.map (λ v. v.tag) (Perm.symm p)) (Distinct-Nodup ws d))))

keep-All :
    (P : Visitor → Type 0) (test : Visitor → Bool) (vs : List Visitor)
    → All P vs
    → All P (keep test vs)
keep-All P test [] _ = tt
keep-All P test (v ∷ vs) (p, ps) = elim (Bool-cases (test v)) [
  | inl e ↦ rw e (p, keep-All P test vs ps)
  | inr e ↦ rw e (keep-All P test vs ps)
]

pub keep-Distinct :
    (test : Visitor → Bool) (vs : List Visitor) → Distinct vs → Distinct (keep test vs)
keep-Distinct test [] _ = tt
keep-Distinct test (v ∷ vs) (p, d) = elim (Bool-cases (test v)) [
  | inl e ↦ rw e (keep-All (Other v.tag) test vs p, keep-Distinct test vs d)
  | inr e ↦ rw e (keep-Distinct test vs d)
]

concat-Other :
    (tag : ℕ) (vs : List Visitor) (v : Visitor)
    → Other tag v
    → All (Other tag) vs
    → All (Other tag) (vs ++ v ∷ [])
concat-Other tag [] v h _ = (h, tt)
concat-Other tag (w ∷ ws) v h (p, ps) = (p, concat-Other tag ws v h ps)

pub concat-Distinct :
    (v : Visitor) (vs : List Visitor) → All (Other v.tag) vs → Distinct vs → Distinct (vs ++ v ∷ [])
concat-Distinct v [] _ _ = (tt, tt)
concat-Distinct v (w ∷ ws) (p, ps) (q, d) =
    (concat-Other w.tag ws v (λ e. p (sym e)) q, concat-Distinct v ws ps d)

-- The time in the first entry with the tag.
unfoldable pub last_of : ℕ → List Visitor → Option SystemTime
last_of tag [] = none
last_of tag (v ∷ vs) = if v.tag == tag then some v.last_seen else last_of tag vs

-- That time, if it is less than the cutoff ago.
abbrev pub recent_time : SystemTime → Option SystemTime → Option SystemTime
recent_time now none = none
recent_time now (some t) = if ltb now (t + recent_cutoff) then some t else none

last_of-Other : (tag : ℕ) (vs : List Visitor) → All (Other tag) vs → last_of tag vs ≡ none
unfolding last_of
last_of-Other tag [] _ = refl
last_of-Other tag (v ∷ vs) (p, ps) = ground (arith, last_of-Other tag vs ps)

pub last_of-eq-none : (tag : ℕ) (vs : List Visitor) → last_of tag vs ≡ none → All (Other tag) vs
unfolding last_of
last_of-eq-none tag [] h = tt
last_of-eq-none tag (v ∷ vs) h = (ground arith, last_of-eq-none tag vs (ground arith))

-- Filtering a list with distinct tags filters the map.
pub last_of-keep :
    (now : SystemTime) (tag : ℕ) (vs : List Visitor)
    → Distinct vs
    → last_of tag (keep (fresh now) vs) ≡ recent_time now (last_of tag vs)
unfolding last_of
last_of-keep now tag [] _ = refl
last_of-keep now tag (v ∷ vs) (p, d) = ground (
  arith,
  last_of-keep now tag vs d,
  last_of-Other v.tag (keep (fresh now) vs) (keep-All (Other v.tag) (fresh now) vs p),
)

pub last_of-append :
    (tag : ℕ) (vs : List Visitor) (v : Visitor)
    → last_of tag vs ≡ none
    → last_of tag (vs ++ v ∷ []) ≡ (if v.tag == tag then some v.last_seen else none)
unfolding last_of
last_of-append tag [] v h = refl
last_of-append tag (w ∷ ws) v h = ground (arith, last_of-append tag ws v)

pub last_of-append_other :
    (tag : ℕ) (vs : List Visitor) (v : Visitor)
    → v.tag ≢ tag
    → last_of tag (vs ++ v ∷ []) ≡ last_of tag vs
unfolding last_of
last_of-append_other tag [] v h = ground arith
last_of-append_other tag (w ∷ ws) v h = ground (arith, last_of-append_other tag ws v)
