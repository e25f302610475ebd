-- ===== src/Store/Recent/Order.antt =====
-- The sort of `prune_visitors`: a permutation in descending order, and what a cut of it keeps.
use mathlib.Core.List.{Perm}
use mathlib.Core.List.Perm
use digital_garden_visitor_c.Common.{
  ℕ, zero, suc, ◌≤◌, arith, List, [], ◌∷◌, inl, inr, Bool-cases, leb, take, drop, All,
}
use digital_garden_visitor_c.Store.Visitor.{Visitor}
use digital_garden_visitor_c.Store.Recent.{insert_by_last_seen, sort_by_last_seen}

-- Seen no later than `v`.
abbrev pub NoLater : Visitor → Visitor → Type 0
NoLater v w = w.last_seen ≤ v.last_seen

-- Latest first.
abbrev pub IsDescending : List Visitor → Type 0
IsDescending [] = Unit
IsDescending (v ∷ vs) = All (NoLater v) vs × IsDescending vs

All-NoLater :
    (v w : Visitor) (vs : List Visitor) → NoLater v w → All (NoLater w) vs → All (NoLater v) vs
All-NoLater v w [] _ _ = tt
All-NoLater v w (x ∷ vs) h (p, ps) = (omega arith, All-NoLater v w vs h ps)

insert_perm : (v : Visitor) (vs : List Visitor) → Perm (insert_by_last_seen v vs) (v ∷ vs)
unfolding insert_by_last_seen
insert_perm v [] = Perm.rfl
insert_perm v (w ∷ ws) = elim (Bool-cases (leb w.last_seen v.last_seen)) [
  | inl e ↦ rw (e, insert_by_last_seen) Perm.rfl
  | inr e ↦
      rw (e, insert_by_last_seen) (Perm.trans (Perm.cons w (insert_perm v ws)) (Perm.swap v w ws))
]

insert-All :
    (P : Visitor → Type 0) (v : Visitor) (vs : List Visitor)
    → P v
    → All P vs
    → All P (insert_by_last_seen v vs)
unfolding insert_by_last_seen
insert-All P v [] p _ = (p, tt)
insert-All P v (w ∷ ws) p (q, qs) = elim (Bool-cases (leb w.last_seen v.last_seen)) [
  | inl e ↦ rw (e, insert_by_last_seen) (p, (q, qs))
  | inr e ↦ rw (e, insert_by_last_seen) (q, insert-All P v ws p qs)
]

insert-IsDescending :
    (v : Visitor) (vs : List Visitor) → IsDescending vs → IsDescending (insert_by_last_seen v vs)
unfolding insert_by_last_seen
insert-IsDescending v [] _ = (tt, tt)
insert-IsDescending v (w ∷ ws) (below, d) = elim (Bool-cases (leb w.last_seen v.last_seen)) [
  | inl e ↦
      let h : w.last_seen ≤ v.last_seen = ground arith in
      rw (e, insert_by_last_seen) ((h, All-NoLater v w ws h below), (below, d))
  | inr e ↦
      let h : v.last_seen ≤ w.last_seen = ground arith in
      rw (e, insert_by_last_seen) (insert-All (NoLater w) v ws h below, insert-IsDescending v ws d)
]

pub sort_perm : (vs : List Visitor) → Perm (sort_by_last_seen vs) vs
unfolding sort_by_last_seen
sort_perm [] = Perm.rfl
sort_perm (v ∷ vs) = Perm.trans (insert_perm v _) (Perm.cons v (sort_perm vs))

pub sort-IsDescending : (vs : List Visitor) → IsDescending (sort_by_last_seen vs)
unfolding sort_by_last_seen
sort-IsDescending [] = tt
sort-IsDescending (v ∷ vs) = insert-IsDescending v _ (sort-IsDescending vs)

pub sort-All : (P : Visitor → Type 0) (vs : List Visitor) → All P vs → All P (sort_by_last_seen vs)
unfolding sort_by_last_seen
sort-All P [] _ = tt
sort-All P (v ∷ vs) (p, ps) = insert-All P v _ p (sort-All P vs ps)

pub take-All : (P : Visitor → Type 0) (n : ℕ) (vs : List Visitor) → All P vs → All P (take n vs)
take-All P zero vs _ = tt
take-All P (suc n) [] _ = tt
take-All P (suc n) (v ∷ vs) (p, ps) = (p, take-All P n vs ps)

drop-All : (P : Visitor → Type 0) (n : ℕ) (vs : List Visitor) → All P vs → All P (drop n vs)
drop-All P zero vs h = h
drop-All P (suc n) [] _ = tt
drop-All P (suc n) (v ∷ vs) (p, ps) = drop-All P n vs ps

-- What a cut of a descending list leaves out is no later than what it keeps.
pub take-drop-NoLater :
    (n : ℕ) (vs : List Visitor)
    → IsDescending vs
    → All (λ v. All (NoLater v) (drop n vs)) (take n vs)
take-drop-NoLater zero vs _ = tt
take-drop-NoLater (suc n) [] _ = tt
take-drop-NoLater (suc n) (v ∷ vs) (below, d) =
    (drop-All (NoLater v) n vs below, take-drop-NoLater n vs d)

pub take-IsDescending : (n : ℕ) (vs : List Visitor) → IsDescending vs → IsDescending (take n vs)
take-IsDescending zero vs _ = tt
take-IsDescending (suc n) [] _ = tt
take-IsDescending (suc n) (v ∷ vs) (below, d) =
    (take-All (NoLater v) n vs below, take-IsDescending n vs d)
