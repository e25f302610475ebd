-- ===== src/Store/Recent.antt =====
-- The list of recent visitors, src/store.rs: `find_recent_mut`, `prune_visitors`, and the update of
-- an entry in `maybe_increment_visitors`. `none` is a panic, "now is after last_seen".
pub mod Order
pub mod Prune
pub mod Tags
pub mod Visit
pub mod Update
use digital_garden_visitor_c.Common.{
  ℕ, zero, suc, ◌+◌, List, [], ◌∷◌, ◌++◌, Bool, Option, none, some, if◌then◌else◌, ltb, leb, ◌==◌,
  length, take, u64, ◌>>=◌,
}
use digital_garden_visitor_c.Store.Time.{SystemTime, duration_since, recent_cutoff}
use digital_garden_visitor_c.Store.Visitor.{Visitor}
use digital_garden_visitor_c.Store.Entry.{CountEntry, max_recent_visitors}

-- The test of both filters.
unfoldable pub is_recent : SystemTime → Visitor → Option Bool
unfolding duration_since
is_recent now v = do d ← duration_since now v.last_seen; some (ltb d recent_cutoff)

-- `iter_mut().find(…)`: the first visitor with the tag, and its index from `i`.
unfoldable pub find_tag : ℕ → ℕ → List Visitor → Option (ℕ × Visitor)
find_tag i tag [] = none
find_tag i tag (v ∷ vs) = if v.tag == tag then some (i, v) else find_tag (i + 1) tag vs

-- The reference that `find_recent_mut` returns is the index of the visitor.
unfoldable pub find_recent_mut : CountEntry → Visitor → SystemTime → Option (Option ℕ)
unfolding find_tag is_recent
find_recent_mut entry visitor now = elim (find_tag 0 visitor.tag entry.recent_visitors) [
  | none ↦ some none
  | some (i, v) ↦ is_recent now v >>= λ recent. some (if recent then some i else none)
]

-- `recent.last_seen = now`
unfoldable pub touch : List Visitor → ℕ → SystemTime → List Visitor
touch [] i now = []
touch (v ∷ vs) zero now = record v { last_seen = now } ∷ vs
touch (v ∷ vs) (suc i) now = v ∷ touch vs i now

-- The filter of `prune_visitors`.
unfoldable pub filter_recent : SystemTime → List Visitor → Option (List Visitor)
unfolding is_recent
filter_recent now [] = some []
filter_recent now (v ∷ vs) = do
  recent ← is_recent now v
  rest ← filter_recent now vs
  some (if recent then v ∷ rest else rest)

-- The standard library's stable sort, by last seen time, descending.
unfoldable pub insert_by_last_seen : Visitor → List Visitor → List Visitor
insert_by_last_seen v [] = v ∷ []
insert_by_last_seen v (w ∷ ws) =
    if leb w.last_seen v.last_seen then v ∷ w ∷ ws else w ∷ insert_by_last_seen v ws

unfoldable pub sort_by_last_seen : List Visitor → List Visitor
unfolding insert_by_last_seen
sort_by_last_seen [] = []
sort_by_last_seen (v ∷ vs) = insert_by_last_seen v (sort_by_last_seen vs)

unfoldable pub prune_visitors : CountEntry → SystemTime → ℕ → Option CountEntry
unfolding filter_recent sort_by_last_seen
prune_visitors entry now max_recent = do
  recent ← filter_recent now entry.recent_visitors
  some (record entry {
    recent_visitors =
        if ltb max_recent (length recent)
        then take max_recent (sort_by_last_seen recent)
        else recent;
  })

-- What `maybe_increment_visitors` does to an entry that it found, before it is pruned: the visitor
-- is seen again, or added and counted.
unfoldable pub record_visit : Visitor → SystemTime → CountEntry → Option CountEntry
unfolding find_recent_mut touch
record_visit visitor now entry = do
  found ← find_recent_mut entry visitor now
  some (elim found [
    | some i ↦ record entry { recent_visitors = touch entry.recent_visitors i now }
    | none ↦ record entry {
      recent_visitors = entry.recent_visitors ++ visitor ∷ [];
      count = u64 (entry.count + 1);
    }
  ])

-- The whole update.
unfoldable pub update_entry : Visitor → SystemTime → CountEntry → Option CountEntry
unfolding record_visit prune_visitors
update_entry visitor now entry = do
  visited ← record_visit visitor now entry
  prune_visitors visited now max_recent_visitors
