-- ===== src/Store/Recent/Update.antt =====
-- The whole update of an entry by a visit, src/store.rs: `find_recent_mut`, the push or the new time,
-- and the pruning.
use digital_garden_visitor_c.Common.{
  ℕ, ◌+◌, ◌≤◌, ◌<◌, ◌≡◌, ◌≢◌, arith, List, [], ◌∷◌, ◌++◌, true, false, none, some, inl, inr, Bool,
  Bool-cases, ap, ltb, ◌==◌, if◌then◌else◌, keep, All, length, length-append,
}
use digital_garden_visitor_c.Store.Time.{SystemTime}
use digital_garden_visitor_c.Store.Visitor.{Visitor}
use digital_garden_visitor_c.Store.Entry.{CountEntry, max_recent_visitors}
use digital_garden_visitor_c.Store.Recent.{update_entry}
use digital_garden_visitor_c.Store.Recent.Prune.{Seen, Fresh, fresh, prune_visitors-IsPruned}
use digital_garden_visitor_c.Store.Recent.Tags.{
  Distinct, Distinct-perm, keep-Distinct, concat-Distinct, last_of, recent_time, last_of-eq-none,
  last_of-keep, last_of-append, last_of-append_other,
}
use digital_garden_visitor_c.Store.Recent.Visit.{
  visited_recently, refresh, visited, count_after, record_visit-visited, visited-Seen,
  refresh-Distinct, last_of-refresh, keep-append, length-keep-refresh,
}

-- The time under which a visitor is listed after the visit.
abbrev pub time_after : Visitor → SystemTime → List Visitor → SystemTime
time_after visitor now vs = if visited_recently visitor.tag now vs then now else visitor.last_seen

module _ (visitor : Visitor) (now : SystemTime) where
  not_recent :
      (vs : List Visitor)
      → Distinct vs
      → visited_recently visitor.tag now vs ≡ false
      → last_of visitor.tag (keep (fresh now) vs) ≡ none
  not_recent vs d h = ground (arith, last_of-keep now visitor.tag vs d)

  known :
      (vs : List Visitor)
      → visited_recently visitor.tag now vs ≡ true
      → last_of visitor.tag vs ≢ none
  known vs h e = ground arith

  keep-concat :
      (vs : List Visitor)
      → Fresh now visitor
      → keep (fresh now) (vs ++ visitor ∷ []) ≡ keep (fresh now) vs ++ visitor ∷ []
  keep-concat vs h = ground (arith, keep-append (fresh now) vs (visitor ∷ []))

  -- What the pruning reads of the visited list: distinct tags, and its map.
  visited-Distinct :
      (vs : List Visitor)
      → Fresh now visitor
      → Distinct vs
      → Distinct (keep (fresh now) (visited visitor now vs))
  unfolding visited
  visited-Distinct vs h d = elim (Bool-cases (visited_recently visitor.tag now vs)) [
    | inl e ↦ rw e (keep-Distinct (fresh now) _ (refresh-Distinct visitor.tag now vs d))
    | inr e ↦
        rw (e, keep-concat vs h)
          (concat-Distinct visitor _ (last_of-eq-none visitor.tag _ (not_recent vs d e))
            (keep-Distinct (fresh now) vs d))
  ]

  last_of-visited :
      (vs : List Visitor) (t : ℕ)
      → Fresh now visitor
      → Distinct vs
      → last_of t (keep (fresh now) (visited visitor now vs)) ≡ (
          if t == visitor.tag
          then some (time_after visitor now vs)
          else recent_time now (last_of t vs))
  unfolding visited
  last_of-visited vs t h d = elim (Bool-cases (visited_recently visitor.tag now vs)) [
    | inl e ↦ rw e (
        ground (
          arith,
          last_of-keep now t (refresh visitor.tag now vs) (refresh-Distinct visitor.tag now vs d),
          last_of-refresh visitor.tag now t vs (known vs e),
        ))
    | inr e ↦
        rw (e, keep-concat vs h)
          (ground (
            arith,
            not_recent vs d e,
            last_of-keep now t vs d,
            last_of-append t (keep (fresh now) vs) visitor,
            last_of-append_other t (keep (fresh now) vs) visitor,
          ))
  ]

  length-visited :
      (vs : List Visitor)
      → Fresh now visitor
      → length (keep (fresh now) (visited visitor now vs)) ≤ length (keep (fresh now) vs) + 1
  unfolding visited
  length-visited vs h = elim (Bool-cases (visited_recently visitor.tag now vs)) [
    | inl e ↦ rw e (length-keep-refresh visitor.tag now vs)
    | inr e ↦
        rw (e, keep-concat vs h) (omega (arith, length-append (keep (fresh now) vs) (visitor ∷ [])))
  ]

pub length-keep-le : (test : Visitor → Bool) (vs : List Visitor) → length (keep test vs) ≤ length vs
length-keep-le test [] = omega arith
length-keep-le test (v ∷ vs) = ground (arith, length-keep-le test vs)

-- An entry after a visit: the count, the bound, the tags and the times.
pub record IsVisited (visitor : Visitor) (now : SystemTime) (entry updated : CountEntry)
    : Type 0 where
  pub counted : updated.count ≡ count_after visitor now entry
  pub bounded : length updated.recent_visitors ≤ max_recent_visitors
  pub growth : length updated.recent_visitors ≤ length entry.recent_visitors + 1
  pub recent : All (Fresh now) updated.recent_visitors
  pub distinct : Distinct updated.recent_visitors
  pub times :
      length (keep (fresh now) entry.recent_visitors) < max_recent_visitors
      → (t : ℕ)
      → last_of t updated.recent_visitors ≡ (
          if t == visitor.tag
          then some (time_after visitor now entry.recent_visitors)
          else recent_time now (last_of t entry.recent_visitors))

-- Let the tags of an entry be distinct, its times at `now` or before, and the visitor seen less
-- than the cutoff before `now`. Then the update does not panic. The count stays if the tag was
-- visited less than the cutoff ago, and is one more (in 64 bits) if not. The new list has at most
-- `max_recent_visitors` visitors, all seen less than the cutoff ago, and distinct tags, and it is longer by one at most. If there
-- was room for one more recent visitor, then the visitor's tag is listed with `now` for a repeated
-- visit and the visitor's own time for a counted one, and every other tag is listed with its old
-- time exactly if that is less than the cutoff ago.
pub update_entry-IsVisited :
    (visitor : Visitor) (now : SystemTime) (entry : CountEntry)
    → Fresh now visitor
    → All (Seen now) entry.recent_visitors
    → Distinct entry.recent_visitors
    → (updated : CountEntry) × (update_entry visitor now entry ≡ some updated)
      × IsVisited visitor now entry updated
unfolding update_entry
update_entry-IsVisited visitor now entry h seen d =
    let between : CountEntry = record {
      count = count_after visitor now entry;
      recent_visitors = visited visitor now entry.recent_visitors;
    } in
    let (updated, run, p) =
      prune_visitors-IsPruned between now max_recent_visitors
        (visited-Seen visitor now entry.recent_visitors h.0 seen) in
    let same : length (keep (fresh now) entry.recent_visitors) < max_recent_visitors
        → updated.recent_visitors ≡ keep (fresh now) (visited visitor now entry.recent_visitors) =
      λ room. p.unchanged (omega (arith, length-visited visitor now entry.recent_visitors h)) in
    (
      updated,
      rw (record_visit-visited visitor now entry seen, run),
      record {
        counted = p.count;
        bounded = p.bounded;
        growth =
            let kept = length-keep-le (fresh now) entry.recent_visitors in
            let grown = length-visited visitor now entry.recent_visitors h in
            let bounded = p.bounded in
            elim (Bool-cases (
              ltb max_recent_visitors
                (length (keep (fresh now) (visited visitor now entry.recent_visitors))))) [
                  | inl long ↦ ground arith
                  | inr short ↦
                      let unchanged = ap length (p.unchanged (ground arith)) in omega arith
                ];
        recent = p.recent;
        distinct =
            Distinct-perm updated.recent_visitors _ p.dropped p.kept
              (visited-Distinct visitor now entry.recent_visitors h d);
        times = λ room t. rw (same room) (last_of-visited visitor now entry.recent_visitors t h d);
      },
    )
