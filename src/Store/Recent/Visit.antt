-- ===== src/Store/Recent/Visit.antt =====
-- What a visit does to an entry: who is counted, and what the list then says of each tag.
use digital_garden_visitor_c.Common.{
  ℕ, suc, ◌+◌, ◌≤◌, ◌≡◌, ◌≢◌, refl, arith, List, [], ◌∷◌, ◌++◌, Bool, true, false, none, some, inl,
  inr, Bool-cases, Option-cases, ◌==◌, if◌then◌else◌, keep, All, All-append, length, u64,
}
use digital_garden_visitor_c.Store.Time.{SystemTime}
use digital_garden_visitor_c.Store.Visitor.{Visitor}
use digital_garden_visitor_c.Store.Entry.{CountEntry}
use digital_garden_visitor_c.Store.Recent.{find_tag, find_recent_mut, touch, record_visit}
use digital_garden_visitor_c.Store.Recent.Prune.{Seen, fresh, is_recent-fresh}
use digital_garden_visitor_c.Store.Recent.Tags.{Other, Distinct, last_of, recent_time}

-- Whether the list has a visit of the tag that is less than the cutoff ago.
abbrev pub visited_recently : ℕ → SystemTime → List Visitor → Bool
visited_recently tag now vs = elim (recent_time now (last_of tag vs)) [
  | none ↦ false
  | some _ ↦ true
]

-- The time of the first entry with the tag set to `now`.
unfoldable pub refresh : ℕ → SystemTime → List Visitor → List Visitor
refresh tag now [] = []
refresh tag now (v ∷ vs) =
    if v.tag == tag then record v { last_seen = now } ∷ vs else v ∷ refresh tag now vs

-- The list after a visit, before the pruning.
unfoldable pub visited : Visitor → SystemTime → List Visitor → List Visitor
visited visitor now vs =
    if visited_recently visitor.tag now vs then refresh visitor.tag now vs else vs ++ visitor ∷ []

find_tag-none : (i tag : ℕ) (vs : List Visitor) → find_tag i tag vs ≡ none → last_of tag vs ≡ none
unfolding find_tag last_of
find_tag-none i tag [] h = refl
find_tag-none i tag (v ∷ vs) h = ground (arith, find_tag-none (i + 1) tag vs)

find_tag-some :
    (i tag : ℕ) (vs : List Visitor) (now : SystemTime) {j : ℕ} {v : Visitor}
    → find_tag i tag vs ≡ some (j, v)
    → (k : ℕ) × (j ≡ i + k)
      × (last_of tag vs ≡ some v.last_seen)
      × (touch vs k now ≡ refresh tag now vs)
      × (All (Seen now) vs → Seen now v)
unfolding find_tag last_of touch refresh
find_tag-some i tag [] now h = cc
find_tag-some i tag (w ∷ ws) now {j} {v} h = elim (Bool-cases (w.tag == tag)) [
  | inl e ↦ (0, ground arith, ground arith, ground arith, λ s. ground arith)
  | inr e ↦
      let (k, p, q, r, seen) = find_tag-some (i + 1) tag ws now {j = j} {v = v} (ground arith) in
      (suc k, omega arith, rw e q, rw (e, r), λ s. seen s.1)
]

-- The count after a visit.
abbrev pub count_after : Visitor → SystemTime → CountEntry → ℕ
count_after visitor now entry =
    if visited_recently visitor.tag now entry.recent_visitors
    then entry.count
    else u64 (entry.count + 1)

-- `find_recent_mut` finds the visitor exactly where a recent visit of the tag is listed, and the
-- write through the reference refreshes that entry.
find_recent-hit :
    (visitor : Visitor) (now : SystemTime) (entry : CountEntry)
    → All (Seen now) entry.recent_visitors
    → visited_recently visitor.tag now entry.recent_visitors ≡ true
    → (i : ℕ) × (find_recent_mut entry visitor now ≡ some (some i))
      × (touch entry.recent_visitors i now ≡ refresh visitor.tag now entry.recent_visitors)
unfolding find_recent_mut
find_recent-hit visitor now entry seen h =
    elim (Option-cases (find_tag 0 visitor.tag entry.recent_visitors)) [
      | inl e ↦ cc (find_tag-none 0 visitor.tag entry.recent_visitors e)
      | inr ((i, v), e) ↦
          let (k, p, q, r, s) = find_tag-some 0 visitor.tag entry.recent_visitors now e in
          let p' : i ≡ k = omega arith in
          (i, ground (arith, is_recent-fresh now v (s seen)), rw p' r)
    ]

find_recent-miss :
    (visitor : Visitor) (now : SystemTime) (entry : CountEntry)
    → All (Seen now) entry.recent_visitors
    → visited_recently visitor.tag now entry.recent_visitors ≡ false
    → find_recent_mut entry visitor now ≡ some none
unfolding find_recent_mut
find_recent-miss visitor now entry seen h =
    elim (Option-cases (find_tag 0 visitor.tag entry.recent_visitors)) [
      | inl e ↦ ground arith
      | inr ((i, v), e) ↦
          let (k, p, q, r, s) = find_tag-some 0 visitor.tag entry.recent_visitors now e in
          ground (arith, is_recent-fresh now v (s seen))
    ]

pub record_visit-visited :
    (visitor : Visitor) (now : SystemTime) (entry : CountEntry)
    → All (Seen now) entry.recent_visitors
    → record_visit visitor now entry
      ≡ some (record {
        count = count_after visitor now entry;
        recent_visitors = visited visitor now entry.recent_visitors;
      })
unfolding record_visit visited
record_visit-visited visitor now entry seen =
    elim (Bool-cases (visited_recently visitor.tag now entry.recent_visitors)) [
      | inl e ↦
          let (i, found, written) = find_recent-hit visitor now entry seen e in
          ground (arith, found, written)
      | inr e ↦ ground (arith, find_recent-miss visitor now entry seen e)
    ]

refresh-Seen :
    (tag : ℕ) (now : SystemTime) (vs : List Visitor)
    → All (Seen now) vs
    → All (Seen now) (refresh tag now vs)
unfolding refresh
refresh-Seen tag now [] _ = tt
refresh-Seen tag now (v ∷ vs) (p, ps) = elim (Bool-cases (v.tag == tag)) [
  | inl e ↦ rw e (omega arith, ps)
  | inr e ↦ rw e (p, refresh-Seen tag now vs ps)
]

pub visited-Seen :
    (visitor : Visitor) (now : SystemTime) (vs : List Visitor)
    → Seen now visitor
    → All (Seen now) vs
    → All (Seen now) (visited visitor now vs)
unfolding visited
visited-Seen visitor now vs h seen = elim (Bool-cases (visited_recently visitor.tag now vs)) [
  | inl e ↦ rw e (refresh-Seen visitor.tag now vs seen)
  | inr e ↦ rw e (All-append (Seen now) vs (visitor ∷ []) seen (h, tt))
]

refresh-Other :
    (tag : ℕ) (now : SystemTime) (t : ℕ) (vs : List Visitor)
    → All (Other t) vs
    → All (Other t) (refresh tag now vs)
unfolding refresh
refresh-Other tag now t [] _ = tt
refresh-Other tag now t (v ∷ vs) (p, ps) = elim (Bool-cases (v.tag == tag)) [
  | inl e ↦ rw e (p, ps)
  | inr e ↦ rw e (p, refresh-Other tag now t vs ps)
]

pub refresh-Distinct :
    (tag : ℕ) (now : SystemTime) (vs : List Visitor) → Distinct vs → Distinct (refresh tag now vs)
unfolding refresh
refresh-Distinct tag now [] _ = tt
refresh-Distinct tag now (v ∷ vs) (p, d) = elim (Bool-cases (v.tag == tag)) [
  | inl e ↦ rw e (p, d)
  | inr e ↦ rw e (refresh-Other tag now v.tag vs p, refresh-Distinct tag now vs d)
]

pub last_of-refresh :
    (tag : ℕ) (now : SystemTime) (t : ℕ) (vs : List Visitor)
    → last_of tag vs ≢ none
    → last_of t (refresh tag now vs) ≡ (if t == tag then some now else last_of t vs)
unfolding refresh last_of
last_of-refresh tag now t [] h = absurd (h refl)
last_of-refresh tag now t (v ∷ vs) h = ground (arith, last_of-refresh tag now t vs)

pub keep-append :
    (test : Visitor → Bool) (vs ws : List Visitor)
    → keep test (vs ++ ws) ≡ keep test vs ++ keep test ws
keep-append test [] ws = refl
keep-append test (v ∷ vs) ws = ground (arith, keep-append test vs ws)

pub length-keep-refresh :
    (tag : ℕ) (now : SystemTime) (vs : List Visitor)
    → length (keep (fresh now) (refresh tag now vs)) ≤ length (keep (fresh now) vs) + 1
unfolding refresh
length-keep-refresh tag now [] = omega arith
length-keep-refresh tag now (v ∷ vs) = ground (arith, length-keep-refresh tag now vs)
