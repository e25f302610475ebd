-- ===== src/Store/Serial/Sees.antt =====
-- The entry of a counter as the abstract counter sees it, and that a visit keeps the two together.
use digital_garden_visitor_c.Common.{
  ℕ, ◌+◌, ◌^◌, ◌≤◌, ◌<◌, ◌≡◌, arith, List, [], ◌∷◌, map, All, length,
}
use digital_garden_visitor_c.Store.Time.{
  SystemTime, unix_epoch, from_secs, timestamp_offset, recent_cutoff,
}
use digital_garden_visitor_c.Store.Visitor.{Visitor}
use digital_garden_visitor_c.Store.Visitor.RoundTrip.{Storable}
use digital_garden_visitor_c.Store.Entry.{CountEntry, max_recent_visitors}
use digital_garden_visitor_c.Store.Entry.RoundTrip.{rounded}
use digital_garden_visitor_c.Store.Recent.Prune.{Seen, Fresh, fresh}
use digital_garden_visitor_c.Store.Recent.Tags.{Distinct, last_of, recent_time}
use digital_garden_visitor_c.Store.Recent.Update.{IsVisited, length-keep-le}
use digital_garden_visitor_c.Store.Serial.{Visit, View, visit}
use digital_garden_visitor_c.Store.Serial.Rounding.{
  Whole, last_of-rounded, rounded-Distinct, rounded-Whole, rounded-Seen, last_of-Whole,
  recent_time_later,
}

-- An entry that was stored at `now` or before. Of each tag it tells at any later time what the
-- abstract counter tells: whether it was seen less than the cutoff ago, and when.
pub record Sees (now : SystemTime) (entry : CountEntry) (view : View) : Type 0 where
  pub count : entry.count ≡ view.count
  pub distinct : Distinct entry.recent_visitors
  pub seen : All (Seen now) entry.recent_visitors
  pub whole : All Whole entry.recent_visitors
  pub times :
      (later : SystemTime) (tag : ℕ)
      → now ≤ later
      → recent_time later (last_of tag entry.recent_visitors) ≡ recent_time later (view.seen tag)

-- The instants at which the stored form of every recent visitor exists: two hours after the offset
-- and less than 2^32 seconds after it.
abbrev pub InRange : SystemTime → Type 0
InRange now =
    (unix_epoch + from_secs timestamp_offset + recent_cutoff ≤ now)
    × (now < unix_epoch + from_secs (timestamp_offset + 2 ^ 32))

pub Fresh-Storable :
    (now : SystemTime) (vs : List Visitor) → InRange now → All (Fresh now) vs → All Storable vs
Fresh-Storable now [] r _ = tt
Fresh-Storable now (v ∷ vs) r (p, ps) = ((omega arith, omega arith), Fresh-Storable now vs r ps)

pub Fresh-rounded :
    (now : SystemTime) (vs : List Visitor)
    → InRange now
    → All (Fresh now) vs
    → All (λ v. (unix_epoch ≤ v.last_seen) × (v.last_seen ≤ now)) vs
Fresh-rounded now [] r _ = tt
Fresh-rounded now (v ∷ vs) r (p, ps) = ((omega arith, omega arith), Fresh-rounded now vs r ps)

pub Seen-later :
    (now later : SystemTime) (vs : List Visitor)
    → now ≤ later
    → All (Seen now) vs
    → All (Seen later) vs
Seen-later now later [] h _ = tt
Seen-later now later (v ∷ vs) h (p, ps) = (omega arith, Seen-later now later vs h ps)

module _ (v : Visit) (before : SystemTime) (entry updated : CountEntry) (view : View)
    (order : before ≤ v.now) (sees : Sees before entry view)
    (room : length entry.recent_visitors < max_recent_visitors)
    (done : IsVisited v.visitor v.now entry updated) where
  -- Both know of the same recent visit.
  same_recent :
      recent_time v.now (last_of v.visitor.tag entry.recent_visitors)
      ≡ recent_time v.now (view.seen v.visitor.tag)
  same_recent = sees.times v.now v.visitor.tag order

  pub visited-count : view.count + 1 < 2 ^ 64 → updated.count ≡ (visit v view).count
  visited-count small =
      let counted = done.counted in
      let same = sees.count in let recent = same_recent in ground arith

  pub times-visited :
      (later : SystemTime) (tag : ℕ)
      → v.now ≤ later
      → recent_time later (last_of tag (map rounded updated.recent_visitors))
        ≡ recent_time later ((visit v view).seen tag)
  times-visited later tag h =
      let recent = same_recent in
      let known = sees.times later tag (omega arith) in
      let wholes = last_of-Whole tag entry.recent_visitors sees.whole in
      let kept = recent_time_later v.now later (last_of tag entry.recent_visitors) h wholes in
      let after =
        done.times (omega (arith, length-keep-le (fresh v.now) entry.recent_visitors)) tag in
      rw (last_of-rounded tag updated.recent_visitors, after) (ground arith)

  -- What is stored after the visit, and read later, agrees with the abstract counter after it.
  pub visit-Sees :
      InRange v.now
      → view.count + 1 < 2 ^ 64
      → Sees v.now
          (record updated { recent_visitors = map rounded updated.recent_visitors })
          (visit v view)
  visit-Sees range small = record {
    count = visited-count small;
    distinct = rounded-Distinct updated.recent_visitors done.distinct;
    seen =
        rounded-Seen v.now updated.recent_visitors
          (Fresh-rounded v.now updated.recent_visitors range done.recent);
    whole = rounded-Whole updated.recent_visitors;
    times = times-visited;
  }
