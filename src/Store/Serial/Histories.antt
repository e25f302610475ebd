-- ===== src/Store/Serial/Histories.antt =====
-- Calls of `maybe_increment_visitors` one after the other refine the abstract counter, src/store.rs.
use mathlib.Core.Path.{subst}
use digital_garden_visitor_c.Common.{
  ℕ, ◌+◌, ◌≤◌, ◌<◌, ◌≡◌, refl, arith, List, [], ◌∷◌, Option, none, some, length, Text,
}
use digital_garden_visitor_c.Store.Time.{SystemTime}
use digital_garden_visitor_c.Store.Entry.{CountEntry, Cbor, max_recent_visitors}
use digital_garden_visitor_c.Store.Entry.RoundTrip.{CborLaws, rounded}
use digital_garden_visitor_c.Store.Dynamo.{Item, done}
use digital_garden_visitor_c.Store.Recent.Prune.{Fresh}
use digital_garden_visitor_c.Store.Recent.Tags.{last_of}
use digital_garden_visitor_c.Store.Recent.Update.{update_entry-IsVisited}
use digital_garden_visitor_c.Store.Client.{put_input, decode_item}
use digital_garden_visitor_c.Store.Client.RoundTrip.{
  decode_item-try_put_count_entry, decode_item-try_put_new_count_entry,
}
use digital_garden_visitor_c.Store.Serial.{Visit, View, visit, counts, empty_view, serve_all}
use digital_garden_visitor_c.Store.Serial.Rounding.{length-rounded}
use digital_garden_visitor_c.Store.Serial.Serve.{Round, none-Round, some-Round, serve-Round}
use digital_garden_visitor_c.Store.Serial.Sees.{
  Sees, InRange, Fresh-Storable, Seen-later, visited-count, visit-Sees,
}

-- The stored item of a counter after `n` visits, and the abstract counter.
abbrev pub Stores : Cbor → SystemTime → ℕ → Option Item → View → Type 0
Stores cbor now n none view = view ≡ empty_view
Stores cbor now n (some item) view =
    (entry : CountEntry) × (decode_item cbor item ≡ done entry)
    × Sees now entry view
    × (length entry.recent_visitors ≤ n)
    × (view.count ≤ n)

-- A stored counter is the same at a later time, and after more visits.
pub Stores-later :
    (cbor : Cbor) (now later : SystemTime) (n m : ℕ) (stored : Option Item) (view : View)
    → now ≤ later
    → n ≤ m
    → Stores cbor now n stored view
    → Stores cbor later m stored view
Stores-later cbor now later n m none view h k e = e
Stores-later cbor now later n m (some item) view h k (entry, decoded, sees, few, least) = (
  entry,
  decoded,
  record {
    count = sees.count;
    distinct = sees.distinct;
    seen = Seen-later now later entry.recent_visitors h sees.seen;
    whole = sees.whole;
    times = λ after tag order. sees.times after tag (omega arith);
  },
  omega arith,
  omega arith,
)

-- A visit in time order, at an instant that can be stored, by a visitor seen a moment ago.
abbrev pub IsNext : SystemTime → Visit → Type 0
IsNext before v = (before ≤ v.now) × InRange v.now × Fresh v.now v.visitor

abbrev pub IsHistory : SystemTime → List Visit → Type 0
IsHistory before [] = Unit
IsHistory before (v ∷ vs) = IsNext before v × IsHistory v.now vs

module _ (cbor : Cbor) (laws : CborLaws cbor) (table_name name : Text) where
  created-Sees :
      (v : Visit)
      → InRange v.now
      → Fresh v.now v.visitor
      → Sees v.now
          (record { count = 1; recent_visitors = rounded v.visitor ∷ [] })
          (visit v empty_view)
  unfolding last_of
  created-Sees v range fresh = record {
    count = refl;
    distinct = (tt, tt);
    seen = (omega arith, tt);
    whole = (omega arith, tt);
    times = λ later tag h. ground arith;
  }

  none-Stores :
      (v : Visit) (n : ℕ)
      → InRange v.now
      → Fresh v.now v.visitor
      → (item : Item) × Round cbor table_name name v none 1 item
        × Stores cbor v.now (n + 1) (some item) (visit v empty_view)
  none-Stores v n range fresh =
      let (storable, _) = Fresh-Storable v.now (v.visitor ∷ []) range (fresh, tt) in
      let (bytes, sent, back) =
        decode_item-try_put_new_count_entry cbor laws table_name name v.visitor storable in
      (
        _,
        none-Round cbor table_name name v bytes sent,
        (_, back, created-Sees v range fresh, omega arith, omega arith),
      )

  some-Stores :
      (v : Visit) (before : SystemTime) (n : ℕ) (item : Item) (view : View)
      → IsNext before v
      → n < max_recent_visitors
      → Stores cbor before n (some item) view
      → (next : Item) × Round cbor table_name name v (some item) (visit v view).count next
        × Stores cbor v.now (n + 1) (some next) (visit v view)
  some-Stores v before n item view (order, range, fresh) room (entry, decoded, sees, few, least) =
      let (updated, run, visited) =
        update_entry-IsVisited v.visitor v.now entry fresh
          (Seen-later before v.now entry.recent_visitors order sees.seen) sees.distinct in
      let counted =
        visited-count v before entry updated view order sees (omega arith) visited (omega arith) in
      let (bytes, sent, back) =
        decode_item-try_put_count_entry cbor laws table_name name entry.count updated (ground arith)
          (Fresh-Storable v.now updated.recent_visitors range visited.recent) in
      let agrees =
        visit-Sees v before entry updated view order sees (omega arith) visited range
          (omega arith) in
      let growth = visited.growth in
      let rounding = length-rounded updated.recent_visitors in
      let next = (put_input table_name name entry.count updated.count bytes).item in
      (
        next,
        subst (λ count. Round cbor table_name name v (some item) count next) counted
            (some-Round cbor table_name name v item entry updated bytes decoded run sent),
        (_, back, agrees, omega arith, ground arith),
      )

  -- A round of the stored counter is a visit of the abstract one.
  pub Stores-Round :
      (v : Visit) (before : SystemTime) (n : ℕ) (stored : Option Item) (view : View)
      → IsNext before v
      → n < max_recent_visitors
      → Stores cbor before n stored view
      → (next : Item) × Round cbor table_name name v stored (visit v view).count next
        × Stores cbor v.now (n + 1) (some next) (visit v view)
  Stores-Round v before n none view (order, range, fresh) room h =
      rw h (none-Stores v n range fresh)
  Stores-Round v before n (some item) view next room h =
      some-Stores v before n item view next room h

  serve_all-Stores :
      (vs : List Visit) (before : SystemTime) (n : ℕ) (stored : Option Item) (view : View)
      → IsHistory before vs
      → n + length vs ≤ max_recent_visitors
      → Stores cbor before n stored view
      → serve_all cbor table_name name vs stored ≡ some (counts vs view)
  unfolding serve_all
  serve_all-Stores [] before n stored view _ room h = refl
  serve_all-Stores (v ∷ vs) before n stored view (next, history) room h =
      let (item, round, after) = Stores-Round v before n stored view next (omega arith) h in
      let rest =
        serve_all-Stores vs v.now (n + 1) (some item) (visit v view) history (omega arith) after in
      rw (serve-Round cbor table_name name v stored (visit v view).count item round, rest) refl

  -- Let calls follow each other in time order, without contention or failure, each at an instant
  -- that can be stored and with the visitor seen less than the cutoff before it, and at most
  -- `max_recent_visitors` of them, from a counter that does not exist. Then each call is a visit of
  -- the abstract counter, which never forgets: the calls return its counts.
  pub serve_all-counts :
      (vs : List Visit)
      → IsHistory 0 vs
      → length vs ≤ max_recent_visitors
      → serve_all cbor table_name name vs none ≡ some (counts vs empty_view)
  serve_all-counts vs history room =
      serve_all-Stores vs 0 0 none empty_view history (omega arith) refl
