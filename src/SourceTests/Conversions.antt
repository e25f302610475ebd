-- ===== src/SourceTests/Conversions.antt =====
-- The tests of the module `conversion_tests` of src/store.rs, and the test of `prune_visitors`. `[i]`
-- on a list panics out of bounds.
pub mod Passing
use digital_garden_visitor_c.Common.{
  ℕ, ◌+◌, ◌%◌, ◌/◌, List, [], ◌∷◌, Bool, not, ◌==◌, ◌&&◌, Option, none, some, Bytes, Text, codes,
  length, get_elem?, if◌then◌else◌, false, true, ◌>>=◌,
}
use digital_garden_visitor_c.Store.Time.{SystemTime, unix_epoch, from_secs, timestamp_offset}
use digital_garden_visitor_c.Store.Visitor.{
  StoredVisitor, Visitor, Endian, little, big, stored_visitor_from, visitor_from_stored,
  visitor_from_request, u32_from_ne_bytes,
}
use digital_garden_visitor_c.Store.Entry.{CountEntry, stored_count_entry_from, count_entry_from}
use digital_garden_visitor_c.Store.Recent.{prune_visitors}
use digital_garden_visitor_c.SourceTests.Asserts.{assert, visitor_new, system_time}

-- `transmute` of a `u32` to its bytes.
abbrev pub transmute : Endian → ℕ → Bytes
transmute little x = x % 256 ∷ x / 256 % 256 ∷ x / 256 / 256 % 256 ∷ x / 256 / 256 / 256 % 256 ∷ []
transmute big x = x / 256 / 256 / 256 % 256 ∷ x / 256 / 256 % 256 ∷ x / 256 % 256 ∷ x % 256 ∷ []

abbrev pub big_endian : Endian → Option Bool
big_endian endian = get_elem? (transmute endian 1) 0 >>= λ first. some (not (first == 1))

unfoldable pub test_u32_from_ne_bytes : Endian → Option (Unit {0})
unfolding u32_from_ne_bytes
test_u32_from_ne_bytes endian = do
  is_big ← big_endian endian
  result ← u32_from_ne_bytes endian (if is_big then 1 ∷ 2 ∷ 3 ∷ 4 ∷ [] else 4 ∷ 3 ∷ 2 ∷ 1 ∷ [])
  assert (result == 16909060)

-- The assertion on the tag of the visitor that a request gives; the hash is a parameter.
abbrev pub assert_tag : (Bytes → Bytes) → Endian → SystemTime → Text → Text → ℕ → Option (Unit {0})
assert_tag md5 endian now user_agent source_ip tag = do
  visitor ←
      visitor_from_request md5 endian now
        (record { user_agent = user_agent; source_ip = source_ip })
  assert (tag == visitor.tag)

unfoldable pub test_from : (Bytes → Bytes) → Endian → SystemTime → Option (Unit {0})
unfolding visitor_from_request
test_from md5 endian now = do
  first ← assert_tag md5 endian now (codes "test") (codes "127.0.0.1") 1600273645
  second ← assert_tag md5 endian now (codes "test2") (codes "127.0.0.1") 508621390
  assert_tag md5 endian now (codes "testv6") (codes "0:0:0:0:0:0:0:1") 4102698867

unfoldable pub visitor_stored_visitor_round_trip : Option (Unit {0})
unfolding stored_visitor_from visitor_from_stored
visitor_stored_visitor_round_trip = do
  let time = unix_epoch + from_secs (timestamp_offset + 1000)
  stored ← stored_visitor_from (visitor_new 1234 time)
  tag_is ← assert (1234 == stored.tag)
  last_seen_is ← assert (1000 == stored.last_seen)
  let again = visitor_from_stored stored
  tag_again ← assert (1234 == again.tag)
  assert (time == again.last_seen)

-- The assertions on the element of the list.
abbrev pub assert_visitor : List Visitor → ℕ → ℕ → ℕ → Option (Unit {0})
assert_visitor visitors i tag time = do
  visitor ← get_elem? visitors i
  tag_is ← assert (tag == visitor.tag)
  assert (time == visitor.last_seen)

abbrev pub assert_stored : List StoredVisitor → ℕ → ℕ → ℕ → Option (Unit {0})
assert_stored visitors i tag last_seen = do
  visitor ← get_elem? visitors i
  tag_is ← assert (tag == visitor.tag)
  assert (last_seen == visitor.last_seen)

unfoldable pub count_entry_round_trip : Option (Unit {0})
unfolding stored_count_entry_from count_entry_from
count_entry_round_trip = do
  let time1 = unix_epoch + from_secs timestamp_offset
  let time2 = time1 + from_secs 1000
  stored ←
      stored_count_entry_from
        (record { count = 1234; recent_visitors = visitor_new 1 time1 ∷ visitor_new 2 time2 ∷ [] })
  stored_length ← assert (2 == length stored.recent_visitors)
  stored_first ← assert_stored stored.recent_visitors 0 1 0
  stored_second ← assert_stored stored.recent_visitors 1 2 1000
  let again = count_entry_from stored
  count_is ← assert (0 == again.count)
  again_length ← assert (2 == length again.recent_visitors)
  again_first ← assert_visitor again.recent_visitors 0 1 time1
  assert_visitor again.recent_visitors 1 2 time2

abbrev pub visitors_eq : List Visitor → List Visitor → Bool
visitors_eq [] [] = true
visitors_eq (v ∷ vs) (w ∷ ws) =
    (v.tag == w.tag) && (v.last_seen == w.last_seen) && visitors_eq vs ws
visitors_eq _ _ = false

unfoldable pub prune_oldest_after_reaching_max_recents : Option (Unit {0})
unfolding prune_visitors
prune_oldest_after_reaching_max_recents = do
  let entry : CountEntry = record {
    count = 1;
    recent_visitors =
        visitor_new 5 (system_time 10)
        ∷ visitor_new 2 (system_time 100)
        ∷ visitor_new 4 (system_time 25)
        ∷ visitor_new 1 (system_time 150)
        ∷ visitor_new 3 (system_time 50)
        ∷ [];
  }
  pruned ← prune_visitors entry (system_time 150) 3
  assert (
      visitors_eq
        (visitor_new 1 (system_time 150)
          ∷ visitor_new 2 (system_time 100)
          ∷ visitor_new 3 (system_time 50)
          ∷ [])
        pruned.recent_visitors)
