-- ===== src/Examples/Storage.antt =====
-- Tests of src/store.rs on the inputs of the source's tests, and instances of the theorems.
use digital_garden_visitor_c.Common.{
  ℕ, ◌+◌, ◌^◌, ◌≤◌, ◌<◌, ◌≡◌, ◌≢◌, ◌↔◌, refl, arith, [], ◌∷◌, none, some, Bytes, codes, map, length,
  All,
}
use digital_garden_visitor_c.Decimal.{to_string, parse_u64}
use digital_garden_visitor_c.Decimal.RoundTrip.{parse_u64-to_string}
use digital_garden_visitor_c.Store.Time.{nanos_per_sec}
use digital_garden_visitor_c.Store.Visitor.{Visitor, stored_visitor_from, visitor_from_stored}
use digital_garden_visitor_c.Store.Visitor.RoundTrip.{
  Storable, stored_visitor_from-ne-none_iff, visitor_from_stored-stored_visitor_from,
  stored_visitor_from-visitor_from_stored,
}
use digital_garden_visitor_c.Store.Entry.{
  StoredCountEntry, CountEntry, count_entry_from, stored_count_entry_from,
}
use digital_garden_visitor_c.Store.Entry.RoundTrip.{
  rounded, count_entry_from-stored_count_entry_from,
}
use digital_garden_visitor_c.Store.Dynamo.{put_item, done}
use digital_garden_visitor_c.Store.Recent.{prune_visitors, update_entry}
use digital_garden_visitor_c.Store.Recent.Prune.{
  prune_visitors-IsPruned, prune_visitors-ne-none_iff,
}
use digital_garden_visitor_c.Store.Recent.Prune.{Seen, IsPruned}
use digital_garden_visitor_c.Store.Recent.Update.{update_entry-IsVisited}
use digital_garden_visitor_c.Store.Recent.Update.{IsVisited}
use digital_garden_visitor_c.Store.Client.{decode_item, put_input, put_result, try_put_count_entry}
use digital_garden_visitor_c.Store.Client.RoundTrip.{decode_item-try_put_count_entry}
use digital_garden_visitor_c.Store.Increment.{maybe_increment_visitors}
use digital_garden_visitor_c.Store.Increment.Guarded.{IsLoop, maybe_increment_visitors-IsLoop}
pub use digital_garden_visitor_c.SourceTests.Asserts.{system_time}
use digital_garden_visitor_c.Examples.Codec.{codec, codec-CborLaws}

abbrev pub visitor : ℕ → ℕ → Visitor
visitor tag offset = record { tag = tag; last_seen = system_time offset }

abbrev five : CountEntry
five = record {
  count = 1;
  recent_visitors = visitor 5 10 ∷ visitor 2 100 ∷ visitor 4 25 ∷ visitor 1 150 ∷ visitor 3 50 ∷ [];
}

abbrev four : CountEntry
four = record {
  count = 1234;
  recent_visitors = visitor 1 0 ∷ visitor 2 0 ∷ visitor 3 0 ∷ visitor 4 10_000 ∷ [];
}

prune_visitors-IsPruned_example :
    (pruned : CountEntry) × (prune_visitors five (system_time 150) 3 ≡ some pruned)
    × IsPruned five (system_time 150) 3 pruned
prune_visitors-IsPruned_example = prune_visitors-IsPruned five (system_time 150) 3 (omega arith)

prune_visitors-ne-none_iff_example :
    (prune_visitors five (system_time 149) 3 ≢ none)
    ↔ All (Seen (system_time 149)) five.recent_visitors
prune_visitors-ne-none_iff_example = prune_visitors-ne-none_iff five (system_time 149) 3

update_entry-IsVisited_example :
    (updated : CountEntry) × (update_entry (visitor 1 12_000) (system_time 12_000) four
      ≡ some updated)
    × IsVisited (visitor 1 12_000) (system_time 12_000) four updated
update_entry-IsVisited_example =
    update_entry-IsVisited (visitor 1 12_000) (system_time 12_000) four (omega arith) (omega arith)
      (omega arith)

stored_visitor_from-ne-none_iff_example :
    (stored_visitor_from (visitor 1234 1000) ≢ none) ↔ Storable (visitor 1234 1000)
stored_visitor_from-ne-none_iff_example = stored_visitor_from-ne-none_iff (visitor 1234 1000)

-- A quarter of a second past a whole second.
abbrev between : Visitor
between = record { tag = 1234; last_seen = system_time 1000 + 250_000_000 }

visitor_from_stored-stored_visitor_from_example :
    ((visitor_from_stored (record { tag = 1234; last_seen = 1000 })).tag ≡ 1234)
    × ((visitor_from_stored (record { tag = 1234; last_seen = 1000 })).last_seen
        ≤ between.last_seen)
    × (between.last_seen
        < (visitor_from_stored (record { tag = 1234; last_seen = 1000 })).last_seen + nanos_per_sec)
    × (◌<◌ 1000 (2 ^ 32))
unfolding stored_visitor_from
visitor_from_stored-stored_visitor_from_example =
    visitor_from_stored-stored_visitor_from between {s = record { tag = 1234; last_seen = 1000 }}
      refl

stored_visitor_from-visitor_from_stored_example :
    stored_visitor_from (visitor_from_stored (record { tag = 7; last_seen = 42 }))
    ≡ some (record { tag = 7; last_seen = 42 })
stored_visitor_from-visitor_from_stored_example =
    stored_visitor_from-visitor_from_stored (record { tag = 7; last_seen = 42 }) (omega arith)

abbrev two : CountEntry
two = record { count = 1234; recent_visitors = between ∷ visitor 2 1000 ∷ [] }

count_entry_from-stored_count_entry_from_example :
    (value : StoredCountEntry) × (stored_count_entry_from two ≡ some value)
    × (length value.recent_visitors ≡ 2)
    × (count_entry_from value
        ≡ record { count = 0; recent_visitors = map rounded two.recent_visitors })
count_entry_from-stored_count_entry_from_example =
    count_entry_from-stored_count_entry_from two (omega arith)

decode_item-try_put_count_entry_example :
    (bytes : Bytes) × (try_put_count_entry codec (codes "test") (codes "default") 1233 two
      ≡ put_item (put_input (codes "test") (codes "default") 1233 1234 bytes) put_result)
    × (decode_item codec (put_input (codes "test") (codes "default") 1233 1234 bytes).item
        ≡ done (record two { recent_visitors = map rounded two.recent_visitors }))
decode_item-try_put_count_entry_example =
    decode_item-try_put_count_entry codec codec-CborLaws (codes "test") (codes "default") 1233 two
      (omega arith) (omega arith)

maybe_increment_visitors-IsLoop_example :
    IsLoop codec (codes "test") (visitor 1 1000) (codes "default") (system_time 1000) (
      maybe_increment_visitors codec
        (codes "test")
        (visitor 1 1000)
        (codes "default")
        (system_time 1000))
maybe_increment_visitors-IsLoop_example =
    maybe_increment_visitors-IsLoop codec (codes "test") (visitor 1 1000) (codes "default")
      (system_time 1000)

parse_u64-to_string_example : parse_u64 (to_string 18446744073709551615) ≡ some 18446744073709551615
parse_u64-to_string_example = parse_u64-to_string 18446744073709551615 (omega arith)
