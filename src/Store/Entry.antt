-- ===== src/Store/Entry.antt =====
-- Count entries and their stored form, src/store.rs. The CBOR codec of the crate ciborium is a
-- parameter; an external error is known by a number.
pub mod RoundTrip
use digital_garden_visitor_c.Common.{
  ℕ, ◌-◌, ◌/◌, List, [], ◌∷◌, Option, some, Bytes, Result, map, ◌>>=◌,
}
use digital_garden_visitor_c.Store.Visitor.{
  StoredVisitor, Visitor, stored_visitor_from, visitor_from_stored,
}

abbrev pub max_attempts_for_optimistic_locking : ℕ
max_attempts_for_optimistic_locking = 5

abbrev pub dynamo_max_item_size_bytes : ℕ
dynamo_max_item_size_bytes = 400_000

abbrev pub reserved_non_value_size_bytes : ℕ
reserved_non_value_size_bytes = 1024

abbrev pub size_single_visitor_bytes : ℕ
size_single_visitor_bytes = 15

abbrev pub max_recent_visitors : ℕ
max_recent_visitors =
    (dynamo_max_item_size_bytes - reserved_non_value_size_bytes) / size_single_visitor_bytes

pub record StoredCountEntry : Type 0 where
  pub recent_visitors : List StoredVisitor

pub record CountEntry : Type 0 where
  pub count : ℕ  -- u64
  pub recent_visitors : List Visitor

-- `StoredCountEntry::to_cbor` and `from_cbor`, the calls of ciborium.
pub record Cbor : Type 0 where
  pub to_cbor : StoredCountEntry → Result Bytes ℕ
  pub from_cbor : Bytes → Result StoredCountEntry ℕ

-- The iterator over the visitors; a conversion that panics ends it.
unfoldable pub store_visitors : List Visitor → Option (List StoredVisitor)
store_visitors [] = some []
store_visitors (v ∷ vs) = do s ← stored_visitor_from v; ss ← store_visitors vs; some (s ∷ ss)

-- `StoredCountEntry::from(&CountEntry)`
unfoldable pub stored_count_entry_from : CountEntry → Option StoredCountEntry
unfolding store_visitors
stored_count_entry_from value = do
  visitors ← store_visitors value.recent_visitors
  some (record { recent_visitors = visitors })

-- `CountEntry::from(StoredCountEntry)`
unfoldable pub count_entry_from : StoredCountEntry → CountEntry
count_entry_from value = record {
  count = 0;
  recent_visitors = map visitor_from_stored value.recent_visitors;
}
