-- ===== src/SourceTests/Passing.antt =====
-- The asynchronous tests of src/store.rs pass with any codec that decodes what it encodes.
use digital_garden_visitor_c.Common.{ℕ, List, [], ◌∷◌, ◌≡◌, refl, arith, Option, some, All}
use digital_garden_visitor_c.Store.Visitor.{stored_visitor_from, visitor_from_stored}
use digital_garden_visitor_c.Store.Entry.{
  Cbor, CountEntry, stored_count_entry_from, count_entry_from,
}
use digital_garden_visitor_c.Store.Entry.RoundTrip.{CborLaws}
use digital_garden_visitor_c.Store.Recent.{update_entry}
use digital_garden_visitor_c.Store.Serial.{Visit}
use digital_garden_visitor_c.SourceTests.Asserts.{stored_visitor_new, visitor_new, system_time}
use digital_garden_visitor_c.SourceTests.StoreTests.{
  create_item_when_not_existing, increment_count_when_visitor_not_recent,
  return_existing_count_when_visitor_recent, retry_when_optimistic_lock_fails, prune_old_visitors,
}
use digital_garden_visitor_c.SourceTests.Creates.{create_item-passes}
use digital_garden_visitor_c.SourceTests.Updates.{maybe_increment_visitors-call}

-- The five asynchronous tests.
unfoldable pub store_tests : Cbor → List (Option (Unit {0}))
store_tests cbor =
    create_item_when_not_existing cbor
    ∷ increment_count_when_visitor_not_recent cbor
    ∷ return_existing_count_when_visitor_recent cbor
    ∷ retry_when_optimistic_lock_fails cbor
    ∷ prune_old_visitors cbor
    ∷ []

-- The visitor with the tag comes at the time.
abbrev visit_at : ℕ → ℕ → Visit
visit_at tag offset = record {
  visitor = visitor_new tag (system_time offset);
  now = system_time offset;
}

module _ (cbor : Cbor) (laws : CborLaws cbor) where
  increment_count-passes : increment_count_when_visitor_not_recent cbor ≡ some tt
  unfolding increment_count_when_visitor_not_recent update_entry count_entry_from
      stored_count_entry_from stored_visitor_from
  increment_count-passes =
      let updated : CountEntry = record {
        count = 1235;
        recent_visitors = visitor_new 1234 (system_time 1000) ∷ [];
      } in
      (maybe_increment_visitors-call cbor laws 1234 [] (visit_at 1234 1000) updated
        (stored_visitor_new 1234 1000 ∷ []) (omega arith) refl refl).0

  return_existing_count-passes : return_existing_count_when_visitor_recent cbor ≡ some tt
  unfolding return_existing_count_when_visitor_recent update_entry count_entry_from
      stored_count_entry_from stored_visitor_from visitor_from_stored
  return_existing_count-passes =
      let updated : CountEntry = record {
        count = 1234;
        recent_visitors = visitor_new 1 (system_time 2000) ∷ [];
      } in
      (maybe_increment_visitors-call cbor laws 1234 (stored_visitor_new 1 1000 ∷ [])
        (visit_at 1 2000) updated (stored_visitor_new 1 2000 ∷ []) (omega arith) refl refl).0

  retry-passes : retry_when_optimistic_lock_fails cbor ≡ some tt
  unfolding retry_when_optimistic_lock_fails update_entry count_entry_from stored_count_entry_from
      stored_visitor_from visitor_from_stored
  retry-passes =
      let updated : CountEntry = record {
        count = 1235;
        recent_visitors = visitor_new 1 (system_time 7201) ∷ [];
      } in
      (maybe_increment_visitors-call cbor laws 1234 (stored_visitor_new 1 0 ∷ []) (visit_at 1 7201)
        updated (stored_visitor_new 1 7201 ∷ []) (omega arith) refl refl).1

  prune_old-passes : prune_old_visitors cbor ≡ some tt
  unfolding prune_old_visitors update_entry count_entry_from stored_count_entry_from
      stored_visitor_from visitor_from_stored
  prune_old-passes =
      let updated : CountEntry = record {
        count = 1235;
        recent_visitors =
            visitor_new 4 (system_time 10_000) ∷ visitor_new 1 (system_time 12_000) ∷ [];
      } in
      (maybe_increment_visitors-call cbor laws 1234
        (stored_visitor_new 1 0
          ∷ stored_visitor_new 2 0
          ∷ stored_visitor_new 3 0
          ∷ stored_visitor_new 4 10_000
          ∷ [])
        (visit_at 1 12_000) updated (stored_visitor_new 4 10_000 ∷ stored_visitor_new 1 12_000 ∷ [])
        (omega arith) refl refl).0

  -- With a codec that encodes every entry and decodes what it encodes, the five asynchronous tests of
  -- the store pass: none of their assertions fails, and each call returns the count that is expected.
  pub store_tests-All : All (λ test. test ≡ some tt) (store_tests cbor)
  unfolding store_tests
  store_tests-All = (
    create_item-passes cbor laws,
    (
      increment_count-passes,
      (return_existing_count-passes, (retry-passes, (prune_old-passes, tt))),
    ),
  )
