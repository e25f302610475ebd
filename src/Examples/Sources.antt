-- ===== src/Examples/Sources.antt =====
-- Instances of the theorems about the source's tests.
use digital_garden_visitor_c.Common.{
  ℕ, ◌+◌, ◌-◌, ◌^◌, ◌≤◌, ◌<◌, ◌≡◌, refl, arith, List, [], ◌∷◌, none, some, codes, text_eq, ok,
  length, replicate, length-replicate, All,
}
use digital_garden_visitor_c.Store.Visitor.{
  StoredVisitor, little, u32_from_ne_bytes, stored_visitor_from, visitor_from_stored,
}
use digital_garden_visitor_c.Store.Entry.{
  max_recent_visitors, dynamo_max_item_size_bytes, reserved_non_value_size_bytes, Cbor, CountEntry,
  stored_count_entry_from, count_entry_from,
}
use digital_garden_visitor_c.Store.Recent.{update_entry}
use digital_garden_visitor_c.Store.Increment.Sizes.{head_size}
use digital_garden_visitor_c.SourceTests.Asserts.{fake_dynamo, stored_visitor_new}
use digital_garden_visitor_c.SourceTests.StoreTests.{found, expect_put, succeed, fail_first, call}
use digital_garden_visitor_c.SourceTests.Updates.{maybe_increment_visitors-call}
use digital_garden_visitor_c.SourceTests.Passing.{store_tests, store_tests-All}
use digital_garden_visitor_c.SourceTests.Conversions.{transmute}
use digital_garden_visitor_c.SourceTests.Conversions.Passing.{u32_from_ne_bytes-transmute}
use digital_garden_visitor_c.SourceTests.ListSize.{
  recents_list_size, recents_list_size-passes, visitors_size, CborFormat, encoded_length,
  assert_full, encoded_length-max_recent_visitors,
}
use digital_garden_visitor_c.SourceTests.RequestTests.{request_tests, request_tests-All}
use digital_garden_visitor_c.Examples.Codec.{codec, codec-CborLaws}
use digital_garden_visitor_c.Examples.Storage.{visitor, system_time}

-- A counter at 41 with a visitor seen an hour and a half ago, who comes again, beside another one.
abbrev hour : CountEntry
hour = record { count = 41; recent_visitors = visitor 9 7200 ∷ visitor 8 7200 ∷ [] }

maybe_increment_visitors-call_example :
    (call codec
        (fake_dynamo (found codec 41 (stored_visitor_new 9 1800 ∷ stored_visitor_new 8 7200 ∷ [])) (
          expect_put codec 41 41
            (stored_visitor_new 9 7200 ∷ stored_visitor_new 8 7200 ∷ [])
            succeed))
        (visitor 9 7200)
        (system_time 7200)
        41
      ≡ some tt)
    × (call codec
          (fake_dynamo
            (found codec 41 (stored_visitor_new 9 1800 ∷ stored_visitor_new 8 7200 ∷ []))
            (expect_put codec 41 41
              (stored_visitor_new 9 7200 ∷ stored_visitor_new 8 7200 ∷ [])
              fail_first))
          (visitor 9 7200)
          (system_time 7200)
          41
        ≡ some tt)
unfolding update_entry count_entry_from stored_count_entry_from stored_visitor_from
    visitor_from_stored
maybe_increment_visitors-call_example =
    maybe_increment_visitors-call codec codec-CborLaws 41
      (stored_visitor_new 9 1800 ∷ stored_visitor_new 8 7200 ∷ [])
      (record { visitor = visitor 9 7200; now = system_time 7200 }) hour
      (stored_visitor_new 9 7200 ∷ stored_visitor_new 8 7200 ∷ []) (omega arith) refl refl

u32_from_ne_bytes-transmute_example :
    u32_from_ne_bytes little (transmute little 16909060) ≡ some 16909060
u32_from_ne_bytes-transmute_example = u32_from_ne_bytes-transmute little 16909060 (omega arith)

-- Encodings of the right size and no content.
abbrev sized : Cbor
sized = record {
  to_cbor = λ e. ok (
      replicate (1 + 2 + head_size (length e.recent_visitors) + visitors_size e.recent_visitors) 0);
  from_cbor = λ b. ok (record { recent_visitors = [] });
}

sized-CborFormat : CborFormat sized
sized-CborFormat = record {
  format = λ visitors few. (
    replicate (1 + 2 + head_size (length visitors) + visitors_size visitors) 0,
    refl,
    length-replicate (1 + 2 + head_size (length visitors) + visitors_size visitors) 0,
  );
}

encoded_length-max_recent_visitors_example :
    ((visitors : List StoredVisitor)
      → length visitors ≤ max_recent_visitors
      → (size : ℕ) × (encoded_length sized visitors ≡ some size)
        × (size ≤ dynamo_max_item_size_bytes - reserved_non_value_size_bytes))
    × (assert_full sized max_recent_visitors ≡ some tt)
    × ((count : ℕ) → max_recent_visitors < count → count < 2 ^ 32 → assert_full sized count ≡ none)
encoded_length-max_recent_visitors_example =
    encoded_length-max_recent_visitors sized sized-CborFormat

-- The tests pass with the codec, and with a bot checker that knows the one bot.
passing : All (λ test. test ≡ some tt) (store_tests codec)
passing = store_tests-All codec codec-CborLaws

requests_passing :
    All (λ test. test ≡ some tt) (request_tests (λ agent. text_eq agent (codes "irbot")))
requests_passing = request_tests-All (λ agent. text_eq agent (codes "irbot")) refl refl

sized_passing : recents_list_size sized ≡ some tt
sized_passing = recents_list_size-passes sized sized-CborFormat
