-- ===== src/SourceTests/Creates.antt =====
-- The test `create_item_when_not_existing` of src/store.rs passes.
use digital_garden_visitor_c.Common.{
  [], ◌∷◌, ◌≡◌, refl, ap, ◌∙◌, Bool, if◌then◌else◌, Option, some, Bytes, codes, ok,
}
use digital_garden_visitor_c.Decimal.{to_string}
use digital_garden_visitor_c.Store.Visitor.{stored_visitor_from}
use digital_garden_visitor_c.Store.Entry.{Cbor, StoredCountEntry}
use digital_garden_visitor_c.Store.Entry.RoundTrip.{CborLaws}
use digital_garden_visitor_c.Store.Dynamo.{Proc, done, get, put_item, ◌>>=◌}
use digital_garden_visitor_c.Store.Client.{
  get_count_entry, get_response, put_result, put_new_input, try_put_new_count_entry,
}
use digital_garden_visitor_c.Store.Increment.{maybe_increment_visitors, attempts, attempt}
use digital_garden_visitor_c.Store.Fake.{run}
use digital_garden_visitor_c.SourceTests.Asserts.{
  assert_count, fake_dynamo, stored_visitor_new, visitor_new, system_time,
}
use digital_garden_visitor_c.SourceTests.StoreTests.{
  no_item, expect_new, create_item_when_not_existing,
}

module _ (cbor : Cbor) (laws : CborLaws cbor) where
  -- The put of a new counter by the visitor of the test.
  creation :
      (bytes : Bytes) × (try_put_new_count_entry cbor
          (codes "test")
          (codes "default")
          (visitor_new 1 (system_time 1000))
        ≡ put_item (put_new_input (codes "test") (codes "default") bytes) put_result)
      × (cbor.from_cbor bytes ≡ ok (record { recent_visitors = stored_visitor_new 1 1000 ∷ [] }))
  unfolding try_put_new_count_entry stored_visitor_from
  creation =
      let value : StoredCountEntry = record { recent_visitors = stored_visitor_new 1 1000 ∷ [] } in
      let (bytes, written) = laws.encodes value in (bytes, rw written, laws.decodes value written)

  -- What is left of the test from the put on.
  abbrev from_put : Proc Bool → Option (Unit {0})
  from_put p =
      let now = system_time 1000 in
      assert_count 1 (
        run (fake_dynamo no_item (expect_new cbor)).client
          (p >>= λ created.
            if created
            then done 1
            else attempts cbor (codes "test") (visitor_new 1 now) (codes "default") now 4)
          0)

  expected :
      (bytes : Bytes)
      → cbor.from_cbor bytes ≡ ok (record { recent_visitors = stored_visitor_new 1 1000 ∷ [] })
      → from_put (put_item (put_new_input (codes "test") (codes "default") bytes) put_result)
        ≡ some tt
  unfolding run expect_new get put_result put_new_input to_string
  expected bytes decoded = rw decoded refl

  pub create_item-passes : create_item_when_not_existing cbor ≡ some tt
  unfolding create_item_when_not_existing get_count_entry get_response attempts attempt
      maybe_increment_visitors get
  create_item-passes =
      let (bytes, sent, decoded) = creation in ap from_put sent ∙ expected bytes decoded
