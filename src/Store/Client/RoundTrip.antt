-- ===== src/Store/Client/RoundTrip.antt =====
-- What a put writes is what a later read decodes.
use digital_garden_visitor_c.Common.{
  ℕ, ◌^◌, ◌<◌, ◌≡◌, arith, map, Bytes, Text, ok, All, [], ◌∷◌, refl,
}
use digital_garden_visitor_c.Decimal.{parse_u64}
use digital_garden_visitor_c.Store.Visitor.{Visitor}
use digital_garden_visitor_c.Decimal.RoundTrip.{parse_u64-to_string}
use digital_garden_visitor_c.Store.Visitor.RoundTrip.{Storable}
use digital_garden_visitor_c.Store.Entry.{CountEntry, StoredCountEntry, Cbor, count_entry_from}
use digital_garden_visitor_c.Store.Entry.RoundTrip.{
  CborLaws, rounded, shorten, stored_visitor_from-shorten, visitor_from_stored-shorten,
  count_entry_from-stored_count_entry_from,
}
use digital_garden_visitor_c.Store.Dynamo.{get, done, put_item}
use digital_garden_visitor_c.Store.Client.{
  count_of, value_of, decode_item, put_input, put_result, try_put_count_entry, put_new_input,
  try_put_new_count_entry,
}

module _ (cbor : Cbor) (laws : CborLaws cbor) (table_name name : Text) where
  count_of-put_input :
      (initial count : ℕ) (bytes : Bytes)
      → count < 2 ^ 64
      → count_of (put_input table_name name initial count bytes).item ≡ ok count
  unfolding count_of put_input get
  count_of-put_input initial count bytes h = ground (arith, parse_u64-to_string count h)

  value_of-put_input :
      (initial count : ℕ) (value : StoredCountEntry) (bytes : Bytes)
      → cbor.to_cbor value ≡ ok bytes
      → value_of cbor (put_input table_name name initial count bytes).item ≡ ok value
  unfolding value_of put_input get
  value_of-put_input initial count value bytes e = ground (arith, laws.decodes value e)

  pub decode-put_input :
      (initial count : ℕ) (value : StoredCountEntry) (bytes : Bytes)
      → count < 2 ^ 64
      → cbor.to_cbor value ≡ ok bytes
      → decode_item cbor (put_input table_name name initial count bytes).item
        ≡ done (record (count_entry_from value) { count = count })
  unfolding decode_item
  decode-put_input initial count value bytes h e =
      rw (count_of-put_input initial count bytes h, value_of-put_input initial count value bytes e)

  -- Let the count be a `u64` and all visitors be storable. Then `try_put_count_entry` sends one
  -- put, whose response it reads by `put_result`, and the item of that put is decoded to the same
  -- count and the same visitors, their times rounded down to whole seconds.
  pub decode_item-try_put_count_entry :
      (initial : ℕ) (entry : CountEntry)
      → entry.count < 2 ^ 64
      → All Storable entry.recent_visitors
      → (bytes : Bytes) × (try_put_count_entry cbor table_name name initial entry
          ≡ put_item (put_input table_name name initial entry.count bytes) put_result)
        × (decode_item cbor (put_input table_name name initial entry.count bytes).item
            ≡ done (record entry { recent_visitors = map rounded entry.recent_visitors }))
  unfolding try_put_count_entry
  decode_item-try_put_count_entry initial entry h storable =
      let (value, e, _, back) = count_entry_from-stored_count_entry_from entry storable in
      let (bytes, written) = laws.encodes value in
      (
        bytes,
        rw (e, written),
        rw (decode-put_input initial entry.count value bytes h written, back),
      )

  count_of-put_new_input :
      (bytes : Bytes) → count_of (put_new_input table_name name bytes).item ≡ ok 1
  unfolding count_of put_new_input get parse_u64
  count_of-put_new_input bytes = refl

  value_of-put_new_input :
      (value : StoredCountEntry) (bytes : Bytes)
      → cbor.to_cbor value ≡ ok bytes
      → value_of cbor (put_new_input table_name name bytes).item ≡ ok value
  unfolding value_of put_new_input get
  value_of-put_new_input value bytes e = ground (arith, laws.decodes value e)

  decode-put_new_input :
      (value : StoredCountEntry) (bytes : Bytes)
      → cbor.to_cbor value ≡ ok bytes
      → decode_item cbor (put_new_input table_name name bytes).item
        ≡ done (record (count_entry_from value) { count = 1 })
  unfolding decode_item
  decode-put_new_input value bytes e =
      rw (count_of-put_new_input bytes, value_of-put_new_input value bytes e)

  -- If the visitor is storable, `try_put_new_count_entry` sends one put, whose response it reads by
  -- `put_result`, and the item of that put is decoded to the count one and the visitor alone, its
  -- time rounded down to a whole second.
  pub decode_item-try_put_new_count_entry :
      (visitor : Visitor)
      → Storable visitor
      → (bytes : Bytes) × (try_put_new_count_entry cbor table_name name visitor
          ≡ put_item (put_new_input table_name name bytes) put_result)
        × (decode_item cbor (put_new_input table_name name bytes).item
            ≡ done (record { count = 1; recent_visitors = rounded visitor ∷ [] }))
  unfolding try_put_new_count_entry count_entry_from
  decode_item-try_put_new_count_entry visitor storable =
      let value : StoredCountEntry = record { recent_visitors = shorten visitor ∷ [] } in
      let (bytes, written) = laws.encodes value in
      (
        bytes,
        rw (stored_visitor_from-shorten visitor storable, written),
        rw (decode-put_new_input value bytes written, visitor_from_stored-shorten visitor storable),
      )
