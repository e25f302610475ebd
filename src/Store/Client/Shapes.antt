-- ===== src/Store/Client/Shapes.antt =====
-- The outcomes of the calls of src/store.rs: a panic, an error, or a request.
use digital_garden_visitor_c.Common.{
  ℕ, ◌^◌, ◌<◌, ◌≡◌, arith, [], ◌∷◌, Option, none, some, ◌⊎◌, inl, inr, Bytes, Text, codes, ok,
  Option-cases, Result-cases,
}
use digital_garden_visitor_c.Decimal.{parse_u64}
use digital_garden_visitor_c.Decimal.RoundTrip.{parse_u64-lt}
use digital_garden_visitor_c.Store.Visitor.{StoredVisitor, Visitor, stored_visitor_from}
use digital_garden_visitor_c.Store.Entry.{
  CountEntry, StoredCountEntry, Cbor, stored_count_entry_from, count_entry_from,
}
use digital_garden_visitor_c.Store.Dynamo.{
  AttributeValue, n, Item, get, BoxError, cbor_error, done, fail, panic, put_item,
}
use digital_garden_visitor_c.Store.Client.{
  count_attribute, count_of, value_of, decode_item, put_result, put_new_input, put_input,
  try_put_new_count_entry, try_put_count_entry,
}

count_attribute-lt : (a : Option AttributeValue) {c : ℕ} → count_attribute a ≡ ok c → c < 2 ^ 64
unfolding count_attribute
count_attribute-lt none h = cc
count_attribute-lt (some (n text)) {c} h = elim (Option-cases (parse_u64 text)) [
  | inl e ↦ ground arith
  | inr (m, e) ↦ ground (arith, parse_u64-lt text {m = m} e)
]
count_attribute-lt (some _) h = cc

-- A count that is read from an item is a `u64`.
pub count_of-lt : (item : Item) {c : ℕ} → count_of item ≡ ok c → c < 2 ^ 64
unfolding count_of
count_of-lt item h = count_attribute-lt (get (codes "count") item) h

module _ (cbor : Cbor) where
  -- The decoding sends no request: it fails, or gives an entry with the count of the item.
  pub decode_item-cases :
      (item : Item)
      → ((e : BoxError) × (decode_item cbor item ≡ fail e))
        ⊎ ((entry : CountEntry) × (decode_item cbor item ≡ done entry)
            × (count_of item ≡ ok entry.count))
  unfolding decode_item
  decode_item-cases item = elim (Result-cases (count_of item)) [
    | inr (e, p) ↦ inl (e, rw p)
    | inl (c, p) ↦ elim (Result-cases (value_of cbor item)) [
      | inr (e, q) ↦ inl (e, rw (p, q))
      | inl (v, q) ↦ inr (record (count_entry_from v) { count = c }, rw (p, q), p)
    ]
  ]

  module _ (table_name name : Text) where
    pub try_put_new_count_entry-cases :
        (visitor : Visitor)
        → (try_put_new_count_entry cbor table_name name visitor ≡ panic)
          ⊎ ((e : ℕ) × (try_put_new_count_entry cbor table_name name visitor ≡ fail (cbor_error e)))
          ⊎ ((stored : StoredVisitor) × (value : Bytes) × (cbor.to_cbor
                  (record { recent_visitors = stored ∷ [] })
                ≡ ok value)
              × (try_put_new_count_entry cbor table_name name visitor
                  ≡ put_item (put_new_input table_name name value) put_result))
    unfolding try_put_new_count_entry
    try_put_new_count_entry-cases visitor = elim (Option-cases (stored_visitor_from visitor)) [
      | inl p ↦ inl (rw p)
      | inr (stored, p) ↦
          elim (Result-cases (cbor.to_cbor (record { recent_visitors = stored ∷ [] }))) [
            | inr (e, q) ↦ inr (inl (e, rw (p, q)))
            | inl (value, q) ↦ inr (inr (stored, value, q, rw (p, q)))
          ]
    ]

    pub try_put_count_entry-cases :
        (initial : ℕ) (entry : CountEntry)
        → (try_put_count_entry cbor table_name name initial entry ≡ panic)
          ⊎ ((e : ℕ) × (try_put_count_entry cbor table_name name initial entry
                ≡ fail (cbor_error e)))
          ⊎ ((stored : StoredCountEntry) × (value : Bytes) × (stored_count_entry_from entry
                ≡ some stored)
              × (cbor.to_cbor stored ≡ ok value)
              × (try_put_count_entry cbor table_name name initial entry
                  ≡ put_item (put_input table_name name initial entry.count value) put_result))
    unfolding try_put_count_entry
    try_put_count_entry-cases initial entry = elim (Option-cases (stored_count_entry_from entry)) [
      | inl p ↦ inl (rw p)
      | inr (stored, p) ↦ elim (Result-cases (cbor.to_cbor stored)) [
        | inr (e, q) ↦ inr (inl (e, rw (p, q)))
        | inl (value, q) ↦ inr (inr (stored, value, p, q, rw (p, q)))
      ]
    ]
