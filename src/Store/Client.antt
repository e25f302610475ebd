-- ===== src/Store/Client.antt =====
-- The calls of DynamoDB in src/store.rs: the reading of a count entry and the two conditional puts.
-- The table's name is the store's field `table_name`.
pub mod RoundTrip
pub mod Shapes
use digital_garden_visitor_c.Common.{
  ℕ, [], ◌∷◌, Bool, true, false, Option, none, some, Bytes, Text, codes, Result, ok, err,
}
use digital_garden_visitor_c.Decimal.{to_string, parse_u64}
use digital_garden_visitor_c.Store.Visitor.{Visitor, stored_visitor_from}
use digital_garden_visitor_c.Store.Entry.{
  StoredCountEntry, CountEntry, Cbor, stored_count_entry_from, count_entry_from,
}
use digital_garden_visitor_c.Store.Dynamo.{
  AttributeValue, s, n, b, Item, get, GetItemOutput, PutItemInput, PutItemError,
  conditional_check_failed, unhandled, BoxError, message, cbor_error, get_item_error,
  put_item_error, Proc, done, fail, get_item, put_item, ◌>>=◌, or_panic, or_fail,
}

-- A parsed count.
unfoldable pub parsed_count : Option ℕ → Result ℕ BoxError
parsed_count none = err (message (codes "failed to parse count"))
parsed_count (some count) = ok count

-- The value of the attribute `count`, or none.
unfoldable pub count_attribute : Option AttributeValue → Result ℕ BoxError
unfolding parsed_count
count_attribute none = err (message (codes "item was missing a count attribute"))
count_attribute (some (n text)) = parsed_count (parse_u64 text)
count_attribute (some _) = err (message (codes "count is not a number"))

-- The attribute `count` of an item.
unfoldable pub count_of : Item → Result ℕ BoxError
unfolding count_attribute
count_of item = count_attribute (get (codes "count") item)

-- The `match` on the response to a put: whether the item was written.
unfoldable pub put_result : Result (Unit {0}) PutItemError → Proc Bool
put_result (ok _) = done true
put_result (err conditional_check_failed) = done false
put_result (err (unhandled e)) = fail (put_item_error e)

module _ (table_name : Text) where
  -- The request of `try_put_new_count_entry`, with the encoded list of the one visitor.
  unfoldable pub put_new_input : Text → Bytes → PutItemInput
  put_new_input name value = record {
    table_name = table_name;
    condition_expression = codes "attribute_not_exists(#k)";
    expression_attribute_names = (codes "#k", codes "key") ∷ [];
    expression_attribute_values = [];
    item = (codes "key", s name) ∷ (codes "count", n (codes "1")) ∷ (codes "value", b value) ∷ [];
  }

  -- The request of `try_put_count_entry`.
  unfoldable pub put_input : Text → ℕ → ℕ → Bytes → PutItemInput
  put_input name initial_count count value = record {
    table_name = table_name;
    condition_expression = codes "#c = :count";
    expression_attribute_names = (codes "#c", codes "count") ∷ [];
    expression_attribute_values = (codes ":count", n (to_string initial_count)) ∷ [];
    item =
        (codes "key", s name)
        ∷ (codes "count", n (to_string count))
        ∷ (codes "value", b value)
        ∷ [];
  }

module _ (cbor : Cbor) where
  -- The attribute `value` of an item.
  unfoldable pub value_of : Item → Result StoredCountEntry BoxError
  value_of item = elim (get (codes "value") item) [
    | none ↦ err (message (codes "item was missing a value attribute"))
    | some (b blob) ↦ elim (cbor.from_cbor blob) [
      | err e ↦ err (cbor_error e)
      | ok value ↦ ok value
    ]
    | some _ ↦ err (message (codes "value was not a blob"))
  ]

  -- The conversion of the row's attributes.
  unfoldable pub decode_item : Item → Proc CountEntry
  unfolding count_of value_of
  decode_item item = do
    count ← or_fail (λ e. e) (count_of item)
    value ← or_fail (λ e. e) (value_of item)
    done (record (count_entry_from value) { count = count })

  -- What `get_count_entry` does with the response.
  unfoldable pub get_response : Result GetItemOutput ℕ → Proc (Option CountEntry)
  unfolding decode_item
  get_response output = or_fail get_item_error output >>= λ o. elim o.item [
    | none ↦ done none
    | some item ↦ decode_item item >>= λ entry. done (some entry)
  ]

  module _ (table_name : Text) where
    unfoldable pub get_count_entry : Text → Proc (Option CountEntry)
    unfolding get_response
    get_count_entry name =
        get_item (record { table_name = table_name; key = (codes "key", s name) ∷ [] }) get_response

    unfoldable pub try_put_new_count_entry : Text → Visitor → Proc Bool
    unfolding put_result put_new_input
    try_put_new_count_entry name visitor = do
      stored ← or_panic (stored_visitor_from visitor)
      value ← or_fail cbor_error (cbor.to_cbor (record { recent_visitors = stored ∷ [] }))
      put_item (put_new_input table_name name value) put_result

    unfoldable pub try_put_count_entry : Text → ℕ → CountEntry → Proc Bool
    unfolding put_result put_input
    try_put_count_entry name initial_count entry = do
      stored ← or_panic (stored_count_entry_from entry)
      value ← or_fail cbor_error (cbor.to_cbor stored)
      put_item (put_input table_name name initial_count entry.count value) put_result
