-- ===== src/SourceTests/Asserts.antt =====
-- The helpers of the module `store_tests` of src/store.rs.
use digital_garden_visitor_c.Common.{
  ℕ, List, [], ◌∷◌, Bool, true, false, ◌&&◌, ◌==◌, Option, none, some, Bytes, Text, codes, text_eq,
  Result, ok, err, ◌+◌, ◌>>=◌,
}
use digital_garden_visitor_c.Decimal.{to_string}
use digital_garden_visitor_c.Store.Time.{SystemTime, unix_epoch, from_secs, timestamp_offset}
use digital_garden_visitor_c.Store.Visitor.{StoredVisitor, Visitor}
use digital_garden_visitor_c.Store.Entry.{Cbor}
use digital_garden_visitor_c.Store.Dynamo.{
  AttributeValue, s, n, b, Item, get, GetItemInput, GetItemOutput, PutItemInput, PutItemError, Proc,
  done,
}
use digital_garden_visitor_c.Store.Fake.{Store, store_fake}

-- `assert!`
abbrev pub assert : Bool → Option (Unit {0})
assert true = some tt
assert false = none

-- `==` of attributes; the variants that the code does not make are never compared.
abbrev pub attribute_eq : AttributeValue → AttributeValue → Bool
attribute_eq (s x) (s y) = text_eq x y
attribute_eq (n x) (n y) = text_eq x y
attribute_eq (b x) (b y) = text_eq x y
attribute_eq _ _ = false

abbrev pub stored_visitors_eq : List StoredVisitor → List StoredVisitor → Bool
stored_visitors_eq [] [] = true
stored_visitors_eq (v ∷ vs) (w ∷ ws) =
    (v.tag == w.tag) && (v.last_seen == w.last_seen) && stored_visitors_eq vs ws
stored_visitors_eq _ _ = false

-- `unwrap` of a result.
abbrev pub unwrap : {A E : Type 0} → Result A E → Option A
unwrap (ok a) = some a
unwrap (err _) = none

-- `as_b().unwrap()`
abbrev pub unwrap_blob : AttributeValue → Option Bytes
unwrap_blob (b blob) = some blob
unwrap_blob _ = none

-- `StoredVisitor::new`
abbrev pub stored_visitor_new : ℕ → ℕ → StoredVisitor
stored_visitor_new tag last_seen = record { tag = tag; last_seen = last_seen }

-- `Visitor::new`
abbrev pub visitor_new : ℕ → SystemTime → Visitor
visitor_new tag last_seen = record { tag = tag; last_seen = last_seen }

abbrev pub system_time : ℕ → SystemTime
system_time offset = unix_epoch + from_secs (timestamp_offset + offset)

-- The attribute `key` of a map is the text.
abbrev pub assert_key : Item → Text → Option (Unit {0})
assert_key item name = get (codes "key") item >>= λ key. assert (attribute_eq (s name) key)

unfoldable pub assert_get : GetItemInput → Text → Option (Unit {0})
assert_get input name = do
  named ← assert (text_eq (codes "test") input.table_name)
  assert_key input.key name

-- The names that both kinds of put are checked for: the table, the condition and its one name.
abbrev pub assert_condition : PutItemInput → Text → Text → Text → Option (Unit {0})
assert_condition put condition placeholder attribute = do
  named ← assert (text_eq (codes "test") put.table_name)
  condition_is ← assert (text_eq condition put.condition_expression)
  name ← get placeholder put.expression_attribute_names
  assert (text_eq attribute name)

module _ (cbor : Cbor) where
  -- The item of a put: its key, its count, and the visitors in its value.
  unfoldable pub assert_item : Item → Text → ℕ → List StoredVisitor → Option (Unit {0})
  assert_item item name new_count recent_visitors = do
    key_is ← assert_key item name
    count ← get (codes "count") item
    count_is ← assert (attribute_eq (n (to_string new_count)) count)
    attribute ← get (codes "value") item
    blob ← unwrap_blob attribute
    value ← unwrap (cbor.from_cbor blob)
    assert (stored_visitors_eq recent_visitors value.recent_visitors)

  unfoldable pub assert_put : PutItemInput → Text → ℕ → ℕ → List StoredVisitor → Option (Unit {0})
  unfolding assert_item
  assert_put put name initial_count new_count recent_visitors = do
    condition_is ← assert_condition put (codes "#c = :count") (codes "#c") (codes "count")
    initial ← get (codes ":count") put.expression_attribute_values
    initial_is ← assert (attribute_eq (n (to_string initial_count)) initial)
    assert_item put.item name new_count recent_visitors

  -- `output`
  unfoldable pub output : ℕ → List StoredVisitor → Option GetItemOutput
  output count recent_visitors = do
    value ← unwrap (cbor.to_cbor (record { recent_visitors = recent_visitors }))
    some (record {
      item = some (
          (codes "key", s (codes "default"))
          ∷ (codes "count", n (to_string count))
          ∷ (codes "value", b value)
          ∷ []);
    })

-- `fake_dynamo!`: a store whose client is two handlers and the counter of attempts.
abbrev pub fake_dynamo :
    (GetItemInput → Option (Result GetItemOutput ℕ))
    → (PutItemInput → ℕ → Option (Result (Unit {0}) PutItemError × ℕ))
    → Store ℕ
fake_dynamo on_get on_put = store_fake (codes "test") (record {
  get = λ attempt input. on_get input >>= λ answer. some (answer, attempt);
  put = λ attempt input. on_put input attempt;
})

-- `.await.unwrap()` and the assertion on the count.
abbrev pub assert_count : ℕ → Option (Proc ℕ) → Option (Unit {0})
assert_count expected (some (done result)) = assert (expected == result)
assert_count expected _ = none
