-- ===== src/Store/Increment/Sizes.antt =====
-- The size of the items that `maybe_increment_visitors` of src/store.rs puts, against the limit of
-- DynamoDB.
use digital_garden_visitor_c.Common.{
  ℕ, ◌+◌, ◌*◌, ◌^◌, ◌≤◌, ◌<◌, ◌≡◌, arith, [], ◌∷◌, Bytes, Text, ok, length, if◌then◌else◌, ltb, inl,
  inr,
}
use digital_garden_visitor_c.Decimal.RoundTrip.{length-to_string}
use digital_garden_visitor_c.Store.Time.{SystemTime}
use digital_garden_visitor_c.Store.Visitor.{Visitor}
use digital_garden_visitor_c.Store.Entry.{StoredCountEntry, Cbor, dynamo_max_item_size_bytes}
use digital_garden_visitor_c.Store.Dynamo.{AttributeValue, s, n, b, other, Item, PutItemInput}
use digital_garden_visitor_c.Store.Dynamo.Requests.{AfterPut, Requests, Requests-mono}
use digital_garden_visitor_c.Store.Client.{put_input, put_new_input}
use digital_garden_visitor_c.Store.Increment.{maybe_increment_visitors}
use digital_garden_visitor_c.Store.Increment.Puts.{
  IsRead, IsVisitPut, maybe_increment_visitors-Honest,
}

-- The bytes of the head of a CBOR array of so many elements, below 2^32.
abbrev pub head_size : ℕ → ℕ
head_size count =
    if ltb count 24 then 1 else if ltb count (2 ^ 8) then 2 else if ltb count (2 ^ 16) then 3 else 5

-- The encoding is a map of one pair: its head, a key of one letter, and the array of the visitors.
-- A visitor is a map of two pairs of a key of one letter and a `u32`: at most 15 bytes.
pub record CborSizes (cbor : Cbor) : Type 0 where
  pub size :
      (e : StoredCountEntry) (value : Bytes)
      → length e.recent_visitors < 2 ^ 32
      → cbor.to_cbor e ≡ ok value
      → length value ≤ 1 + 2 + head_size (length e.recent_visitors) + 15 * length e.recent_visitors

-- The size of an item as DynamoDB counts it: names and values. A number of up to 38 digits takes
-- a byte for two digits, and two more at most; here it is counted as its text.
abbrev pub value_size : AttributeValue → ℕ
value_size (s text) = length text
value_size (n text) = length text + 2
value_size (b bytes) = length bytes
value_size other = 0

abbrev pub item_size : Item → ℕ
item_size [] = 0
item_size ((name, value) ∷ item) = length name + value_size value + item_size item

module _ (cbor : Cbor) (sizes : CborSizes cbor) (table_name name : Text)
    (short : length name ≤ 980) where
  put_new_input-item_size :
      (value : Bytes)
      → length value ≤ 398_976
      → item_size (put_new_input table_name name value).item ≤ dynamo_max_item_size_bytes
  unfolding put_new_input
  put_new_input-item_size value h = omega arith

  put_input-item_size :
      (initial count : ℕ) (value : Bytes)
      → count < 2 ^ 64
      → length value ≤ 398_976
      → item_size (put_input table_name name initial count value).item ≤ dynamo_max_item_size_bytes
  unfolding put_input
  put_input-item_size initial count value word h =
      let (pos, few) = length-to_string count word in omega arith

  IsVisitPut-item_size :
      (i : PutItemInput) (k : AfterPut ℕ)
      → IsVisitPut cbor table_name name i k
      → item_size i.item ≤ dynamo_max_item_size_bytes
  IsVisitPut-item_size i k (inl creation) =
      let size =
        sizes.size (record { recent_visitors = creation.visitor ∷ [] }) creation.value (omega arith)
          creation.encoded in
      rw creation.input (put_new_input-item_size creation.value (ground arith))
  IsVisitPut-item_size i k (inr update) =
      let few = update.few in
      let word = update.word in
      let follows = update.follows in
      let size = sizes.size update.visitors update.value (omega arith) update.encoded in
      rw update.input
        (put_input-item_size update.initial update.count update.value (ground arith) (ground arith))

  -- Every item that `maybe_increment_visitors` puts is within the limit of 400,000 bytes, if the
  -- name has at most 980 bytes and the encoding has the size that CBOR gives it.
  pub maybe_increment_visitors-item_size :
      (visitor : Visitor) (now : SystemTime)
      → Requests
          (λ _. Unit {0})
          (λ i _. item_size i.item ≤ dynamo_max_item_size_bytes)
          (maybe_increment_visitors cbor table_name visitor name now)
  maybe_increment_visitors-item_size visitor now =
      Requests-mono (IsRead table_name name) (λ _. Unit {0}) (IsVisitPut cbor table_name name)
        (λ i _. item_size i.item ≤ dynamo_max_item_size_bytes)
        (maybe_increment_visitors cbor table_name visitor name now) (λ i _. tt) IsVisitPut-item_size
        (maybe_increment_visitors-Honest cbor table_name visitor name now)
