-- ===== src/SourceTests/ListSize.antt =====
-- The test `recents_list_size` of src/store.rs: the constants for the size of an entry agree with the
-- sizes that CBOR, RFC 8949, gives the stored form.
use digital_garden_visitor_c.Common.{
  ℕ, zero, suc, ◌+◌, ◌-◌, ◌*◌, ◌≤◌, ◌<◌, ◌^◌, ◌≡◌, refl, arith, List, [], ◌∷◌, ◌==◌, leb, true,
  false, Option, none, some, Bytes, ok, length, replicate, length-replicate, ◌>>=◌,
}
use digital_garden_visitor_c.Store.Time.{checked_sub}
use digital_garden_visitor_c.Store.Visitor.{StoredVisitor}
use digital_garden_visitor_c.Store.Entry.{
  Cbor, size_single_visitor_bytes, max_recent_visitors, dynamo_max_item_size_bytes,
  reserved_non_value_size_bytes,
}
use digital_garden_visitor_c.Store.Increment.Sizes.{head_size, CborSizes}
use digital_garden_visitor_c.SourceTests.Asserts.{assert, unwrap, stored_visitor_new}

-- `u32::MAX`
abbrev pub u32_max : ℕ
u32_max = 4294967295

-- The test's visitor of the greatest size.
abbrev pub greatest : StoredVisitor
greatest = stored_visitor_new u32_max u32_max

module _ (cbor : Cbor) where
  -- The length of the encoded list.
  unfoldable pub encoded_length : List StoredVisitor → Option ℕ
  encoded_length visitors = do
    bytes ← unwrap (cbor.to_cbor (record { recent_visitors = visitors }))
    some (length bytes)

  -- The assertion on a list of so many visitors.
  unfoldable pub assert_full : ℕ → Option (Unit {0})
  unfolding encoded_length
  assert_full count = do
    full_size ← encoded_length (replicate count greatest)
    assert (leb full_size (dynamo_max_item_size_bytes - reserved_non_value_size_bytes))

  unfoldable pub recents_list_size : Option (Unit {0})
  unfolding assert_full checked_sub
  recents_list_size = do
    empty_size ← encoded_length []
    single_length ← encoded_length (greatest ∷ [])
    single_size ← checked_sub single_length empty_size
    single_is ← assert (size_single_visitor_bytes == single_size)
    assert_full max_recent_visitors

-- A visitor is a map of two pairs, each of a text of one letter and a number.
abbrev pub visitor_size : StoredVisitor → ℕ
visitor_size v = 1 + 2 + head_size v.tag + 2 + head_size v.last_seen

abbrev pub visitors_size : List StoredVisitor → ℕ
visitors_size [] = 0
visitors_size (v ∷ vs) = visitor_size v + visitors_size vs

-- An entry is a map of one pair, of a text of one letter and the array of the visitors.
pub record CborFormat (cbor : Cbor) : Type 0 where
  pub format :
      (visitors : List StoredVisitor)
      → length visitors < 2 ^ 32
      → (bytes : Bytes) × (cbor.to_cbor (record { recent_visitors = visitors }) ≡ ok bytes)
        × (length bytes ≡ 1 + 2 + head_size (length visitors) + visitors_size visitors)

visitors_size-le : (visitors : List StoredVisitor) → visitors_size visitors ≤ 15 * length visitors
visitors_size-le [] = omega arith
visitors_size-le (v ∷ vs) = let rest = visitors_size-le vs in ground arith

visitors_size-replicate : (count : ℕ) → visitors_size (replicate count greatest) ≡ 15 * count
visitors_size-replicate zero = refl
visitors_size-replicate (suc count) = omega (arith, visitors_size-replicate count)

-- The bound that the size of an item rests on.
pub CborFormat-CborSizes : (cbor : Cbor) → CborFormat cbor → CborSizes cbor
CborFormat-CborSizes cbor format = record {
  size = λ e value few encoded.
      let (bytes, written, sized) = format.format e.recent_visitors few in
      let bound = visitors_size-le e.recent_visitors in
      let same : value ≡ bytes = cc in rw same (omega arith);
}

module _ (cbor : Cbor) (format : CborFormat cbor) where
  encoded_length-size :
      (visitors : List StoredVisitor)
      → length visitors < 2 ^ 32
      → encoded_length cbor visitors
        ≡ some (1 + 2 + head_size (length visitors) + visitors_size visitors)
  unfolding encoded_length
  encoded_length-size visitors few =
      let (bytes, written, sized) = format.format visitors few in rw (written, sized) refl

  assert_full-passes : (count : ℕ) → count ≤ max_recent_visitors → assert_full cbor count ≡ some tt
  unfolding assert_full
  assert_full-passes count few =
      let n = length-replicate count greatest in
      let size = encoded_length-size (replicate count greatest) (omega arith) in
      let total = visitors_size-replicate count in
      let fits : leb
            (1
              + 2
              + head_size (length (replicate count greatest))
              + visitors_size (replicate count greatest))
            398_976
          ≡ true =
        rw (n, total) (ground arith) in
      rw (size, fits) refl

  -- With a codec that encodes every entry in the size that CBOR gives it, the test `recents_list_size`
  -- passes: a visitor with the greatest numbers takes the constant number of bytes, and the longest
  -- list of such visitors fits in an item of DynamoDB beside the reserved bytes.
  pub recents_list_size-passes : recents_list_size cbor ≡ some tt
  unfolding recents_list_size checked_sub
  recents_list_size-passes =
      rw (encoded_length-size [] (omega arith), encoded_length-size (greatest ∷ []) (omega arith))
        (assert_full-passes max_recent_visitors (omega arith))

  assert_full-none :
      (count : ℕ) → max_recent_visitors < count → count < 2 ^ 32 → assert_full cbor count ≡ none
  unfolding assert_full
  assert_full-none count many few =
      let n = length-replicate count greatest in
      let size = encoded_length-size (replicate count greatest) (omega arith) in
      let total = visitors_size-replicate count in
      let over : leb
            (1
              + 2
              + head_size (length (replicate count greatest))
              + visitors_size (replicate count greatest))
            398_976
          ≡ false =
        rw (n, total) (ground arith) in
      rw (size, over) refl

  -- With a codec that encodes every entry in the size that CBOR gives it, `max_recent_visitors` is the
  -- exact bound: every list of at most so many visitors takes at most the bytes that an item of
  -- DynamoDB has beside the reserved ones, the assertion of `recents_list_size` on the longest list
  -- holds, and on every longer list, below 2^32, it fails.
  pub encoded_length-max_recent_visitors :
      ((visitors : List StoredVisitor)
        → length visitors ≤ max_recent_visitors
        → (size : ℕ) × (encoded_length cbor visitors ≡ some size)
          × (size ≤ dynamo_max_item_size_bytes - reserved_non_value_size_bytes))
      × (assert_full cbor max_recent_visitors ≡ some tt)
      × ((count : ℕ) → max_recent_visitors < count → count < 2 ^ 32 → assert_full cbor count ≡ none)
  encoded_length-max_recent_visitors = (
    λ visitors few.
        let bound = visitors_size-le visitors in
        (
          1 + 2 + head_size (length visitors) + visitors_size visitors,
          encoded_length-size visitors (omega arith),
          ground arith,
        ),
    assert_full-passes max_recent_visitors (omega arith),
    λ count many few. assert_full-none count many few,
  )
