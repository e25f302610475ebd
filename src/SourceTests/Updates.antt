-- ===== src/SourceTests/Updates.antt =====
-- The tests of src/store.rs that update a counter pass, whatever the counter and the visitor.
use digital_garden_visitor_c.Common.{
  ℕ, suc, ◌^◌, ◌<◌, List, [], ◌∷◌, ◌≡◌, refl, ap, ◌∙◌, arith, true, ◌==◌, Option, some, Bytes,
  codes, text_eq_refl, Result, ok, ◌>>=◌,
}
use digital_garden_visitor_c.Decimal.{to_string}
use digital_garden_visitor_c.Store.Visitor.{StoredVisitor}
use digital_garden_visitor_c.Store.Entry.{
  Cbor, CountEntry, stored_count_entry_from, count_entry_from,
}
use digital_garden_visitor_c.Store.Entry.RoundTrip.{CborLaws}
use digital_garden_visitor_c.Store.Dynamo.{
  GetItemOutput, Proc, done, get, put_item, s, n, b, conditional_check_failed,
}
use digital_garden_visitor_c.Store.Dynamo
use digital_garden_visitor_c.Store.Recent.{update_entry}
use digital_garden_visitor_c.Store.Client.{
  get_count_entry, get_response, put_result, put_input, try_put_count_entry,
}
use digital_garden_visitor_c.Store.Client.RoundTrip.{decode-put_input}
use digital_garden_visitor_c.Store.Increment.{maybe_increment_visitors, attempts, attempt}
use digital_garden_visitor_c.Store.Serial.{Visit}
use digital_garden_visitor_c.Store.Serial.Serve.{after_put, round_of}
use digital_garden_visitor_c.Store.Fake.{DynamoClient, run}
use digital_garden_visitor_c.SourceTests.Asserts.{
  stored_visitors_eq, assert_put, assert_count, fake_dynamo,
}
use digital_garden_visitor_c.SourceTests.StoreTests.{
  Answer, succeed, fail_first, found, expect_put, call,
}

stored_visitors_eq_refl : (vs : List StoredVisitor) → stored_visitors_eq vs vs ≡ true
stored_visitors_eq_refl [] = refl
stored_visitors_eq_refl (v ∷ vs) = ground (arith, stored_visitors_eq_refl vs)

-- `.await?`
abbrev bind : {A B : Type 0} → Proc A → (A → Proc B) → Proc B
bind p f = Dynamo.◌>>=◌ p f

module _ (cbor : Cbor) (laws : CborLaws cbor) where
  assert_put-put_input :
      (initial count : ℕ) (expected : List StoredVisitor) (bytes : Bytes)
      → cbor.from_cbor bytes ≡ ok (record { recent_visitors = expected })
      → assert_put cbor
          (put_input (codes "test") (codes "default") initial count bytes)
          (codes "default")
          initial
          count
          expected
        ≡ some tt
  unfolding assert_put put_input get
  assert_put-put_input initial count expected bytes decoded =
      rw
        (
          text_eq_refl (to_string initial),
          text_eq_refl (to_string count),
          decoded,
          stored_visitors_eq_refl expected,
        )
        refl

  module _ (initial : ℕ) (stored : List StoredVisitor) (v : Visit) (updated : CountEntry)
      (expected : List StoredVisitor) (word : initial < 2 ^ 64)
      (updates : update_entry v.visitor v.now
          (record (count_entry_from (record { recent_visitors = stored })) { count = initial })
        ≡ some updated)
      (stores : stored_count_entry_from updated
        ≡ some (record { recent_visitors = expected })) where
    abbrev client : (ℕ → Answer) → DynamoClient ℕ
    client respond =
        (fake_dynamo (found cbor initial stored)
          (expect_put cbor initial updated.count expected respond)).client

    abbrev loop : ℕ → Proc ℕ
    loop left = attempts cbor (codes "test") v.visitor (codes "default") v.now left

    sends :
        (again : Proc ℕ) (blob : Bytes)
        → cbor.to_cbor (record { recent_visitors = stored }) ≡ ok blob
        → (bytes : Bytes) × (cbor.from_cbor bytes ≡ ok (record { recent_visitors = expected }))
          × (round_of cbor
                (codes "test")
                (codes "default")
                v
                (some (put_input (codes "test") (codes "default") initial initial blob).item)
                again
              ≡ put_item
                  (put_input (codes "test") (codes "default") initial updated.count bytes)
                  (after_put updated.count again))
    unfolding get_response attempt try_put_count_entry
    sends again blob kept =
        let (bytes, written) = laws.encodes (record { recent_visitors = expected }) in
        let decoded =
          decode-put_input cbor laws (codes "test") (codes "default") initial initial
            (record { recent_visitors = stored }) blob word kept in
        (
          bytes,
          laws.decodes (record { recent_visitors = expected }) written,
          rw (decoded, updates, stores, written) refl,
        )

    -- A put is checked, and then answered.
    put-run :
        (respond : ℕ → Answer) (again : Proc ℕ) (bytes : Bytes) (tries : ℕ)
        → cbor.from_cbor bytes ≡ ok (record { recent_visitors = expected })
        → run
            (client respond)
            (put_item
              (put_input (codes "test") (codes "default") initial updated.count bytes)
              (after_put updated.count again))
            tries
          ≡ run (client respond) (after_put updated.count again (respond tries).0) (respond tries).1
    unfolding run expect_put
    put-run respond again bytes tries decoded =
        rw (assert_put-put_input initial updated.count expected bytes decoded) refl

    -- A get is checked, and then answered with the item.
    found-item :
        (blob : Bytes)
        → cbor.to_cbor (record { recent_visitors = stored }) ≡ ok blob
        → found cbor initial stored
            (record { table_name = codes "test"; key = (codes "key", s (codes "default")) ∷ [] })
          ≡ some (
              ok (record {
                item = some (put_input (codes "test") (codes "default") initial initial blob).item;
              }))
    unfolding found get put_input
    found-item blob kept = rw kept refl

    -- What is left of a round from the answer to the get on.
    abbrev from_get : (ℕ → Answer) → ℕ → ℕ → Option (Result GetItemOutput ℕ) → Option (Proc ℕ)
    from_get respond left tries answer =
        let got : Option (Result GetItemOutput ℕ × ℕ) = answer >>= λ a. some (a, tries) in
        got >>= λ g.
        run (client respond)
          (bind (get_response cbor g.0)
            (attempt cbor (codes "test") v.visitor (codes "default") v.now (loop left)))
          g.1

    -- A round of the loop.
    round-run :
        (respond : ℕ → Answer) (left tries : ℕ)
        → run (client respond) (loop (suc left)) tries
          ≡ run
              (client respond)
              (after_put updated.count (loop left) (respond tries).0)
              (respond tries).1
    unfolding run attempts get_count_entry
    round-run respond left tries =
        let (blob, kept) = laws.encodes (record { recent_visitors = stored }) in
        let (bytes, decoded, round) = sends (loop left) blob kept in
        ap (from_get respond left tries) (found-item blob kept)
        ∙ ap (λ p. run (client respond) p tries) round
        ∙ put-run respond (loop left) bytes tries decoded

    -- Let a counter be stored with a count that is a `u64` and some visitors, let `update_entry` make
    -- of it what `stored_count_entry_from` stores as the expected visitors. Then the test with that
    -- counter and those expectations passes, also when the first put fails its condition.
    pub maybe_increment_visitors-call :
        (call cbor
            (fake_dynamo
              (found cbor initial stored)
              (expect_put cbor initial updated.count expected succeed))
            v.visitor
            v.now
            updated.count
          ≡ some tt)
        × (call cbor
              (fake_dynamo
                (found cbor initial stored)
                (expect_put cbor initial updated.count expected fail_first))
              v.visitor
              v.now
              updated.count
            ≡ some tt)
    unfolding call maybe_increment_visitors run put_result
    maybe_increment_visitors-call =
        let same : (updated.count == updated.count) ≡ true = ground arith in
        (
          ap (assert_count updated.count) (round-run succeed 4 0) ∙ rw same refl,
          ap (assert_count updated.count) (round-run fail_first 4 0)
              ∙ ap (assert_count updated.count) (round-run fail_first 3 1)
              ∙ rw same refl,
        )
