-- ===== src/SourceTests/StoreTests.antt =====
-- The asynchronous tests of the module `store_tests` of src/store.rs.
use digital_garden_visitor_c.Common.{
  ℕ, List, [], ◌∷◌, ◌==◌, Option, none, some, codes, Result, ok, err, if◌then◌else◌, ◌+◌, ◌>>=◌,
}
use digital_garden_visitor_c.Store.Time.{SystemTime, as_secs, recent_cutoff}
use digital_garden_visitor_c.Store.Visitor.{StoredVisitor, Visitor}
use digital_garden_visitor_c.Store.Entry.{Cbor}
use digital_garden_visitor_c.Store.Dynamo.{
  GetItemInput, GetItemOutput, PutItemInput, PutItemError, conditional_check_failed,
}
use digital_garden_visitor_c.Store.Increment.{maybe_increment_visitors}
use digital_garden_visitor_c.Store.Fake.{Store, run}
use digital_garden_visitor_c.SourceTests.Asserts.{
  assert_get, assert_condition, assert_item, assert_put, output, fake_dynamo, assert_count,
  stored_visitor_new, visitor_new, system_time,
}

-- What a handler of `put_item` returns: the response, and the attempts that it stores.
abbrev pub Answer : Type 0
Answer = Result (Unit {0}) PutItemError × ℕ

-- An empty successful response.
abbrev pub succeed : ℕ → Answer
succeed attempt = (ok tt, attempt)

-- On the first attempt, the condition fails; on the second, the put succeeds.
abbrev pub fail_first : ℕ → Answer
fail_first attempt = if attempt == 0 then (err conditional_check_failed, 1) else (ok tt, attempt)

-- The handler of `get_item` that finds no item.
unfoldable pub no_item : GetItemInput → Option (Result GetItemOutput ℕ)
unfolding assert_get
no_item input = assert_get input (codes "default") >>= λ checked. some (ok (record { item = none }))

module _ (cbor : Cbor) where
  -- The handler of `get_item` that finds an item.
  unfoldable pub found : ℕ → List StoredVisitor → GetItemInput → Option (Result GetItemOutput ℕ)
  unfolding assert_get output
  found count recent_visitors input = do
    checked ← assert_get input (codes "default")
    item ← output cbor count recent_visitors
    some (ok item)

  -- The handler of `put_item` that checks the put of a new counter.
  unfoldable pub expect_new : PutItemInput → ℕ → Option Answer
  unfolding assert_item
  expect_new input attempt = do
    condition_is ←
        assert_condition input (codes "attribute_not_exists(#k)") (codes "#k") (codes "key")
    no_values ← elim input.expression_attribute_values [ [] ↦ some (tt {0}) | _ ∷ _ ↦ none ]
    item_is ← assert_item cbor input.item (codes "default") 1 (stored_visitor_new 1 1000 ∷ [])
    some (succeed attempt)

  -- The handler of `put_item` that checks an update.
  unfoldable pub expect_put :
      ℕ → ℕ → List StoredVisitor → (ℕ → Answer) → PutItemInput → ℕ → Option Answer
  unfolding assert_put
  expect_put initial_count new_count recent_visitors respond input attempt = do
    checked ← assert_put cbor input (codes "default") initial_count new_count recent_visitors
    some (respond attempt)

  -- The call of a test, from no attempts, with the count that it asserts.
  unfoldable pub call : Store ℕ → Visitor → SystemTime → ℕ → Option (Unit {0})
  unfolding run maybe_increment_visitors
  call store visitor now expected = assert_count expected (
      run store.client
        (maybe_increment_visitors cbor store.table_name visitor (codes "default") now) 0)

  unfoldable pub create_item_when_not_existing : Option (Unit {0})
  unfolding call no_item expect_new
  create_item_when_not_existing =
      let now = system_time 1000 in call (fake_dynamo no_item expect_new) (visitor_new 1 now) now 1

  unfoldable pub increment_count_when_visitor_not_recent : Option (Unit {0})
  unfolding call found expect_put
  increment_count_when_visitor_not_recent =
      let now = system_time 1000 in
      call
        (fake_dynamo (found 1234 [])
          (expect_put 1234 1235 (stored_visitor_new 1234 1000 ∷ []) succeed))
        (visitor_new 1234 now) now 1235

  unfoldable pub return_existing_count_when_visitor_recent : Option (Unit {0})
  unfolding call found expect_put
  return_existing_count_when_visitor_recent =
      call
        (fake_dynamo (found 1234 (stored_visitor_new 1 1000 ∷ []))
          (expect_put 1234 1234 (stored_visitor_new 1 2000 ∷ []) succeed))
        (visitor_new 1 (system_time 2000)) (system_time 2000) 1234

  unfoldable pub retry_when_optimistic_lock_fails : Option (Unit {0})
  unfolding call found expect_put
  retry_when_optimistic_lock_fails =
      let time = system_time (as_secs recent_cutoff + 1) in
      call
        (fake_dynamo (found 1234 (stored_visitor_new 1 0 ∷ []))
          (expect_put 1234 1235 (stored_visitor_new 1 7201 ∷ []) fail_first))
        (visitor_new 1 time) time 1235

  unfoldable pub prune_old_visitors : Option (Unit {0})
  unfolding call found expect_put
  prune_old_visitors =
      call
        (fake_dynamo
          (found 1234 (
            stored_visitor_new 1 0
            ∷ stored_visitor_new 2 0
            ∷ stored_visitor_new 3 0
            ∷ stored_visitor_new 4 10_000
            ∷ []))
          (expect_put 1234 1235 (stored_visitor_new 4 10_000 ∷ stored_visitor_new 1 12_000 ∷ [])
            succeed))
        (visitor_new 1 (system_time 12_000)) (system_time 12_000) 1235
