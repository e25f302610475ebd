-- ===== src/Store/Fake/Retries.antt =====
-- How often `maybe_increment_visitors` of src/store.rs tries before it succeeds or gives up.
use digital_garden_visitor_c.Common.{
  ℕ, zero, suc, ◌+◌, ◌≤◌, ◌≡◌, refl, ap, ◌∙◌, arith, true, false, Option, none, some, Text, ok, err,
  if◌then◌else◌, ltb, Bool-cases, inl, inr,
}
use digital_garden_visitor_c.Store.Entry.{Cbor}
use digital_garden_visitor_c.Store.Dynamo.{Item, conditional_check_failed, Proc, done, put_item}
use digital_garden_visitor_c.Store.Client.{
  put_result, get_count_entry, try_put_new_count_entry, try_put_count_entry,
}
use digital_garden_visitor_c.Store.Increment.{attempts, maybe_increment_visitors}
use digital_garden_visitor_c.Store.Increment.Answered.{exceeded, Ready, creates, updates}
use digital_garden_visitor_c.Store.Serial.{Visit}
use digital_garden_visitor_c.Store.Serial.Serve.{Round, after_put, none-Round, some-Round}
use digital_garden_visitor_c.Store.Fake.{DynamoClient, fake, run}

-- A client with one stored item whose puts fail their condition so many times, and then succeed.
-- Its state is how many puts have failed.
abbrev pub contended : Option Item → ℕ → DynamoClient ℕ
contended stored failures = fake (record {
  get = λ failed i. some (ok (record { item = stored }), failed);
  put = λ failed i.
      some (
        if ltb failed failures
        then (err conditional_check_failed, failed + 1)
        else (ok tt, failed));
})

module _ (cbor : Cbor) (table_name name : Text) (v : Visit) (stored : Option Item) (count : ℕ)
    (next : Item) (round : Round cbor table_name name v stored count next) (failures : ℕ) where
  -- A put, from which the loop ends or goes on.
  put_end :
      (again : Proc ℕ) (failed : ℕ)
      → run (contended stored failures) (put_item round.input (after_put count again)) failed ≡ (
          if ltb failed failures
          then run (contended stored failures) again (failed + 1)
          else some (done count))
  unfolding run put_result
  put_end again failed = elim (Bool-cases (ltb failed failures)) [
    | inl e ↦ rw e refl
    | inr e ↦ rw e refl
  ]

  -- The end of the loop with so many attempts left, after so many puts that failed.
  loop_end :
      (left failed : ℕ)
      → failed ≤ failures
      → run (contended stored failures) (attempts cbor table_name v.visitor name v.now left) failed
        ≡ some (if ltb failures (failed + left) then done count else exceeded)
  unfolding run attempts get_count_entry
  loop_end zero failed h =
      let over : ltb failures (failed + 0) ≡ false = ground arith in rw over refl
  loop_end (suc left) failed h =
      let again = attempts cbor table_name v.visitor name v.now left in
      ap (λ p. run (contended stored failures) p failed) (round.sends again)
      ∙ put_end again failed
      ∙ elim (Bool-cases (ltb failed failures)) [
        | inl e ↦
            let sum : failed + 1 + left ≡ failed + suc left = omega arith in
            rw (e, ← sum) (loop_end left (failed + 1) (ground arith))
        | inr e ↦
            let inside : ltb failures (failed + suc left) ≡ true = ground arith in
            rw (e, inside) refl
      ]

module _ (cbor : Cbor) (table_name name : Text) (v : Visit) (stored : Option Item) (count : ℕ) where
  -- A stored item that can be counted from leads to a round that comes to its put.
  Ready-Round :
      Ready cbor table_name v.visitor name v.now (ok (record { item = stored })) count
      → (next : Item) × Round cbor table_name name v stored count next
  unfolding try_put_new_count_entry try_put_count_entry
  Ready-Round (creates visitor value got stores encoded one) =
      let absent : stored ≡ none = cc in
      rw (absent, one) (_, none-Round cbor table_name name v value (rw (stores, encoded) refl))
  Ready-Round (updates item entry updated entries value got decoded ran stores encoded same) =
      let present : stored ≡ some item = cc in
      rw (present, same)
        (
          _,
          some-Round cbor table_name name v item entry updated value decoded ran
              (rw (stores, encoded) refl),
        )

  -- Let the item be missing, or decode to an entry whose update does not panic, and let what is to
  -- be put be storable. If then every get finds the item, and so many puts fail their condition
  -- before one succeeds, then `maybe_increment_visitors` returns 1 for a missing item and else the
  -- count of the updated entry, for up to four such puts; for five or more it fails with the error
  -- of giving up.
  pub maybe_increment_visitors-contended :
      (failures : ℕ)
      → Ready cbor table_name v.visitor name v.now (ok (record { item = stored })) count
      → run
          (contended stored failures)
          (maybe_increment_visitors cbor table_name v.visitor name v.now)
          0
        ≡ some (if ltb failures 5 then done count else exceeded)
  unfolding maybe_increment_visitors
  maybe_increment_visitors-contended failures ready =
      let (next, round) = Ready-Round ready in
      loop_end cbor table_name name v stored count next round failures 5 0 (omega arith)
