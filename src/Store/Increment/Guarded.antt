-- ===== src/Store/Increment/Guarded.antt =====
-- The puts of `maybe_increment_visitors`, src/store.rs, and the responses that they follow from.
use digital_garden_visitor_c.Common.{
  ℕ, zero, suc, ◌≡◌, refl, [], ◌∷◌, none, some, Option, Bytes, Text, Result, ok, err, if◌then◌else◌,
  Option-cases, Result-cases, inl, inr,
}
use digital_garden_visitor_c.Store.Time.{SystemTime}
use digital_garden_visitor_c.Store.Visitor.{StoredVisitor, Visitor, stored_visitor_from}
use digital_garden_visitor_c.Store.Entry.{
  CountEntry, StoredCountEntry, Cbor, stored_count_entry_from, max_attempts_for_optimistic_locking,
}
use digital_garden_visitor_c.Store.Dynamo.{
  Item, GetItemOutput, PutItemInput, conditional_check_failed, unhandled, put_item_error, Proc,
  done, fail, panic, get_item, put_item, ◌>>=◌,
}
use digital_garden_visitor_c.Store.Dynamo.Requests.{AfterPut}
use digital_garden_visitor_c.Store.Recent.{update_entry}
use digital_garden_visitor_c.Store.Client.{
  decode_item, get_response, get_count_entry, put_result, put_new_input, put_input,
  try_put_new_count_entry, try_put_count_entry,
}
use digital_garden_visitor_c.Store.Client.Shapes.{decode_item-cases}
use digital_garden_visitor_c.Store.Increment.Answered.{exceeded, Ready, creates, updates}
use digital_garden_visitor_c.Store.Increment.Puts.{IsRead}
use digital_garden_visitor_c.Store.Increment.{attempt, attempts, maybe_increment_visitors}

module _ (cbor : Cbor) (table_name : Text) (visitor : Visitor) (name : Text)
    (now : SystemTime) where
  -- What follows on the put of a count: it is returned once the put succeeds, and an error of the
  -- put other than a failed condition is the error of the function.
  pub record Writes (count : ℕ) (k : AfterPut ℕ) : Type 0 where
    pub written : k (ok tt) ≡ done count
    pub unknown : (e : ℕ) → k (err (unhandled e)) ≡ fail (put_item_error e)

  -- The put that follows on the stored item: of the visitor alone if there is none, else of the
  -- updated entry, on the condition that the stored count is that of the entry before the update.
  pub data Follows : Option Item → PutItemInput → AfterPut ℕ → Type 0 where
    creation :
        (stored : StoredVisitor) (value : Bytes) (k : AfterPut ℕ)
        → stored_visitor_from visitor ≡ some stored
        → cbor.to_cbor (record { recent_visitors = stored ∷ [] }) ≡ ok value
        → Writes 1 k
        → Follows none (put_new_input table_name name value) k
    update :
        (item : Item) (entry updated : CountEntry) (stored : StoredCountEntry) (value : Bytes)
        (k : AfterPut ℕ)
        → decode_item cbor item ≡ done entry
        → update_entry visitor now entry ≡ some updated
        → stored_count_entry_from updated ≡ some stored
        → cbor.to_cbor stored ≡ ok value
        → Writes updated.count k
        → Follows (some item) (put_input table_name name entry.count updated.count value) k

  -- After the response there is nothing that can be put.
  abbrev pub IsStuck : Result GetItemOutput ℕ → Type 0
  IsStuck r = (count : ℕ) → ¬ Ready cbor table_name visitor name now r count

  err-IsStuck : (e : ℕ) → IsStuck (err e)
  err-IsStuck e count (creates stored value gets _ _ _) = cc
  err-IsStuck e count (updates item entry updated stored value gets _ _ _ _ _) = cc

  none-IsStuck :
      ((stored : StoredVisitor) (value : Bytes)
        → stored_visitor_from visitor ≡ some stored
        → cbor.to_cbor (record { recent_visitors = stored ∷ [] }) ≡ ok value
        → ⊥)
      → IsStuck (ok (record { item = none }))
  none-IsStuck h count (creates stored value _ p q _) = h stored value p q
  none-IsStuck h count (updates item entry updated stored value gets _ _ _ _ _) = cc

  some-IsStuck :
      (item : Item)
      → ((entry updated : CountEntry) (stored : StoredCountEntry) (value : Bytes)
          → decode_item cbor item ≡ done entry
          → update_entry visitor now entry ≡ some updated
          → stored_count_entry_from updated ≡ some stored
          → cbor.to_cbor stored ≡ ok value
          → ⊥)
      → IsStuck (ok (record { item = some item }))
  some-IsStuck item h count (creates stored value gets _ _ _) = cc
  some-IsStuck item h count (updates other entry updated stored value gets d u p q _) =
      let same : item ≡ other = cc in h entry updated stored value (rw same d) u p q

  mutual
    -- From the start of a round on: what is left sends the get of the counter next, or gives up.
    pub IsLoop : Proc ℕ → Type 0
    IsLoop (done count) = ⊥
    IsLoop (fail e) = fail e ≡ exceeded
    IsLoop panic = ⊥
    IsLoop (get_item i k) =
        IsRead table_name name i × ((r : Result GetItemOutput ℕ) → IsRound r (k r))
    IsLoop (put_item i k) = ⊥

    -- From a response to the get on: the next request is the put that follows on the item of the
    -- response, and a new round begins if its condition fails; or it ends in an error or a panic,
    -- and then there was nothing that can be put.
    pub IsRound : Result GetItemOutput ℕ → Proc ℕ → Type 0
    IsRound r (done count) = ⊥
    IsRound r (fail e) = IsStuck r
    IsRound r panic = IsStuck r
    IsRound r (get_item i k) = ⊥
    IsRound r (put_item i k) =
        (output : GetItemOutput) × (r ≡ ok output)
        × Follows output.item i k
        × IsLoop (k (err conditional_check_failed))

  put_end-Writes :
      (again : Proc ℕ) (count : ℕ)
      → Writes count (λ r. put_result r >>= λ written. if written then done count else again)
  unfolding put_result
  put_end-Writes again count = record { written = refl; unknown = λ e. refl }

  attempt-none-IsRound :
      (again : Proc ℕ)
      → IsLoop again
      → IsRound (ok (record { item = none })) (attempt cbor table_name visitor name now again none)
  unfolding attempt try_put_new_count_entry IsRound
  attempt-none-IsRound again h = elim (Option-cases (stored_visitor_from visitor)) [
    | inl p ↦ rw p (none-IsStuck (λ stored value a c. cc))
    | inr (stored, p) ↦
        elim (Result-cases (cbor.to_cbor (record { recent_visitors = stored ∷ [] }))) [
          | inr (e, q) ↦
              rw (p, q)
                (none-IsStuck
                  (λ other value a c. let same : stored ≡ other = cc in cc (rw (← same) at c)))
          | inl (value, q) ↦
              rw (p, q)
                (
                  record { item = none },
                  refl,
                  creation stored value _ p q (put_end-Writes again 1),
                  unfold put_result in h,
                )
        ]
  ]

  attempt-some-IsRound :
      (again : Proc ℕ) (item : Item) (entry : CountEntry)
      → decode_item cbor item ≡ done entry
      → IsLoop again
      → IsRound
          (ok (record { item = some item }))
          (attempt cbor table_name visitor name now again (some entry))
  unfolding attempt try_put_count_entry IsRound
  attempt-some-IsRound again item entry d h = elim (Option-cases (update_entry visitor now entry)) [
    | inl e ↦ rw e (some-IsStuck item (λ other updated stored value a c p q. cc))
    | inr (updated, ran) ↦ elim (Option-cases (stored_count_entry_from updated)) [
      | inl e ↦ rw (ran, e) (some-IsStuck item (λ other next stored value a c p q. cc))
      | inr (stored, p) ↦ elim (Result-cases (cbor.to_cbor stored)) [
        | inr (e, q) ↦ rw (ran, p, q) (some-IsStuck item (λ other next kept value a c f g. cc))
        | inl (value, q) ↦
            rw (ran, p, q)
              (
                record { item = some item },
                refl,
                update item entry updated stored value _ d ran p q
                    (put_end-Writes again updated.count),
                unfold put_result in h,
              )
      ]
    ]
  ]

  item-IsRound :
      (again : Proc ℕ) (o : Option Item)
      → IsLoop again
      → IsRound (ok (record { item = o })) (
          get_response cbor (ok (record { item = o }))
          >>= attempt cbor table_name visitor name now again)
  unfolding get_response IsRound
  item-IsRound again none h = attempt-none-IsRound again h
  item-IsRound again (some item) h = elim (decode_item-cases cbor item) [
    | inl (_, p) ↦ rw p (some-IsStuck item (λ entry updated stored value a c f g. cc))
    | inr (entry, p, _) ↦ rw p (attempt-some-IsRound again item entry p h)
  ]

  response-IsRound :
      (again : Proc ℕ) (r : Result GetItemOutput ℕ)
      → IsLoop again
      → IsRound r (get_response cbor r >>= attempt cbor table_name visitor name now again)
  unfolding get_response IsRound
  response-IsRound again (err e) h = err-IsStuck e
  response-IsRound again (ok output) h = item-IsRound again output.item h

  attempts-IsLoop : (left : ℕ) → IsLoop (attempts cbor table_name visitor name now left)
  unfolding attempts get_count_entry IsRound
  attempts-IsLoop zero = refl
  attempts-IsLoop (suc left) = (refl, λ r. response-IsRound _ r (attempts-IsLoop left))

  -- Whatever the responses, `maybe_increment_visitors` goes round a loop: it sends the get of the
  -- counter, and on its response it sends a put; only if nothing can be put (the response is an
  -- error, the item does not decode, the update panics, or what is to be put cannot be stored or
  -- encoded), it ends in an error or a panic. The put follows from that response. If there was no
  -- item, it creates the counter with the visitor and the count 1, on the condition that it does not
  -- exist. Else it writes what the update makes of the decoded entry, on the condition that the
  -- stored count is still that of the entry as it was decoded. Once the put succeeds, the function
  -- returns the count that it wrote; if its condition fails, the loop starts again or gives up; and
  -- on another failure the function fails with that error.
  pub maybe_increment_visitors-IsLoop :
      IsLoop (maybe_increment_visitors cbor table_name visitor name now)
  unfolding maybe_increment_visitors IsRound
  maybe_increment_visitors-IsLoop = attempts-IsLoop max_attempts_for_optimistic_locking
