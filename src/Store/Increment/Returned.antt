-- ===== src/Store/Increment/Returned.antt =====
-- The counts that `maybe_increment_visitors` of src/store.rs returns.
use digital_garden_visitor_c.Common.{
  ℕ, zero, suc, ◌^◌, ◌<◌, arith, none, some, inl, inr, Text, Result, ok, err, if◌then◌else◌,
  Option-cases,
}
use digital_garden_visitor_c.Store.Time.{SystemTime}
use digital_garden_visitor_c.Store.Visitor.{Visitor}
use digital_garden_visitor_c.Store.Entry.{CountEntry, Cbor, max_attempts_for_optimistic_locking}
use digital_garden_visitor_c.Store.Dynamo.{
  GetItemOutput, PutItemError, conditional_check_failed, unhandled, Proc, done, ◌>>=◌,
}
use digital_garden_visitor_c.Store.Dynamo.Requests.{Returns}
use digital_garden_visitor_c.Store.Recent.{update_entry}
use digital_garden_visitor_c.Store.Client.{get_response, get_count_entry, put_result}
use digital_garden_visitor_c.Store.Client.Shapes.{
  count_of-lt, decode_item-cases, try_put_new_count_entry-cases, try_put_count_entry-cases,
}
use digital_garden_visitor_c.Store.Increment.{attempt, attempts, maybe_increment_visitors}
use digital_garden_visitor_c.Store.Increment.Puts.{update_entry-Follows}

-- A count that is a `u64`.
abbrev pub IsWord : ℕ → Type 0
IsWord count = count < 2 ^ 64

module _ (cbor : Cbor) (table_name : Text) (visitor : Visitor) (name : Text)
    (now : SystemTime) where
  response-Returns :
      (again : Proc ℕ) (count : ℕ) (r : Result (Unit {0}) PutItemError)
      → IsWord count
      → Returns IsWord again
      → Returns IsWord (put_result r >>= λ written. if written then done count else again)
  unfolding put_result
  response-Returns again count (ok _) word h = word
  response-Returns again count (err conditional_check_failed) word h = h
  response-Returns again count (err (unhandled e)) word h = tt

  attempt-Returns-none :
      (again : Proc ℕ)
      → Returns IsWord again
      → Returns IsWord (attempt cbor table_name visitor name now again none)
  unfolding attempt
  attempt-Returns-none again h = elim (try_put_new_count_entry-cases cbor table_name name visitor) [
    | inl e ↦ rw e tt
    | inr (inl (_, e)) ↦ rw e tt
    | inr (inr (_, _, _, e)) ↦ rw e (λ r. response-Returns again 1 r (omega arith) h)
  ]

  attempt-Returns-some :
      (again : Proc ℕ) (entry : CountEntry)
      → IsWord entry.count
      → Returns IsWord again
      → Returns IsWord (attempt cbor table_name visitor name now again (some entry))
  unfolding attempt
  attempt-Returns-some again entry word h = elim (Option-cases (update_entry visitor now entry)) [
    | inl e ↦ rw e tt
    | inr (updated, run) ↦
        let follows = update_entry-Follows visitor now entry run in
        elim (try_put_count_entry-cases cbor table_name name entry.count updated) [
          | inl e ↦ rw (run, e) tt
          | inr (inl (_, e)) ↦ rw (run, e) tt
          | inr (inr (_, _, _, _, e)) ↦
              rw (run, e) (λ r. response-Returns again updated.count r (ground arith) h)
        ]
  ]

  read-Returns :
      (again : Proc ℕ) (r : Result GetItemOutput ℕ)
      → Returns IsWord again
      → Returns IsWord (get_response cbor r >>= attempt cbor table_name visitor name now again)
  unfolding get_response
  read-Returns again (err e) h = tt
  read-Returns again (ok output) h = elim (Option-cases output.item) [
    | inl e ↦ rw e (attempt-Returns-none again h)
    | inr (item, e) ↦ elim (decode_item-cases cbor item) [
      | inl (_, p) ↦ rw (e, p) tt
      | inr (entry, p, q) ↦ rw (e, p) (attempt-Returns-some again entry (count_of-lt item q) h)
    ]
  ]

  attempts-Returns : (left : ℕ) → Returns IsWord (attempts cbor table_name visitor name now left)
  unfolding attempts get_count_entry
  attempts-Returns zero = tt
  attempts-Returns (suc left) = λ r. read-Returns _ r (attempts-Returns left)

  -- What `maybe_increment_visitors` returns is a `u64`.
  pub maybe_increment_visitors-Returns :
      Returns IsWord (maybe_increment_visitors cbor table_name visitor name now)
  unfolding maybe_increment_visitors
  maybe_increment_visitors-Returns = attempts-Returns max_attempts_for_optimistic_locking
