-- ===== src/Store/Increment/Patient.antt =====
-- `maybe_increment_visitors` of src/store.rs returns only after a put that succeeded.
use digital_garden_visitor_c.Common.{
  ℕ, zero, suc, Option, none, some, inl, inr, Text, Result, ok, err, if◌then◌else◌, Option-cases,
}
use digital_garden_visitor_c.Store.Time.{SystemTime}
use digital_garden_visitor_c.Store.Visitor.{Visitor}
use digital_garden_visitor_c.Store.Entry.{CountEntry, Cbor, max_attempts_for_optimistic_locking}
use digital_garden_visitor_c.Store.Dynamo.{
  GetItemOutput, PutItemError, conditional_check_failed, unhandled, Proc, done, fail, panic,
  get_item, put_item, ◌>>=◌,
}
use digital_garden_visitor_c.Store.Recent.{update_entry}
use digital_garden_visitor_c.Store.Client.{get_response, get_count_entry, put_result}
use digital_garden_visitor_c.Store.Client.Shapes.{
  decode_item-cases, try_put_new_count_entry-cases, try_put_count_entry-cases,
}
use digital_garden_visitor_c.Store.Increment.{attempt, attempts, maybe_increment_visitors}

-- The function has not returned, and returns only after a put that succeeded.
abbrev pub Patient : Proc ℕ → Type 0
Patient (done count) = ⊥
Patient (fail e) = Unit
Patient panic = Unit
Patient (get_item i k) = (r : Result GetItemOutput ℕ) → Patient (k r)
Patient (put_item i k) = (e : PutItemError) → Patient (k (err e))

module _ (cbor : Cbor) (table_name : Text) (visitor : Visitor) (name : Text)
    (now : SystemTime) where
  response-Patient :
      (again : Proc ℕ) (count : ℕ) (e : PutItemError)
      → Patient again
      → Patient (put_result (err e) >>= λ written. if written then done count else again)
  unfolding put_result
  response-Patient again count conditional_check_failed h = h
  response-Patient again count (unhandled e) h = tt

  attempt-Patient :
      (again : Proc ℕ) (entry : Option CountEntry)
      → Patient again
      → Patient (attempt cbor table_name visitor name now again entry)
  unfolding attempt
  attempt-Patient again none h = elim (try_put_new_count_entry-cases cbor table_name name visitor) [
    | inl e ↦ rw e tt
    | inr (inl (_, e)) ↦ rw e tt
    | inr (inr (_, _, _, e)) ↦ rw e (λ r. response-Patient again 1 r h)
  ]
  attempt-Patient again (some entry) h = elim (Option-cases (update_entry visitor now entry)) [
    | inl e ↦ rw e tt
    | inr (updated, run) ↦
        elim (try_put_count_entry-cases cbor table_name name entry.count updated) [
          | inl e ↦ rw (run, e) tt
          | inr (inl (_, e)) ↦ rw (run, e) tt
          | inr (inr (_, _, _, _, e)) ↦ rw (run, e) (λ r. response-Patient again updated.count r h)
        ]
  ]

  read-Patient :
      (again : Proc ℕ) (r : Result GetItemOutput ℕ)
      → Patient again
      → Patient (get_response cbor r >>= attempt cbor table_name visitor name now again)
  unfolding get_response
  read-Patient again (err e) h = tt
  read-Patient again (ok output) h = elim (Option-cases output.item) [
    | inl e ↦ rw e (attempt-Patient again none h)
    | inr (item, e) ↦ elim (decode_item-cases cbor item) [
      | inl (_, p) ↦ rw (e, p) tt
      | inr (entry, p, _) ↦ rw (e, p) (attempt-Patient again (some entry) h)
    ]
  ]

  attempts-Patient : (left : ℕ) → Patient (attempts cbor table_name visitor name now left)
  unfolding attempts get_count_entry
  attempts-Patient zero = tt
  attempts-Patient (suc left) = λ r. read-Patient _ r (attempts-Patient left)

  pub maybe_increment_visitors-Patient :
      Patient (maybe_increment_visitors cbor table_name visitor name now)
  unfolding maybe_increment_visitors
  maybe_increment_visitors-Patient = attempts-Patient max_attempts_for_optimistic_locking
