-- ===== src/Store/Increment/Bounds.antt =====
-- How often `maybe_increment_visitors` of src/store.rs tries, and how it gives up.
use digital_garden_visitor_c.Common.{
  ℕ, zero, suc, refl, Option, none, some, inl, inr, Text, Result, ok, err, if◌then◌else◌,
  Option-cases,
}
use digital_garden_visitor_c.Store.Time.{SystemTime}
use digital_garden_visitor_c.Store.Visitor.{Visitor}
use digital_garden_visitor_c.Store.Entry.{CountEntry, Cbor, max_attempts_for_optimistic_locking}
use digital_garden_visitor_c.Store.Dynamo.{
  GetItemOutput, PutItemError, conditional_check_failed, unhandled, Proc, done, ◌>>=◌,
}
use digital_garden_visitor_c.Store.Dynamo.Requests.{Within}
use digital_garden_visitor_c.Store.Recent.{update_entry}
use digital_garden_visitor_c.Store.Client.{get_response, get_count_entry, put_result}
use digital_garden_visitor_c.Store.Client.Shapes.{
  decode_item-cases, try_put_new_count_entry-cases, try_put_count_entry-cases,
}
use digital_garden_visitor_c.Store.Increment.{attempt, attempts, maybe_increment_visitors}

module _ (cbor : Cbor) (table_name : Text) (visitor : Visitor) (name : Text)
    (now : SystemTime) where
  response-Within :
      (again : Proc ℕ) (left count : ℕ) (r : Result (Unit {0}) PutItemError)
      → Within again left left
      → Within (put_result r >>= λ written. if written then done count else again) left left
  unfolding put_result
  response-Within again left count (ok _) h = tt
  response-Within again left count (err conditional_check_failed) h = h
  response-Within again left count (err (unhandled e)) h = tt

  attempt-Within :
      (again : Proc ℕ) (left : ℕ) (entry : Option CountEntry)
      → Within again left left
      → Within (attempt cbor table_name visitor name now again entry) left (suc left)
  unfolding attempt
  attempt-Within again left none h =
      elim (try_put_new_count_entry-cases cbor table_name name visitor) [
        | inl e ↦ rw e tt
        | inr (inl (_, e)) ↦ rw e tt
        | inr (inr (_, _, _, e)) ↦ rw e (left, refl, λ r. response-Within again left 1 r h)
      ]
  attempt-Within again left (some entry) h = elim (Option-cases (update_entry visitor now entry)) [
    | inl e ↦ rw e tt
    | inr (updated, run) ↦
        elim (try_put_count_entry-cases cbor table_name name entry.count updated) [
          | inl e ↦ rw (run, e) tt
          | inr (inl (_, e)) ↦ rw (run, e) tt
          | inr (inr (_, _, _, _, e)) ↦
              rw (run, e) (left, refl, λ r. response-Within again left updated.count r h)
        ]
  ]

  read-Within :
      (again : Proc ℕ) (left : ℕ) (r : Result GetItemOutput ℕ)
      → Within again left left
      → Within
          (get_response cbor r >>= attempt cbor table_name visitor name now again)
          left
          (suc left)
  unfolding get_response
  read-Within again left (err e) h = tt
  read-Within again left (ok output) h = elim (Option-cases output.item) [
    | inl e ↦ rw e (attempt-Within again left none h)
    | inr (item, e) ↦ elim (decode_item-cases cbor item) [
      | inl (_, p) ↦ rw (e, p) tt
      | inr (entry, p, _) ↦ rw (e, p) (attempt-Within again left (some entry) h)
    ]
  ]

  attempts-Within : (left : ℕ) → Within (attempts cbor table_name visitor name now left) left left
  unfolding attempts get_count_entry
  attempts-Within zero = tt
  attempts-Within (suc left) = (left, refl, λ r. read-Within _ left r (attempts-Within left))

  -- Whatever the responses, `maybe_increment_visitors` ends after at most five gets and five puts.
  pub maybe_increment_visitors-Within :
      Within (maybe_increment_visitors cbor table_name visitor name now) 5 5
  unfolding maybe_increment_visitors
  maybe_increment_visitors-Within = attempts-Within max_attempts_for_optimistic_locking
