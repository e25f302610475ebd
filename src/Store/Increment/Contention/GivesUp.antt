-- ===== src/Store/Increment/Contention/GivesUp.antt =====
-- `maybe_increment_visitors` of src/store.rs gives up only if others raise the counter five times.
use digital_garden_visitor_c.Common.{
  ℕ, ◌∷◌, Bytes, zero, suc, ◌-◌, ◌^◌, ◌≤◌, ◌<◌, ◌≡◌, ◌≢◌, refl, ap, arith, Option, none, some, ◌⊎◌,
  inl, inr, Text, codes, Result, ok, err, if◌then◌else◌, Option-cases, Result-cases, Bool-cases,
  ◌==◌,
}
use digital_garden_visitor_c.Decimal.{to_string}
use digital_garden_visitor_c.Store.Time.{SystemTime}
use digital_garden_visitor_c.Store.Visitor.{Visitor}
use digital_garden_visitor_c.Store.Entry.{
  CountEntry, StoredCountEntry, Cbor, count_entry_from, max_attempts_for_optimistic_locking,
}
use digital_garden_visitor_c.Store.Dynamo.{
  s, n, b, other, Item, get, GetItemOutput, PutItemInput, PutItemError, conditional_check_failed,
  unhandled, BoxError, message, cbor_error, Proc, done, fail, ◌>>=◌,
}
use digital_garden_visitor_c.Store.Recent.{update_entry}
use digital_garden_visitor_c.Store.Client.{
  value_of, decode_item, get_response, get_count_entry, put_result, put_input, put_new_input,
}
use digital_garden_visitor_c.Store.Client.Shapes.{
  try_put_new_count_entry-cases, try_put_count_entry-cases,
}
use digital_garden_visitor_c.Store.Increment.{attempt, attempts, maybe_increment_visitors}
use digital_garden_visitor_c.Store.Increment.Contention.{
  gave_up, ConditionLaws, IsCounter, absent, present, raised, Reads, Answers, Costs, Costs-le,
}
use digital_garden_visitor_c.Store.System.Effects.{count_of-text}

-- The first letter of a message.
abbrev first_code : BoxError → ℕ
first_code (message (c ∷ text)) = c
first_code _ = 0

-- The errors of the value are not that of giving up.
value_of-cases :
    (cbor : Cbor) (item : Item)
    → ((v : StoredCountEntry) × (value_of cbor item ≡ ok v))
      ⊎ ((e : BoxError) × (value_of cbor item ≡ err e) × (e ≢ gave_up))
unfolding value_of
value_of-cases cbor item = elim (Option-cases (get (codes "value") item)) [
  | inl g ↦ inr (
    message (codes "item was missing a value attribute"),
    rw (g, value_of) refl,
    λ q. omega (arith, ap first_code q),
  )
  | inr (s x, g) ↦ inr (
    message (codes "value was not a blob"),
    rw (g, value_of) refl,
    λ q. omega (arith, ap first_code q),
  )
  | inr (n x, g) ↦ inr (
    message (codes "value was not a blob"),
    rw (g, value_of) refl,
    λ q. omega (arith, ap first_code q),
  )
  | inr (other, g) ↦ inr (
    message (codes "value was not a blob"),
    rw (g, value_of) refl,
    λ q. omega (arith, ap first_code q),
  )
  | inr (b blob, g) ↦ elim (Result-cases (cbor.from_cbor blob)) [
    | inl (v, f) ↦ inl (v, rw (g, value_of, f) refl)
    | inr (x, f) ↦ inr (cbor_error x, rw (g, value_of, f) refl, λ q. omega (arith, ap first_code q))
  ]
]

-- An item with the text of a count decodes to an entry with that count, or fails otherwise than by
-- giving up.
decode_item-present :
    (cbor : Cbor) (item : Item) (count : ℕ)
    → count < 2 ^ 64
    → get (codes "count") item ≡ some (n (to_string count))
    → ((e : BoxError) × (decode_item cbor item ≡ fail e) × (e ≢ gave_up))
      ⊎ ((entry : CountEntry) × (decode_item cbor item ≡ done entry) × (entry.count ≡ count))
unfolding decode_item
decode_item-present cbor item count word text =
    let p = count_of-text item count word text in
    elim (value_of-cases cbor item) [
      | inr (e, q, ne) ↦ inl (e, rw (p, q), ne)
      | inl (v, q) ↦ inr (record (count_entry_from v) { count = count }, rw (p, q), refl)
    ]

module _ (Holds : PutItemInput → Option Item → Type 0) (laws : ConditionLaws Holds) (cbor : Cbor)
    (table_name : Text) (visitor : Visitor) (name : Text) (time : SystemTime) where
  -- What follows on the response to a put; if the condition failed, the counter was raised.
  response-Costs :
      (again : Proc ℕ) (left count cost : ℕ) (now : Option ℕ) (r : Result (Unit {0}) PutItemError)
      → (r ≡ err conditional_check_failed → cost ≤ left)
      → Costs Holds left now again
      → Costs Holds cost now (put_result r >>= λ written. if written then done count else again)
  unfolding put_result
  response-Costs again left count cost now (ok _) h c = tt
  response-Costs again left count cost now (err conditional_check_failed) h c =
      Costs-le Holds again left cost now (h refl) c
  response-Costs again left count cost now (err (unhandled e)) h c = λ same. cc

  created :
      (left : ℕ) (now : Option ℕ) (value : Bytes) (r : Result (Unit {0}) PutItemError)
      → Answers Holds (put_new_input table_name name value) now r
      → r ≡ err conditional_check_failed
      → suc left - (raised now - 0) ≤ left
  unfolding put_new_input get
  created left now value (err conditional_check_failed) (_, absent, fails) e =
      absurd (fails (laws.missing (put_new_input table_name name value) refl refl))
  created left now value (err conditional_check_failed) (_, present item c pos w t, fails) e =
      omega arith
  created left now value (err (unhandled x)) _ e = cc
  created left now value (ok _) _ e = cc

  updated_since :
      (left initial count : ℕ) (now : Option ℕ) (value : Bytes) (r : Result (Unit {0}) PutItemError)
      → 1 ≤ initial
      → initial ≤ raised now
      → Answers Holds (put_input table_name name initial count value) now r
      → r ≡ err conditional_check_failed
      → suc left - (raised now - initial) ≤ left
  unfolding put_input get
  updated_since left initial count now value (err conditional_check_failed) one order
        (_, absent, fails) e =
      omega arith
  updated_since left initial count now value (err conditional_check_failed) one order
        (_, present item c pos w text, fails) e =
      elim (Bool-cases (initial == c)) [
        | inl q ↦
            let same : c ≡ initial = ground arith in
            absurd (
              fails (
                laws.equal (put_input table_name name initial count value) item (codes "count")
                  (to_string initial) refl refl refl (rw same at text)))
        | inr q ↦ ground arith
      ]
  updated_since left initial count now value (err (unhandled x)) one order _ e = cc
  updated_since left initial count now value (ok _) one order _ e = cc

  attempt-Costs-none :
      (again : Proc ℕ) (left : ℕ)
      → ((o : Option ℕ) → Costs Holds left o again)
      → Costs Holds (suc left) none (attempt cbor table_name visitor name time again none)
  unfolding attempt
  attempt-Costs-none again left rest =
      elim (try_put_new_count_entry-cases cbor table_name name visitor) [
        | inl e ↦ rw e tt
        | inr (inl (x, e)) ↦ rw e (λ same. cc)
        | inr (inr (_, value, _, e)) ↦ rw e (λ r now order answers.
            response-Costs again left 1 (suc left - (raised now - 0)) now r
              (created left now value r answers) (rest now))
      ]

  attempt-Costs-some :
      (again : Proc ℕ) (left : ℕ) (entry : CountEntry)
      → 1 ≤ entry.count
      → ((o : Option ℕ) → Costs Holds left o again)
      → Costs Holds
          (suc left)
          (some entry.count)
          (attempt cbor table_name visitor name time again (some entry))
  unfolding attempt
  attempt-Costs-some again left entry one rest =
      elim (Option-cases (update_entry visitor time entry)) [
        | inl u ↦ rw u tt
        | inr (updated, u) ↦
            elim (try_put_count_entry-cases cbor table_name name entry.count updated) [
              | inl e ↦ rw (u, e) tt
              | inr (inl (x, e)) ↦ rw (u, e) (λ same. cc)
              | inr (inr (_, value, _, _, e)) ↦
                  rw (u, e)
                    (λ r now order answers.
                      response-Costs again left updated.count
                        (suc left - (raised now - entry.count)) now r
                        (updated_since left entry.count updated.count now value r one order answers)
                        (rest now))
            ]
      ]

  counter-Costs :
      (again : Proc ℕ) (left : ℕ) (stored : Option Item) (o : Option ℕ)
      → IsCounter stored o
      → ((o : Option ℕ) → Costs Holds left o again)
      → Costs Holds (suc left) o (
          get_response cbor (ok (record { item = stored }))
          >>= attempt cbor table_name visitor name time again)
  unfolding get_response
  counter-Costs again left stored o absent rest = attempt-Costs-none again left rest
  counter-Costs again left stored o (present item c pos word text) rest =
      elim (decode_item-present cbor item c word text) [
        | inl (e, d, ne) ↦ rw d (λ same. absurd (ne same))
        | inr (entry, d, same) ↦
            rw (d, ← same) (attempt-Costs-some again left entry (omega arith) rest)
      ]

  read-Costs :
      (again : Proc ℕ) (left : ℕ) (o : Option ℕ) (r : Result GetItemOutput ℕ)
      → Reads Holds o r
      → ((o : Option ℕ) → Costs Holds left o again)
      → Costs Holds
          (suc left)
          o
          (get_response cbor r >>= attempt cbor table_name visitor name time again)
  unfolding get_response
  read-Costs again left o (err e) reads rest = λ same. cc
  read-Costs again left o (ok output) reads rest = counter-Costs again left output.item o reads rest

  attempts-Costs :
      (left : ℕ) (o : Option ℕ)
      → Costs Holds left o (attempts cbor table_name visitor name time left)
  unfolding attempts get_count_entry
  attempts-Costs zero o = λ same. refl
  attempts-Costs (suc left) o = λ r now order reads.
      let again = attempts cbor table_name visitor name time left in
      Costs-le Holds (get_response cbor r >>= attempt cbor table_name visitor name time again)
        (suc left) (suc left - (raised now - raised o)) now (omega arith)
        (read-Costs again left now r reads (attempts-Costs left))

  -- Let the conditions of the puts mean what DynamoDB documents, every get read the counter as it
  -- is or fail, and a put be answered that its condition failed only where it does not hold. Then,
  -- whatever others do to the counter before each request as long as they never lower it, and
  -- whatever else fails, `maybe_increment_visitors` gives up only after others have raised the
  -- counter at least five times since the call; its creation counts as a raise.
  pub maybe_increment_visitors-Costs :
      (o : Option ℕ) → Costs Holds 5 o (maybe_increment_visitors cbor table_name visitor name time)
  unfolding maybe_increment_visitors
  maybe_increment_visitors-Costs o = attempts-Costs max_attempts_for_optimistic_locking o
