-- ===== src/Store/Increment/Contention.antt =====
-- When `maybe_increment_visitors` of src/store.rs gives up: what others must have done meanwhile.
pub mod GivesUp
use digital_garden_visitor_c.Common.{
  ℕ, zero, suc, ◌+◌, ◌-◌, ◌^◌, ◌≤◌, ◌<◌, ◌≡◌, ◌≢◌, refl, ap, arith, Option, none, some, ◌⊎◌, inl,
  inr, Text, codes, Result, ok, err, if◌then◌else◌, Option-cases, Result-cases,
}
use digital_garden_visitor_c.Decimal.{to_string}
use digital_garden_visitor_c.Store.Time.{SystemTime}
use digital_garden_visitor_c.Store.Visitor.{Visitor}
use digital_garden_visitor_c.Store.Entry.{
  CountEntry, StoredCountEntry, Cbor, count_entry_from, max_attempts_for_optimistic_locking,
}
use digital_garden_visitor_c.Store.Dynamo.{
  AttributeValue, s, n, b, other, Item, get, GetItemOutput, PutItemInput, PutItemError,
  conditional_check_failed, unhandled, BoxError, message, Proc, done, fail, panic, get_item,
  put_item, ◌>>=◌,
}
use digital_garden_visitor_c.Store.Recent.{update_entry}
use digital_garden_visitor_c.Store.Client.{
  count_of, value_of, decode_item, get_response, get_count_entry, put_result, put_input,
  put_new_input,
}
use digital_garden_visitor_c.Store.Client.Shapes.{
  try_put_new_count_entry-cases, try_put_count_entry-cases,
}
use digital_garden_visitor_c.Store.Increment.{attempt, attempts, maybe_increment_visitors}
use digital_garden_visitor_c.Store.System.Effects.{count_of-text}

-- The message of giving up.
abbrev pub gave_up : BoxError
gave_up = message (codes "max attempts for optimistic locking exceeded")

-- What DynamoDB documents of the two conditions: they hold of a missing item and of an item whose
-- attribute is the number.
pub record ConditionLaws (Holds : PutItemInput → Option Item → Type 0) : Type 0 where
  pub missing :
      (i : PutItemInput)
      → i.condition_expression ≡ codes "attribute_not_exists(#k)"
      → get (codes "#k") i.expression_attribute_names ≡ some (codes "key")
      → Holds i none
  pub equal :
      (i : PutItemInput) (stored : Item) (name text : Text)
      → i.condition_expression ≡ codes "#c = :count"
      → get (codes "#c") i.expression_attribute_names ≡ some name
      → get (codes ":count") i.expression_attribute_values ≡ some (n text)
      → get name stored ≡ some (n text)
      → Holds i (some stored)

-- The stored counter: missing, or an item with the text of a count, which is one at least.
pub data IsCounter : Option Item → Option ℕ → Type 0 where
  absent : IsCounter none none
  present :
      (item : Item) (count : ℕ)
      → 1 ≤ count
      → count < 2 ^ 64
      → get (codes "count") item ≡ some (n (to_string count))
      → IsCounter (some item) (some count)

-- How often a counter was raised: a new one starts at one, and each raise is by one.
abbrev pub raised : Option ℕ → ℕ
raised none = 0
raised (some count) = count

module _ (Holds : PutItemInput → Option Item → Type 0) where
  -- A get reads the counter, or fails.
  abbrev pub Reads : Option ℕ → Result GetItemOutput ℕ → Type 0
  Reads o (err e) = Unit
  Reads o (ok output) = IsCounter output.item o

  -- A put is said to have failed its condition only where the condition does not hold.
  abbrev pub Answers : PutItemInput → Option ℕ → Result (Unit {0}) PutItemError → Type 0
  Answers i o (err conditional_check_failed) =
      (item : Option Item) × IsCounter item o × ¬ Holds i item
  Answers i o _ = Unit

  -- The function gives up only after others have raised the counter so many times since it was `o`.
  -- Before each request they may raise it as often as they like.
  abbrev pub Costs : ℕ → Option ℕ → Proc ℕ → Type 0
  Costs cost o (done a) = Unit
  Costs cost o (fail e) = e ≡ gave_up → cost ≡ 0
  Costs cost o panic = Unit
  Costs cost o (get_item i k) =
      (r : Result GetItemOutput ℕ) (now : Option ℕ)
      → raised o ≤ raised now
      → Reads now r
      → Costs (cost - (raised now - raised o)) now (k r)
  Costs cost o (put_item i k) =
      (r : Result (Unit {0}) PutItemError) (now : Option ℕ)
      → raised o ≤ raised now
      → Answers i now r
      → Costs (cost - (raised now - raised o)) now (k r)

  pub Costs-le :
      (p : Proc ℕ) (cost less : ℕ) (o : Option ℕ) → less ≤ cost → Costs cost o p → Costs less o p
  Costs-le (done a) cost less o h c = tt
  Costs-le (fail e) cost less o h c = λ same. omega (arith, c same)
  Costs-le panic cost less o h c = tt
  Costs-le (get_item i k) cost less o h c = λ r now order reads.
      Costs-le (k r) (cost - (raised now - raised o)) (less - (raised now - raised o)) now
        (omega arith) (c r now order reads)
  Costs-le (put_item i k) cost less o h c = λ r now order answers.
      Costs-le (k r) (cost - (raised now - raised o)) (less - (raised now - raised o)) now
        (omega arith) (c r now order answers)

  -- Others that have raised the counter meanwhile.
  pub Costs-later :
      (p : Proc ℕ) (cost : ℕ) (o later : Option ℕ)
      → raised o ≤ raised later
      → Costs cost o p
      → Costs (cost - (raised later - raised o)) later p
  Costs-later (done a) cost o later h c = tt
  Costs-later (fail e) cost o later h c = λ same. omega (arith, c same)
  Costs-later panic cost o later h c = tt
  Costs-later (get_item i k) cost o later h c = λ r now order reads.
      Costs-le (k r) (cost - (raised now - raised o))
        (cost - (raised later - raised o) - (raised now - raised later)) now (omega arith)
        (c r now (omega arith) reads)
  Costs-later (put_item i k) cost o later h c = λ r now order answers.
      Costs-le (k r) (cost - (raised now - raised o))
        (cost - (raised later - raised o) - (raised now - raised later)) now (omega arith)
        (c r now (omega arith) answers)
