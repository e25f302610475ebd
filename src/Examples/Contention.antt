-- ===== src/Examples/Contention.antt =====
-- The instance of the theorem about giving up.
use digital_garden_visitor_c.Common.{◌≡◌, refl, true, some, codes, text_eq_refl, Text}
use digital_garden_visitor_c.Store.Dynamo.{n, Item, get, PutItemInput}
use digital_garden_visitor_c.Store.Increment.{maybe_increment_visitors}
use digital_garden_visitor_c.Store.Increment.Contention.{ConditionLaws, Costs}
use digital_garden_visitor_c.Store.Increment.Contention.GivesUp.{maybe_increment_visitors-Costs}
use digital_garden_visitor_c.Examples.Codec.{codec}
use digital_garden_visitor_c.Examples.Storage.{visitor, system_time}
use digital_garden_visitor_c.Examples.Table.{holds, has_count}

has_count-true :
    (i : PutItemInput) (stored : Item) (name text : Text)
    → get (codes "#c") i.expression_attribute_names ≡ some name
    → get (codes ":count") i.expression_attribute_values ≡ some (n text)
    → get name stored ≡ some (n text)
    → has_count i (some stored) ≡ true
unfolding has_count
has_count-true i stored name text k v e = rw (k, has_count, v, e) (text_eq_refl text)

pub table-ConditionLaws : ConditionLaws (λ i o. holds i o ≡ true)
unfolding holds
table-ConditionLaws = record {
  missing = λ i c k. rw c refl;
  equal = λ i stored name text c k v e.
      let counted = has_count-true i stored name text k v e in rw (counted, c) refl;
}

maybe_increment_visitors-Costs_example :
    Costs
      (λ i o. holds i o ≡ true)
      5
      (some 41)
      (maybe_increment_visitors codec
        (codes "test")
        (visitor 1 7200)
        (codes "default")
        (system_time 7200))
maybe_increment_visitors-Costs_example =
    maybe_increment_visitors-Costs (λ i o. holds i o ≡ true) table-ConditionLaws codec
      (codes "test") (visitor 1 7200) (codes "default") (system_time 7200) (some 41)
