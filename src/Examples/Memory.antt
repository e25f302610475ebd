-- ===== src/Examples/Memory.antt =====
-- A client that meets the laws of a table that nobody else uses: the table in memory.
use digital_garden_visitor_c.Common.{
  ◌≡◌, refl, true, none, some, Text, codes, text_eq_refl, ok, err, if◌then◌else◌,
}
use digital_garden_visitor_c.Store.Dynamo.{s, n, Item, get, PutItemInput, conditional_check_failed}
use digital_garden_visitor_c.Store.Fake.{Dynamo, SdkConfig}
use digital_garden_visitor_c.Store.Fake.Table.{Stored, TableLaws}
use digital_garden_visitor_c.Examples.Table.{Table, holds, has_count, key_of, key_of-get, put_in}

abbrev pub memory : SdkConfig → Dynamo Table
memory _ = record {
  get = λ a i. some (ok (record { item = a i.table_name (key_of i.key) }), a);
  put = λ a i. some (
      if holds i (a i.table_name (key_of i.item))
      then (ok tt, put_in a i)
      else (err conditional_check_failed, a));
}

module _ (sdk_config : SdkConfig) where
  holds-Stored :
      (a : Table) (i : PutItemInput) (key : Text)
      → get (codes "key") i.item ≡ some (s key)
      → holds i (a i.table_name key) ≡ true
      → Stored (memory sdk_config) (λ b. b) a i key
  holds-Stored a i key h e = record {
    after = put_in a i;
    succeeds = rw (key_of-get i.item key h, e) refl;
    stored = λ t k. rw (key_of-get i.item key h);
  }

  holds-absent :
      (i : PutItemInput)
      → i.condition_expression ≡ codes "attribute_not_exists(#k)"
      → holds i none ≡ true
  unfolding holds
  holds-absent i e = rw e refl

  has_count-equal :
      (i : PutItemInput) (name number : Text) (old : Item)
      → get (codes "#c") i.expression_attribute_names ≡ some name
      → get (codes ":count") i.expression_attribute_values ≡ some (n number)
      → get name old ≡ some (n number)
      → has_count i (some old) ≡ true
  unfolding has_count
  has_count-equal i name number old p q h = rw (p, has_count, h, q, text_eq_refl number) refl

  holds-equal :
      (i : PutItemInput) (name number : Text) (old : Item)
      → i.condition_expression ≡ codes "#c = :count"
      → get (codes "#c") i.expression_attribute_names ≡ some name
      → get (codes ":count") i.expression_attribute_values ≡ some (n number)
      → get name old ≡ some (n number)
      → holds i (some old) ≡ true
  unfolding holds
  holds-equal i name number old e p q h =
      let counted = has_count-equal i name number old p q h in rw (counted, e) refl

  pub memory-TableLaws : TableLaws (memory sdk_config) (λ a. a)
  memory-TableLaws = record {
    gets = λ a i key h. rw (key_of-get i.key key h) refl;
    creates = λ a i key h e _ m. holds-Stored a i key h (rw m (holds-absent i e));
    replaces = λ a i key name number old h e p q m v.
        holds-Stored a i key h (rw m (holds-equal i name number old e p q v));
  }
