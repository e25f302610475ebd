-- ===== src/Store/Fake/Table.antt =====
-- What the client of src/store.rs relies on of DynamoDB, while nobody else uses the table.
use digital_garden_visitor_c.Common.{
  ◌≡◌, Option, none, some, Text, codes, ok, text_eq, ◌&&◌, if◌then◌else◌,
}
use digital_garden_visitor_c.Store.Dynamo.{s, n, Item, get, GetItemInput, PutItemInput}
use digital_garden_visitor_c.Store.Fake.{Dynamo}

module _ {S : Type 0} (dynamo : Dynamo S) (item : S → Text → Text → Option Item) where
  -- The put is answered with success, and the item under its key is replaced.
  pub record Stored (a : S) (i : PutItemInput) (key : Text) : Type 0 where
    pub after : S
    pub succeeds : dynamo.put a i ≡ some (ok tt, after)
    pub stored :
        (table k : Text)
        → item after table k
          ≡ (if text_eq table i.table_name && text_eq k key then some i.item else item a table k)

  -- A get is answered with the item under its key and changes nothing. A put whose condition holds of
  -- the item under its key is stored: of the code's conditions, that the partition key does not exist
  -- holds if there is no item, and that an attribute is a number holds of an item with that number.
  pub record TableLaws : Type 0 where
    pub gets :
        (a : S) (i : GetItemInput) (key : Text)
        → get (codes "key") i.key ≡ some (s key)
        → dynamo.get a i ≡ some (ok (record { item = item a i.table_name key }), a)
    pub creates :
        (a : S) (i : PutItemInput) (key : Text)
        → get (codes "key") i.item ≡ some (s key)
        → i.condition_expression ≡ codes "attribute_not_exists(#k)"
        → get (codes "#k") i.expression_attribute_names ≡ some (codes "key")
        → item a i.table_name key ≡ none
        → Stored a i key
    pub replaces :
        (a : S) (i : PutItemInput) (key name number : Text) (old : Item)
        → get (codes "key") i.item ≡ some (s key)
        → i.condition_expression ≡ codes "#c = :count"
        → get (codes "#c") i.expression_attribute_names ≡ some name
        → get (codes ":count") i.expression_attribute_values ≡ some (n number)
        → item a i.table_name key ≡ some old
        → get name old ≡ some (n number)
        → Stored a i key
