-- ===== src/Examples/Table.antt =====
-- A database that meets the laws of the interface: a table in memory, without lost responses.
use digital_garden_visitor_c.Common.{
  ◌≡◌, refl, Bool, true, false, ◌&&◌, Option, none, some, inl, inr, Text, codes, text_eq,
  text_eq-to_eq, ok, err, if◌then◌else◌, Bool-cases,
}
use digital_garden_visitor_c.Store.Dynamo.{
  AttributeValue, s, n, Item, get, PutItemInput, conditional_check_failed,
}
use digital_garden_visitor_c.Store.System.{Database, DatabaseLaws, Applied}

abbrev pub Table : Type 0
Table = Text → Text → Option Item

abbrev same_value : Option AttributeValue → Option AttributeValue → Bool
same_value (some (n t)) (some (n u)) = text_eq t u
same_value _ _ = false

abbrev absent : Option Item → Bool
absent none = true
absent (some _) = false

-- The value of an attribute, as the expression of the update compares it.
unfoldable pub has_count : PutItemInput → Option Item → Bool
has_count i none = false
has_count i (some item) = elim (get (codes "#c") i.expression_attribute_names) [
  | none ↦ false
  | some name ↦ same_value (get name item) (get (codes ":count") i.expression_attribute_values)
]

-- Expressions of another form hold of nothing.
unfoldable pub holds : PutItemInput → Option Item → Bool
holds i o =
    if text_eq i.condition_expression (codes "attribute_not_exists(#k)")
    then absent o
    else text_eq i.condition_expression (codes "#c = :count") && has_count i o

abbrev text_of : Option AttributeValue → Text
text_of (some (s key)) = key
text_of _ = codes ""

unfoldable pub key_of : Item → Text
key_of item = text_of (get (codes "key") item)

abbrev pub put_in : Table → PutItemInput → Table
put_in a i table key =
    if text_eq table i.table_name && text_eq key (key_of i.item) then some i.item else a table key

abbrev pub table : Database
table = record {
  State = Table;
  item = λ a. a;
  Get = λ a i r. r ≡ ok (record { item = a i.table_name (key_of i.key) });
  Put = λ a i r c.
      (r ≡ (
        if holds i (a i.table_name (key_of i.item)) then ok tt else err conditional_check_failed))
      × (c ≡ (if holds i (a i.table_name (key_of i.item)) then put_in a i else a));
  Holds = λ i o. holds i o ≡ true;
}

pub key_of-get : (i : Item) (key : Text) → get (codes "key") i ≡ some (s key) → key_of i ≡ key
unfolding key_of
key_of-get i key h = rw h

pub put_in-Applied :
    (a : Table) (i : PutItemInput) (key : Text)
    → get (codes "key") i.item ≡ some (s key)
    → holds i (a i.table_name (key_of i.item)) ≡ true
    → Applied table a i key (put_in a i)
put_in-Applied a i key h e = record {
  held = rw (key_of-get i.item key h) at e;
  stored = λ t k. rw (key_of-get i.item key h);
}

same_value-eq :
    (x y : Option AttributeValue) {v : AttributeValue}
    → same_value x y ≡ true
    → y ≡ some v
    → x ≡ some v
same_value-eq (some (n t)) (some (n u)) h e = rw (text_eq-to_eq t u h) e
same_value-eq _ _ h e = cc

holds-absent :
    (i : PutItemInput) (o : Option Item)
    → i.condition_expression ≡ codes "attribute_not_exists(#k)"
    → holds i o ≡ true
    → o ≡ none
unfolding holds
holds-absent i none e h = refl
holds-absent i (some _) e h = let h' = rw e at h in cc

has_count-eq :
    (i : PutItemInput) (item : Item) (name : Text) (value : AttributeValue)
    → get (codes "#c") i.expression_attribute_names ≡ some name
    → get (codes ":count") i.expression_attribute_values ≡ some value
    → has_count i (some item) ≡ true
    → get name item ≡ some value
unfolding has_count
has_count-eq i item name value p q h =
    same_value-eq (get name item) (get (codes ":count") i.expression_attribute_values)
      (rw (p, has_count) at h) q

holds-equals :
    (i : PutItemInput) (o : Option Item) (name : Text) (value : AttributeValue)
    → i.condition_expression ≡ codes "#c = :count"
    → get (codes "#c") i.expression_attribute_names ≡ some name
    → get (codes ":count") i.expression_attribute_values ≡ some value
    → holds i o ≡ true
    → (stored : Item) × (o ≡ some stored) × (get name stored ≡ some value)
unfolding holds has_count
holds-equals i none name value e p q h = let h' : has_count i none ≡ true = rw e at h in cc
holds-equals i (some item) name value e p q h =
    let h' : has_count i (some item) ≡ true = rw e at h in
    (item, refl, has_count-eq i item name value p q h')

pub table-DatabaseLaws : DatabaseLaws table
table-DatabaseLaws = record {
  atomic = λ a i r c key h p. elim (Bool-cases (holds i (a i.table_name (key_of i.item)))) [
    | inl e ↦ inr (let put : c ≡ put_in a i = rw e at p.1 in rw put (put_in-Applied a i key h e))
    | inr e ↦ inl (let kept : c ≡ a = rw e at p.1 in λ t k. rw kept)
  ];
  succeeded = λ a i c key h p. elim (Bool-cases (holds i (a i.table_name (key_of i.item)))) [
    | inl e ↦ let put : c ≡ put_in a i = rw e at p.1 in rw put (put_in-Applied a i key h e)
    | inr e ↦ let failed = rw e at p.0 in cc
  ];
  not_exists = λ i o e _ h. holds-absent i o e h;
  equals = λ i o name value e p q h. holds-equals i o name value e p q h;
}
