-- ===== src/Store/System.antt =====
-- Many invocations of `maybe_increment_visitors` of src/store.rs over one table of DynamoDB. The
-- database is an interface with its documented behaviour as laws; the invocations take turns in any
-- order, a request at a time.
pub mod Effects
pub mod Counts
pub mod Runs
pub mod Tallied
pub mod Progress
pub mod Turns
pub mod Overwrites
pub mod Behind
pub mod WaitFree
pub mod Answers
use digital_garden_visitor_c.Common.{
  ℕ, ◌≡◌, Bool, ◌&&◌, Option, none, some, ◌⊎◌, Text, codes, text_eq, Result, ok, err, if◌then◌else◌,
  ◌==◌,
}
use digital_garden_visitor_c.Store.Entry.{Cbor}
use digital_garden_visitor_c.Store.Dynamo.{
  AttributeValue, s, Item, get, GetItemInput, GetItemOutput, PutItemInput, PutItemError, Proc,
  get_item, put_item,
}
use digital_garden_visitor_c.Store.Increment.Puts.{Honest}

-- The items by table and key, the possible responses to a get, the possible outcomes of a put, and
-- the meaning of the condition of a put for the item that is stored under its key.
pub record Database : Type 1 where
  pub State : Type 0
  pub item : State → Text → Text → Option Item
  pub Get : State → GetItemInput → Result GetItemOutput ℕ → Type 0
  pub Put : State → PutItemInput → Result (Unit {0}) PutItemError → State → Type 0
  pub Holds : PutItemInput → Option Item → Type 0

-- The put replaced the item under the key, and the condition held of the item before.
pub record Applied (db : Database) (a : db.State) (i : PutItemInput) (key : Text) (b : db.State)
    : Type 0 where
  pub held : db.Holds i (db.item a i.table_name key)
  pub stored :
      (table k : Text)
      → db.item b table k
        ≡ (if text_eq table i.table_name && text_eq k key then some i.item else db.item a table k)

-- A put is atomic: it replaces the item under its key if the condition holds of the stored item, or
-- changes nothing. A put that succeeds was applied. Of a failed one nothing more is assumed: it may
-- have been applied, as when the response was lost. The conditions are those of the code: that the
-- partition key does not exist, which every item has, and that an attribute has a value.
pub record DatabaseLaws (db : Database) : Type 0 where
  pub atomic :
      (a : db.State) (i : PutItemInput) (r : Result (Unit {0}) PutItemError) (b : db.State)
      (key : Text)
      → get (codes "key") i.item ≡ some (s key)
      → db.Put a i r b
      → ((table k : Text) → db.item b table k ≡ db.item a table k) ⊎ Applied db a i key b
  pub succeeded :
      (a : db.State) (i : PutItemInput) (b : db.State) (key : Text)
      → get (codes "key") i.item ≡ some (s key)
      → db.Put a i (ok tt) b
      → Applied db a i key b
  pub not_exists :
      (i : PutItemInput) (o : Option Item)
      → i.condition_expression ≡ codes "attribute_not_exists(#k)"
      → get (codes "#k") i.expression_attribute_names ≡ some (codes "key")
      → db.Holds i o
      → o ≡ none
  pub equals :
      (i : PutItemInput) (o : Option Item) (name : Text) (value : AttributeValue)
      → i.condition_expression ≡ codes "#c = :count"
      → get (codes "#c") i.expression_attribute_names ≡ some name
      → get (codes ":count") i.expression_attribute_values ≡ some value
      → db.Holds i o
      → (stored : Item) × (o ≡ some stored) × (get name stored ≡ some value)

-- The invocations by number; one that has not begun stands at its first request.
pub record SystemOf (db : Database) (A : Type 0) : Type 0 where
  pub state : db.State
  pub procs : ℕ → Proc A

abbrev pub System : Database → Type 0
System db = SystemOf db ℕ

abbrev pub update : {A : Type 0} → (ℕ → Proc A) → ℕ → Proc A → ℕ → Proc A
update procs i p j = if i == j then p else procs j

module _ (db : Database) where
  -- One request of one invocation, and its response.
  pub data Step {A : Type 0} (σ : SystemOf db A) : SystemOf db A → Type 0 where
    read :
        (i : ℕ) (input : GetItemInput) (k : Result GetItemOutput ℕ → Proc A)
        (r : Result GetItemOutput ℕ)
        → σ.procs i ≡ get_item input k
        → db.Get σ.state input r
        → Step σ (record σ { procs = update σ.procs i (k r) })
    write :
        (i : ℕ) (input : PutItemInput) (k : Result (Unit {0}) PutItemError → Proc A)
        (r : Result (Unit {0}) PutItemError) (b : db.State)
        → σ.procs i ≡ put_item input k
        → db.Put σ.state input r b
        → Step σ (record { state = b; procs = update σ.procs i (k r) })

-- Every invocation is what is left of a call of `maybe_increment_visitors` for the counter that
-- `names` gives: its requests are those of such a call.
abbrev pub AllHonest : {db : Database} → Cbor → Text → (ℕ → Text) → System db → Type 0
AllHonest cbor table_name names σ = (i : ℕ) → Honest cbor table_name (names i) (σ.procs i)
