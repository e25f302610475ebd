-- ===== src/Store/System/Progress/Raises.antt =====
-- What an applied put of src/store.rs does to the stored counter.
use digital_garden_visitor_c.Common.{Result, text_eq, false}
use digital_garden_visitor_c.Common.{
  ℕ, ◌+◌, ◌^◌, ◌≤◌, ◌<◌, ◌≡◌, refl, arith, Option, none, some, inl, inr, Bytes, Text, codes,
  text_eq_refl, ok,
}
use digital_garden_visitor_c.Decimal.{to_string}
use digital_garden_visitor_c.Store.Entry.{Cbor}
use digital_garden_visitor_c.Store.Dynamo.{PutItemError, n, Item, get, PutItemInput, done}
use digital_garden_visitor_c.Store.Dynamo.Requests.{AfterPut}
use digital_garden_visitor_c.Store.Client.{put_input, put_new_input}
use digital_garden_visitor_c.Store.Increment.Puts.{Follows, IsVisitPut}
use digital_garden_visitor_c.Store.Increment.Contention.{IsCounter, absent, present, raised}
use digital_garden_visitor_c.Store.System.{Database, DatabaseLaws, Applied}
use digital_garden_visitor_c.Store.System.Progress.{ReliableLaws}
use digital_garden_visitor_c.Store.System.Effects.{visit_key, count_of-text}

-- The counter before and after, and that the invocation returns its count.
pub record Raises (after : Option Item) (c : Option ℕ) (k : AfterPut ℕ) : Type 0 where
  pub now : Option ℕ
  pub counter : IsCounter after now
  pub low : raised c ≤ raised now
  pub high : raised now ≤ raised c + 1
  pub one : 1 ≤ raised now
  pub returns : k (ok tt) ≡ done (raised now)

created-IsCounter :
    (table_name name : Text) (value : Bytes)
    → IsCounter (some (put_new_input table_name name value).item) (some 1)
unfolding put_new_input get to_string
created-IsCounter table_name name value =
    present (put_new_input table_name name value).item 1 (omega arith) (omega arith) refl

updated-IsCounter :
    (table_name name : Text) (initial count : ℕ) (value : Bytes)
    → 1 ≤ count
    → count < 2 ^ 64
    → IsCounter (some (put_input table_name name initial count value).item) (some count)
unfolding put_input get
updated-IsCounter table_name name initial count value one word =
    present (put_input table_name name initial count value).item count one word refl

-- The count of a stored counter is that of its text.
same_count :
    (stored : Item) (c : Option ℕ) (initial : ℕ)
    → IsCounter (some stored) c
    → initial < 2 ^ 64
    → get (codes "count") stored ≡ some (n (to_string initial))
    → (c ≡ some initial) × (1 ≤ initial)
same_count stored c initial (present item m one word text) small e =
    let left = count_of-text stored m word text in
    let right = count_of-text stored initial small e in
    let same : m ≡ initial = cc in (rw same refl, rw same at one)

none_count : (c : Option ℕ) → IsCounter none c → c ≡ none
none_count c absent = refl

module _ (db : Database) (laws : DatabaseLaws db) (cbor : Cbor) (table_name name : Text)
    (a b : db.State) where
  stored_item :
      (i : PutItemInput)
      → i.table_name ≡ table_name
      → Applied db a i name b
      → db.item b table_name name ≡ some i.item
  stored_item i e h =
      rw (h.stored table_name name, e, text_eq_refl table_name, text_eq_refl name) refl

  creation-Raises :
      (c : Option ℕ) (value : Bytes) (k : AfterPut ℕ)
      → IsCounter (db.item a table_name name) c
      → k (ok tt) ≡ done 1
      → Applied db a (put_new_input table_name name value) name b
      → Raises (db.item b table_name name) c k
  unfolding put_new_input get
  creation-Raises c value k counter written h =
      let input = put_new_input table_name name value in
      let gone : db.item a table_name name ≡ none = laws.not_exists input _ refl refl h.held in
      let new = none_count c (rw gone at counter) in
      let stored = stored_item input refl h in
      record {
        now = some 1;
        counter = rw stored (created-IsCounter table_name name value);
        low = rw new (omega arith);
        high = rw new (omega arith);
        one = omega arith;
        returns = written;
      }

  update-Raises :
      (c : Option ℕ) (initial count : ℕ) (value : Bytes) (k : AfterPut ℕ)
      → IsCounter (db.item a table_name name) c
      → raised c + 1 < 2 ^ 64
      → initial < 2 ^ 64
      → Follows initial count
      → k (ok tt) ≡ done count
      → Applied db a (put_input table_name name initial count value) name b
      → Raises (db.item b table_name name) c k
  unfolding put_input get
  update-Raises c initial count value k counter room word follows written h =
      let input = put_input table_name name initial count value in
      let (before, e, text) =
        laws.equals input _ (codes "count") (n (to_string initial)) refl refl refl h.held in
      let held : db.item a table_name name ≡ some before = e in
      let (same, one) = same_count before c initial (rw held at counter) word text in
      let known : raised c ≡ initial = rw same refl in
      let stored = stored_item input refl h in
      record {
        now = some count;
        counter =
            rw stored
              (updated-IsCounter table_name name initial count value (ground arith) (ground arith));
        low = ground arith;
        high = ground arith;
        one = ground arith;
        returns = written;
      }

  pub Applied-Raises :
      (c : Option ℕ) (i : PutItemInput) (k : AfterPut ℕ)
      → IsCounter (db.item a table_name name) c
      → raised c + 1 < 2 ^ 64
      → IsVisitPut cbor table_name name i k
      → Applied db a i name b
      → Raises (db.item b table_name name) c k
  Applied-Raises c i k counter room (inl v) h =
      creation-Raises c v.value k counter v.written (rw v.input at h)
  Applied-Raises c i k counter room (inr u) h =
      update-Raises c u.initial u.count u.value k counter room u.word u.follows u.written
        (rw u.input at h)

-- A put for another counter leaves the counter alone.
pub other_put-same :
    (db : Database) (laws : DatabaseLaws db) (reliable : ReliableLaws db) (cbor : Cbor)
    (table_name name other : Text) (a b : db.State) (i : PutItemInput) (k : AfterPut ℕ)
    (r : Result (Unit {0}) PutItemError)
    → text_eq name other ≡ false
    → IsVisitPut cbor table_name other i k
    → db.Put a i r b
    → db.item b table_name name ≡ db.item a table_name name
other_put-same db laws reliable cbor table_name name other a b i k r apart visit p =
    let (key, table) = visit_key db laws cbor table_name other a b i k visit in
    elim (reliable.puts a i r b other key p) [
      | inl (_, applied) ↦ rw (applied.stored table_name name, table, apart) (ground arith)
      | inr (_, _, same) ↦ same table_name name
    ]
