-- ===== src/Bootstrap/Service/Serves.antt =====
-- A handler of src/bin/bootstrap.rs that counts a visit over a table that nobody else uses.
use digital_garden_visitor_c.Common.{
  ℕ, ◌≡◌, refl, ap, ◌∙◌, [], ◌∷◌, Option, none, some, Text, codes, Result, ok,
}
use digital_garden_visitor_c.Decimal.{to_string}
use digital_garden_visitor_c.Store.Entry.{CountEntry, Cbor}
use digital_garden_visitor_c.Store.Dynamo.{
  AttributeValue, n, s, Item, get, GetItemInput, GetItemOutput, PutItemInput, PutItemError, Proc,
  done, get_item, put_item, ◌>>=◌,
}
use digital_garden_visitor_c.Store.Dynamo.Requests.{AfterPut}
use digital_garden_visitor_c.Store.Client.{
  decode_item, get_count_entry, put_result, put_new_input, put_input,
}
use digital_garden_visitor_c.Store.Increment.{attempts, maybe_increment_visitors}
use digital_garden_visitor_c.Store.Fake.{
  Dynamo, DynamoClient, real, client_get_item, client_put_item,
}
use digital_garden_visitor_c.Store.Fake.Table.{Stored, TableLaws}
use digital_garden_visitor_c.Store.Serial.{Visit}
use digital_garden_visitor_c.Store.Serial.Serve.{Round, IsPutFor, creation, update, after_put}
use digital_garden_visitor_c.Bootstrap.Handler.{Response}
use digital_garden_visitor_c.Bootstrap.Service.{got, put, and_sent, served}

-- The attribute that holds a count.
abbrev pub number_of : ℕ → AttributeValue
number_of count = n (to_string count)

-- A stored item has its count as `to_string` prints it.
abbrev pub IsPrinted : Cbor → Option Item → Type 0
IsPrinted cbor none = Unit
IsPrinted cbor (some item) =
    (entry : CountEntry) × (decode_item cbor item ≡ done entry)
    × (get (codes "count") item ≡ some (number_of entry.count))

-- The get of a counter.
abbrev pub counter_get : Text → Text → GetItemInput
counter_get table_name name = record { table_name = table_name; key = (codes "key", s name) ∷ [] }

module _ {S : Type 0} (client : DynamoClient S) (a after : S) where
  served-get_item :
      (i : GetItemInput) (k : Result GetItemOutput ℕ → Proc Response) (r : Result GetItemOutput ℕ)
      → client_get_item client a i ≡ some (r, after)
      → served client (get_item i k) a ≡ and_sent (got i) (served client (k r) after)
  unfolding served
  served-get_item i k r e = rw (e, served) refl

  served-put_item :
      (i : PutItemInput) (k : AfterPut Response) (r : Result (Unit {0}) PutItemError)
      → client_put_item client a i ≡ some (r, after)
      → served client (put_item i k) a ≡ and_sent (put i) (served client (k r) after)
  unfolding served
  served-put_item i k r e = rw (e, served) refl

module _ {S : Type 0} (dynamo : Dynamo S) (item : S → Text → Text → Option Item)
    (laws : TableLaws dynamo item) (cbor : Cbor) (table_name name : Text) (v : Visit) where
  -- The put for the stored item succeeds.
  pub put-Stored :
      (a : S) (count : ℕ) (stored : Option Item) (input : PutItemInput)
      → item a table_name name ≡ stored
      → IsPrinted cbor stored
      → IsPutFor cbor table_name name v count stored input
      → Stored dynamo item a input name
  unfolding get put_new_input put_input
  put-Stored a count none input e printed (creation value one) =
      laws.creates a (put_new_input table_name name value) name refl refl refl e
  put-Stored a count (some old) input e (entry, decoded, prints) (update _ same value d) =
      let equal : entry ≡ same = cc in
      laws.replaces a (put_input table_name name same.count count value) name (codes "count")
        (to_string same.count) old refl refl refl refl e (rw equal at prints)

  -- And the item that it writes has its count printed.
  pub put-count :
      (count : ℕ) (stored : Option Item) (input : PutItemInput)
      → IsPutFor cbor table_name name v count stored input
      → get (codes "count") input.item ≡ some (number_of count)
  unfolding get put_new_input put_input to_string
  put-count count none input (creation value one) = rw one refl
  put-count count (some old) input (update _ entry value d) = refl

  pub put-table_name :
      (count : ℕ) (stored : Option Item) (input : PutItemInput)
      → IsPutFor cbor table_name name v count stored input
      → input.table_name ≡ table_name
  unfolding put_new_input put_input
  put-table_name count none input (creation value one) = refl
  put-table_name count (some old) input (update _ entry value d) = refl

  pub put-key :
      (count : ℕ) (stored : Option Item) (input : PutItemInput)
      → IsPutFor cbor table_name name v count stored input
      → get (codes "key") input.item ≡ some (s name)
  unfolding get put_new_input put_input
  put-key count none input (creation value one) = refl
  put-key count (some old) input (update _ entry value d) = refl

  put-served :
      (a : S) (input : PutItemInput) (written : Stored dynamo item a input name) (again : Proc ℕ)
      (count : ℕ) (f : ℕ → Proc Response) (response : Response)
      → f count ≡ done response
      → served (real dynamo) (put_item input (after_put count again) >>= f) a
        ≡ (record { sent = put input ∷ []; end = done response }, written.after)
  unfolding served client_put_item put_result
  put-served a input written again count f response e =
      served-put_item (real dynamo) a written.after input (λ r. after_put count again r >>= f)
        (ok tt) written.succeeds
      ∙ ap (λ p. and_sent (put input) (served (real dynamo) p written.after)) e

  -- The handler sends a get and a put, and ends with the response that is made of the count.
  pub Round-served :
      (a : S) (stored : Option Item) (count : ℕ) (next : Item)
      (round : Round cbor table_name name v stored count next)
      (written : Stored dynamo item a round.input name) (f : ℕ → Proc Response)
      (response : Response)
      → item a table_name name ≡ stored
      → f count ≡ done response
      → served (real dynamo) (maybe_increment_visitors cbor table_name v.visitor name v.now >>= f) a
        ≡ (
          record {
            sent = got (counter_get table_name name) ∷ put round.input ∷ [];
            end = done response;
          },
          written.after,
        )
  unfolding served client_get_item maybe_increment_visitors attempts get_count_entry get
  Round-served a stored count next round written f response same e =
      let again = attempts cbor table_name v.visitor name v.now 4 in
      let gets = rw same at (laws.gets a (counter_get table_name name) name refl) in
      let sends = round.sends again in
      served-get_item (real dynamo) a a (counter_get table_name name) _ _ gets
      ∙ ap (λ p. and_sent (got (counter_get table_name name)) (served (real dynamo) (p >>= f) a))
          sends
      ∙ ap (and_sent (got (counter_get table_name name)))
          (put-served a round.input written again count f response e)
