-- ===== src/Store/Serial/Serve.antt =====
-- A round of `maybe_increment_visitors` that comes to its put, src/store.rs.
use digital_garden_visitor_c.Common.{
  ℕ, ◌≡◌, refl, ap, Option, none, some, Text, Bytes, Result, ok, if◌then◌else◌,
}
use digital_garden_visitor_c.Store.Entry.{CountEntry, Cbor}
use digital_garden_visitor_c.Store.Dynamo.{
  Item, PutItemInput, PutItemError, Proc, done, put_item, ◌>>=◌,
}
use digital_garden_visitor_c.Store.Recent.{update_entry}
use digital_garden_visitor_c.Store.Client.{
  decode_item, get_response, get_count_entry, put_result, put_new_input, put_input,
  try_put_new_count_entry, try_put_count_entry,
}
use digital_garden_visitor_c.Store.Increment.{attempt, attempts, maybe_increment_visitors}
use digital_garden_visitor_c.Store.Increment.Answered.{answered}
use digital_garden_visitor_c.Store.Serial.{Visit, first_put, serve}

-- What follows on the put of a count.
abbrev pub after_put : ℕ → Proc ℕ → Result (Unit {0}) PutItemError → Proc ℕ
after_put count again r = put_result r >>= λ written. if written then done count else again

module _ (cbor : Cbor) (table_name name : Text) (v : Visit) where
  -- The round that follows on a response to the get.
  abbrev pub round_of : Option Item → Proc ℕ → Proc ℕ
  round_of stored again =
      get_response cbor (ok (record { item = stored }))
      >>= attempt cbor table_name v.visitor name v.now again

  -- The put of a count for the stored item: the creation, or the update of the entry that it decodes
  -- to.
  pub data IsPutFor (count : ℕ) : Option Item → PutItemInput → Type 0 where
    creation :
        (value : Bytes) → count ≡ 1 → IsPutFor count none (put_new_input table_name name value)
    update :
        (item : Item) (entry : CountEntry) (value : Bytes)
        → decode_item cbor item ≡ done entry
        → IsPutFor count (some item) (put_input table_name name entry.count count value)

  -- From the stored item, the round sends a put with the next item, for a count.
  pub record Round (stored : Option Item) (count : ℕ) (next : Item) : Type 0 where
    pub input : PutItemInput
    pub shape : IsPutFor count stored input
    pub writes : input.item ≡ next
    pub sends : (again : Proc ℕ) → round_of stored again ≡ put_item input (after_put count again)

  -- A missing counter is created.
  pub none-Round :
      (value : Bytes)
      → try_put_new_count_entry cbor table_name name v.visitor
        ≡ put_item (put_new_input table_name name value) put_result
      → Round none 1 (put_new_input table_name name value).item
  unfolding get_response attempt
  none-Round value e = record {
    input = put_new_input table_name name value;
    shape = creation value refl;
    writes = refl;
    sends = λ again. rw e refl;
  }

  -- A stored counter is updated.
  pub some-Round :
      (item : Item) (entry updated : CountEntry) (value : Bytes)
      → decode_item cbor item ≡ done entry
      → update_entry v.visitor v.now entry ≡ some updated
      → try_put_count_entry cbor table_name name entry.count updated
        ≡ put_item (put_input table_name name entry.count updated.count value) put_result
      → Round
          (some item)
          updated.count
          (put_input table_name name entry.count updated.count value).item
  unfolding get_response attempt
  some-Round item entry updated value d u e = record {
    input = put_input table_name name entry.count updated.count value;
    shape = update item entry value d;
    writes = refl;
    sends = λ again. rw (d, u, e) refl;
  }

  -- With the stored item and a put that succeeds, the call returns the count.
  pub answered-Round :
      (stored : Option Item) (count : ℕ) (next : Item)
      → Round stored count next
      → answered
          (ok (record { item = stored }))
          (ok tt)
          (maybe_increment_visitors cbor table_name v.visitor name v.now)
        ≡ done count
  unfolding maybe_increment_visitors attempts get_count_entry put_result
  answered-Round stored count next r =
      ap (answered (ok (record { item = stored })) (ok tt))
        (r.sends (attempts cbor table_name v.visitor name v.now 4))

  -- And what it puts is the next item.
  pub first_put-Round :
      (stored : Option Item) (count : ℕ) (next : Item) (r : Round stored count next)
      → first_put
          (ok (record { item = stored }))
          (maybe_increment_visitors cbor table_name v.visitor name v.now)
        ≡ some r.input
  unfolding maybe_increment_visitors attempts get_count_entry first_put
  first_put-Round stored count next r =
      ap (first_put (ok (record { item = stored })))
        (r.sends (attempts cbor table_name v.visitor name v.now 4))

  pub serve-Round :
      (stored : Option Item) (count : ℕ) (next : Item)
      → Round stored count next
      → serve cbor table_name name v stored ≡ some (count, next)
  unfolding serve
  serve-Round stored count next r =
      let returned = answered-Round stored count next r in
      let put = first_put-Round stored count next r in
      let writes = r.writes in rw (returned, put, writes) refl
