-- ===== src/Store/System/Overwrites.antt =====
-- Two overlapping invocations of `maybe_increment_visitors`, src/store.rs, of which the first only
-- refreshes the time of a recent visitor.
use digital_garden_visitor_c.Common.{
  ℕ, ◌≡◌, ◌≢◌, refl, sym, ◌∙◌, [], ◌∷◌, some, Bytes, Text, codes, text_eq_refl, ok,
}
use digital_garden_visitor_c.Decimal.{to_string}
use digital_garden_visitor_c.Store.Entry.{
  CountEntry, StoredCountEntry, Cbor, stored_count_entry_from,
}
use digital_garden_visitor_c.Store.Dynamo.{s, n, Item, get, Proc, done, get_item, put_item, ◌>>=◌}
use digital_garden_visitor_c.Store.Recent.{update_entry}
use digital_garden_visitor_c.Store.Client.{
  decode_item, get_response, get_count_entry, put_result, put_input, try_put_count_entry,
}
use digital_garden_visitor_c.Store.Increment.{attempt, attempts, maybe_increment_visitors}
use digital_garden_visitor_c.Store.Serial.{Visit}
use digital_garden_visitor_c.Store.Serial.Serve.{after_put}
use digital_garden_visitor_c.Store.System.{Database, System, Step}
use digital_garden_visitor_c.Store.System.Progress.{ReliableLaws}
use digital_garden_visitor_c.Store.System.Turns.{
  who, Scheduled, read_turn, write_turn, update_self, update_other,
}

-- What a visit stores over an entry, and its encoding.
pub record Writes (cbor : Cbor) (v : Visit) (entry updated : CountEntry) (value : Bytes)
    : Type 0 where
  pub updates : update_entry v.visitor v.now entry ≡ some updated
  pub stored : StoredCountEntry
  pub stores : stored_count_entry_from updated ≡ some stored
  pub encodes : cbor.to_cbor stored ≡ ok value

module _ (db : Database) (reliable : ReliableLaws db) (cbor : Cbor) (table_name name : Text) where
  abbrev pub call : Visit → Proc ℕ
  call v = maybe_increment_visitors cbor table_name v.visitor name v.now

  -- The counter is stored with this item.
  abbrev pub Has : System db → Item → Type 0
  Has σ item = db.item σ.state table_name name ≡ some item

  -- The other invocations stand where they stood.
  abbrev Others : ℕ → System db → System db → Type 0
  Others i σ τ = (j : ℕ) → i ≢ j → τ.procs j ≡ σ.procs j

  call_reads :
      (v : Visit)
      → call v
        ≡ get_item
            (record { table_name = table_name; key = (codes "key", s name) ∷ [] })
            (λ got.
              get_response cbor got
              >>= attempt cbor table_name v.visitor name v.now
                  (attempts cbor table_name v.visitor name v.now 4))
  unfolding maybe_increment_visitors attempts get_count_entry
  call_reads v = refl

  update_sends :
      (v : Visit) (item : Item) (entry updated : CountEntry) (value : Bytes) (again : Proc ℕ)
      → decode_item cbor item ≡ done entry
      → Writes cbor v entry updated value
      → (get_response cbor (ok (record { item = some item }))
          >>= attempt cbor table_name v.visitor name v.now again)
        ≡ put_item
            (put_input table_name name entry.count updated.count value)
            (after_put updated.count again)
  unfolding get_response attempt try_put_count_entry
  update_sends v item entry updated value again decodes w =
      rw (decodes, w.updates, w.stores, w.encodes) refl

  read_call :
      {σ τ : System db} (i : ℕ) (v : Visit) (item : Item) (entry updated : CountEntry)
      (value : Bytes) (step : Step db σ τ)
      → who step ≡ i
      → σ.procs i ≡ call v
      → Has σ item
      → decode_item cbor item ≡ done entry
      → Writes cbor v entry updated value
      → (again : Proc ℕ) × (τ.procs i
          ≡ put_item
              (put_input table_name name entry.count updated.count value)
              (after_put updated.count again))
        × Others i σ τ
        × Has τ item
  unfolding get
  read_call {σ} i v item entry updated value step mine calls has decodes w =
      let again = attempts cbor table_name v.visitor name v.now 4 in
      let after = read_turn db reliable i _ _ name step mine (calls ∙ call_reads v) refl in
      (
        again,
        rw (after, has)
            (update_self σ.procs i _ ∙ update_sends v item entry updated value again decodes w),
        rw after (λ j ne. update_other σ.procs i j _ ne),
        rw after has,
      )

  write_call :
      {σ τ : System db} (i initial count : ℕ) (item : Item) (value : Bytes) (again : Proc ℕ)
      (step : Step db σ τ)
      → who step ≡ i
      → σ.procs i ≡ put_item (put_input table_name name initial count value) (after_put count again)
      → Has σ item
      → get (codes "count") item ≡ some (n (to_string initial))
      → (τ.procs i ≡ done count)
        × Others i σ τ
        × Has τ (put_input table_name name initial count value).item
  unfolding get put_input put_result
  write_call {σ} i initial count item value again step mine sends has text =
      let input = put_input table_name name initial count value in
      let holds : db.Holds input (db.item σ.state table_name name) = rw has (
        reliable.conditions.equal input item (codes "count") (to_string initial) refl refl refl
          text) in
      let (b, after, applied) = write_turn db reliable i input _ name step mine sends refl holds in
      (
        rw after (update_self σ.procs i _),
        rw after (λ j ne. update_other σ.procs i j _ ne),
        rw (after, applied.stored table_name name, text_eq_refl table_name, text_eq_refl name) refl,
      )

  put_input-count :
      (initial count : ℕ) (value : Bytes)
      → get (codes "count") (put_input table_name name initial count value).item
        ≡ some (n (to_string count))
  unfolding get put_input
  put_input-count initial count value = refl

  -- The condition does not keep a refreshed time. Let two invocations for one counter both read its
  -- item before either writes, over a database that answers every request, and let what the first
  -- one puts leave the count as it was, as for a visitor that was seen recently. Then both puts
  -- succeed and both invocations return their counts, and what is stored in the end is just what
  -- the second one makes of the item that it read: nothing of what the first one wrote is left.
  pub maybe_increment_visitors-overwrites :
      {σ τ : System db} (i j : ℕ) (v w : Visit) (item : Item) (entry first second : CountEntry)
      (first_value second_value : Bytes)
      → i ≢ j
      → σ.procs i ≡ call v
      → σ.procs j ≡ call w
      → Has σ item
      → get (codes "count") item ≡ some (n (to_string entry.count))
      → decode_item cbor item ≡ done entry
      → Writes cbor v entry first first_value
      → Writes cbor w entry second second_value
      → first.count ≡ entry.count
      → Scheduled σ (i ∷ j ∷ i ∷ j ∷ []) τ
      → (τ.procs i ≡ done first.count)
        × (τ.procs j ≡ done second.count)
        × Has τ (put_input table_name name entry.count second.count second_value).item
  maybe_increment_visitors-overwrites {σ} {τ} i j v w item entry first second first_value
        second_value ne calls_v calls_w has text decodes writes_v writes_w refreshes
        (_, step1, mine1, (_, step2, mine2, (_, step3, mine3, (_, step4, mine4, ends)))) =
      let (again_v, sends_v, others1, has1) =
        read_call i v item entry first first_value step1 mine1 calls_v has decodes writes_v in
      let (again_w, sends_w, others2, has2) =
        read_call j w item entry second second_value step2 mine2 (others1 j ne ∙ calls_w) has1
          decodes writes_w in
      let (done_v, others3, has3) =
        write_call i entry.count first.count item first_value again_v step3 mine3
          (others2 i (λ e. ne (sym e)) ∙ sends_v) has2 text in
      let same_count : get (codes "count")
            (put_input table_name name entry.count first.count first_value).item
          ≡ some (n (to_string entry.count)) =
        put_input-count entry.count first.count first_value ∙ rw refreshes refl in
      let (done_w, others4, has4) =
        write_call j entry.count second.count _ second_value again_w step4 mine4
          (others3 j ne ∙ sends_w) has3 same_count in
      (rw (← ends) (others4 i (λ e. ne (sym e)) ∙ done_v), rw (← ends) done_w, rw (← ends) has4)
