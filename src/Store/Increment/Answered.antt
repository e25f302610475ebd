-- ===== src/Store/Increment/Answered.antt =====
-- What `maybe_increment_visitors` of src/store.rs does when DynamoDB gives the same response to each
-- get and the same response to each put.
use digital_garden_visitor_c.Common.{
  ℕ, zero, suc, ◌≡◌, refl, ap, ◌∙◌, [], ◌∷◌, none, some, Bytes, Text, codes, Result, ok, err,
  if◌then◌else◌,
}
use digital_garden_visitor_c.Store.Time.{SystemTime}
use digital_garden_visitor_c.Store.Visitor.{StoredVisitor, Visitor, stored_visitor_from}
use digital_garden_visitor_c.Store.Entry.{
  StoredCountEntry, CountEntry, Cbor, stored_count_entry_from,
}
use digital_garden_visitor_c.Store.Dynamo.{
  GetItemOutput, PutItemError, conditional_check_failed, unhandled, message, put_item_error, Item,
  Proc, done, fail, panic, get_item, put_item, ◌>>=◌,
}
use digital_garden_visitor_c.Store.Recent.{update_entry}
use digital_garden_visitor_c.Store.Client.{
  decode_item, get_response, get_count_entry, put_result, try_put_new_count_entry,
  try_put_count_entry,
}
use digital_garden_visitor_c.Store.Increment.{attempt, attempts, maybe_increment_visitors}

module _ (got : Result GetItemOutput ℕ) (put : Result (Unit {0}) PutItemError) where
  -- The end of a function that gets these responses.
  abbrev pub answered : {A : Type 0} → Proc A → Proc A
  answered (done a) = done a
  answered (fail e) = fail e
  answered panic = panic
  answered (get_item i k) = answered (k got)
  answered (put_item i k) = answered (k put)

-- The end of the loop for a response to the puts: the count that was put, the error of giving up,
-- or the error of the put.
abbrev pub put_end : ℕ → Result (Unit {0}) PutItemError → Proc ℕ
put_end count (ok _) = done count
put_end count (err conditional_check_failed) =
    fail (message (codes "max attempts for optimistic locking exceeded"))
put_end count (err (unhandled e)) = fail (put_item_error e)

-- The error of giving up.
abbrev pub exceeded : Proc ℕ
exceeded = fail (message (codes "max attempts for optimistic locking exceeded"))

-- A round that ends with a put, and the rounds after it.
put_result-answered :
    (got : Result GetItemOutput ℕ) (put : Result (Unit {0}) PutItemError) (again : Proc ℕ)
    (count : ℕ)
    → (put ≡ err conditional_check_failed → answered got put again ≡ exceeded)
    → answered got put (put_result put >>= λ written. if written then done count else again)
      ≡ put_end count put
unfolding put_result
put_result-answered got (ok _) again count h = refl
put_result-answered got (err conditional_check_failed) again count h = h refl
put_result-answered got (err (unhandled e)) again count h = refl

module _ (cbor : Cbor) (table_name : Text) (visitor : Visitor) (name : Text) (now : SystemTime)
    (got : Result GetItemOutput ℕ) where
  -- A response to the get after which an attempt comes to its put, and the count that it puts: the
  -- item is missing, or it decodes and the update of its entry does not panic; and what is to be
  -- put can be stored and encoded.
  pub data Ready (count : ℕ) : Type 0 where
    creates :
        (stored : StoredVisitor) (value : Bytes)
        → got ≡ ok (record { item = none })
        → stored_visitor_from visitor ≡ some stored
        → cbor.to_cbor (record { recent_visitors = stored ∷ [] }) ≡ ok value
        → count ≡ 1
        → Ready count
    updates :
        (item : Item) (entry updated : CountEntry) (stored : StoredCountEntry) (value : Bytes)
        → got ≡ ok (record { item = some item })
        → decode_item cbor item ≡ done entry
        → update_entry visitor now entry ≡ some updated
        → stored_count_entry_from updated ≡ some stored
        → cbor.to_cbor stored ≡ ok value
        → count ≡ updated.count
        → Ready count

  module _ (put : Result (Unit {0}) PutItemError) (count : ℕ) where
    read-answered :
        (again : Proc ℕ)
        → Ready count
        → (put ≡ err conditional_check_failed → answered got put again ≡ exceeded)
        → answered got put
            (get_response cbor got >>= attempt cbor table_name visitor name now again)
          ≡ put_end count put
    unfolding get_response attempt try_put_new_count_entry try_put_count_entry
    read-answered again (creates stored value g s e c) h =
        rw (g, s, e, c)
          (put_result-answered (ok (record { item = none })) put again 1 (λ p. rw (← g) (h p)))
    read-answered again (updates item entry updated stored value g d u s e c) h =
        rw (g, d, u, s, e, c)
          (put_result-answered (ok (record { item = some item })) put again updated.count
            (λ p. rw (← g) (h p)))

    attempts-answered :
        (left : ℕ)
        → Ready count
        → answered got put (attempts cbor table_name visitor name now (suc left))
          ≡ put_end count put
    unfolding attempts get_count_entry
    attempts-answered zero ready = read-answered _ ready (λ _. refl)
    attempts-answered (suc left) ready =
        read-answered _ ready (λ e. attempts-answered left ready ∙ ap (put_end count) e)

    -- If an attempt can come to its put and every put has the same response, then
    -- `maybe_increment_visitors` returns the count that it puts if the puts succeed; it fails with
    -- the error of giving up if their condition fails, each time; and it fails with the error of
    -- the put if they fail otherwise.
    pub maybe_increment_visitors-answered :
        Ready count
        → answered got put (maybe_increment_visitors cbor table_name visitor name now)
          ≡ put_end count put
    unfolding maybe_increment_visitors
    maybe_increment_visitors-answered ready = attempts-answered 4 ready
