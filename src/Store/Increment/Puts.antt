-- ===== src/Store/Increment/Puts.antt =====
-- The requests of `maybe_increment_visitors`, src/store.rs.
use digital_garden_visitor_c.Common.{
  ℕ, zero, suc, ◌+◌, ◌^◌, ◌≤◌, ◌<◌, ◌≡◌, refl, arith, List, [], ◌∷◌, none, some, ◌⊎◌, inl, inr,
  Bytes, Text, codes, Result, ok, err, if◌then◌else◌, u64, length, >>=-eq-some, Option-cases,
}
use digital_garden_visitor_c.Store.Time.{SystemTime}
use digital_garden_visitor_c.Store.Visitor.{StoredVisitor, Visitor, stored_visitor_from}
use digital_garden_visitor_c.Store.Entry.{
  CountEntry, StoredCountEntry, Cbor, stored_count_entry_from, store_visitors, max_recent_visitors,
  max_attempts_for_optimistic_locking,
}
use digital_garden_visitor_c.Store.Dynamo.{
  s, GetItemInput, GetItemOutput, PutItemInput, PutItemError, conditional_check_failed, unhandled,
  put_item_error, Proc, done, fail, ◌>>=◌,
}
use digital_garden_visitor_c.Store.Dynamo.Requests.{AfterPut, Requests}
use digital_garden_visitor_c.Store.Recent.{
  find_recent_mut, record_visit, prune_visitors, update_entry, filter_recent,
}
use digital_garden_visitor_c.Store.Recent.Prune.{prune_visitors-length-le}
use digital_garden_visitor_c.Store.Client.{
  get_response, get_count_entry, put_result, put_new_input, put_input,
}
use digital_garden_visitor_c.Store.Client.Shapes.{
  count_of-lt, decode_item-cases, try_put_new_count_entry-cases, try_put_count_entry-cases,
}
use digital_garden_visitor_c.Store.Increment.{attempt, attempts, maybe_increment_visitors}

-- A count as the update leaves it: the initial count, or one more.
abbrev pub Follows : ℕ → ℕ → Type 0
Follows initial count = (count ≡ initial) ⊎ (count ≡ u64 (initial + 1))

-- The get of a counter.
abbrev pub IsRead : Text → Text → GetItemInput → Type 0
IsRead table_name name i = i ≡ record { table_name = table_name; key = (codes "key", s name) ∷ [] }

-- The put of a new counter, and what follows on a response.
pub record IsCreation (cbor : Cbor) (table_name name : Text) (i : PutItemInput) (k : AfterPut ℕ)
    : Type 0 where
  pub visitor : StoredVisitor
  pub value : Bytes
  pub encoded : cbor.to_cbor (record { recent_visitors = visitor ∷ [] }) ≡ ok value
  pub input : i ≡ put_new_input table_name name value
  pub written : k (ok tt) ≡ done 1
  pub unknown : (e : ℕ) → k (err (unhandled e)) ≡ fail (put_item_error e)

-- The put of a counter on the condition that its count is an initial one, and what follows on a
-- response.
pub record IsUpdate (cbor : Cbor) (table_name name : Text) (i : PutItemInput) (k : AfterPut ℕ)
    : Type 0 where
  pub initial : ℕ
  pub count : ℕ
  pub visitors : StoredCountEntry
  pub value : Bytes
  pub few : length visitors.recent_visitors ≤ max_recent_visitors
  pub encoded : cbor.to_cbor visitors ≡ ok value
  pub input : i ≡ put_input table_name name initial count value
  pub word : initial < 2 ^ 64
  pub follows : Follows initial count
  pub written : k (ok tt) ≡ done count
  pub unknown : (e : ℕ) → k (err (unhandled e)) ≡ fail (put_item_error e)

abbrev pub IsVisitPut : Cbor → Text → Text → PutItemInput → AfterPut ℕ → Type 0
IsVisitPut cbor table_name name i k =
    IsCreation cbor table_name name i k ⊎ IsUpdate cbor table_name name i k

record_visit-Follows :
    (visitor : Visitor) (now : SystemTime) (entry : CountEntry) {e : CountEntry}
    → record_visit visitor now entry ≡ some e
    → Follows entry.count e.count
unfolding record_visit
record_visit-Follows visitor now entry h =
    let (found, run, e) = >>=-eq-some (find_recent_mut entry visitor now) _ h in grind arith

pub update_entry-Follows :
    (visitor : Visitor) (now : SystemTime) (entry : CountEntry) {e : CountEntry}
    → update_entry visitor now entry ≡ some e
    → Follows entry.count e.count
unfolding update_entry prune_visitors
update_entry-Follows visitor now entry h =
    let (visited, run, rest) = >>=-eq-some (record_visit visitor now entry) _ h in
    let (recent, _, last) = >>=-eq-some (filter_recent now visited.recent_visitors) _ rest in
    ground (arith, record_visit-Follows visitor now entry run)

pub update_entry-length-le :
    (visitor : Visitor) (now : SystemTime) (entry : CountEntry) {e : CountEntry}
    → update_entry visitor now entry ≡ some e
    → length e.recent_visitors ≤ max_recent_visitors
unfolding update_entry
update_entry-length-le visitor now entry h =
    let (visited, _, rest) = >>=-eq-some (record_visit visitor now entry) _ h in
    prune_visitors-length-le visited now max_recent_visitors rest

store_visitors-length :
    (vs : List Visitor) {ss : List StoredVisitor}
    → store_visitors vs ≡ some ss
    → length ss ≡ length vs
unfolding store_visitors
store_visitors-length [] h = ground arith
store_visitors-length (v ∷ vs) h =
    let (w, _, rest) = >>=-eq-some (stored_visitor_from v) _ h in
    let (ws, run, last) = >>=-eq-some (store_visitors vs) _ rest in
    ground (arith, store_visitors-length vs run)

stored_count_entry_from-length :
    (entry : CountEntry) {value : StoredCountEntry}
    → stored_count_entry_from entry ≡ some value
    → length value.recent_visitors ≡ length entry.recent_visitors
unfolding stored_count_entry_from
stored_count_entry_from-length entry h =
    let (vs, run, last) = >>=-eq-some (store_visitors entry.recent_visitors) _ h in
    ground (arith, store_visitors-length entry.recent_visitors run)

-- The requests of a call of `maybe_increment_visitors` for a counter.
abbrev pub Honest : Cbor → Text → Text → Proc ℕ → Type 0
Honest cbor table_name name = Requests (IsRead table_name name) (IsVisitPut cbor table_name name)

module _ (cbor : Cbor) (table_name : Text) (visitor : Visitor) (name : Text)
    (now : SystemTime) where
  response-Honest :
      (again : Proc ℕ) (count : ℕ) (r : Result (Unit {0}) PutItemError)
      → Honest cbor table_name name again
      → Honest cbor table_name name
          (put_result r >>= λ written. if written then done count else again)
  unfolding put_result
  response-Honest again count (ok _) h = tt
  response-Honest again count (err conditional_check_failed) h = h
  response-Honest again count (err (unhandled e)) h = tt

  attempt-Honest-none :
      (again : Proc ℕ)
      → Honest cbor table_name name again
      → Honest cbor table_name name (attempt cbor table_name visitor name now again none)
  unfolding attempt
  attempt-Honest-none again h = elim (try_put_new_count_entry-cases cbor table_name name visitor) [
    | inl e ↦ rw e tt
    | inr (inl (_, e)) ↦ rw e tt
    | inr (inr (stored, value, encoded, e)) ↦ rw e (
      inl (record {
        visitor = stored;
        value = value;
        encoded = encoded;
        input = refl;
        written = unfold put_result in refl;
        unknown = λ x. unfold put_result in refl;
      }),
      λ r. response-Honest again 1 r h,
    )
  ]

  attempt-Honest-some :
      (again : Proc ℕ) (entry : CountEntry)
      → entry.count < 2 ^ 64
      → Honest cbor table_name name again
      → Honest cbor table_name name (attempt cbor table_name visitor name now again (some entry))
  unfolding attempt
  attempt-Honest-some again entry word h = elim (Option-cases (update_entry visitor now entry)) [
    | inl e ↦ rw e tt
    | inr (updated, run) ↦
        elim (try_put_count_entry-cases cbor table_name name entry.count updated) [
          | inl e ↦ rw (run, e) tt
          | inr (inl (_, e)) ↦ rw (run, e) tt
          | inr (inr (stored, value, p, encoded, e)) ↦
              rw (run, e)
                (
                  inr (record {
                    initial = entry.count;
                    count = updated.count;
                    visitors = stored;
                    value = value;
                    few = omega (
                      arith,
                      stored_count_entry_from-length updated p,
                      update_entry-length-le visitor now entry run,
                    );
                    encoded = encoded;
                    input = refl;
                    word = word;
                    follows = update_entry-Follows visitor now entry run;
                    written = unfold put_result in refl;
                    unknown = λ x. unfold put_result in refl;
                  }),
                  λ r. response-Honest again updated.count r h,
                )
        ]
  ]

  read-Honest :
      (again : Proc ℕ) (r : Result GetItemOutput ℕ)
      → Honest cbor table_name name again
      → Honest cbor table_name name
          (get_response cbor r >>= attempt cbor table_name visitor name now again)
  unfolding get_response
  read-Honest again (err e) h = tt
  read-Honest again (ok output) h = elim (Option-cases output.item) [
    | inl e ↦ rw e (attempt-Honest-none again h)
    | inr (item, e) ↦ elim (decode_item-cases cbor item) [
      | inl (_, p) ↦ rw (e, p) tt
      | inr (entry, p, q) ↦ rw (e, p) (attempt-Honest-some again entry (count_of-lt item q) h)
    ]
  ]

  attempts-Honest :
      (left : ℕ) → Honest cbor table_name name (attempts cbor table_name visitor name now left)
  unfolding attempts get_count_entry
  attempts-Honest zero = tt
  attempts-Honest (suc left) = (refl, λ r. read-Honest _ r (attempts-Honest left))

  -- Whatever the responses, `maybe_increment_visitors` sends two kinds of requests: the get of the
  -- counter, and a put that creates it or that writes an initial count or one more (in 64 bits), on
  -- the condition that the stored count is the initial one.
  pub maybe_increment_visitors-Honest :
      Honest cbor table_name name (maybe_increment_visitors cbor table_name visitor name now)
  unfolding maybe_increment_visitors
  maybe_increment_visitors-Honest = attempts-Honest max_attempts_for_optimistic_locking
