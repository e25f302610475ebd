-- ===== src/Store/System/Effects.antt =====
-- What the puts of src/store.rs do to the stored counts.
use digital_garden_visitor_c.Common.{
  ℕ, ◌+◌, ◌^◌, ◌<◌, ◌≡◌, refl, ◌∙◌, arith, false, Option, none, some, ◌⊎◌, inl, inr, Bytes, Text,
  codes, text_eq, text_eq_refl, text_eq-to_eq, Result, ok, err, u64, Bool-cases,
}
use digital_garden_visitor_c.Decimal.{to_string, parse_u64}
use digital_garden_visitor_c.Decimal.RoundTrip.{parse_u64-to_string}
use digital_garden_visitor_c.Store.Entry.{Cbor}
use digital_garden_visitor_c.Store.Dynamo.{s, n, Item, get, PutItemInput, PutItemError, done}
use digital_garden_visitor_c.Store.Dynamo.Requests.{AfterPut}
use digital_garden_visitor_c.Store.Client.{count_of, put_input, put_new_input}
use digital_garden_visitor_c.Store.Increment.Puts.{Follows, IsVisitPut}
use digital_garden_visitor_c.Store.System.{Database, DatabaseLaws, Applied}

abbrev pub count_of_item : Option Item → Option ℕ
count_of_item none = none
count_of_item (some item) = elim (count_of item) [ ok c ↦ some c | err _ ↦ none ]

-- The count that is stored for a counter, if a valid item is.
unfoldable pub count_in : (db : Database) → db.State → Text → Text → Option ℕ
count_in db a table_name name = count_of_item (db.item a table_name name)

-- A count from one state to the next: the same, or a new counter at 1, or one more.
abbrev pub Advances : Option ℕ → Option ℕ → Type 0
Advances before after =
    (after ≡ before)
    ⊎ ((before ≡ none) × (after ≡ some 1))
    ⊎ ((c : ℕ) × (before ≡ some c) × (after ≡ some (u64 (c + 1))))

count_of-put_new_input :
    (table_name name : Text) (value : Bytes)
    → count_of (put_new_input table_name name value).item ≡ ok 1
unfolding count_of put_new_input get parse_u64
count_of-put_new_input table_name name value = refl

count_of-put_input :
    (table_name name : Text) (initial count : ℕ) (value : Bytes)
    → count < 2 ^ 64
    → count_of (put_input table_name name initial count value).item ≡ ok count
unfolding count_of put_input get
count_of-put_input table_name name initial count value h =
    ground (arith, parse_u64-to_string count h)

pub count_of-text :
    (item : Item) (c : ℕ)
    → c < 2 ^ 64
    → get (codes "count") item ≡ some (n (to_string c))
    → count_of item ≡ ok c
unfolding count_of
count_of-text item c h e = rw e (ground (arith, parse_u64-to_string c h))

count_of_item-ok : (item : Item) (c : ℕ) → count_of item ≡ ok c → count_of_item (some item) ≡ some c
count_of_item-ok item c h = ground arith

module _ (db : Database) (laws : DatabaseLaws db) (table_name name : Text) (a b : db.State) where
  -- A put that was applied: the counter's own count, and those of the others.
  Applied-self :
      (i : PutItemInput)
      → i.table_name ≡ table_name
      → Applied db a i name b
      → count_in db b table_name name ≡ count_of_item (some i.item)
  unfolding count_in
  Applied-self i e h = rw (h.stored table_name name, e, text_eq_refl table_name, text_eq_refl name)

  pub Applied-other :
      (i : PutItemInput) (other : Text)
      → text_eq other name ≡ false
      → Applied db a i name b
      → count_in db b table_name other ≡ count_in db a table_name other
  unfolding count_in
  Applied-other i other e h = rw (h.stored table_name other, e) (ground arith)

  pub Applied-creation :
      (value : Bytes)
      → Applied db a (put_new_input table_name name value) name b
      → (count_in db a table_name name ≡ none) × (count_in db b table_name name ≡ some 1)
  unfolding count_in put_new_input get
  Applied-creation value h = (
    let absent : db.item a table_name name ≡ none =
          laws.not_exists (put_new_input table_name name value) _ refl refl h.held in
        rw absent,
    Applied-self (put_new_input table_name name value) refl h
        ∙ cc (count_of-put_new_input table_name name value),
  )

  pub Applied-update :
      (initial count : ℕ) (value : Bytes)
      → initial < 2 ^ 64
      → count < 2 ^ 64
      → Applied db a (put_input table_name name initial count value) name b
      → (count_in db a table_name name ≡ some initial)
        × (count_in db b table_name name ≡ some count)
  unfolding count_in put_input get
  Applied-update initial count value hi hc h =
      let (stored, e, c) =
        laws.equals (put_input table_name name initial count value) _ (codes "count")
          (n (to_string initial)) refl refl refl h.held in
      let e' : db.item a table_name name ≡ some stored = e in
      (
        rw e' (count_of_item-ok stored initial (count_of-text stored initial hi c)),
        Applied-self (put_input table_name name initial count value) refl h
            ∙ count_of_item-ok _ count (count_of-put_input table_name name initial count value hc),
      )

pub Follows-lt : (initial count : ℕ) → initial < 2 ^ 64 → Follows initial count → count < 2 ^ 64
Follows-lt initial count h f = omega arith

module _ (db : Database) (laws : DatabaseLaws db) (cbor : Cbor) (table_name name : Text)
    (a b : db.State) where
  Applied-Advances_self :
      (i : PutItemInput) (k : AfterPut ℕ)
      → IsVisitPut cbor table_name name i k
      → Applied db a i name b
      → Advances (count_in db a table_name name) (count_in db b table_name name)
  Applied-Advances_self i k (inl c) h =
      inr (inl (Applied-creation db laws table_name name a b c.value (rw c.input at h)))
  Applied-Advances_self i k (inr u) h =
      let (before, after) =
        Applied-update db laws table_name name a b u.initial u.count u.value u.word
          (Follows-lt u.initial u.count u.word u.follows) (rw u.input at h) in
      elim u.follows [ inl e ↦ inl (cc) | inr e ↦ inr (inr (u.initial, before, cc)) ]

  -- A put that succeeds stores the count that its invocation then returns.
  Applied-result :
      (i : PutItemInput) (k : AfterPut ℕ)
      → IsVisitPut cbor table_name name i k
      → Applied db a i name b
      → (c : ℕ) × (k (ok tt) ≡ done c) × (count_in db b table_name name ≡ some c)
  Applied-result i k (inl c) h =
      (1, c.written, (Applied-creation db laws table_name name a b c.value (rw c.input at h)).1)
  Applied-result i k (inr u) h = (
    u.count,
    u.written,
    (Applied-update db laws table_name name a b u.initial u.count u.value u.word
        (Follows-lt u.initial u.count u.word u.follows) (rw u.input at h)).1,
  )

  pub visit_key :
      (i : PutItemInput) (k : AfterPut ℕ)
      → IsVisitPut cbor table_name name i k
      → (get (codes "key") i.item ≡ some (s name)) × (i.table_name ≡ table_name)
  unfolding get put_new_input put_input
  visit_key i k (inl c) = rw c.input (refl, refl)
  visit_key i k (inr u) = rw u.input (refl, refl)

  -- What a put of a visit does to the count of any counter, whatever its response.
  pub put-Advances :
      (i : PutItemInput) (k : AfterPut ℕ) (r : Result (Unit {0}) PutItemError) (other : Text)
      → IsVisitPut cbor table_name name i k
      → db.Put a i r b
      → Advances (count_in db a table_name other) (count_in db b table_name other)
  put-Advances i k r other v p =
      let (key, table) = visit_key i k v in
      elim (laws.atomic a i r b name key p) [
        | inl same ↦ inl (unfold count_in in rw (same table_name other))
        | inr applied ↦ elim (Bool-cases (text_eq other name)) [
          | inl e ↦ rw (text_eq-to_eq other name e) (Applied-Advances_self i k v applied)
          | inr e ↦ inl (Applied-other db laws table_name name a b i other e applied)
        ]
      ]

  pub put_result_stored :
      (i : PutItemInput) (k : AfterPut ℕ)
      → IsVisitPut cbor table_name name i k
      → db.Put a i (ok tt) b
      → (c : ℕ) × (k (ok tt) ≡ done c) × (count_in db b table_name name ≡ some c)
  put_result_stored i k v p = Applied-result i k v (laws.succeeded a i b name (visit_key i k v).0 p)
