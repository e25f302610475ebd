-- ===== src/Store/System/Answers/Steps.antt =====
-- Each step of invocations of src/store.rs within one second leaves the counter good.
use digital_garden_visitor_c.Common.{
  ℕ, ◌≤◌, ◌<◌, ◌≡◌, refl, ◌∙◌, arith, false, inl, inr, Text, text_eq, text_eq_refl, Result, ok, ltb,
  Bool-cases,
}
use digital_garden_visitor_c.Store.Time.{SystemTime}
use digital_garden_visitor_c.Store.Entry.{Cbor}
use digital_garden_visitor_c.Store.Dynamo.{
  get, GetItemInput, GetItemOutput, PutItemInput, PutItemError, Proc, get_item, put_item,
}
use digital_garden_visitor_c.Store.Dynamo.Requests.{AfterPut}
use digital_garden_visitor_c.Store.Increment.Puts.{IsRead, IsVisitPut, Honest}
use digital_garden_visitor_c.Store.System.{
  Database, DatabaseLaws, System, update, Step, read, write, AllHonest,
}
use digital_garden_visitor_c.Store.System.Answers.{IsGood, Sound}
use digital_garden_visitor_c.Store.System.Effects.{visit_key}
use digital_garden_visitor_c.Store.System.Progress.{ReliableLaws}
use digital_garden_visitor_c.Store.System.Progress.Raises.{other_put-same}
use digital_garden_visitor_c.Store.System.Counts.{Step-AllHonest}
use digital_garden_visitor_c.Store.System.Progress.Finishes.{Reaches, here, further}
use digital_garden_visitor_c.Store.System.Progress.Invariant.{update-all}

module _ (db : Database) (laws : DatabaseLaws db) (reliable : ReliableLaws db) (cbor : Cbor)
    (table_name name : Text) (names : ℕ → Text) (count : ℕ) (second : SystemTime)
    (ours : (i : ℕ) → i < count → names i ≡ name)
    (others : (i : ℕ) → count ≤ i → text_eq name (names i) ≡ false) where
  -- The counter is good, and so are the invocations for it.
  pub record AllSound (σ : System db) : Type 0 where
    pub good : IsGood cbor second (db.item σ.state table_name name)
    pub sound : (i : ℕ) → i < count → Sound cbor second (σ.procs i)

  update-AllSound :
      (σ : System db) (b : db.State) (i : ℕ) (q : Proc ℕ)
      → AllSound σ
      → IsGood cbor second (db.item b table_name name)
      → (i < count → Sound cbor second q)
      → AllSound (record { state = b; procs = update σ.procs i q })
  update-AllSound σ b i q all good h = record {
    good = good;
    sound = update-all (λ j p. j < count → Sound cbor second p) σ.procs i q all.sound h;
  }

  read-AllSound :
      (σ : System db) (i : ℕ) (input : GetItemInput) (k : Result GetItemOutput ℕ → Proc ℕ)
      (r : Result GetItemOutput ℕ)
      → AllSound σ
      → Honest cbor table_name (names i) (σ.procs i)
      → σ.procs i ≡ get_item input k
      → db.Get σ.state input r
      → AllSound (record σ { procs = update σ.procs i (k r) })
  unfolding get
  read-AllSound σ i input k r all honest e g =
      update-AllSound σ σ.state i (k r) all all.good (λ below.
        let (is_read, _) = rw e at honest in
        let read_of : IsRead table_name (names i) input = is_read in
        let named = ours i below in
        let got : r ≡ ok (record { item = db.item σ.state table_name name }) =
          reliable.gets σ.state input r (names i) (rw read_of refl) g ∙ rw (read_of, named) refl in
        let sound : Sound cbor second (get_item input k) = rw e at (all.sound i below) in
        rw got (sound (db.item σ.state table_name name) all.good))

  own-AllSound :
      (σ : System db) (i : ℕ) (input : PutItemInput) (k : AfterPut ℕ)
      (r : Result (Unit {0}) PutItemError) (b : db.State)
      → i < count
      → AllSound σ
      → σ.procs i ≡ put_item input k
      → IsVisitPut cbor table_name name input k
      → db.Put σ.state input r b
      → AllSound (record { state = b; procs = update σ.procs i (k r) })
  own-AllSound σ i input k r b below all e visit p =
      let (key, table) = visit_key db laws cbor table_name name σ.state b input k visit in
      let sound : Sound cbor second (put_item input k) = rw e at (all.sound i below) in
      let (good, written, refused) = sound in
      elim (reliable.puts σ.state input r b name key p) [
        | inl (ended, applied) ↦
            update-AllSound σ b i (k r) all
              (rw
                (applied.stored table_name name, table, text_eq_refl table_name, text_eq_refl name)
                good)
              (λ _. rw ended written)
        | inr (ended, _, same) ↦
            update-AllSound σ b i (k r) all (rw (same table_name name) (all.good))
              (λ _. rw ended refused)
      ]

  other-AllSound :
      (σ : System db) (i : ℕ) (input : PutItemInput) (k : AfterPut ℕ)
      (r : Result (Unit {0}) PutItemError) (b : db.State)
      → count ≤ i
      → AllSound σ
      → IsVisitPut cbor table_name (names i) input k
      → db.Put σ.state input r b
      → AllSound (record { state = b; procs = update σ.procs i (k r) })
  other-AllSound σ i input k r b over all visit p =
      let same =
        other_put-same db laws reliable cbor table_name name (names i) σ.state b input k r
          (others i over) visit p in
      update-AllSound σ b i (k r) all (rw same (all.good)) (λ below. absurd (omega arith))

  pub Step-AllSound :
      {σ τ : System db}
      → Step db σ τ
      → ((i : ℕ) → Honest cbor table_name (names i) (σ.procs i))
      → AllSound σ
      → AllSound τ
  Step-AllSound {σ} (read i input k r e g) honest all =
      read-AllSound σ i input k r all (honest i) e g
  Step-AllSound {σ} (write i input k r b e p) honest all =
      let visit = (rw e at (honest i)).0 in
      elim (Bool-cases (ltb i count)) [
        | inl inside ↦
            let below : i < count = ground arith in
            let named = ours i below in
            own-AllSound σ i input k r b below all e (rw named at visit) p
        | inr outside ↦ other-AllSound σ i input k r b (ground arith) all visit p
      ]

  pub Reaches-AllSound :
      {σ τ : System db}
      → Reaches σ τ
      → AllHonest cbor table_name names σ
      → AllSound σ
      → AllSound τ × AllHonest cbor table_name names τ
  Reaches-AllSound here honest all = (all, honest)
  Reaches-AllSound (further run step) honest all =
      let (before, known) = Reaches-AllSound run honest all in
      (Step-AllSound step known before, Step-AllHonest db laws cbor table_name names step known)
