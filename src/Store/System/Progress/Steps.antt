-- ===== src/Store/System/Progress/Steps.antt =====
-- Each step of invocations of src/store.rs keeps the invariant of their progress.
use mathlib.Core.Path.{subst}
use digital_garden_visitor_c.Common.{
  ℕ, ◌+◌, ◌-◌, ◌^◌, ◌≤◌, ◌<◌, ◌≡◌, refl, ◌∙◌, arith, false, Option, some, inl, inr, Text, codes,
  Result, ok, ltb, Bool-cases, text_eq,
}
use digital_garden_visitor_c.Store.Entry.{Cbor}
use digital_garden_visitor_c.Store.Dynamo.{
  s, get, GetItemInput, GetItemOutput, PutItemInput, PutItemError, conditional_check_failed, Proc,
  get_item, put_item,
}
use digital_garden_visitor_c.Store.Dynamo.Requests.{AfterPut}
use digital_garden_visitor_c.Store.Increment.Patient.{Patient}
use digital_garden_visitor_c.Store.Increment.Puts.{IsRead, IsVisitPut, Honest}
use digital_garden_visitor_c.Store.Increment.Contention.{
  raised, Reads, Answers, Costs, Costs-le, Costs-later,
}
use digital_garden_visitor_c.Store.System.{
  Database, DatabaseLaws, System, update, Step, read, write,
}
use digital_garden_visitor_c.Store.System.Effects.{visit_key}
use digital_garden_visitor_c.Store.System.Progress.{ReliableLaws, returned, total-le}
use digital_garden_visitor_c.Store.System.Progress.Invariant.{
  update-all, Waits, Waits-later, Inv, total-step, kept-Inv,
}
use digital_garden_visitor_c.Store.System.Progress.Raises.{Raises, Applied-Raises, other_put-same}

module _ (db : Database) (laws : DatabaseLaws db) (reliable : ReliableLaws db) (cbor : Cbor)
    (table_name name : Text) (names : ℕ → Text) (count : ℕ) (o : Option ℕ)
    (ours : (i : ℕ) → i < count → names i ≡ name)
    (others : (i : ℕ) → count ≤ i → text_eq name (names i) ≡ false) where
  abbrev Kept : System db → Type 0
  Kept σ = Inv db cbor table_name name names count o σ

  read-Inv :
      (σ : System db) (i : ℕ) (input : GetItemInput) (k : Result GetItemOutput ℕ → Proc ℕ)
      (r : Result GetItemOutput ℕ)
      → Kept σ
      → σ.procs i ≡ get_item input k
      → db.Get σ.state input r
      → Kept (record σ { procs = update σ.procs i (k r) })
  unfolding get
  read-Inv σ i input k r inv e g =
      let (is_read, rest) = rw e at (inv.honest i) in
      let read_of : IsRead table_name (names i) input = is_read in
      let key : get (codes "key") input.key ≡ some (s (names i)) = rw read_of refl in
      let got : r ≡ ok (record { item = db.item σ.state table_name (names i) }) =
        reliable.gets σ.state input r (names i) key g ∙ rw read_of refl in
      kept-Inv db cbor table_name name names count o σ σ.state i (get_item input k) (k r) inv e refl
        refl (rest r)
        (λ below.
          let named = ours i below in
          let reads : Reads db.Holds inv.now r = rw (got, named) (inv.counter) in
          let costs : Costs db.Holds (5 - (raised inv.now - raised o)) inv.now (get_item input k) =
            rw e at (inv.costs i below) in
          let waits : Patient (get_item input k) = rw e at (inv.waits i below) in
          (
            Costs-le db.Holds (k r) _ (5 - (raised inv.now - raised o)) inv.now (omega arith)
                (costs r inv.now (omega arith) reads),
            waits r,
          ))

  -- A put that was applied raises the counter by one at most, and its invocation returns.
  applied-Inv :
      (σ : System db) (i : ℕ) (input : PutItemInput) (k : AfterPut ℕ) (b : db.State) (inv : Kept σ)
      → i < count
      → σ.procs i ≡ put_item input k
      → Honest cbor table_name (names i) (k (ok tt))
      → Raises (db.item b table_name name) inv.now k
      → Kept (record { state = b; procs = update σ.procs i (k (ok tt)) })
  applied-Inv σ i input k b inv below e honest raises =
      let sum =
        total-step db cbor table_name name names count o σ i (put_item input k) (k (ok tt)) below e
          refl in
      let done_one : returned (k (ok tt)) ≡ 1 = rw raises.returns refl in
      let few = inv.few in
      let order = inv.order in
      let low = raises.low in
      let high = raises.high in
      record {
        now = raises.now;
        counter = raises.counter;
        order = omega arith;
        few = omega arith;
        honest =
            update-all (λ j p. Honest cbor table_name (names j) p) σ.procs i (k (ok tt)) inv.honest
              honest;
        costs =
            update-all
              (λ j p. j < count → Costs db.Holds (5 - (raised raises.now - raised o)) raises.now p)
              σ.procs i (k (ok tt))
              (λ j inside.
                Costs-le db.Holds (σ.procs j) _ (5 - (raised raises.now - raised o)) raises.now
                  (omega arith)
                  (Costs-later db.Holds (σ.procs j) (5 - (raised inv.now - raised o)) inv.now
                    raises.now low (inv.costs j inside)))
              (λ _. rw raises.returns tt);
        waits =
            update-all (λ j p. j < count → Waits (raised o) (raised raises.now) p) σ.procs i
              (k (ok tt))
              (λ j inside.
                Waits-later (raised o) (raised inv.now) (raised raises.now) (σ.procs j) low
                  (inv.waits j inside))
              (λ _. rw raises.returns (raises.one, omega arith, omega arith));
      }

  -- A put for the counter.
  own-Inv :
      (σ : System db) (i : ℕ) (input : PutItemInput) (k : AfterPut ℕ)
      (r : Result (Unit {0}) PutItemError) (b : db.State)
      → raised o + count + 1 < 2 ^ 64
      → i < count
      → Kept σ
      → σ.procs i ≡ put_item input k
      → IsVisitPut cbor table_name name input k
      → ((r : Result (Unit {0}) PutItemError) → Honest cbor table_name (names i) (k r))
      → db.Put σ.state input r b
      → Kept (record { state = b; procs = update σ.procs i (k r) })
  own-Inv σ i input k r b room below inv e visit rest p =
      let (key, table) = visit_key db laws cbor table_name name σ.state b input k visit in
      let most = total-le count σ.procs in
      let few = inv.few in
      elim (reliable.puts σ.state input r b name key p) [
        | inl (ended, applied) ↦ rw ended (
            applied-Inv σ i input k b inv below e (rest (ok tt)) (
              Applied-Raises db laws cbor table_name name σ.state b inv.now input k inv.counter
                (omega arith) visit applied))
        | inr (ended, fails, same) ↦
            let costs : Costs db.Holds (5 - (raised inv.now - raised o)) inv.now
                (put_item input k) =
              rw e at (inv.costs i below) in
            let waits : Patient (put_item input k) = rw e at (inv.waits i below) in
            let answers : Answers db.Holds input inv.now r = rw ended (
              db.item σ.state table_name name,
              inv.counter,
              subst (λ t. ¬ db.Holds input (db.item σ.state t name)) table fails,
            ) in
            kept-Inv db cbor table_name name names count o σ b i (put_item input k) (k r) inv e refl
              (same table_name name) (rest r)
              (λ _. (
                Costs-le db.Holds (k r) _ (5 - (raised inv.now - raised o)) inv.now (omega arith)
                    (costs r inv.now (omega arith) answers),
                rw ended (waits conditional_check_failed),
              ))
      ]

  -- A put for another counter leaves this one alone.
  other-Inv :
      (σ : System db) (i : ℕ) (input : PutItemInput) (k : AfterPut ℕ)
      (r : Result (Unit {0}) PutItemError) (b : db.State)
      → count ≤ i
      → Kept σ
      → σ.procs i ≡ put_item input k
      → IsVisitPut cbor table_name (names i) input k
      → Honest cbor table_name (names i) (k r)
      → db.Put σ.state input r b
      → Kept (record { state = b; procs = update σ.procs i (k r) })
  other-Inv σ i input k r b over inv e visit rest p =
      let same =
        other_put-same db laws reliable cbor table_name name (names i) σ.state b input k r
          (others i over) visit p in
      kept-Inv db cbor table_name name names count o σ b i (put_item input k) (k r) inv e refl same
        rest (λ below. absurd (omega arith))

  write-Inv :
      (σ : System db) (i : ℕ) (input : PutItemInput) (k : AfterPut ℕ)
      (r : Result (Unit {0}) PutItemError) (b : db.State)
      → raised o + count + 1 < 2 ^ 64
      → Kept σ
      → σ.procs i ≡ put_item input k
      → db.Put σ.state input r b
      → Kept (record { state = b; procs = update σ.procs i (k r) })
  write-Inv σ i input k r b room inv e p =
      let (visit, rest) = rw e at (inv.honest i) in
      elim (Bool-cases (ltb i count)) [
        | inl inside ↦
            let below : i < count = ground arith in
            let named = ours i below in
            own-Inv σ i input k r b room below inv e (rw named at visit) rest p
        | inr outside ↦ other-Inv σ i input k r b (ground arith) inv e visit (rest r) p
      ]

  pub Step-Inv : {σ τ : System db} → raised o + count + 1 < 2 ^ 64 → Step db σ τ → Kept σ → Kept τ
  Step-Inv {σ} room (read i input k r e g) inv = read-Inv σ i input k r inv e g
  Step-Inv {σ} room (write i input k r b e p) inv = write-Inv σ i input k r b room inv e p
