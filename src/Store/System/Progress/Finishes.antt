-- ===== src/Store/System/Progress/Finishes.antt =====
-- Invocations of `maybe_increment_visitors`, src/store.rs, at once: when none of them gives up.
use digital_garden_visitor_c.Common.{
  ℕ, text_eq, ◌⊎◌, inl, inr, ◌+◌, ◌-◌, ◌^◌, ◌≤◌, ◌<◌, ◌≡◌, ◌≢◌, refl, arith, false, Option, Text,
}
use digital_garden_visitor_c.Store.Entry.{Cbor}
use digital_garden_visitor_c.Store.Dynamo.{Proc, done, fail}
use digital_garden_visitor_c.Store.Increment.{maybe_increment_visitors}
use digital_garden_visitor_c.Store.Increment.Patient.{maybe_increment_visitors-Patient}
use digital_garden_visitor_c.Store.Increment.Puts.{Honest, maybe_increment_visitors-Honest}
use digital_garden_visitor_c.Store.Increment.Contention.{
  gave_up, IsCounter, raised, Costs, Costs-le,
}
use digital_garden_visitor_c.Store.Increment.Contention.GivesUp.{maybe_increment_visitors-Costs}
use digital_garden_visitor_c.Store.Serial.{Visit}
use digital_garden_visitor_c.Store.System.{Database, DatabaseLaws, SystemOf, System, Step}
use digital_garden_visitor_c.Store.System.Progress.{
  ReliableLaws, returned, total, total-lt, total-le,
}
use digital_garden_visitor_c.Store.System.Progress.Invariant.{Inv, Waits, Patient-Waits}
use digital_garden_visitor_c.Store.System.Progress.Steps.{Step-Inv}

-- The states that steps of the invocations lead to.
pub data Reaches {db : Database} {A : Type 0} (σ : SystemOf db A) : SystemOf db A → Type 0 where
  here : Reaches σ σ
  further : {τ υ : SystemOf db A} → Reaches σ τ → Step db τ υ → Reaches σ υ

module _ (db : Database) (cbor : Cbor) (table_name : Text) (names : ℕ → Text)
    (visits : ℕ → Visit) where
  -- The invocations at their start, each for the counter that `names` gives.
  abbrev pub invocations : ℕ → Proc ℕ
  invocations i =
      maybe_increment_visitors cbor table_name (visits i).visitor (names i) (visits i).now

  -- An invocation that has not begun, or that sends no request.
  abbrev pub IsStart : ℕ → Proc ℕ → Type 0
  IsStart i p = (p ≡ invocations i) ⊎ (p ≡ done 0)

  module _ (name : Text) (count : ℕ) (ours : (i : ℕ) → i < count → names i ≡ name)
      (others : (i : ℕ) → count ≤ i → text_eq name (names i) ≡ false) (laws : DatabaseLaws db)
      (reliable : ReliableLaws db) (a : db.State) (o : Option ℕ)
      (counter : IsCounter (db.item a table_name name) o) where
    abbrev Kept : System db → Type 0
    Kept σ = Inv db cbor table_name name names count o σ

    start-Honest : (i : ℕ) (p : Proc ℕ) → IsStart i p → Honest cbor table_name (names i) p
    start-Honest i p (inl e) = rw e (
        maybe_increment_visitors-Honest cbor table_name (visits i).visitor (names i) (visits i).now)
    start-Honest i p (inr e) = rw e tt

    start-Costs :
        (i : ℕ) (p : Proc ℕ) → IsStart i p → Costs db.Holds (5 - (raised o - raised o)) o p
    start-Costs i p (inl e) = rw e (
        Costs-le db.Holds (invocations i) 5 (5 - (raised o - raised o)) o (omega arith) (
          maybe_increment_visitors-Costs db.Holds reliable.conditions cbor table_name
            (visits i).visitor (names i) (visits i).now o))
    start-Costs i p (inr e) = rw e tt

    start-Waits : (i : ℕ) (p : Proc ℕ) → p ≡ invocations i → Waits (raised o) (raised o) p
    start-Waits i p e = rw e (
        Patient-Waits (raised o) (raised o) (invocations i) (
          maybe_increment_visitors-Patient cbor table_name (visits i).visitor (names i)
            (visits i).now))

    start-Inv :
        (procs : ℕ → Proc ℕ)
        → ((i : ℕ) → IsStart i (procs i))
        → ((i : ℕ) → i < count → procs i ≡ invocations i)
        → Kept (record { state = a; procs = procs })
    start-Inv procs starts begun = record {
      now = o;
      counter = counter;
      order = omega arith;
      few = omega arith;
      honest = λ i. start-Honest i (procs i) (starts i);
      costs = λ i _. start-Costs i (procs i) (starts i);
      waits = λ i below. start-Waits i (procs i) (begun i below);
    }

    Reaches-Inv : {σ τ : System db} → raised o + count + 1 < 2 ^ 64 → Reaches σ τ → Kept σ → Kept τ
    Reaches-Inv room here inv = inv
    Reaches-Inv room (further r step) inv =
        Step-Inv db laws reliable cbor table_name name names count o ours others room step
          (Reaches-Inv room r inv)

    ne-gave_up : {σ : System db} (i : ℕ) → count ≤ 5 → i < count → Kept σ → σ.procs i ≢ fail gave_up
    ne-gave_up {σ} i five below inv gone =
        let costs : Costs db.Holds (5 - (raised inv.now - raised o)) inv.now (fail gave_up) =
          rw gone at (inv.costs i below) in
        let spent = costs refl in
        let few = inv.few in
        let none_yet : returned (σ.procs i) ≡ 0 = rw gone refl in
        let less = total-lt count σ.procs i below none_yet in omega arith

    returned-range :
        {σ : System db} (i n : ℕ)
        → i < count
        → Kept σ
        → σ.procs i ≡ done n
        → (1 ≤ n) × (raised o ≤ n) × (n ≤ raised o + count)
    returned-range {σ} i n below inv gone =
        let (one, least, most) : Waits (raised o) (raised inv.now) (done n) =
          rw gone at (inv.waits i below) in
        let few = inv.few in let all = total-le count σ.procs in (one, least, omega arith)

    -- Of at most five invocations for the counter none gives up, those that have returned have
    -- returned counts that it can have reached, and each raise of the count is by one that has
    -- returned.
    pub Reaches-progress :
        {σ : System db} (procs : ℕ → Proc ℕ)
        → ((i : ℕ) → IsStart i (procs i))
        → ((i : ℕ) → i < count → procs i ≡ invocations i)
        → count ≤ 5
        → raised o + count + 1 < 2 ^ 64
        → Reaches (record { state = a; procs = procs }) σ
        → ((i : ℕ) → i < count → σ.procs i ≢ fail gave_up)
          × ((i n : ℕ)
              → i < count
              → σ.procs i ≡ done n
              → (1 ≤ n) × (raised o ≤ n) × (n ≤ raised o + count))
          × ((now : Option ℕ) × IsCounter (db.item σ.state table_name name) now
              × (raised o ≤ raised now)
              × (raised now ≤ raised o + total count σ.procs))
    Reaches-progress procs starts begun five room r =
        let inv = Reaches-Inv room r (start-Inv procs starts begun) in
        (
          λ i below. ne-gave_up i five below inv,
          λ i n below gone. returned-range i n below inv gone,
          (inv.now, inv.counter, inv.order, inv.few),
        )
