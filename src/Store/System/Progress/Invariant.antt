-- ===== src/Store/System/Progress/Invariant.antt =====
-- What every step of invocations of src/store.rs keeps of one counter, over a database that answers
-- every request.
use digital_garden_visitor_c.Common.{
  ℕ, ◌+◌, ◌-◌, ◌≤◌, ◌<◌, ◌≡◌, arith, Option, inl, inr, Text, ltb, ◌==◌, Bool-cases,
}
use digital_garden_visitor_c.Store.Entry.{Cbor}
use digital_garden_visitor_c.Store.Dynamo.{Proc, done, fail, panic, get_item, put_item}
use digital_garden_visitor_c.Store.Increment.Patient.{Patient}
use digital_garden_visitor_c.Store.Increment.Puts.{Honest}
use digital_garden_visitor_c.Store.Increment.Contention.{IsCounter, raised, Costs}
use digital_garden_visitor_c.Store.System.{Database, System, update}
use digital_garden_visitor_c.Store.System.Progress.{returned, total, total-update, total-update_ge}

pub update-all :
    (P : ℕ → Proc ℕ → Type 0) (procs : ℕ → Proc ℕ) (i : ℕ) (p : Proc ℕ)
    → ((j : ℕ) → P j (procs j))
    → P i p
    → (j : ℕ) → P j (update procs i p j)
update-all P procs i p all h j = elim (Bool-cases (i == j)) [
  | inl e ↦ let same : i ≡ j = ground arith in rw e (rw same at h)
  | inr e ↦ rw e (all j)
]

-- The invocation has returned a count in the bounds, or returns only after a put that succeeds.
abbrev pub Waits : ℕ → ℕ → Proc ℕ → Type 0
Waits low high (done count) = (1 ≤ count) × (low ≤ count) × (count ≤ high)
Waits low high (fail e) = Unit
Waits low high panic = Unit
Waits low high (get_item i k) = Patient (get_item i k)
Waits low high (put_item i k) = Patient (put_item i k)

pub Patient-Waits : (low high : ℕ) (p : Proc ℕ) → Patient p → Waits low high p
Patient-Waits low high (done count) h = absurd h
Patient-Waits low high (fail e) h = tt
Patient-Waits low high panic h = tt
Patient-Waits low high (get_item i k) h = h
Patient-Waits low high (put_item i k) h = h

pub Waits-later :
    (low high higher : ℕ) (p : Proc ℕ) → high ≤ higher → Waits low high p → Waits low higher p
Waits-later low high higher (done count) h (one, least, most) = (one, least, omega arith)
Waits-later low high higher (fail e) h w = tt
Waits-later low high higher panic h w = tt
Waits-later low high higher (get_item i k) h w = w
Waits-later low high higher (put_item i k) h w = w

module _ (db : Database) (cbor : Cbor) (table_name name : Text) (names : ℕ → Text) (count : ℕ)
    (o : Option ℕ) where
  -- The first `count` invocations are for the counter, and the others for other ones. Each increase
  -- of the counter since it was `o` is by one that has returned; and each of them gives up only after
  -- so many more increases that there are five in all, and returns a count that was reached.
  pub record Inv (σ : System db) : Type 0 where
    pub now : Option ℕ
    pub counter : IsCounter (db.item σ.state table_name name) now
    pub order : raised o ≤ raised now
    pub few : raised now ≤ raised o + total count σ.procs
    pub honest : (i : ℕ) → Honest cbor table_name (names i) (σ.procs i)
    pub costs : (i : ℕ) → i < count → Costs db.Holds (5 - (raised now - raised o)) now (σ.procs i)
    pub waits : (i : ℕ) → i < count → Waits (raised o) (raised now) (σ.procs i)

  -- The count of those that have returned, after one that had not.
  pub total-step :
      (σ : System db) (i : ℕ) (p q : Proc ℕ)
      → i < count
      → σ.procs i ≡ p
      → returned p ≡ 0
      → total count (update σ.procs i q) ≡ total count σ.procs + returned q
  total-step σ i p q below e zero =
      let moved = total-update count σ.procs i q below in
      let gone : returned (σ.procs i) ≡ 0 = rw e zero in omega arith

  total-step_le :
      (σ : System db) (i : ℕ) (p q : Proc ℕ)
      → σ.procs i ≡ p
      → returned p ≡ 0
      → total count σ.procs ≤ total count (update σ.procs i q)
  total-step_le σ i p q e zero = elim (Bool-cases (ltb i count)) [
    | inl below ↦ let sum = total-step σ i p q (ground arith) e zero in omega arith
    | inr over ↦ let same = total-update_ge count σ.procs i q (ground arith) in omega arith
  ]

  -- The invariant after a step that leaves the counter alone.
  pub kept-Inv :
      (σ : System db) (b : db.State) (i : ℕ) (p q : Proc ℕ) (inv : Inv σ)
      → σ.procs i ≡ p
      → returned p ≡ 0
      → db.item b table_name name ≡ db.item σ.state table_name name
      → Honest cbor table_name (names i) q
      → (i < count → Costs db.Holds (5 - (raised inv.now - raised o)) inv.now q × Patient q)
      → Inv (record { state = b; procs = update σ.procs i q })
  kept-Inv σ b i p q inv e zero same honest costs =
      let sum = total-step_le σ i p q e zero in
      let few = inv.few in
      record {
        now = inv.now;
        counter = rw same (inv.counter);
        order = inv.order;
        few = omega arith;
        honest =
            update-all (λ j p. Honest cbor table_name (names j) p) σ.procs i q inv.honest honest;
        costs =
            update-all
              (λ j p. j < count → Costs db.Holds (5 - (raised inv.now - raised o)) inv.now p)
              σ.procs i q inv.costs (λ below. (costs below).0);
        waits =
            update-all (λ j p. j < count → Waits (raised o) (raised inv.now) p) σ.procs i q
              inv.waits (λ below. Patient-Waits (raised o) (raised inv.now) q ((costs below).1));
      }
