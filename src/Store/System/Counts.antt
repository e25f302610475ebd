-- ===== src/Store/System/Counts.antt =====
-- The counts over a whole run of many invocations of `maybe_increment_visitors`, src/store.rs.
use digital_garden_visitor_c.Common.{
  ℕ, ◌+◌, ◌^◌, ◌<◌, ◌≡◌, refl, arith, Option, some, inl, inr, Text, Bool-cases, ◌==◌,
}
use digital_garden_visitor_c.Store.Entry.{Cbor}
use digital_garden_visitor_c.Store.Dynamo.{Proc}
use digital_garden_visitor_c.Store.Increment.Puts.{Honest}
use digital_garden_visitor_c.Store.System.{
  Database, DatabaseLaws, System, update, Step, read, write, AllHonest,
}
use digital_garden_visitor_c.Store.System.Effects.{count_in, Advances, put-Advances}

update-Honest :
    (cbor : Cbor) (table_name : Text) (names : ℕ → Text) (procs : ℕ → Proc ℕ) (i : ℕ) (p : Proc ℕ)
    → ((j : ℕ) → Honest cbor table_name (names j) (procs j))
    → Honest cbor table_name (names i) p
    → (j : ℕ) → Honest cbor table_name (names j) (update procs i p j)
update-Honest cbor table_name names procs i p all h j = elim (Bool-cases (i == j)) [
  | inl e ↦ let e' : i ≡ j = ground arith in rw e (rw e' at h)
  | inr e ↦ rw e (all j)
]

module _ (db : Database) (table_name : Text) where
  -- The count of a counter in a state of the system.
  abbrev pub count_at : System db → Text → Option ℕ
  count_at σ name = count_in db σ.state table_name name

  -- The count of the counter can grow by one in 64 bits.
  abbrev pub Room : System db → Text → Type 0
  Room σ name = (c : ℕ) → count_at σ name ≡ some c → c + 1 < 2 ^ 64

module _ (db : Database) (laws : DatabaseLaws db) (cbor : Cbor) (table_name : Text)
    (names : ℕ → Text) where
  pub Step-AllHonest :
      {σ τ : System db}
      → Step db σ τ
      → AllHonest cbor table_name names σ
      → AllHonest cbor table_name names τ
  Step-AllHonest {σ} (read i input k r e g) all =
      update-Honest cbor table_name names σ.procs i (k r) all ((rw e at (all i)).1 r)
  Step-AllHonest {σ} (write i input k r b e p) all =
      update-Honest cbor table_name names σ.procs i (k r) all ((rw e at (all i)).1 r)

  -- Whatever the invocations do next, the count of each counter stays, or the counter is new and
  -- starts at 1, or its count is one more (in 64 bits).
  pub Step-Advances :
      {σ τ : System db} (name : Text)
      → Step db σ τ
      → AllHonest cbor table_name names σ
      → Advances (count_at db table_name σ name) (count_at db table_name τ name)
  Step-Advances name (read i input k r e g) all = inl refl
  Step-Advances {σ} name (write i input k r b e p) all =
      put-Advances db laws cbor table_name (names i) σ.state b input k r name ((rw e at (all i)).0)
        p
