-- ===== src/Store/System/Tallied.antt =====
-- The count of a counter over a run of invocations of src/store.rs, told from the visits that were
-- answered.
use digital_garden_visitor_c.Common.{
  ℕ, ◌+◌, ◌^◌, ◌<◌, ◌≡◌, ◌≢◌, refl, sym, ap, ◌∙◌, arith, Option, none, some, ◌⊎◌, inl, inr, Text,
  text_eq, text_eq-to_eq, Result, ok, ◌==◌, Bool-cases,
}
use digital_garden_visitor_c.Store.Entry.{Cbor}
use digital_garden_visitor_c.Store.Dynamo.{PutItemInput, PutItemError, put_item}
use digital_garden_visitor_c.Store.Dynamo.Requests.{AfterPut}
use digital_garden_visitor_c.Store.Increment.Puts.{IsVisitPut}
use digital_garden_visitor_c.Store.Increment.Contention.{raised}
use digital_garden_visitor_c.Store.System.{
  Database, DatabaseLaws, System, update, Step, read, write, AllHonest,
}
use digital_garden_visitor_c.Store.System.Effects.{
  count_in, visit_key, put_result_stored, Applied-other,
}
use digital_garden_visitor_c.Store.System.Counts.{count_at, Room, Step-Advances}
use digital_garden_visitor_c.Store.System.Runs.{
  Run, stay, next, CountedVisit, CountedVisit-Step, CountedVisit-stored, Run-AllHonest,
}
use digital_garden_visitor_c.Store.System.Progress.{ReliableLaws}

-- An option is a number or is not.
is_some : (o : Option ℕ) (c : ℕ) → (o ≡ some c) ⊎ (o ≢ some c)
is_some none c = inr (λ e. cc)
is_some (some m) c = elim (Bool-cases (m == c)) [
  | inl e ↦ let same : m ≡ c = ground arith in inl (ap some same)
  | inr e ↦ inr (λ same. ground arith)
]

module _ (db : Database) (cbor : Cbor) (table_name : Text) (names : ℕ → Text) where
  -- Steps of which so many are counted visits of the counter, and the others leave its count alone.
  pub data Tallied (name : Text) (σ : System db) : ℕ → System db → Type 0 where
    none_yet : Tallied name σ 0 σ
    quiet :
        {k : ℕ} {τ υ : System db}
        → Tallied name σ k τ
        → Step db τ υ
        → count_at db table_name υ name ≡ count_at db table_name τ name
        → Tallied name σ k υ
    counted :
        {k : ℕ} {τ υ : System db} {c : ℕ}
        → Tallied name σ k τ
        → CountedVisit db cbor table_name names name c τ υ
        → Tallied name σ (k + 1) υ

  module _ (laws : DatabaseLaws db) (reliable : ReliableLaws db) (name : Text) where
    -- A step leaves the count alone, or is a counted visit.
    abbrev IsTallied : System db → System db → Type 0
    IsTallied σ τ =
        (count_at db table_name τ name ≡ count_at db table_name σ name)
        ⊎ ((c : ℕ) × CountedVisit db cbor table_name names name c σ τ)

    succeeded-IsTallied :
        (σ : System db) (i : ℕ) (input : PutItemInput) (k : AfterPut ℕ) (b : db.State)
        → names i ≡ name
        → σ.procs i ≡ put_item input k
        → IsVisitPut cbor table_name name input k
        → db.Put σ.state input (ok tt) b
        → IsTallied σ (record { state = b; procs = update σ.procs i (k (ok tt)) })
    succeeded-IsTallied σ i input k b named sends visit put =
        let (c, returns, stored) =
          put_result_stored db laws cbor table_name name σ.state b input k visit put in
        elim (is_some (count_at db table_name σ name) c) [
          | inl same ↦ inl (stored ∙ sym same)
          | inr raises ↦ inr (
            c,
            record {
              who = i;
              input = input;
              k = k;
              b = b;
              counter = named;
              sends = sends;
              succeeds = put;
              becomes = refl;
              returns = returns;
              raises = raises;
            },
          )
        ]

    write-IsTallied :
        (σ : System db) (i : ℕ) (input : PutItemInput) (k : AfterPut ℕ)
        (r : Result (Unit {0}) PutItemError) (b : db.State)
        → σ.procs i ≡ put_item input k
        → IsVisitPut cbor table_name (names i) input k
        → db.Put σ.state input r b
        → IsTallied σ (record { state = b; procs = update σ.procs i (k r) })
    write-IsTallied σ i input k r b sends visit put =
        let (key, table) = visit_key db laws cbor table_name (names i) σ.state b input k visit in
        elim (reliable.puts σ.state input r b (names i) key put) [
          | inr (_, _, same) ↦ inl (unfold count_in in rw (same table_name name) refl)
          | inl (ended, applied) ↦ elim (Bool-cases (text_eq name (names i))) [
            | inr other ↦
                inl (Applied-other db laws table_name (names i) σ.state b input name other applied)
            | inl own ↦
                let named : names i ≡ name = sym (text_eq-to_eq name (names i) own) in
                let put_ok : db.Put σ.state input (ok tt) b = rw ended at put in
                rw ended (succeeded-IsTallied σ i input k b named sends (rw named at visit) put_ok)
          ]
        ]

    Step-IsTallied :
        {σ τ : System db} → Step db σ τ → AllHonest cbor table_name names σ → IsTallied σ τ
    Step-IsTallied (read i input k r e g) all = inl refl
    Step-IsTallied {σ} (write i input k r b e p) all =
        write-IsTallied σ i input k r b e ((rw e at (all i)).0) p

    -- A count that is not what it was is one more.
    CountedVisit-raised :
        {σ τ : System db} {c : ℕ}
        → CountedVisit db cbor table_name names name c σ τ
        → AllHonest cbor table_name names σ
        → Room db table_name σ name
        → raised (count_at db table_name τ name) ≡ raised (count_at db table_name σ name) + 1
    CountedVisit-raised {σ} {τ} {c} visit all room =
        let step = CountedVisit-Step db cbor table_name names laws name visit in
        let stored = CountedVisit-stored db cbor table_name names laws name visit all in
        elim (Step-Advances db laws cbor table_name names name step all) [
          | inl same ↦ absurd (visit.raises (sym same ∙ stored))
          | inr (inl (before, after)) ↦ rw (before, after) refl
          | inr (inr (m, before, after)) ↦
              let small : m + 1 < 2 ^ 64 = room m before in rw (before, after) (omega arith)
        ]

    Step-Tallied :
        {σ τ υ : System db} (k : ℕ)
        → Tallied name σ k τ
        → Step db τ υ
        → AllHonest cbor table_name names τ
        → Room db table_name τ name
        → raised (count_at db table_name τ name) ≡ raised (count_at db table_name σ name) + k
        → (m : ℕ) × Tallied name σ m υ
          × (raised (count_at db table_name υ name) ≡ raised (count_at db table_name σ name) + m)
    Step-Tallied k t step all room e = elim (Step-IsTallied step all) [
      | inl same ↦ (k, quiet t step same, rw same e)
      | inr (c, visit) ↦
          let one = CountedVisit-raised visit all room in (k + 1, counted t visit, omega arith)
    ]

    -- The count is the number of the counted visits. Let any number of invocations run over a
    -- database that answers every request and loses no response, in any order, and let the count
    -- stay below 2^64 - 1. Then every step leaves the count alone, or is a put of an invocation for
    -- the counter that succeeds and makes it return a count other than the one before; and after the
    -- run the count is above that of the start by just the number of these visits, a missing counter
    -- having the count 0.
    pub Run-Tallied :
        {σ τ : System db}
        → AllHonest cbor table_name names σ
        → Run db cbor table_name names name σ τ
        → (k : ℕ) × Tallied name σ k τ
          × (raised (count_at db table_name τ name) ≡ raised (count_at db table_name σ name) + k)
    Run-Tallied all stay = (0, none_yet, omega arith)
    Run-Tallied all (next run room step) =
        let (k, t, e) = Run-Tallied all run in
        Step-Tallied k t step (Run-AllHonest db cbor table_name names laws name run all) room e
