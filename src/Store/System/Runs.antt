-- ===== src/Store/System/Runs.antt =====
-- Runs of many invocations of src/store.rs: the counts only grow, and no two counted visits get the
-- same number.
use digital_garden_visitor_c.Common.{
  ℕ, ◌+◌, ◌^◌, ◌≤◌, ◌<◌, ◌≡◌, ◌≢◌, sym, ap, ◌∙◌, arith, some, inl, inr, Text, ok, u64,
}
use digital_garden_visitor_c.Store.Entry.{Cbor}
use digital_garden_visitor_c.Store.Dynamo.{PutItemInput, done, put_item}
use digital_garden_visitor_c.Store.Dynamo.Requests.{AfterPut}
use digital_garden_visitor_c.Store.System.{
  Database, DatabaseLaws, System, update, Step, write, AllHonest,
}
use digital_garden_visitor_c.Store.System.Effects.{put_result_stored}
use digital_garden_visitor_c.Store.System.Counts.{count_at, Room, Step-AllHonest, Step-Advances}

module _ (db : Database) (cbor : Cbor) (table_name : Text) (names : ℕ → Text) where
  -- Steps of the invocations, before each of which the count of the counter is below 2^64 - 1.
  pub data Run (name : Text) (σ : System db) : System db → Type 0 where
    stay : Run name σ σ
    next : {τ υ : System db} → Run name σ τ → Room db table_name τ name → Step db τ υ → Run name σ υ

  -- A step in which a put of an invocation for the counter succeeds and raises the count, and the
  -- number that the invocation returns.
  pub record CountedVisit (name : Text) (c : ℕ) (σ τ : System db) : Type 0 where
    pub who : ℕ
    pub input : PutItemInput
    pub k : AfterPut ℕ
    pub b : db.State
    pub counter : names who ≡ name
    pub sends : σ.procs who ≡ put_item input k
    pub succeeds : db.Put σ.state input (ok tt) b
    pub becomes : τ ≡ record { state = b; procs = update σ.procs who (k (ok tt)) }
    pub returns : k (ok tt) ≡ done c
    pub raises : count_at db table_name σ name ≢ some c

  module _ (laws : DatabaseLaws db) (name : Text) where
    -- From one step to the next the count does not fall.
    Step-le :
        {σ τ : System db} {c : ℕ}
        → Step db σ τ
        → AllHonest cbor table_name names σ
        → Room db table_name σ name
        → count_at db table_name σ name ≡ some c
        → (d : ℕ) × (count_at db table_name τ name ≡ some d) × (c ≤ d)
    Step-le {c} step all room e = elim (Step-Advances db laws cbor table_name names name step all) [
      | inl same ↦ (c, same ∙ e, omega arith)
      | inr (inl (before, _)) ↦ cc
      | inr (inr (m, before, after)) ↦
          let same : m ≡ c = ground arith in
          let small : m + 1 < 2 ^ 64 = room m before in (u64 (m + 1), after, omega arith)
    ]

    pub Run-AllHonest :
        {σ τ : System db}
        → Run name σ τ
        → AllHonest cbor table_name names σ
        → AllHonest cbor table_name names τ
    Run-AllHonest stay all = all
    Run-AllHonest (next r _ step) all =
        Step-AllHonest db laws cbor table_name names step (Run-AllHonest r all)

    -- Over a run the count of a counter never falls and never vanishes.
    pub Run-le :
        {σ τ : System db} {c : ℕ}
        → Run name σ τ
        → AllHonest cbor table_name names σ
        → count_at db table_name σ name ≡ some c
        → (d : ℕ) × (count_at db table_name τ name ≡ some d) × (c ≤ d)
    Run-le {c} stay all e = (c, e, omega arith)
    Run-le (next r room step) all e =
        let (m, at, low) = Run-le r all e in
        let (d, after, high) = Step-le step (Run-AllHonest r all) room at in (d, after, omega arith)

    pub CountedVisit-stored :
        {σ τ : System db} {c : ℕ}
        → CountedVisit name c σ τ
        → AllHonest cbor table_name names σ
        → count_at db table_name τ name ≡ some c
    CountedVisit-stored {σ} {c} v all =
        let (m, returned, stored) =
          put_result_stored db laws cbor table_name name σ.state v.b v.input v.k
            (rw (v.counter) at ((rw v.sends at (all v.who)).0)) v.succeeds in
        let same : m ≡ c = cc (v.returns, returned) in rw (v.becomes) (stored ∙ ap some same)

    pub CountedVisit-Step : {σ τ : System db} {c : ℕ} → CountedVisit name c σ τ → Step db σ τ
    CountedVisit-Step v = rw (v.becomes) (write v.who v.input v.k (ok tt) v.b v.sends v.succeeds)

    -- The number of a counted visit is one more than the count before it, unless it is the first.
    CountedVisit-suc :
        {σ τ : System db} {c d : ℕ}
        → CountedVisit name d σ τ
        → AllHonest cbor table_name names σ
        → Room db table_name σ name
        → count_at db table_name σ name ≡ some c
        → d ≡ c + 1
    CountedVisit-suc {c} {d} v all room e =
        let after = CountedVisit-stored v all in
        elim (Step-Advances db laws cbor table_name names name (CountedVisit-Step v) all) [
          | inl same ↦ absurd (v.raises (sym same ∙ after))
          | inr (inl (before, _)) ↦ cc
          | inr (inr (m, before, raised)) ↦
              let same : m ≡ c = ground arith in
              let small : m + 1 < 2 ^ 64 = room m before in
              let number : d ≡ u64 (m + 1) = ground arith in omega arith
        ]

    -- Let any number of invocations run over one table, in any order, with any failures. Then of
    -- two visits that succeed in raising the count of one counter, the later one returns the
    -- greater number, as long as the count stays below 2^64 - 1: no count is given twice, and no
    -- increment is lost.
    pub CountedVisit-lt :
        {σ τ υ ω : System db} {c d : ℕ}
        → AllHonest cbor table_name names σ
        → CountedVisit name c σ τ
        → Run name τ υ
        → Room db table_name υ name
        → CountedVisit name d υ ω
        → c < d
    CountedVisit-lt all first run room second =
        let all' = Step-AllHonest db laws cbor table_name names (CountedVisit-Step first) all in
        let (m, at, low) = Run-le run all' (CountedVisit-stored first all) in
        let e = CountedVisit-suc second (Run-AllHonest run all') room at in omega arith
