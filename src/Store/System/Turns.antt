-- ===== src/Store/System/Turns.antt =====
-- The invocations of src/store.rs by turns: whose step it is, and what becomes of the system in it.
use digital_garden_visitor_c.Common.{
  ℕ, ◌≡◌, ◌≢◌, refl, sym, ap, ◌∙◌, arith, List, [], ◌∷◌, some, inl, inr, Text, codes, Result, ok,
  ◌==◌, Bool-cases,
}
use digital_garden_visitor_c.Store.Dynamo.{
  s, get, GetItemInput, GetItemOutput, PutItemInput, Proc, get_item, put_item,
}
use digital_garden_visitor_c.Store.Dynamo.Requests.{AfterPut}
use digital_garden_visitor_c.Store.System.{
  Database, Applied, SystemOf, System, update, Step, read, write,
}
use digital_garden_visitor_c.Store.System.Progress.{ReliableLaws}

-- The invocation that takes a step.
abbrev pub who : {db : Database} {A : Type 0} {σ τ : SystemOf db A} → Step db σ τ → ℕ
who (read i _ _ _ _ _) = i
who (write i _ _ _ _ _ _) = i

-- Steps of the invocations in an order.
abbrev pub Scheduled :
    {db : Database} {A : Type 0} → SystemOf db A → List ℕ → SystemOf db A → Type 0
Scheduled σ [] τ = σ ≡ τ
Scheduled {db} {A} σ (i ∷ order) τ =
    (υ : SystemOf db A) × (step : Step db σ υ) × (who step ≡ i) × Scheduled υ order τ

-- What becomes of the system in a step of an invocation that reads, or writes.
module _ (db : Database) (reliable : ReliableLaws db) where
  pub read_turn :
      {σ τ : System db} (i : ℕ) (input : GetItemInput) (k : Result GetItemOutput ℕ → Proc ℕ)
      (key : Text) (step : Step db σ τ)
      → who step ≡ i
      → σ.procs i ≡ get_item input k
      → get (codes "key") input.key ≡ some (s key)
      → τ ≡ record σ {
        procs = update σ.procs i (k (ok (record { item = db.item σ.state input.table_name key })));
      }
  read_turn {σ} i input k key (read j input' k' r e g) same sends at_key =
      let mine : j ≡ i = same in
      let both : get_item input' k' ≡ get_item input k = sym e ∙ ap σ.procs mine ∙ sends in
      let inputs : input' ≡ input = cc both in
      let got = reliable.gets σ.state input' r key (rw inputs at_key) g in
      let found : r ≡ ok (record { item = db.item σ.state input.table_name key }) =
        rw inputs at got in
      let answer : k' r ≡ k (ok (record { item = db.item σ.state input.table_name key })) =
        cc (both, found) in
      rw (mine, answer) refl
  read_turn {σ} i input k key (write j input' k' r b e p) same sends at_key =
      let mine : j ≡ i = same in
      let both : put_item input' k' ≡ get_item input k = sym e ∙ ap σ.procs mine ∙ sends in cc both

  pub write_turn :
      {σ τ : System db} (i : ℕ) (input : PutItemInput) (k : AfterPut ℕ) (key : Text)
      (step : Step db σ τ)
      → who step ≡ i
      → σ.procs i ≡ put_item input k
      → get (codes "key") input.item ≡ some (s key)
      → db.Holds input (db.item σ.state input.table_name key)
      → (b : db.State) × (τ ≡ record { state = b; procs = update σ.procs i (k (ok tt)) })
        × Applied db σ.state input key b
  write_turn {σ} i input k key (read j input' k' r e g) same sends at_key holds =
      let mine : j ≡ i = same in
      let both : get_item input' k' ≡ put_item input k = sym e ∙ ap σ.procs mine ∙ sends in cc both
  write_turn {σ} i input k key (write j input' k' r b e p) same sends at_key holds =
      let mine : j ≡ i = same in
      let both : put_item input' k' ≡ put_item input k = sym e ∙ ap σ.procs mine ∙ sends in
      let inputs : input' ≡ input = cc both in
      let written : db.Put σ.state input r b = rw inputs at p in
      elim (reliable.puts σ.state input r b key at_key written) [
        | inl (ended, applied) ↦
            let answer : k' r ≡ k (ok tt) = cc (both, ended) in (b, rw (mine, answer) refl, applied)
        | inr (ended, fails, kept) ↦ absurd (fails holds)
      ]

pub update_self : (procs : ℕ → Proc ℕ) (i : ℕ) (p : Proc ℕ) → update procs i p i ≡ p
update_self procs i p = ground arith

pub update_other :
    (procs : ℕ → Proc ℕ) (i j : ℕ) (p : Proc ℕ) → i ≢ j → update procs i p j ≡ procs j
update_other procs i j p ne = elim (Bool-cases (i == j)) [
  | inl e ↦ absurd (ne (ground arith))
  | inr e ↦ rw e refl
]
