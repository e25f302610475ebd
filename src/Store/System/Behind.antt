-- ===== src/Store/System/Behind.antt =====
-- Functions that go on after `maybe_increment_visitors` of src/store.rs without further requests run as
-- its invocations do.
use digital_garden_visitor_c.Common.{
  ℕ, ◌≡◌, refl, ◌∙◌, sym, ap, arith, Result, inl, inr, Bool-cases, ◌==◌,
}
use mathlib.Core.Path.{subst}
use digital_garden_visitor_c.Store.Dynamo.{
  GetItemInput, GetItemOutput, PutItemInput, PutItemError, Proc, done, fail, panic, get_item,
  put_item, ◌>>=◌,
}
use digital_garden_visitor_c.Store.Dynamo.Requests.{AfterPut, Requests}
use digital_garden_visitor_c.Store.System.{Database, SystemOf, System, update, Step, read, write}
use digital_garden_visitor_c.Store.System.Progress.Finishes.{Reaches, here, further}

-- A function that sends no request.
abbrev pub IsEnd : {A : Type 0} → Proc A → Type 0
IsEnd p = Requests (λ _. ⊥) (λ _ _. ⊥) p

module _ {B : Type 0} (f : ℕ → Proc B) (ends : (c : ℕ) → IsEnd (f c)) where
  read-Behind :
      (p : Proc ℕ) (input : GetItemInput) (k : Result GetItemOutput ℕ → Proc B)
      → (p >>= f) ≡ get_item input k
      → (j : Result GetItemOutput ℕ → Proc ℕ) × (p ≡ get_item input j)
        × ((r : Result GetItemOutput ℕ) → k r ≡ j r >>= f)
  read-Behind (done c) input k e = absurd ((rw e at (ends c)).0)
  read-Behind (fail x) input k e = cc
  read-Behind panic input k e = cc
  read-Behind (get_item i j) input k e =
      let same : k ≡ (λ r. j r >>= f) = cc in (j, cc, λ r. ap (λ h. h r) same)
  read-Behind (put_item i j) input k e = cc

  write-Behind :
      (p : Proc ℕ) (input : PutItemInput) (k : AfterPut B)
      → (p >>= f) ≡ put_item input k
      → (j : AfterPut ℕ) × (p ≡ put_item input j)
        × ((r : Result (Unit {0}) PutItemError) → k r ≡ j r >>= f)
  write-Behind (done c) input k e = absurd ((rw e at (ends c)).0)
  write-Behind (fail x) input k e = cc
  write-Behind panic input k e = cc
  write-Behind (get_item i j) input k e = cc
  write-Behind (put_item i j) input k e =
      let same : k ≡ (λ r. j r >>= f) = cc in (j, cc, λ r. ap (λ h. h r) same)

module _ (db : Database) {B : Type 0} (rest : ℕ → ℕ → Proc B)
    (ends : (i c : ℕ) → IsEnd (rest i c)) where
  -- Each function is an invocation, and what follows on its count.
  pub record Behind (τ : SystemOf db B) (σ : System db) : Type 0 where
    pub state : τ.state ≡ σ.state
    pub procs : (i : ℕ) → τ.procs i ≡ σ.procs i >>= rest i

  update-Behind :
      (τ : SystemOf db B) (σ : System db) (b c : db.State) (i : ℕ) (q : Proc B) (p : Proc ℕ)
      → Behind τ σ
      → b ≡ c
      → q ≡ p >>= rest i
      → Behind
          (record { state = b; procs = update τ.procs i q })
          (record { state = c; procs = update σ.procs i p })
  update-Behind τ σ b c i q p behind same e = record {
    state = same;
    procs = λ j. elim (Bool-cases (i == j)) [
      | inl own ↦ let mine : i ≡ j = ground arith in rw own (rw mine at e)
      | inr other ↦ rw other (behind.procs j)
    ];
  }

  -- The invocations can take each step of the functions.
  Step-Behind :
      {τ υ : SystemOf db B} {σ : System db}
      → Step db τ υ
      → Behind τ σ
      → (φ : System db) × Step db σ φ × Behind υ φ
  Step-Behind {τ} {υ} {σ} (read i input k r e g) behind =
      let (j, sends, goes_on) =
        read-Behind (rest i) (ends i) (σ.procs i) input k (sym (behind.procs i) ∙ e) in
      (
        record σ { procs = update σ.procs i (j r) },
        read i input j r sends (subst (λ s. db.Get s input r) behind.state g),
        update-Behind τ σ τ.state σ.state i (k r) (j r) behind behind.state (goes_on r),
      )
  Step-Behind {τ} {υ} {σ} (write i input k r b e p) behind =
      let (j, sends, goes_on) =
        write-Behind (rest i) (ends i) (σ.procs i) input k (sym (behind.procs i) ∙ e) in
      (
        record { state = b; procs = update σ.procs i (j r) },
        write i input j r b sends (subst (λ s. db.Put s input r b) behind.state p),
        update-Behind τ σ b b i (k r) (j r) behind refl (goes_on r),
      )

  pub Reaches-Behind :
      {τ υ : SystemOf db B} {σ : System db}
      → Reaches τ υ
      → Behind τ σ
      → (φ : System db) × Reaches σ φ × Behind υ φ
  Reaches-Behind {σ = σ} here behind = (σ, here, behind)
  Reaches-Behind (further run step) behind =
      let (φ, before, follows) = Reaches-Behind run behind in
      let (ψ, after, at) = Step-Behind step follows in (ψ, further before after, at)
