-- ===== src/Store/System/WaitFree.antt =====
-- How many turns a function that sends few requests takes, whatever the others of src/store.rs do.
use digital_garden_visitor_c.Common.{
  ℕ, ◌+◌, ◌≤◌, ◌<◌, ◌≡◌, refl, arith, List, [], ◌∷◌, ◌⊎◌, inl, inr, if◌then◌else◌, ◌==◌, Bool-cases,
  ltb, Result,
}
use digital_garden_visitor_c.Store.Dynamo.{
  BoxError, GetItemInput, GetItemOutput, PutItemInput, PutItemError, Proc, done, fail, panic,
  get_item, put_item,
}
use digital_garden_visitor_c.Store.Dynamo.Requests.{Within}
use digital_garden_visitor_c.Store.System.{Database, SystemOf, Step, read, write}
use digital_garden_visitor_c.Store.System.Turns.{who, Scheduled}

-- How many of the turns are the one's.
abbrev pub turns : ℕ → List ℕ → ℕ
turns i [] = 0
turns i (j ∷ order) = if j == i then turns i order + 1 else turns i order

-- The function has returned, failed or panicked.
pub data IsEnded {A : Type 0} (p : Proc A) : Type 0 where
  returns : (a : A) → p ≡ done a → IsEnded p
  fails : (e : BoxError) → p ≡ fail e → IsEnded p
  panics : p ≡ panic → IsEnded p

get-ne-IsEnded :
    {A : Type 0} (i : GetItemInput) (k : Result GetItemOutput ℕ → Proc A) → ¬ IsEnded (get_item i k)
get-ne-IsEnded i k (returns a e) = cc
get-ne-IsEnded i k (fails x e) = cc
get-ne-IsEnded i k (panics e) = cc

put-ne-IsEnded :
    {A : Type 0} (i : PutItemInput) (k : Result (Unit {0}) PutItemError → Proc A)
    → ¬ IsEnded (put_item i k)
put-ne-IsEnded i k (returns a e) = cc
put-ne-IsEnded i k (fails x e) = cc
put-ne-IsEnded i k (panics e) = cc

pub IsEnded-cases : {A : Type 0} (p : Proc A) → IsEnded p ⊎ (¬ IsEnded p)
IsEnded-cases (done a) = inl (returns a refl)
IsEnded-cases (fail e) = inl (fails e refl)
IsEnded-cases panic = inl (panics refl)
IsEnded-cases (get_item i k) = inr (λ h. get-ne-IsEnded i k h)
IsEnded-cases (put_item i k) = inr (λ h. put-ne-IsEnded i k h)

Within-IsEnded : {A : Type 0} (p : Proc A) → Within p 0 0 → IsEnded p
Within-IsEnded (done a) h = returns a refl
Within-IsEnded (fail e) h = fails e refl
Within-IsEnded panic h = panics refl
Within-IsEnded (get_item i k) (left, e, _) = absurd (omega arith)
Within-IsEnded (put_item i k) (left, e, _) = absurd (omega arith)

module _ (db : Database) {A : Type 0} (i : ℕ) where
  -- What the function may still send after so many turns.
  pub record Left (τ : SystemOf db A) (turns gets puts : ℕ) : Type 0 where
    pub gets_left : ℕ
    pub puts_left : ℕ
    pub within : Within (τ.procs i) gets_left puts_left
    pub spent : turns + (gets_left + puts_left) ≤ gets + puts

  Step-Left :
      {σ τ : SystemOf db A} (gets puts : ℕ) (step : Step db σ τ)
      → Within (σ.procs i) gets puts
      → Left τ (if who step == i then 1 else 0) gets puts
  Step-Left {σ} gets puts (read j input k r e g) h = elim (Bool-cases (j == i)) [
    | inl own ↦
        let mine : j ≡ i = ground arith in
        let (left, count, rest) = rw (← mine, e) at h in
        rw own (record {
          gets_left = left;
          puts_left = puts;
          within = rw own (rest r);
          spent = omega arith;
        })
    | inr other ↦
        rw other
          (record { gets_left = gets; puts_left = puts; within = rw other h; spent = omega arith })
  ]
  Step-Left {σ} gets puts (write j input k r b e p) h = elim (Bool-cases (j == i)) [
    | inl own ↦
        let mine : j ≡ i = ground arith in
        let (left, count, rest) = rw (← mine, e) at h in
        rw own (record {
          gets_left = gets;
          puts_left = left;
          within = rw own (rest r);
          spent = omega arith;
        })
    | inr other ↦
        rw other
          (record { gets_left = gets; puts_left = puts; within = rw other h; spent = omega arith })
  ]

  pub Scheduled-Left :
      (order : List ℕ) (σ τ : SystemOf db A) (gets puts : ℕ)
      → Scheduled σ order τ
      → Within (σ.procs i) gets puts
      → Left τ (turns i order) gets puts
  Scheduled-Left [] σ τ gets puts same h =
      rw (← same) (record { gets_left = gets; puts_left = puts; within = h; spent = omega arith })
  Scheduled-Left (j ∷ order) σ τ gets puts (υ, step, mine, rest) h =
      let first = rw mine at (Step-Left gets puts step h) in
      let last = Scheduled-Left order υ τ first.gets_left first.puts_left rest first.within in
      let spent_first = first.spent in
      let spent_last = last.spent in
      record {
        gets_left = last.gets_left;
        puts_left = last.puts_left;
        within = last.within;
        spent = ground arith;
      }

  -- A function that has taken as many turns as it may send requests has ended.
  pub Left-IsEnded :
      {τ : SystemOf db A} (count gets puts : ℕ)
      → Left τ count gets puts
      → (count ≤ gets + puts) × (IsEnded (τ.procs i) ⊎ (count < gets + puts))
  Left-IsEnded {τ} count gets puts l =
      let spent = l.spent in
      (
        omega arith,
        elim (Bool-cases (ltb count (gets + puts))) [
          | inl less ↦ inr (ground arith)
          | inr all ↦
              let no_get : l.gets_left ≡ 0 = ground arith in
              let no_put : l.puts_left ≡ 0 = ground arith in
              inl (Within-IsEnded (τ.procs i) (rw (no_get, no_put) at (l.within)))
        ],
      )
