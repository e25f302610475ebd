-- ===== src/Store/System/Progress.antt =====
-- Invocations of src/store.rs over a database that answers every request: how many have returned.
pub mod Raises
pub mod Invariant
pub mod Steps
pub mod Finishes
use digital_garden_visitor_c.Common.{
  ℕ, zero, suc, ◌+◌, ◌≤◌, ◌<◌, ◌≡◌, refl, arith, Option, some, ◌⊎◌, inl, inr, Text, codes, Result,
  ok, err, ltb, if◌then◌else◌, ◌==◌, Bool-cases,
}
use digital_garden_visitor_c.Store.Dynamo.{
  s, Item, get, GetItemInput, GetItemOutput, PutItemInput, PutItemError, conditional_check_failed,
  Proc, done, fail, panic, get_item, put_item,
}
use digital_garden_visitor_c.Store.Increment.Contention.{ConditionLaws}
use digital_garden_visitor_c.Store.System.{Database, Applied, update}

-- A database that answers every get with the stored item, and every put with what became of it; and
-- the conditions hold where DynamoDB documents it.
pub record ReliableLaws (db : Database) : Type 0 where
  pub gets :
      (a : db.State) (i : GetItemInput) (r : Result GetItemOutput ℕ) (key : Text)
      → get (codes "key") i.key ≡ some (s key)
      → db.Get a i r
      → r ≡ ok (record { item = db.item a i.table_name key })
  pub puts :
      (a : db.State) (i : PutItemInput) (r : Result (Unit {0}) PutItemError) (b : db.State)
      (key : Text)
      → get (codes "key") i.item ≡ some (s key)
      → db.Put a i r b
      → ((r ≡ ok tt) × Applied db a i key b)
        ⊎ ((r ≡ err conditional_check_failed)
            × (¬ db.Holds i (db.item a i.table_name key))
            × ((table k : Text) → db.item b table k ≡ db.item a table k))
  pub conditions : ConditionLaws db.Holds

-- Whether an invocation has returned a count.
abbrev pub returned : Proc ℕ → ℕ
returned (done count) = 1
returned _ = 0

-- How many of the first `n` invocations have returned a count.
unfoldable pub total : ℕ → (ℕ → Proc ℕ) → ℕ
total zero procs = 0
total (suc n) procs = total n procs + returned (procs n)

pub total-update_ge :
    (n : ℕ) (procs : ℕ → Proc ℕ) (i : ℕ) (p : Proc ℕ)
    → n ≤ i
    → total n (update procs i p) ≡ total n procs
unfolding total
total-update_ge zero procs i p h = refl
total-update_ge (suc n) procs i p h = ground (arith, total-update_ge n procs i p)

pub total-update :
    (n : ℕ) (procs : ℕ → Proc ℕ) (i : ℕ) (p : Proc ℕ)
    → i < n
    → total n (update procs i p) + returned (procs i) ≡ total n procs + returned p
unfolding total
total-update zero procs i p h = absurd (omega arith)
total-update (suc n) procs i p h = elim (Bool-cases (ltb i n)) [
  | inl below ↦ ground (arith, total-update n procs i p)
  | inr last ↦
      let same : i ≡ n = ground arith in rw same (ground (arith, total-update_ge n procs n p))
]

pub total-le : (n : ℕ) (procs : ℕ → Proc ℕ) → total n procs ≤ n
unfolding total
total-le zero procs = omega arith
total-le (suc n) procs = let rest = total-le n procs in ground arith

-- One that has not returned is missing.
pub total-lt :
    (n : ℕ) (procs : ℕ → Proc ℕ) (i : ℕ) → i < n → returned (procs i) ≡ 0 → total n procs < n
unfolding total
total-lt zero procs i h e = absurd (omega arith)
total-lt (suc n) procs i h e = elim (Bool-cases (ltb i n)) [
  | inl below ↦ let rest = total-lt n procs i (ground arith) e in ground arith
  | inr last ↦
      let same : i ≡ n = ground arith in
      let gone : returned (procs n) ≡ 0 = rw same at e in let rest = total-le n procs in omega arith
]
