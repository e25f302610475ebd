-- ===== src/Store/Fake/Ends.antt =====
-- The ends of functions of src/store.rs that are run with a client.
use digital_garden_visitor_c.Common.{◌≡◌, refl, some, Option-cases, inl, inr}
use digital_garden_visitor_c.Store.Dynamo.{Proc, done, fail, panic, get_item, put_item, ◌>>=◌}
use digital_garden_visitor_c.Store.Dynamo.Requests.{Returns}
use digital_garden_visitor_c.Store.Fake.{DynamoClient, client_get_item, client_put_item, run}

-- A function that goes on with what another returns: both return.
pub run-bind :
    {S A B : Type 0} (c : DynamoClient S) (p : Proc A) (f : A → Proc B) (σ : S) (b : B)
    → run c (p >>= f) σ ≡ some (done b)
    → (a : A) × (run c p σ ≡ some (done a)) × (τ : S) × (run c (f a) τ ≡ some (done b))
unfolding run
run-bind c (done a) f σ b h = (a, refl, σ, h)
run-bind c (fail e) f σ b h = cc
run-bind c panic f σ b h = cc
run-bind c (get_item i k) f σ b h = elim (Option-cases (client_get_item c σ i)) [
  | inl e ↦ let stuck = rw e at h in cc
  | inr ((r, τ), e) ↦ rw e (run-bind c (k r) f τ b (rw e at h))
]
run-bind c (put_item i k) f σ b h = elim (Option-cases (client_put_item c σ i)) [
  | inl e ↦ let stuck = rw e at h in cc
  | inr ((r, τ), e) ↦ rw e (run-bind c (k r) f τ b (rw e at h))
]

-- What holds of everything that the function returns.
pub run-Returns :
    {S A : Type 0} (c : DynamoClient S) (R : A → Type 0) (p : Proc A) (σ : S) (a : A)
    → Returns R p
    → run c p σ ≡ some (done a)
    → R a
unfolding run
run-Returns c R (done b) σ a r h = let same : b ≡ a = cc in rw (← same) r
run-Returns c R (fail e) σ a r h = cc
run-Returns c R panic σ a r h = cc
run-Returns c R (get_item i k) σ a r h = elim (Option-cases (client_get_item c σ i)) [
  | inl e ↦ let stuck = rw e at h in cc
  | inr ((x, τ), e) ↦ run-Returns c R (k x) τ a (r x) (rw e at h)
]
run-Returns c R (put_item i k) σ a r h = elim (Option-cases (client_put_item c σ i)) [
  | inl e ↦ let stuck = rw e at h in cc
  | inr ((x, τ), e) ↦ run-Returns c R (k x) τ a (r x) (rw e at h)
]
