-- ===== src/Store/Dynamo/Requests.antt =====
-- What holds of every request that a function can send, whatever the responses before it.
use digital_garden_visitor_c.Common.{ℕ, suc, ◌≡◌, Result}
use digital_garden_visitor_c.Store.Dynamo.{
  GetItemInput, GetItemOutput, PutItemInput, PutItemError, Proc, done, fail, panic, get_item,
  put_item, ◌>>=◌,
}

-- What follows on the response to a put.
abbrev pub AfterPut : Type 0 → Type 0
AfterPut A = Result (Unit {0}) PutItemError → Proc A

module _ {A : Type 0} (G : GetItemInput → Type 0) (P : PutItemInput → AfterPut A → Type 0) where
  -- Every get satisfies `G`, and every put with what follows it satisfies `P`.
  abbrev pub Requests : Proc A → Type 0
  Requests (done a) = Unit
  Requests (fail e) = Unit
  Requests panic = Unit
  Requests (get_item i k) = G i × ((r : Result GetItemOutput ℕ) → Requests (k r))
  Requests (put_item i k) = P i k × ((r : Result (Unit {0}) PutItemError) → Requests (k r))

-- Weaker properties of the requests.
pub Requests-mono :
    {A : Type 0} (G H : GetItemInput → Type 0) (P Q : PutItemInput → AfterPut A → Type 0)
    (p : Proc A)
    → ((i : GetItemInput) → G i → H i)
    → ((i : PutItemInput) (k : AfterPut A) → P i k → Q i k)
    → Requests G P p
    → Requests H Q p
Requests-mono G H P Q (done a) get put h = tt
Requests-mono G H P Q (fail e) get put h = tt
Requests-mono G H P Q panic get put h = tt
Requests-mono G H P Q (get_item i k) get put (g, h) =
    (get i g, λ r. Requests-mono G H P Q (k r) get put (h r))
Requests-mono G H P Q (put_item i k) get put (p, h) =
    (put i k p, λ r. Requests-mono G H P Q (k r) get put (h r))

-- Weaker properties of the requests, of a function that goes on with what this one returns.
pub Requests-bind :
    {A B : Type 0} (G H : GetItemInput → Type 0) (P : PutItemInput → AfterPut A → Type 0)
    (Q : PutItemInput → Type 0) (p : Proc A) (f : A → Proc B)
    → ((i : GetItemInput) → G i → H i)
    → ((i : PutItemInput) (k : AfterPut A) → P i k → Q i)
    → Requests G P p
    → ((a : A) → Requests H (λ i _. Q i) (f a))
    → Requests H (λ i _. Q i) (p >>= f)
Requests-bind G H P Q (done a) f get put h rest = rest a
Requests-bind G H P Q (fail e) f get put h rest = tt
Requests-bind G H P Q panic f get put h rest = tt
Requests-bind G H P Q (get_item i k) f get put (g, h) rest =
    (get i g, λ r. Requests-bind G H P Q (k r) f get put (h r) rest)
Requests-bind G H P Q (put_item i k) f get put (p, h) rest =
    (put i k p, λ r. Requests-bind G H P Q (k r) f get put (h r) rest)

-- Everything that the function returns satisfies `R`, whatever the responses.
abbrev pub Returns : {A : Type 0} → (A → Type 0) → Proc A → Type 0
Returns R (done a) = R a
Returns R (fail e) = Unit
Returns R panic = Unit
Returns R (get_item i k) = (r : Result GetItemOutput ℕ) → Returns R (k r)
Returns R (put_item i k) = (r : Result (Unit {0}) PutItemError) → Returns R (k r)

-- At most so many gets and so many puts are sent.
abbrev pub Within : {A : Type 0} → Proc A → ℕ → ℕ → Type 0
Within (done a) gets puts = Unit
Within (fail e) gets puts = Unit
Within panic gets puts = Unit
Within (get_item i k) gets puts =
    (left : ℕ) × (gets ≡ suc left) × ((r : Result GetItemOutput ℕ) → Within (k r) left puts)
Within (put_item i k) gets puts =
    (left : ℕ) × (puts ≡ suc left) × ((r : Result (Unit {0}) PutItemError) → Within (k r) gets left)
