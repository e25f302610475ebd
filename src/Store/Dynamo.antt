-- ===== src/Store/Dynamo.antt =====
-- The requests that src/store.rs sends to DynamoDB, and an asynchronous function as the tree of its
-- requests: each node is a request with what follows on each response, so that other invocations
-- can run between any two of them.
pub mod Requests
use digital_garden_visitor_c.Common.{
  ℕ, List, [], ◌∷◌, Option, none, some, Bytes, Text, Result, ok, err, text_eq, if◌then◌else◌,
}
use digital_garden_visitor_c.RequestInfo.{RequestInfoError}

-- The variants of the SDK's `AttributeValue` that the code makes or reads; all the rest are one.
pub data AttributeValue : Type 0 where
  s : Text → AttributeValue
  n : Text → AttributeValue
  b : Bytes → AttributeValue
  other : AttributeValue

-- A `HashMap` keyed by names.
abbrev pub Map : Type 0 → Type 0
Map V = List (Text × V)

unfoldable pub get : {V : Type 0} → Text → Map V → Option V
get key [] = none
get key ((k, v) ∷ m) = if text_eq k key then some v else get key m

abbrev pub Item : Type 0
Item = Map AttributeValue

pub record GetItemInput : Type 0 where
  pub table_name : Text
  pub key : Item

pub record GetItemOutput : Type 0 where
  pub item : Option Item

pub record PutItemInput : Type 0 where
  pub table_name : Text
  pub condition_expression : Text
  pub expression_attribute_names : Map Text
  pub expression_attribute_values : Item
  pub item : Item

-- What `into_service_error` gives; every error but the failed condition is known by a number.
pub data PutItemError : Type 0 where
  conditional_check_failed : PutItemError
  unhandled : ℕ → PutItemError

-- A boxed error: a message of the code, one of its error types, or an error of a library.
pub data BoxError : Type 0 where
  message : Text → BoxError
  cbor_error : ℕ → BoxError
  get_item_error : ℕ → BoxError
  put_item_error : ℕ → BoxError
  request_info_error : RequestInfoError → BoxError
  png_error : ℕ → BoxError

-- An asynchronous function that returns `Result<A, BoxError>`.
pub data Proc (A : Type 0) : Type 0 where
  done : A → Proc A
  fail : BoxError → Proc A
  panic : Proc A
  get_item : GetItemInput → (Result GetItemOutput ℕ → Proc A) → Proc A
  put_item : PutItemInput → (Result (Unit {0}) PutItemError → Proc A) → Proc A

-- `.await?`
infixl 5 ◌>>=◌
abbrev pub ◌>>=◌ : {A B : Type 0} → Proc A → (A → Proc B) → Proc B
done a >>= f = f a
fail e >>= f = fail e
panic >>= f = panic
get_item i k >>= f = get_item i (λ r. k r >>= f)
put_item i k >>= f = put_item i (λ r. k r >>= f)

-- A computation that may panic.
abbrev pub or_panic : {A : Type 0} → Option A → Proc A
or_panic none = panic
or_panic (some a) = done a

-- `?` on a result, its error boxed.
abbrev pub or_fail : {A E : Type 0} → (E → BoxError) → Result A E → Proc A
or_fail box (ok a) = done a
or_fail box (err e) = fail (box e)
