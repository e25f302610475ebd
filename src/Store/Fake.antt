-- ===== src/Store/Fake.antt =====
-- The clients of src/store.rs: the trait `Dynamo`, `DynamoClient` with the real client or a fake, and
-- `Store`. A client is a state that answers each request at once, as the fakes of the source's tests
-- do; `none` is a panic of the client. The SDK behind the real client is a parameter.
pub mod Retries
pub mod Lost
pub mod Ends
pub mod Table
use digital_garden_visitor_c.Common.{ℕ, Option, some, Result, Text, ◌>>=◌}
use digital_garden_visitor_c.Store.Dynamo.{
  GetItemInput, GetItemOutput, PutItemInput, PutItemError, Proc, done, fail, panic, get_item,
  put_item,
}

pub record Dynamo (S : Type 0) : Type 0 where
  pub get : S → GetItemInput → Option (Result GetItemOutput ℕ × S)
  pub put : S → PutItemInput → Option (Result (Unit {0}) PutItemError × S)

pub data DynamoClient (S : Type 0) : Type 0 where
  real : Dynamo S → DynamoClient S
  fake : Dynamo S → DynamoClient S

-- `DynamoClient::get_item`
unfoldable pub client_get_item :
    {S : Type 0} → DynamoClient S → S → GetItemInput → Option (Result GetItemOutput ℕ × S)
client_get_item (real client) state input = client.get state input
client_get_item (fake client) state input = client.get state input

-- `DynamoClient::put_item`
unfoldable pub client_put_item :
    {S : Type 0} → DynamoClient S → S → PutItemInput → Option (Result (Unit {0}) PutItemError × S)
client_put_item (real client) state input = client.put state input
client_put_item (fake client) state input = client.put state input

-- A function of the store, up to its end, with its requests handed to the client.
unfoldable pub run : {S A : Type 0} → DynamoClient S → Proc A → S → Option (Proc A)
unfolding client_get_item client_put_item
run c (done a) state = some (done a)
run c (fail e) state = some (fail e)
run c panic state = some panic
run c (get_item i k) state = client_get_item c state i >>= λ answer. run c (k answer.0) answer.1
run c (put_item i k) state = client_put_item c state i >>= λ answer. run c (k answer.0) answer.1

pub record Store (S : Type 0) : Type 0 where
  pub client : DynamoClient S
  pub table_name : Text

-- What `Store::new` sets of the SDK's configuration; the times are in milliseconds.
pub record SdkConfig : Type 0 where
  pub connect_timeout : ℕ
  pub read_timeout : ℕ
  pub operation_timeout : ℕ
  pub max_attempts : ℕ

abbrev pub sdk_config : SdkConfig
sdk_config = record {
  connect_timeout = 100;
  read_timeout = 100;
  operation_timeout = 200;
  max_attempts = 2;
}

-- `Store::new`; the SDK makes a client of a configuration.
abbrev pub store_new : {S : Type 0} → (SdkConfig → Dynamo S) → Text → Store S
store_new sdk table_name = record { client = real (sdk sdk_config); table_name = table_name }

-- `Store::fake`
abbrev pub store_fake : {S : Type 0} → Text → Dynamo S → Store S
store_fake table_name dynamo = record { client = fake dynamo; table_name = table_name }
