-- ===== src/Bootstrap/Service.antt =====
-- `main` of src/bin/bootstrap.rs: the configuration and the store are made once, and each event is
-- handled with them. Here the events come one after the other; what the SDK does is a parameter. A
-- panic ends the process, as the profile of the release says.
pub mod Admits
pub mod Serves
pub mod Replies
pub mod Traffic
pub mod Tallies
pub mod Split
pub mod AtOnce
pub mod Turns
pub mod Answered
use digital_garden_visitor_c.Common.{List, [], ◌∷◌, Option, none, some, Text, Result, ◌>>=◌}
use digital_garden_visitor_c.Store.Time.{SystemTime}
use digital_garden_visitor_c.Store.Dynamo.{
  GetItemInput, PutItemInput, Proc, done, fail, panic, get_item, put_item,
}
use digital_garden_visitor_c.Store.Fake.{
  Dynamo, DynamoClient, client_get_item, client_put_item, SdkConfig, store_new,
}
use digital_garden_visitor_c.Bootstrap.Config.{Config, from_env}
use digital_garden_visitor_c.Bootstrap.Handler.{Request, Response, Crates, function_handler}

-- A request, and the two answers of the clock while it is handled.
pub record Event : Type 0 where
  pub request : Request
  pub seen : SystemTime
  pub now : SystemTime

-- A request that was sent to DynamoDB.
pub data Sent : Type 0 where
  got : GetItemInput → Sent
  put : PutItemInput → Sent

-- What a handler sent, and its end: an answer, an error or a panic.
pub record Reply : Type 0 where
  pub sent : List Sent
  pub end : Proc Response

abbrev pub and_sent : {S : Type 0} → Sent → Reply × S → Reply × S
and_sent x (reply, state) = (record { sent = x ∷ reply.sent; end = reply.end }, state)

-- A handler up to its end, with its requests handed to the client, and the state after it. A panic
-- of the client is one of the handler.
unfoldable pub served : {S : Type 0} → DynamoClient S → Proc Response → S → Reply × S
unfolding client_get_item client_put_item
served client (done a) state = (record { sent = []; end = done a }, state)
served client (fail e) state = (record { sent = []; end = fail e }, state)
served client panic state = (record { sent = []; end = panic }, state)
served client (get_item i k) state = elim (client_get_item client state i) [
  | none ↦ (record { sent = got i ∷ []; end = panic }, state)
  | some (r, after) ↦ and_sent (got i) (served client (k r) after)
]
served client (put_item i k) state = elim (client_put_item client state i) [
  | none ↦ (record { sent = put i ∷ []; end = panic }, state)
  | some (r, after) ↦ and_sent (put i) (served client (k r) after)
]

-- The replies after one: none if it is a panic.
abbrev pub unless_panic : Proc Response → List Reply → List Reply
unless_panic panic replies = []
unless_panic (done a) replies = replies
unless_panic (fail e) replies = replies
unless_panic (get_item i k) replies = replies
unless_panic (put_item i k) replies = replies

module _ (crates : Crates) (config : Config) {S : Type 0} (client : DynamoClient S) where
  unfoldable pub handle : Event → S → Reply × S
  unfolding function_handler served
  handle event state =
      served client (function_handler crates config event.seen event.now event.request) state

  unfoldable pub handle_all : List Event → S → List Reply
  unfolding handle
  handle_all [] state = []
  handle_all (event ∷ events) state =
      let rest = handle_all events (handle event state).1 in
      (handle event state).0 ∷ unless_panic (handle event state).0.end rest

-- `main`, on the events that the runtime hands over; `none` is a panic of `Config::from_env`.
unfoldable pub main :
    {S : Type 0}
    → Crates
    → (SdkConfig → Dynamo S)
    → (Text → Option Text)
    → List Event
    → S
    → Option (List Reply)
unfolding from_env handle_all
main crates sdk var events state = from_env var >>= λ config.
    some (handle_all crates config (store_new sdk config.table_name).client events state)
