-- ===== src/Bootstrap/Service/Traffic.antt =====
-- The service of src/bin/bootstrap.rs from its start: its replies are those of abstract counters.
use mathlib.Core.Path.{subst, sym}
use digital_garden_visitor_c.Common.{
  ℕ, ◌+◌, ◌≤◌, ◌≡◌, refl, arith, List, [], ◌∷◌, Option, none, some, Text, length,
}
use digital_garden_visitor_c.Store.Entry.{max_recent_visitors}
use digital_garden_visitor_c.Store.Entry.RoundTrip.{CborLaws}
use digital_garden_visitor_c.Store.Dynamo.{Item, Proc, done, fail, panic, get_item, put_item}
use digital_garden_visitor_c.Store.Fake.{Dynamo, SdkConfig, real, sdk_config}
use digital_garden_visitor_c.Store.Fake.Table.{TableLaws}
use digital_garden_visitor_c.Store.Serial.{Visit, empty_view}
use digital_garden_visitor_c.Store.Serial.Histories.{Stores-later}
use digital_garden_visitor_c.Bootstrap.Config.{Config, from_env}
use digital_garden_visitor_c.Bootstrap.Handler.{Response, Crates, function_handler}
use digital_garden_visitor_c.Bootstrap.Handler.Images.{PngLaws}
use digital_garden_visitor_c.Bootstrap.Service.{
  Event, Reply, unless_panic, handle, handle_all, main,
}
use digital_garden_visitor_c.Bootstrap.Service.Admits.{
  visit_of, IsHandled, counts, quiet, function_handler-IsHandled,
}
use digital_garden_visitor_c.Bootstrap.Service.Replies.{
  Views, views_after, AreNext, IsReply, IsReplies, IsNextEvent, latest, IsTraffic, Holds,
  IsQuiet-handle, visit-handle,
}

module _ (crates : Crates) (config : Config) {S : Type 0} (dynamo : Dynamo S)
    (item : S → Text → Text → Option Item) (db_laws : TableLaws dynamo item)
    (laws : CborLaws crates.cbor) (png_laws : PngLaws crates)
    (narrow : config.min_width ≤ 200_000_000) where
  handle-IsReply :
      (event : Event) (o : Option Visit) (before n : ℕ) (a : S) (views : Views)
      → IsHandled crates config event
          (function_handler crates config event.seen event.now event.request)
          o
      → IsNextEvent crates config before event o
      → n + 1 ≤ max_recent_visitors
      → Holds crates config dynamo item before n a views
      → IsReply crates config event views o (handle crates config (real dynamo) event a).0
        × Holds crates config dynamo item
            (latest crates config before o)
            (n + 1)
            (handle crates config (real dynamo) event a).1
            (views_after crates config event o views)
  handle-IsReply event none before n a views (quiet _ q) _ room holds =
      let (reply, same) = IsQuiet-handle crates config dynamo item event a q in
      (
        reply,
        subst (λ b. Holds crates config dynamo item before (n + 1) b views) (sym same)
            (λ name. (
              Stores-later crates.cbor before before n (n + 1) (item a config.table_name name)
                  (views name) (omega arith) (omega arith) (holds name).0,
              (holds name).1,
            )),
      )
  handle-IsReply event none before n a views (counts w e h) _ room holds = cc
  handle-IsReply event (some v) before n a views (quiet e q) next room holds = cc
  handle-IsReply event (some v) before n a views (counts w e h) next room holds =
      let same : v ≡ w = cc in
      visit-handle crates config dynamo item db_laws laws png_laws narrow event v before n a views
        (rw same h) next (omega arith) holds

  -- The replies after one, and whether there are any.
  next-IsReplies :
      (end : Proc Response) (events : List Event) (views : Views) (replies : List Reply)
      → IsReplies crates config events views replies
      → AreNext end
          (unless_panic end replies)
          (IsReplies crates config events views (unless_panic end replies))
  next-IsReplies panic events views replies h = refl
  next-IsReplies (done a) events views replies h = h
  next-IsReplies (fail e) events views replies h = h
  next-IsReplies (get_item i k) events views replies h = h
  next-IsReplies (put_item i k) events views replies h = h

  handle_all-IsReplies :
      (events : List Event) (before n : ℕ) (a : S) (views : Views)
      → IsTraffic crates config before events
      → n + length events ≤ max_recent_visitors
      → Holds crates config dynamo item before n a views
      → IsReplies crates config events views (handle_all crates config (real dynamo) events a)
  unfolding handle_all
  handle_all-IsReplies [] before n a views _ room holds = tt
  handle_all-IsReplies (event ∷ events) before n a views (next, traffic) room holds =
      let o = visit_of crates config event in
      let (reply, after) =
        handle-IsReply event o before n a views (function_handler-IsHandled crates config event)
          next (omega arith) holds in
      (
        reply,
        next-IsReplies (handle crates config (real dynamo) event a).0.end events
            (views_after crates config event o views) _
            (handle_all-IsReplies events (latest crates config before o) (n + 1)
              (handle crates config (real dynamo) event a).1
              (views_after crates config event o views) traffic (omega arith) after),
      )

-- The service as a whole. Let the SDK's client, made with the configuration of the store, work as
-- DynamoDB's documentation says on a table that nobody else uses and that has no counter yet: a get
-- finds the item under its key, and a put whose condition holds is stored. Let the configuration be
-- read from the environment, with a width of at most 200,000,000, and let at most
-- `max_recent_visitors` events come one after the other. Let those that count a visit be in time
-- order, at instants that can be stored, with the visitor seen less than the cutoff before, and with
-- names that can be header values. Then there is one reply to each event, up to the first panic,
-- which ends the process. An event that counts a visit leads to one get and one put of its counter,
-- and is answered with the image of the count of an abstract counter, one for each name, which never
-- forgets a visit. Every other event, as that of a bot or for a name that is not allowed, leads to no
-- request to DynamoDB and to the empty 404, an error or a panic.
pub main-IsReplies :
    {S : Type 0} (crates : Crates) (sdk : SdkConfig → Dynamo S)
    (item : S → Text → Text → Option Item) (var : Text → Option Text) (config : Config)
    (events : List Event) (a : S)
    → TableLaws (sdk sdk_config) item
    → ((name : Text) → item a config.table_name name ≡ none)
    → CborLaws crates.cbor
    → PngLaws crates
    → from_env var ≡ some config
    → config.min_width ≤ 200_000_000
    → IsTraffic crates config 0 events
    → length events ≤ max_recent_visitors
    → (replies : List Reply) × (main crates sdk var events a ≡ some replies)
      × IsReplies crates config events (λ name. empty_view) replies
unfolding main
main-IsReplies crates sdk item var config events a db_laws empty laws png_laws read narrow traffic
      room =
    (
      handle_all crates config (real (sdk sdk_config)) events a,
      rw read refl,
      handle_all-IsReplies crates config (sdk sdk_config) item db_laws laws png_laws narrow events 0
          0 a (λ name. empty_view) traffic (omega arith) (λ name. rw (empty name) (refl, tt)),
    )
