-- ===== src/Bootstrap/Service/Turns.antt =====
-- How long a handler of src/bin/bootstrap.rs takes, whatever the others do.
use digital_garden_visitor_c.Common.{ℕ, ◌≤◌, ◌<◌, ◌⊎◌, List, Option, none, some}
use digital_garden_visitor_c.Store.Dynamo.{Proc, done, fail, panic, get_item, put_item, ◌>>=◌}
use digital_garden_visitor_c.Store.Dynamo.Requests.{Within}
use digital_garden_visitor_c.Store.Increment.Bounds.{maybe_increment_visitors-Within}
use digital_garden_visitor_c.Store.Serial.{Visit}
use digital_garden_visitor_c.Store.System.{Database, SystemOf}
use digital_garden_visitor_c.Store.System.Behind.{IsEnd}
use digital_garden_visitor_c.Store.System.Turns.{Scheduled}
use digital_garden_visitor_c.Store.System.WaitFree.{turns, IsEnded, Scheduled-Left, Left-IsEnded}
use digital_garden_visitor_c.Bootstrap.Config.{Config}
use digital_garden_visitor_c.Bootstrap.Handler.{Response, Crates, count_name}
use digital_garden_visitor_c.Bootstrap.Service.{Event}
use digital_garden_visitor_c.Bootstrap.Service.Admits.{visit_of, function_handler-IsHandled}
use digital_garden_visitor_c.Bootstrap.Service.AtOnce.{serving}
use digital_garden_visitor_c.Bootstrap.Service.Split.{
  handler, call_for, rest_for, handler-split, rest_for-IsEnd,
}

IsEnd-Within : {A : Type 0} (p : Proc A) (gets puts : ℕ) → IsEnd p → Within p gets puts
IsEnd-Within (done a) gets puts h = tt
IsEnd-Within (fail e) gets puts h = tt
IsEnd-Within panic gets puts h = tt
IsEnd-Within (get_item i k) gets puts (never, _) = absurd never
IsEnd-Within (put_item i k) gets puts (never, _) = absurd never

Within-bind :
    {A B : Type 0} (p : Proc A) (f : A → Proc B) (gets puts : ℕ)
    → ((a : A) → IsEnd (f a))
    → Within p gets puts
    → Within (p >>= f) gets puts
Within-bind (done a) f gets puts ends h = IsEnd-Within (f a) gets puts (ends a)
Within-bind (fail e) f gets puts ends h = tt
Within-bind panic f gets puts ends h = tt
Within-bind (get_item i k) f gets puts ends (left, e, h) =
    (left, e, λ r. Within-bind (k r) f left puts ends (h r))
Within-bind (put_item i k) f gets puts ends (left, e, h) =
    (left, e, λ r. Within-bind (k r) f gets left ends (h r))

module _ (crates : Crates) (config : Config) where
  call_for-Within : (event : Event) (o : Option Visit) → Within (call_for crates config event o) 5 5
  call_for-Within event none = tt
  call_for-Within event (some v) =
      maybe_increment_visitors-Within crates.cbor config.table_name v.visitor
        (count_name event.request) v.now

  handler-Within : (event : Event) → Within (handler crates config event) 5 5
  handler-Within event =
      let o = visit_of crates config event in
      let handled = function_handler-IsHandled crates config event in
      rw (handler-split crates config event o handled) (
        Within-bind (call_for crates config event o) (rest_for crates config event o) 5 5
          (λ count. rest_for-IsEnd crates config event o count handled) (call_for-Within event o))

  -- No handler waits for another. Let any number of events be handled at once over any database, and
  -- let the handlers take turns in any order, a request and its response at a turn. Then each handler
  -- takes at most ten turns, and it has returned, failed or panicked unless it has taken fewer.
  pub function_handler-turns :
      (db : Database) (events : ℕ → Event) (a : db.State) (τ : SystemOf db Response)
      (order : List ℕ) (i : ℕ)
      → Scheduled (serving crates config db events a) order τ
      → (turns i order ≤ 10) × (IsEnded (τ.procs i) ⊎ (turns i order < 10))
  function_handler-turns db events a τ order i run = Left-IsEnded db i (turns i order) 5 5 (
      Scheduled-Left db i order (serving crates config db events a) τ 5 5 run
        (handler-Within (events i)))
