-- ===== src/Bootstrap/Service/Split.antt =====
-- A handler of src/bin/bootstrap.rs as a call of the store and what follows on its count.
use digital_garden_visitor_c.Common.{ℕ, ◌≡◌, refl, Option, none, some, inl, inr}
use digital_garden_visitor_c.Store.Dynamo.{Proc, done, ◌>>=◌}
use digital_garden_visitor_c.Store.Increment.{maybe_increment_visitors}
use digital_garden_visitor_c.Store.Serial.{Visit}
use digital_garden_visitor_c.Store.System.Behind.{IsEnd}
use digital_garden_visitor_c.Bootstrap.Config.{Config}
use digital_garden_visitor_c.Bootstrap.Handler.{
  Response, Crates, count_name, respond, function_handler,
}
use digital_garden_visitor_c.Bootstrap.Handler.Answers.{respond-cases}
use digital_garden_visitor_c.Bootstrap.Service.{Event}
use digital_garden_visitor_c.Bootstrap.Service.Admits.{
  IsQuiet, rejected, failed, panicked, IsHandled, counts, quiet,
}

module _ (crates : Crates) (config : Config) where
  abbrev pub handler : Event → Proc Response
  handler event = function_handler crates config event.seen event.now event.request

  -- The call of the store for the visit of an event, or none.
  abbrev pub call_for : Event → Option Visit → Proc ℕ
  call_for event none = done 0
  call_for event (some v) =
      maybe_increment_visitors crates.cbor config.table_name v.visitor (count_name event.request)
        v.now

  -- What the handler does with the count.
  abbrev pub rest_for : Event → Option Visit → ℕ → Proc Response
  rest_for event none count = handler event
  rest_for event (some v) count =
      respond crates config.min_width (count_name event.request) v.visitor.tag count

  pub handler-split :
      (event : Event) (o : Option Visit)
      → IsHandled crates config event (handler event) o
      → handler event ≡ call_for event o >>= rest_for event o
  handler-split event none h = refl
  handler-split event (some v) (counts w e h) = let same : v ≡ w = cc in rw same h
  handler-split event (some v) (quiet e q) = cc

  IsQuiet-IsEnd : (p : Proc Response) → IsQuiet p → IsEnd p
  IsQuiet-IsEnd p (rejected e) = rw e tt
  IsQuiet-IsEnd p (failed x e) = rw e tt
  IsQuiet-IsEnd p (panicked e) = rw e tt

  pub rest_for-IsEnd :
      (event : Event) (o : Option Visit) (count : ℕ)
      → IsHandled crates config event (handler event) o
      → IsEnd (rest_for event o count)
  rest_for-IsEnd event none count (counts w e h) = cc
  rest_for-IsEnd event none count (quiet _ q) = IsQuiet-IsEnd (handler event) q
  rest_for-IsEnd event (some v) count h =
      elim (respond-cases crates config.min_width (count_name event.request) v.visitor.tag count) [
        | inl e ↦ rw e tt
        | inr (inl (_, e)) ↦ rw e tt
        | inr (inr (_, e, _)) ↦ rw e tt
      ]
