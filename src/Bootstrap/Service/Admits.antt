-- ===== src/Bootstrap/Service/Admits.antt =====
-- Which events count a visitor, src/bin/bootstrap.rs.
use digital_garden_visitor_c.Common.{
  ◌≡◌, refl, Option, none, some, codes, text_eq, Result, ok, err, if◌then◌else◌, inl, inr,
  Bool-cases, Option-cases,
}
use digital_garden_visitor_c.RequestInfo.{
  RequestInfo, RequestInfoError, missing_user_agent, missing_source_ip, looks_like_a_bot,
  HttpContext, request_info_try_from,
}
use digital_garden_visitor_c.Store.Visitor.{Visitor, visitor_from_request}
use digital_garden_visitor_c.Store.Dynamo.{BoxError, Proc, done, fail, panic, ◌>>=◌, or_panic}
use digital_garden_visitor_c.Store.Increment.{maybe_increment_visitors}
use digital_garden_visitor_c.Bootstrap.Config.{Config}
use digital_garden_visitor_c.Bootstrap.Handler.{
  Response, Crates, not_found, contains, count_name, respond, count_visit, handle_info,
  function_handler,
}
use digital_garden_visitor_c.Bootstrap.Service.{Event}
use digital_garden_visitor_c.Store.Serial.{Visit}

-- The end of a handler that sends no request.
pub data IsQuiet (h : Proc Response) : Type 0 where
  rejected : h ≡ done not_found → IsQuiet h
  failed : (e : BoxError) → h ≡ fail e → IsQuiet h
  panicked : h ≡ panic → IsQuiet h

module _ (crates : Crates) (config : Config) where
  -- The visitor of a request, if its name is allowed.
  abbrev pub allowed_visitor : Event → Option Visitor → Option Visit
  allowed_visitor event none = none
  allowed_visitor event (some visitor) =
      if contains (count_name event.request) config.allowed_names
      then some (record { visitor = visitor; now = event.now })
      else none

  abbrev pub visit_from : Event → Result RequestInfo RequestInfoError → Option Visit
  visit_from event (err e) = none
  visit_from event (ok info) =
      allowed_visitor event (visitor_from_request crates.md5 crates.endian event.seen info)

  abbrev visit_in : Event → Option HttpContext → Option Visit
  visit_in event none = none
  visit_in event (some context) = visit_from event (request_info_try_from crates.is_bot context)

  -- The visit that an event counts, if it is to count one: the path is the root, a user agent that
  -- is no bot's and an address are given, the hash gives a tag, and the name is allowed.
  abbrev pub visit_of : Event → Option Visit
  visit_of event =
      if text_eq event.request.path (codes "/") then visit_in event event.request.context else none

  -- The handler of an event that counts a visit, or none.
  pub data IsHandled (event : Event) (h : Proc Response) (o : Option Visit) : Type 0 where
    counts :
        (v : Visit)
        → o ≡ some v
        → h ≡ (
            maybe_increment_visitors crates.cbor config.table_name v.visitor
              (count_name event.request)
              v.now
            >>= respond crates config.min_width (count_name event.request) v.visitor.tag)
        → IsHandled event h o
    quiet : o ≡ none → IsQuiet h → IsHandled event h o

  visitor-IsHandled :
      (event : Event) (visitor : Visitor)
      → IsHandled event
          (count_visit crates config event.now (count_name event.request) visitor)
          (allowed_visitor event (some visitor))
  unfolding count_visit
  visitor-IsHandled event visitor =
      elim (Bool-cases (contains (count_name event.request) config.allowed_names)) [
        | inl e ↦ rw e (counts (record { visitor = visitor; now = event.now }) refl refl)
        | inr e ↦ rw e (quiet refl (rejected refl))
      ]

  info-IsHandled :
      (event : Event) (r : Result RequestInfo RequestInfoError)
      → IsHandled event
          (handle_info crates config event.seen event.now event.request r)
          (visit_from event r)
  unfolding handle_info
  info-IsHandled event (err looks_like_a_bot) = quiet refl (rejected refl)
  info-IsHandled event (err missing_user_agent) = quiet refl (failed _ refl)
  info-IsHandled event (err missing_source_ip) = quiet refl (failed _ refl)
  info-IsHandled event (ok info) =
      elim (Option-cases (visitor_from_request crates.md5 crates.endian event.seen info)) [
        | inl e ↦ rw e (quiet refl (panicked refl))
        | inr (visitor, e) ↦ rw e (visitor-IsHandled event visitor)
      ]

  context-IsHandled :
      (event : Event) (o : Option HttpContext)
      → IsHandled event
          (or_panic o >>= λ context.
            handle_info crates config event.seen event.now event.request
              (request_info_try_from crates.is_bot context))
          (visit_in event o)
  context-IsHandled event none = quiet refl (panicked refl)
  context-IsHandled event (some context) =
      info-IsHandled event (request_info_try_from crates.is_bot context)

  pub function_handler-IsHandled :
      (event : Event)
      → IsHandled event
          (function_handler crates config event.seen event.now event.request)
          (visit_of event)
  unfolding function_handler
  function_handler-IsHandled event = elim (Bool-cases (text_eq event.request.path (codes "/"))) [
    | inr e ↦ rw e (quiet refl (rejected refl))
    | inl e ↦ rw e (context-IsHandled event event.request.context)
  ]
