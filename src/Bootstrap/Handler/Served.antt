-- ===== src/Bootstrap/Handler/Served.antt =====
-- How `function_handler` of src/bin/bootstrap.rs serves an admitted request when the store answers.
use digital_garden_visitor_c.Common.{
  ℕ, zero, suc, ◌≤◌, ◌<◌, ◌^◌, ◌≡◌, refl, ap, ◌∙◌, List, [], ◌∷◌, Bool, true, some, Bytes, Text,
  codes, text_eq, text_eq_refl, Result, ok, get_elem?, Bool-cases, inl, inr,
}
use digital_garden_visitor_c.Counter.Render.{Render}
use digital_garden_visitor_c.Counter.Render.Drawn.{IsRendering}
use digital_garden_visitor_c.RequestInfo.{RequestInfo, request_info_try_from}
use digital_garden_visitor_c.Store.Time.{SystemTime}
use digital_garden_visitor_c.Store.Visitor.{Visitor, visitor_from_request}
use digital_garden_visitor_c.Store.Dynamo.{
  GetItemOutput, PutItemError, Proc, done, fail, panic, get_item, put_item, ◌>>=◌,
}
use digital_garden_visitor_c.Store.Increment.{maybe_increment_visitors}
use digital_garden_visitor_c.Store.Increment.Answered.{
  answered, Ready, maybe_increment_visitors-answered,
}
use digital_garden_visitor_c.Bootstrap.Config.{Config}
use digital_garden_visitor_c.Bootstrap.Handler.{
  Request, Crates, contains, count_name, image_answer, respond, count_visit, handle_info,
  function_handler,
}
use digital_garden_visitor_c.Bootstrap.Handler.Admission.{Admitted}
use digital_garden_visitor_c.Bootstrap.Handler.Images.{PngLaws, respond-IsRendering}

pub answered-bind :
    {A B : Type 0} (got : Result GetItemOutput ℕ) (put : Result (Unit {0}) PutItemError)
    (p : Proc A) (f : A → Proc B) (a : A)
    → answered got put p ≡ done a
    → answered got put (p >>= f) ≡ answered got put (f a)
answered-bind got put (done b) f a h =
    let same : b ≡ a = cc in ap (λ t. answered got put (f t)) same
answered-bind got put (fail e) f a h = cc
answered-bind got put panic f a h = cc
answered-bind got put (get_item i k) f a h = answered-bind got put (k got) f a h
answered-bind got put (put_item i k) f a h = answered-bind got put (k put) f a h

contains-true :
    (name : Text) (names : List Text) (i : ℕ)
    → get_elem? names i ≡ some name
    → contains name names ≡ true
contains-true name [] i h = cc
contains-true name (first ∷ names) zero h =
    let same : first ≡ name = cc in rw (same, text_eq_refl name) refl
contains-true name (first ∷ names) (suc i) h = elim (Bool-cases (text_eq first name)) [
  | inl e ↦ rw e refl
  | inr e ↦ rw e (contains-true name names i h)
]

-- The request information of an admitted request.
abbrev pub info :
    {is_bot : Text → Bool} {config : Config} {event : Request}
    → Admitted is_bot config event
    → RequestInfo
info a = record { user_agent = a.user_agent; source_ip = a.source_ip }

module _ (crates : Crates) (config : Config) (seen now : SystemTime) (event : Request)
    (a : Admitted crates.is_bot config event) where
  extracted : request_info_try_from crates.is_bot a.context ≡ ok (info a)
  unfolding request_info_try_from
  extracted =
      let u = a.has_user_agent in let b = a.no_bot in let i = a.has_source_ip in rw (u, b, i) refl

  counted :
      (visitor : Visitor)
      → visitor_from_request crates.md5 crates.endian seen (info a) ≡ some visitor
      → handle_info crates config seen now event (ok (info a)) ≡ (
          maybe_increment_visitors crates.cbor config.table_name visitor (count_name event) now
          >>= respond crates config.min_width (count_name event) visitor.tag)
  unfolding handle_info count_visit
  counted visitor v =
      rw (v, contains-true (count_name event) config.allowed_names a.index a.allowed) refl

  pub handled :
      function_handler crates config seen now event
      ≡ handle_info crates config seen now event (request_info_try_from crates.is_bot a.context)
  unfolding function_handler
  handled =
      let root : text_eq event.path (codes "/") ≡ true = rw a.root refl in
      let context = a.has_context in rw (root, context) refl

  -- An admitted request is answered with the image of the count that is put for its visitor. It
  -- needs that the store answers each get with a response after which the count can be put, and
  -- each put with success; that the name can be a header value, the encoder takes every image that
  -- the format allows and the configured width is at most 200,000,000; and that the hash has four
  -- bytes for the visitor.
  pub function_handler-answered :
      (got : Result GetItemOutput ℕ) (visitor : Visitor) (count : ℕ)
      → PngLaws crates
      → crates.valid_header (count_name event) ≡ true
      → config.min_width ≤ 200_000_000
      → count < 2 ^ 64
      → visitor_from_request crates.md5 crates.endian seen (info a) ≡ some visitor
      → Ready crates.cbor config.table_name visitor (count_name event) now got count
      → (r : Render) × (png : Bytes) × IsRendering count config.min_width r
        × (crates.png r.width r.height r.pixels ≡ ok png)
        × (answered got (ok tt) (function_handler crates config seen now event)
            ≡ done (image_answer (count_name event) visitor.tag count png))
  function_handler-answered got visitor count laws valid narrow word v ready =
      let (r, png, drawn, bytes, answer) =
        respond-IsRendering crates laws config.min_width (count_name event) visitor.tag count word
          narrow valid in
      let visit =
        maybe_increment_visitors-answered crates.cbor config.table_name visitor (count_name event)
          now got (ok tt) count ready in
      (
        r,
        png,
        drawn,
        bytes,
        ap (answered got (ok tt)) (
              handled ∙ ap (handle_info crates config seen now event) extracted ∙ counted visitor v)
            ∙ answered-bind got (ok tt)
                (maybe_increment_visitors crates.cbor config.table_name visitor (count_name event)
                  now)
                (respond crates config.min_width (count_name event) visitor.tag) count visit
            ∙ ap (answered got (ok tt)) answer,
      )
