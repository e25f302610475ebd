-- ===== src/Bootstrap/Handler.antt =====
-- `function_handler` of src/bin/bootstrap.rs, with `Render::to_png_bytes` of src/counter.rs.
pub mod Admission
pub mod Answers
pub mod Images
pub mod Served
pub mod Shown
use digital_garden_visitor_c.Common.{
  ℕ, ◌%◌, ◌^◌, List, [], ◌∷◌, Bool, false, ◌||◌, Option, none, some, Bytes, Text, codes, text_eq,
  Result, ok, err, if◌then◌else◌, length,
}
use digital_garden_visitor_c.Decimal.{to_string}
use digital_garden_visitor_c.Counter.Render.{Render, render_separated_number}
use digital_garden_visitor_c.RequestInfo.{
  RequestInfo, RequestInfoError, looks_like_a_bot, HttpContext, request_info_try_from,
}
use digital_garden_visitor_c.Store.Time.{SystemTime}
use digital_garden_visitor_c.Store.Visitor.{Visitor, Endian, visitor_from_request}
use digital_garden_visitor_c.Store.Entry.{Cbor}
use digital_garden_visitor_c.Store.Dynamo.{
  Map, Proc, done, fail, panic, request_info_error, png_error, ◌>>=◌, or_panic, or_fail,
}
use digital_garden_visitor_c.Store.Increment.{maybe_increment_visitors}
use digital_garden_visitor_c.Bootstrap.Config.{Config}

-- What the handler reads of a request. `query` is the function `first` of the query parameters.
pub record Request : Type 0 where
  pub path : Text
  pub context : Option HttpContext
  pub query : Option (Text → Option Text)

pub data Body : Type 0 where
  empty : Body
  binary : Bytes → Body

pub record Response : Type 0 where
  pub status : ℕ
  pub headers : Map Text
  pub body : Body

-- The crates that the handler calls, and the byte order of the target. `png` encodes 8-bit RGBA
-- pixels at a width and a height; `valid_header` tells what the crate http takes as a value.
pub record Crates : Type 0 where
  pub is_bot : Text → Bool
  pub md5 : Bytes → Bytes
  pub endian : Endian
  pub cbor : Cbor
  pub png : ℕ → ℕ → Bytes → Result Bytes ℕ
  pub valid_header : Text → Bool

abbrev pub not_found : Response
not_found = record { status = 404; headers = []; body = empty }

abbrev pub contains : Text → List Text → Bool
contains name [] = false
contains name (allowed ∷ names) = text_eq allowed name || contains name names

-- The name of the counter from the query parameters.
unfoldable pub count_name : Request → Text
count_name event = elim event.query [
  | none ↦ codes "default"
  | some first ↦ elim (first (codes "name")) [ none ↦ codes "default" | some name ↦ name ]
]

-- The response that is built of the image.
abbrev pub image_answer : Text → ℕ → ℕ → Bytes → Response
image_answer name tag count png_bytes = record {
  status = 200;
  headers =
      (codes "cache-control", codes "no-cache")
      ∷ (codes "content-type", codes "image/png")
      ∷ (codes "content-length", to_string (length png_bytes))
      ∷ (codes "x-count-name", name)
      ∷ (codes "x-count", to_string count)
      ∷ (codes "x-tag", to_string tag)
      ∷ [];
  body = binary png_bytes;
}

module _ (crates : Crates) where
  -- `Render::to_png_bytes`: the dimensions are cast to `u32`.
  unfoldable pub to_png_bytes : Render → Result Bytes ℕ
  to_png_bytes render = crates.png (render.width % 2 ^ 32) (render.height % 2 ^ 32) render.pixels

  -- The builder panics on a value that is no header value.
  unfoldable pub image_response : Text → ℕ → ℕ → Bytes → Proc Response
  image_response name tag count png_bytes =
      if crates.valid_header name then done (image_answer name tag count png_bytes) else panic

  -- The end of the handler, from the count on.
  unfoldable pub respond : ℕ → Text → ℕ → ℕ → Proc Response
  unfolding to_png_bytes image_response
  respond min_width name tag count = do
    render ← or_panic (render_separated_number count min_width)
    png_bytes ← or_fail png_error (to_png_bytes render)
    image_response name tag count png_bytes

  -- The handler from the visitor on.
  unfoldable pub count_visit : Config → SystemTime → Text → Visitor → Proc Response
  unfolding respond
  count_visit config now name visitor =
      if contains name config.allowed_names
      then (maybe_increment_visitors crates.cbor config.table_name visitor name now
          >>= respond config.min_width name visitor.tag)
      else done not_found

  -- The `match` on the request information, and the handler from there on. `seen` and `now` are
  -- the two answers of the clock, in the order of the calls.
  unfoldable pub handle_info :
      Config
      → SystemTime
      → SystemTime
      → Request
      → Result RequestInfo RequestInfoError
      → Proc Response
  unfolding count_visit count_name
  handle_info config seen now event (err looks_like_a_bot) = done not_found
  handle_info config seen now event (err e) = fail (request_info_error e)
  handle_info config seen now event (ok request_info) =
      or_panic (visitor_from_request crates.md5 crates.endian seen request_info)
      >>= count_visit config now (count_name event)

  unfoldable pub function_handler : Config → SystemTime → SystemTime → Request → Proc Response
  unfolding handle_info
  function_handler config seen now event =
      if text_eq event.path (codes "/")
      then (or_panic event.context >>= λ context.
          handle_info config seen now event (request_info_try_from crates.is_bot context))
      else done not_found
