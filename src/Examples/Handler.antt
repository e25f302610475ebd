-- ===== src/Examples/Handler.antt =====
-- Tests of src/bin/bootstrap.rs, and instances of the theorems about the handler and its images.
use digital_garden_visitor_c.Common.{
  if◌then◌else◌, ◌≡◌, refl, arith, [], ◌∷◌, true, none, some, Bytes, codes, text_eq, ok, All,
}
use digital_garden_visitor_c.Decimal.{to_string}
use digital_garden_visitor_c.Counter.Render.{Render, render_separated_number}
use digital_garden_visitor_c.Counter.Render.Drawn.{
  IsRendering, render_separated_number-IsRendering, render_separated_number-same_width,
}
use digital_garden_visitor_c.RequestInfo.{HttpContext}
use digital_garden_visitor_c.Store.Visitor.{little}
use digital_garden_visitor_c.Store.Dynamo.{done}
use digital_garden_visitor_c.Bootstrap.Config.{Config, parse_min_width, from_env}
use digital_garden_visitor_c.Bootstrap.Config.Names.{join, Without, from_env-allowed_names}
use digital_garden_visitor_c.Bootstrap.Handler.{
  Request, Crates, image_answer, respond, function_handler,
}
use digital_garden_visitor_c.Bootstrap.Handler.Admission.{
  Admitted, Verdict, function_handler-Verdict,
}
use digital_garden_visitor_c.Bootstrap.Handler.Answers.{RequestsAdmitted, function_handler-Requests}
use digital_garden_visitor_c.Bootstrap.Handler.Images.{PngLaws, respond-IsRendering}
use digital_garden_visitor_c.Bootstrap.Handler.Served.{function_handler-answered}
use digital_garden_visitor_c.Store.Visitor.{Visitor, stored_visitor_from, visitor_from_request}
use digital_garden_visitor_c.Store.Increment.Answered.{Ready, creates, answered}
use digital_garden_visitor_c.Store.Dynamo.{GetItemOutput}
use digital_garden_visitor_c.Common.{ℕ, Result}
use digital_garden_visitor_c.Bootstrap.Handler.{count_name}
use digital_garden_visitor_c.Examples.Codec.{codec}
use digital_garden_visitor_c.Examples.Storage.{system_time}

-- The digest is the text itself, and an image its pixels.
abbrev pub crates : Crates
crates = record {
  is_bot = λ user_agent. text_eq user_agent (codes "bot");
  md5 = λ text. text;
  endian = little;
  cbor = codec;
  png = λ width height pixels. ok pixels;
  valid_header = λ value. true;
}

pub crates-PngLaws : PngLaws crates
crates-PngLaws = record { encodes = λ width height pixels pw w ph h size. (pixels, refl) }

abbrev pub config : Config
config = record {
  table_name = codes "garden-hit-counter";
  min_width = 5;
  allowed_names = codes "default" ∷ codes "blog" ∷ [];
}

pub configured :
    from_env (λ name.
      if text_eq name (codes "DGVC_ALLOWED_NAMES") then some (codes "default,blog") else none)
    ≡ some config
unfolding from_env
configured = refl

from_env-allowed_names_example :
    (read : Config) × (from_env (λ name.
        if text_eq name (codes "DGVC_ALLOWED_NAMES") then some (codes "default,blog") else none)
      ≡ some read)
    × (read.min_width ≡ 5)
    × (join b',' read.allowed_names ≡ codes "default,blog")
    × All (Without b',') read.allowed_names
unfolding parse_min_width
from_env-allowed_names_example =
    from_env-allowed_names
      (λ name.
        if text_eq name (codes "DGVC_ALLOWED_NAMES") then some (codes "default,blog") else none)
      (codes "default,blog") 5 refl refl

abbrev context : HttpContext
context = record { user_agent = some (codes "browser"); source_ip = some (codes "10.0.0.1") }

abbrev pub event : Request
event = record {
  path = codes "/";
  context = some context;
  query = some (λ key. if text_eq key (codes "name") then some (codes "blog") else none);
}

render_separated_number-IsRendering_example :
    (r : Render) × (render_separated_number 1234567 9 ≡ some r) × IsRendering 1234567 9 r
render_separated_number-IsRendering_example =
    render_separated_number-IsRendering 1234567 9 (omega arith) (omega arith)

-- Two numbers of a different number of groups.
render_separated_number-same_width_example :
    (r q : Render) × (render_separated_number 7 5 ≡ some r)
    × (render_separated_number 54321 5 ≡ some q)
    × (r.width ≡ q.width)
unfolding to_string
render_separated_number-same_width_example =
    render_separated_number-same_width 7 54321 5 (omega arith) (omega arith) (omega arith)
      (omega arith) (omega arith)

respond-IsRendering_example :
    (r : Render) × (p : Bytes) × IsRendering 1234 5 r
    × (crates.png r.width r.height r.pixels ≡ ok p)
    × (respond crates 5 (codes "blog") 7 1234 ≡ done (image_answer (codes "blog") 7 1234 p))
respond-IsRendering_example =
    respond-IsRendering crates crates-PngLaws 5 (codes "blog") 7 1234 (omega arith) (omega arith)
      refl

function_handler-Verdict_example :
    Verdict crates config
      (system_time 10)
      (system_time 11)
      event
      (function_handler crates config (system_time 10) (system_time 11) event)
function_handler-Verdict_example =
    function_handler-Verdict crates config (system_time 10) (system_time 11) event

function_handler-Requests_example :
    RequestsAdmitted crates config event
      (function_handler crates config (system_time 10) (system_time 11) event)
function_handler-Requests_example =
    function_handler-Requests crates config (system_time 10) (system_time 11) event

admitted_event : Admitted crates.is_bot config event
unfolding count_name
admitted_event = record {
  root = refl;
  context = context;
  has_context = refl;
  user_agent = codes "browser";
  has_user_agent = refl;
  no_bot = refl;
  source_ip = codes "10.0.0.1";
  has_source_ip = refl;
  index = 1;
  allowed = refl;
}

abbrev first_visitor : Visitor
first_visitor = record { tag = 808333361; last_seen = system_time 10 }

-- The table has no such counter yet.
abbrev nothing : Result GetItemOutput ℕ
nothing = ok (record { item = none })

nothing-Ready :
    Ready codec
      (codes "garden-hit-counter")
      first_visitor
      (count_name event)
      (system_time 11)
      nothing
      1
unfolding stored_visitor_from
nothing-Ready =
    creates (record { tag = 808333361; last_seen = 10 }) (808333361 ∷ 10 ∷ []) refl refl refl refl

hashed :
    visitor_from_request crates.md5 crates.endian
      (system_time 10)
      (record { user_agent = codes "browser"; source_ip = codes "10.0.0.1" })
    ≡ some first_visitor
unfolding visitor_from_request
hashed = refl

function_handler-answered_example :
    (r : Render) × (png : Bytes) × IsRendering 1 5 r
    × (crates.png r.width r.height r.pixels ≡ ok png)
    × (answered nothing
          (ok tt)
          (function_handler crates config (system_time 10) (system_time 11) event)
        ≡ done (image_answer (count_name event) 808333361 1 png))
unfolding admitted_event
function_handler-answered_example =
    function_handler-answered crates config (system_time 10) (system_time 11) event admitted_event
      nothing first_visitor 1 crates-PngLaws refl (omega arith) (omega arith) hashed nothing-Ready
