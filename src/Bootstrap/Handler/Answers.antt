-- ===== src/Bootstrap/Handler/Answers.antt =====
-- The requests that `function_handler` of src/bin/bootstrap.rs sends to the store, and its answers.
use digital_garden_visitor_c.Common.{
  ℕ, ◌≡◌, refl, ap, Bool, true, some, Bytes, Text, codes, ok, length, ◌⊎◌, inl, inr, Bool-cases,
  Option-cases, Result-cases,
}
use digital_garden_visitor_c.Decimal.{to_string}
use digital_garden_visitor_c.Counter.Render.{Render, render_separated_number}
use digital_garden_visitor_c.Store.Time.{SystemTime}
use digital_garden_visitor_c.Store.Dynamo.{
  s, get, BoxError, png_error, GetItemInput, PutItemInput, Proc, done, fail, panic,
}
use digital_garden_visitor_c.Store.Dynamo.Requests.{AfterPut, Requests, Requests-bind}
use digital_garden_visitor_c.Store.Client.{put_input, put_new_input}
use digital_garden_visitor_c.Store.Increment.{maybe_increment_visitors}
use digital_garden_visitor_c.Store.Increment.Puts.{
  IsRead, IsVisitPut, maybe_increment_visitors-Honest,
}
use digital_garden_visitor_c.Bootstrap.Config.{Config}
use digital_garden_visitor_c.Bootstrap.Handler.{
  Request, Response, binary, Crates, count_name, to_png_bytes, image_response, image_answer,
  respond, function_handler,
}
use digital_garden_visitor_c.Bootstrap.Handler.Admission.{
  Admitted, Verdict, other_path, without_context, without_user_agent, by_a_bot, without_source_ip,
  short_hash, unknown_name, admitted, function_handler-Verdict,
}

-- A get of the counter that an admitted request names.
abbrev pub IsAdmittedGet : (Text → Bool) → Config → Request → GetItemInput → Type 0
IsAdmittedGet is_bot config event i =
    Admitted is_bot config event × IsRead config.table_name (count_name event) i

-- A put of it.
abbrev pub IsAdmittedPut : (Text → Bool) → Config → Request → PutItemInput → Type 0
IsAdmittedPut is_bot config event i =
    Admitted is_bot config event
    × (i.table_name ≡ config.table_name)
    × (get (codes "key") i.item ≡ some (s (count_name event)))

put-key :
    (crates : Crates) (config : Config) (event : Request) (i : PutItemInput) (k : AfterPut ℕ)
    → Admitted crates.is_bot config event
    → IsVisitPut crates.cbor config.table_name (count_name event) i k
    → IsAdmittedPut crates.is_bot config event i
unfolding put_new_input put_input get
put-key crates config event i k h (inl creation) =
    (h, ap (λ j. j.table_name) creation.input, ap (λ j. get (codes "key") j.item) creation.input)
put-key crates config event i k h (inr update) =
    (h, ap (λ j. j.table_name) update.input, ap (λ j. get (codes "key") j.item) update.input)

-- The answer with the image of a count for a visitor with a tag.
pub record IsImage (crates : Crates) (min_width : ℕ) (name : Text) (tag count : ℕ) (r : Response)
    : Type 0 where
  pub render : Render
  pub rendered : render_separated_number count min_width ≡ some render
  pub png : Bytes
  pub encoded : to_png_bytes crates render ≡ ok png
  pub status : r.status ≡ 200
  pub body : r.body ≡ binary png
  pub content_length : get (codes "content-length") r.headers ≡ some (to_string (length png))
  pub x_count_name : get (codes "x-count-name") r.headers ≡ some name
  pub x_count : get (codes "x-count") r.headers ≡ some (to_string count)
  pub x_tag : get (codes "x-tag") r.headers ≡ some (to_string tag)

module _ (crates : Crates) (min_width : ℕ) (name : Text) (tag count : ℕ) where
  pub respond-done :
      (r : Render) (p : Bytes)
      → render_separated_number count min_width ≡ some r
      → to_png_bytes crates r ≡ ok p
      → crates.valid_header name ≡ true
      → respond crates min_width name tag count ≡ done (image_answer name tag count p)
  unfolding respond image_response
  respond-done r p e f v = rw (e, f, v) refl

  respond-IsImage_answer :
      (r : Render) (p : Bytes)
      → render_separated_number count min_width ≡ some r
      → to_png_bytes crates r ≡ ok p
      → crates.valid_header name ≡ true
      → (response : Response) × (respond crates min_width name tag count ≡ done response)
        × IsImage crates min_width name tag count response
  unfolding get
  respond-IsImage_answer r p e f v = (
    image_answer name tag count p,
    respond-done r p e f v,
    record {
      render = r;
      rendered = e;
      png = p;
      encoded = f;
      status = refl;
      body = refl;
      content_length = refl;
      x_count_name = refl;
      x_count = refl;
      x_tag = refl;
    },
  )

  -- The end of the handler: a panic, an error of the encoder, or the answer.
  pub respond-cases :
      (respond crates min_width name tag count ≡ panic)
      ⊎ ((e : BoxError) × (respond crates min_width name tag count ≡ fail e))
      ⊎ ((response : Response) × (respond crates min_width name tag count ≡ done response)
          × IsImage crates min_width name tag count response)
  unfolding respond image_response
  respond-cases = elim (Option-cases (render_separated_number count min_width)) [
    | inl e ↦ inl (rw e refl)
    | inr (r, e) ↦ elim (Result-cases (to_png_bytes crates r)) [
      | inr (x, f) ↦ inr (inl (png_error x, rw (e, f) refl))
      | inl (p, f) ↦ elim (Bool-cases (crates.valid_header name)) [
        | inl v ↦ inr (inr (respond-IsImage_answer r p e f v))
        | inr v ↦ inl (rw (e, f, v) refl)
      ]
    ]
  ]

respond-Requests :
    (crates : Crates) (min_width : ℕ) (name : Text) (tag count : ℕ) (G : GetItemInput → Type 0)
    (Q : PutItemInput → Type 0)
    → Requests G (λ i _. Q i) (respond crates min_width name tag count)
respond-Requests crates min_width name tag count G Q =
    elim (respond-cases crates min_width name tag count) [
      | inl e ↦ rw e tt
      | inr (inl (_, e)) ↦ rw e tt
      | inr (inr (_, e, _)) ↦ rw e tt
    ]

-- A request of the handler is that of an admitted request.
abbrev pub RequestsAdmitted : Crates → Config → Request → Proc Response → Type 0
RequestsAdmitted crates config event h =
    Requests (IsAdmittedGet crates.is_bot config event)
      (λ i _. IsAdmittedPut crates.is_bot config event i) h

module _ (crates : Crates) (config : Config) (seen now : SystemTime) (event : Request) where
  Verdict-Requests :
      (h : Proc Response)
      → Verdict crates config seen now event h
      → RequestsAdmitted crates config event h
  Verdict-Requests h (other_path _ e) = rw e tt
  Verdict-Requests h (without_context _ _ e) = rw e tt
  Verdict-Requests h (without_user_agent _ _ _ _ e) = rw e tt
  Verdict-Requests h (by_a_bot _ _ _ _ _ _ e) = rw e tt
  Verdict-Requests h (without_source_ip _ _ _ _ _ _ _ e) = rw e tt
  Verdict-Requests h (short_hash _ _ e) = rw e tt
  Verdict-Requests h (unknown_name _ _ _ _ e) = rw e tt
  Verdict-Requests h (admitted _ visitor _ a e) = rw e (
      Requests-bind (IsRead config.table_name (count_name event))
        (IsAdmittedGet crates.is_bot config event)
        (IsVisitPut crates.cbor config.table_name (count_name event))
        (IsAdmittedPut crates.is_bot config event)
        (maybe_increment_visitors crates.cbor config.table_name visitor (count_name event) now)
        (respond crates config.min_width (count_name event) visitor.tag) (λ i g. (a, g))
        (λ i k p. put-key crates config event i k a p)
        (maybe_increment_visitors-Honest crates.cbor config.table_name visitor (count_name event)
          now)
        (λ count.
          respond-Requests crates config.min_width (count_name event) visitor.tag count _ _))

  -- Only for an admitted request is anything sent to the store: gets and puts of the table of the
  -- configuration, with the allowed name of the counter as the key.
  pub function_handler-Requests :
      RequestsAdmitted crates config event (function_handler crates config seen now event)
  function_handler-Requests =
      Verdict-Requests (function_handler crates config seen now event)
        (function_handler-Verdict crates config seen now event)
