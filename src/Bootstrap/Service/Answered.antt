-- ===== src/Bootstrap/Service/Answered.antt =====
-- Handlers of src/bin/bootstrap.rs at once: when each of them answers with an image.
use digital_garden_visitor_c.Common.{
  ℕ, ◌+◌, ◌^◌, ◌≤◌, ◌<◌, ◌≡◌, ◌≢◌, refl, ap, ◌∙◌, List, [], ◌∷◌, true, Option, none, some, Bytes,
  Text, text_eq, false, ok, ◌⊎◌, inl, inr,
}
use digital_garden_visitor_c.Counter.Render.{Render}
use digital_garden_visitor_c.Counter.Render.Drawn.{IsRendering}
use digital_garden_visitor_c.Store.Time.{SystemTime}
use digital_garden_visitor_c.Store.Entry.{Cbor}
use digital_garden_visitor_c.Store.Entry.RoundTrip.{CborLaws}
use digital_garden_visitor_c.Store.Dynamo.{Proc, done, fail, panic, get_item, put_item, ◌>>=◌}
use digital_garden_visitor_c.Store.Increment.Contention.{gave_up, IsCounter, raised}
use digital_garden_visitor_c.Store.Increment.Puts.{Honest, maybe_increment_visitors-Honest}
use digital_garden_visitor_c.Store.Serial.{Visit}
use digital_garden_visitor_c.Store.System.{Database, DatabaseLaws, SystemOf, System, Step}
use digital_garden_visitor_c.Store.System.Answers.{
  IsWithin, IsGood, Sound, maybe_increment_visitors-Sound,
}
use digital_garden_visitor_c.Store.System.Answers.Steps.{AllSound, Reaches-AllSound}
use digital_garden_visitor_c.Store.System.Behind.{Reaches-Behind}
use digital_garden_visitor_c.Store.System.Progress.{ReliableLaws}
use digital_garden_visitor_c.Store.System.Progress.Finishes.{Reaches, here, further}
use digital_garden_visitor_c.Store.System.Turns.{Scheduled}
use digital_garden_visitor_c.Store.System.WaitFree.{
  turns, IsEnded, returns, fails, panics, IsEnded-cases,
}
use digital_garden_visitor_c.Bootstrap.Config.{Config}
use digital_garden_visitor_c.Bootstrap.Handler.{Response, Crates, count_name, image_answer}
use digital_garden_visitor_c.Bootstrap.Handler.Images.{PngLaws, respond-IsRendering}
use digital_garden_visitor_c.Bootstrap.Service.{Event}
use digital_garden_visitor_c.Bootstrap.Service.Admits.{visit_of}
use digital_garden_visitor_c.Bootstrap.Service.AtOnce.{
  IsVisitOf, IsOther, serving, rest_at, calls, names, rest_at-IsEnd, serving-Behind, names-ours,
  names-others, name_for, calls-progress,
}
use digital_garden_visitor_c.Bootstrap.Service.Split.{call_for}
use digital_garden_visitor_c.Bootstrap.Service.Turns.{function_handler-turns}

before-Reaches :
    {db : Database} {A : Type 0} {σ υ τ : SystemOf db A} → Step db σ υ → Reaches υ τ → Reaches σ τ
before-Reaches step here = further here step
before-Reaches step (further run last) = further (before-Reaches step run) last

Scheduled-Reaches :
    {db : Database} {A : Type 0} (order : List ℕ) (σ τ : SystemOf db A)
    → Scheduled σ order τ
    → Reaches σ τ
Scheduled-Reaches [] σ τ same = rw (← same) here
Scheduled-Reaches (i ∷ order) σ τ (υ, step, _, rest) =
    before-Reaches step (Scheduled-Reaches order υ τ rest)

-- A sound invocation that has ended without giving up has returned.
ended-Sound :
    {A : Type 0} (cbor : Cbor) (second : SystemTime) (p : Proc ℕ) (f : ℕ → Proc A)
    → IsEnded (p >>= f)
    → Sound cbor second p
    → p ≢ fail gave_up
    → (count : ℕ) × (p ≡ done count) × (count < 2 ^ 64)
ended-Sound cbor second (done count) f ended sound ne = (count, refl, sound)
ended-Sound cbor second (fail e) f ended sound ne = absurd (ne (ap fail sound))
ended-Sound cbor second panic f ended sound ne = absurd sound
ended-Sound cbor second (get_item i k) f (returns a e) sound ne = cc
ended-Sound cbor second (get_item i k) f (fails x e) sound ne = cc
ended-Sound cbor second (get_item i k) f (panics e) sound ne = cc
ended-Sound cbor second (put_item i k) f (returns a e) sound ne = cc
ended-Sound cbor second (put_item i k) f (fails x e) sound ne = cc
ended-Sound cbor second (put_item i k) f (panics e) sound ne = cc

module _ (crates : Crates) (config : Config) where
  -- The event counts a visit of the counter in the second that begins at an instant.
  abbrev pub IsVisitIn : SystemTime → Text → Event → Type 0
  IsVisitIn second name event =
      (v : Visit) × (visit_of crates config event ≡ some v)
      × (count_name event.request ≡ name)
      × IsWithin second v

  -- The answer to a visit of the counter: the image of a count from `low` to `high`, at least one.
  abbrev pub IsImageOf : ℕ → ℕ → Text → Event → Proc Response → Type 0
  IsImageOf low high name event reply =
      (v : Visit) × (count : ℕ) × (r : Render) × (png : Bytes) × (visit_of crates config event
        ≡ some v)
      × ((1 ≤ count) × (low ≤ count) × (count ≤ high))
      × IsRendering count config.min_width r
      × (crates.png r.width r.height r.pixels ≡ ok png)
      × (reply ≡ done (image_answer name v.visitor.tag count png))

  call_for-Honest :
      (name : Text) (event : Event) (o : Option Visit)
      → Honest crates.cbor config.table_name
          (name_for crates config name event o)
          (call_for crates config event o)
  call_for-Honest name event none = tt
  call_for-Honest name event (some v) =
      maybe_increment_visitors-Honest crates.cbor config.table_name v.visitor
        (count_name event.request) v.now

  call_for-Sound :
      (second : SystemTime) (name : Text) (event : Event)
      → CborLaws crates.cbor
      → IsVisitIn second name event
      → Sound crates.cbor second (call_for crates config event (visit_of crates config event))
  call_for-Sound second name event laws (v, one, same, within) =
      rw (one, same)
        (maybe_increment_visitors-Sound crates.cbor laws config.table_name name second v within)

  rest_at-IsImageOf :
      (db : Database) (events : ℕ → Event) (second : SystemTime) (low high : ℕ) (name : Text)
      (i count : ℕ)
      → PngLaws crates
      → config.min_width ≤ 200_000_000
      → crates.valid_header name ≡ true
      → IsVisitIn second name (events i)
      → count < 2 ^ 64
      → (1 ≤ count) × (low ≤ count) × (count ≤ high)
      → IsImageOf low high name (events i) (rest_at crates config db events i count)
  rest_at-IsImageOf db events second low high name i count png_laws narrow valid (v, one, same, _)
        word range =
      let (r, png, drawn, bytes, answer) =
        respond-IsRendering crates png_laws config.min_width name v.visitor.tag count word narrow
          valid in
      (v, count, r, png, one, range, drawn, bytes, rw (one, same) answer)

  IsVisitIn-IsVisitOf :
      (second : SystemTime) (name : Text) (event : Event)
      → IsVisitIn second name event
      → IsVisitOf crates config name event
  IsVisitIn-IsVisitOf second name event (v, one, same, _) = (v, one, same)

  module _ (db : Database) (laws : DatabaseLaws db) (reliable : ReliableLaws db)
      (cbor_laws : CborLaws crates.cbor) (png_laws : PngLaws crates)
      (narrow : config.min_width ≤ 200_000_000) (events : ℕ → Event) (second : SystemTime)
      (name : Text) (valid : crates.valid_header name ≡ true) (count : ℕ)
      (ours : (i : ℕ) → i < count → IsVisitIn second name (events i))
      (others : (i : ℕ) → count ≤ i → IsOther crates config name (events i)) (a : db.State)
      (good : IsGood crates.cbor second (db.item a config.table_name name)) where
    abbrev named : (i : ℕ) → i < count → names crates config db events name i ≡ name
    named i below =
        names-ours crates config db events name i
          (IsVisitIn-IsVisitOf second name (events i) (ours i below))

    abbrev apart : (i : ℕ) → count ≤ i → text_eq name (names crates config db events name i) ≡ false
    apart i over = names-others crates config db events name i (others i over)

    abbrev AllGood : System db → Type 0
    AllGood σ =
        AllSound db laws reliable crates.cbor config.table_name name
          (names crates config db events name) count second named apart σ

    -- The calls of the handlers, however they have run.
    Reaches-AllGood :
        {φ : System db}
        → Reaches (record { state = a; procs = calls crates config db events }) φ
        → AllGood φ
    Reaches-AllGood run =
        (Reaches-AllSound db laws reliable crates.cbor config.table_name name
          (names crates config db events name) count second named apart run
          (λ i. call_for-Honest name (events i) (visit_of crates config (events i)))
          (record {
            good = good;
            sound = λ i below. call_for-Sound second name (events i) cbor_laws (ours i below);
          })).0

    ended-IsImageOf :
        {τ : SystemOf db Response} (o : Option ℕ) (i : ℕ)
        → count ≤ 5
        → IsCounter (db.item a config.table_name name) o
        → raised o + count + 1 < 2 ^ 64
        → i < count
        → Reaches (serving crates config db events a) τ
        → IsEnded (τ.procs i)
        → IsImageOf (raised o) (raised o + count) name (events i) (τ.procs i)
    ended-IsImageOf {τ} o i five counter room below run ended =
        let rest = rest_at crates config db events in
        let (φ, calls_run, behind) =
          Reaches-Behind db rest (rest_at-IsEnd crates config db events) run
            (serving-Behind crates config db events a) in
        let (ne, ranges, _) =
          calls-progress crates config db events name count a o laws reliable
            (λ j inside. IsVisitIn-IsVisitOf second name (events j) (ours j inside)) others five
            counter room calls_run in
        let all = Reaches-AllGood calls_run in
        let (n, returned, word) =
          ended-Sound crates.cbor second (φ.procs i) (rest i) (rw (behind.procs i) at ended)
            (all.sound i below) (ne i below) in
        let end : τ.procs i ≡ rest i n = behind.procs i ∙ ap (λ p. p >>= rest i) returned in
        rw end (
          rest_at-IsImageOf db events second (raised o) (raised o + count) name i n png_laws narrow
            valid (ours i below) word (ranges i n below returned))

    -- The service answers under load. Let any number of events be handled at once over a database
    -- that answers every request and loses no response. Let at most five of them count a visit of
    -- one counter, all of these in one second, at instants that can be stored and with the visitor
    -- seen less than the cutoff before, and let the others count none or one of another counter. Let
    -- the name be one that a header can hold, the width at most 200,000,000, and the encoder take
    -- every image that the format allows. Let the counter be missing at the start, or stored with a
    -- count that stays below 2^64 - 1 and distinct visitors, none seen after that second begins.
    -- Then in whatever order the handlers take turns, each of the at most five has answered with the
    -- image of a count, which is at least one and that of the start (0 while the counter is
    -- missing), and at most greater than that of the start by the number of those events; or it has
    -- not ended, neither in an answer nor in an error or a panic, and has taken fewer than ten turns.
    pub function_handler-answers :
        (o : Option ℕ) (τ : SystemOf db Response) (order : List ℕ) (i : ℕ)
        → count ≤ 5
        → IsCounter (db.item a config.table_name name) o
        → raised o + count + 1 < 2 ^ 64
        → Scheduled (serving crates config db events a) order τ
        → i < count
        → IsImageOf (raised o) (raised o + count) name (events i) (τ.procs i)
          ⊎ (¬ IsEnded (τ.procs i) × (turns i order < 10))
    function_handler-answers o τ order i five counter room schedule below =
        let run = Scheduled-Reaches order (serving crates config db events a) τ schedule in
        elim (IsEnded-cases (τ.procs i)) [
          | inl ended ↦ inl (ended-IsImageOf o i five counter room below run ended)
          | inr waits ↦
              elim (function_handler-turns crates config db events a τ order i schedule).1 [
                | inl ended ↦ absurd (waits ended)
                | inr fewer ↦ inr (waits, fewer)
              ]
        ]
