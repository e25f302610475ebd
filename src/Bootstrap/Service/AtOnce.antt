-- ===== src/Bootstrap/Service/AtOnce.antt =====
-- Many handlers of src/bin/bootstrap.rs at once, as Lambda runs them, over one table of DynamoDB.
use digital_garden_visitor_c.Common.{
  ℕ, ◌+◌, ◌^◌, ◌≤◌, ◌<◌, ◌≡◌, ◌≢◌, refl, sym, ap, ◌∙◌, arith, ◌∷◌, false, Option, none, some, Text,
  text_eq, text_eq-to_eq, length, ◌⊎◌, inl, inr, Bool-cases, Option-cases, Result-cases,
}
use mathlib.Core.Path.{subst}
use digital_garden_visitor_c.Counter.Render.{render_separated_number}
use digital_garden_visitor_c.Store.Dynamo.{Proc, done, fail, panic, get_item, put_item, ◌>>=◌}
use digital_garden_visitor_c.Store.Increment.{maybe_increment_visitors}
use digital_garden_visitor_c.Store.Increment.Contention.{gave_up, IsCounter, raised}
use digital_garden_visitor_c.Store.Serial.{Visit}
use digital_garden_visitor_c.Store.System.{Database, DatabaseLaws, SystemOf, System}
use digital_garden_visitor_c.Store.System.Behind.{IsEnd, Behind, Reaches-Behind}
use digital_garden_visitor_c.Store.System.Progress.{ReliableLaws, total, total-le}
use digital_garden_visitor_c.Store.System.Progress.Finishes.{Reaches, Reaches-progress}
use digital_garden_visitor_c.Bootstrap.Config.{Config}
use digital_garden_visitor_c.Bootstrap.Handler.{
  Response, Crates, count_name, to_png_bytes, image_response, respond,
}
use digital_garden_visitor_c.Bootstrap.Service.{Event}
use digital_garden_visitor_c.Bootstrap.Service.Split.{
  handler, call_for, rest_for, handler-split, rest_for-IsEnd,
}
use digital_garden_visitor_c.Bootstrap.Service.Admits.{visit_of, function_handler-IsHandled}

bind-gave_up :
    (p : Proc ℕ) (f : ℕ → Proc Response)
    → ((c : ℕ) → f c ≢ fail gave_up)
    → (p >>= f) ≡ fail gave_up
    → p ≡ fail gave_up
bind-gave_up (done c) f ne e = absurd (ne c e)
bind-gave_up (fail x) f ne e = cc
bind-gave_up panic f ne e = cc
bind-gave_up (get_item i k) f ne e = cc
bind-gave_up (put_item i k) f ne e = cc

longer_name : (c : ℕ) (name : Text) → text_eq name (c ∷ name) ≡ false
longer_name c name = elim (Bool-cases (text_eq name (c ∷ name))) [
  | inl e ↦ let sizes = ap length (text_eq-to_eq name (c ∷ name) e) in absurd (omega arith)
  | inr e ↦ e
]

module _ (crates : Crates) (config : Config) where
  -- The end of the handler has no error of the store.
  respond-ne-gave_up :
      (min_width : ℕ) (name : Text) (tag count : ℕ)
      → respond crates min_width name tag count ≢ fail gave_up
  unfolding respond image_response
  respond-ne-gave_up min_width name tag count gone =
      elim (Option-cases (render_separated_number count min_width)) [
        | inl e ↦ let end = rw e at gone in cc
        | inr (r, e) ↦ elim (Result-cases (to_png_bytes crates r)) [
          | inr (x, f) ↦ let end = rw (e, f) at gone in cc
          | inl (p, f) ↦ elim (Bool-cases (crates.valid_header name)) [
            | inl v ↦ let end = rw (e, f, v) at gone in cc
            | inr v ↦ let end = rw (e, f, v) at gone in cc
          ]
        ]
      ]

  abbrev visit_for : Option Visit → Visit
  visit_for none = record { visitor = record { tag = 0; last_seen = 0 }; now = 0 }
  visit_for (some v) = v

  -- The counter of an event; that of one that counts no visit is another than `name`.
  abbrev pub name_for : Text → Event → Option Visit → Text
  name_for name event none = b'x' ∷ name
  name_for name event (some v) = count_name event.request

  call_for-start :
      (name : Text) (event : Event) (o : Option Visit)
      → (call_for crates config event o
          ≡ maybe_increment_visitors crates.cbor config.table_name
              (visit_for o).visitor
              (name_for name event o)
              (visit_for o).now)
        ⊎ (call_for crates config event o ≡ done 0)
  call_for-start name event none = inr refl
  call_for-start name event (some v) = inl refl

  call_for-begun :
      (name : Text) (event : Event) (o : Option Visit)
      → ((v : Visit) × (o ≡ some v) × (count_name event.request ≡ name))
      → call_for crates config event o
        ≡ maybe_increment_visitors crates.cbor config.table_name
            (visit_for o).visitor
            (name_for name event o)
            (visit_for o).now
  call_for-begun name event o (v, one, same) = rw one refl

  name_for-other :
      (name : Text) (event : Event) (o : Option Visit)
      → (o ≡ none) ⊎ (text_eq name (count_name event.request) ≡ false)
      → text_eq name (name_for name event o) ≡ false
  name_for-other name event none h = longer_name b'x' name
  name_for-other name event (some v) (inl e) = cc
  name_for-other name event (some v) (inr e) = e

  -- The event counts a visit of the counter.
  abbrev pub IsVisitOf : Text → Event → Type 0
  IsVisitOf name event =
      (v : Visit) × (visit_of crates config event ≡ some v) × (count_name event.request ≡ name)

  -- The event counts no visit, or one of another counter.
  abbrev pub IsOther : Text → Event → Type 0
  IsOther name event =
      (visit_of crates config event ≡ none) ⊎ (text_eq name (count_name event.request) ≡ false)

  module _ (db : Database) (events : ℕ → Event) where
    -- The handlers at their start.
    abbrev pub serving : db.State → SystemOf db Response
    serving a = record { state = a; procs = λ i. handler crates config (events i) }

    abbrev pub own_visit : ℕ → Option Visit
    own_visit i = visit_of crates config (events i)

    abbrev pub rest_at : ℕ → ℕ → Proc Response
    rest_at i = rest_for crates config (events i) (own_visit i)

    abbrev pub calls : ℕ → Proc ℕ
    calls i = call_for crates config (events i) (own_visit i)

    abbrev pub visits : ℕ → Visit
    visits i = visit_for (own_visit i)

    abbrev pub names : Text → ℕ → Text
    names name i = name_for name (events i) (own_visit i)

    pub rest_at-IsEnd : (i c : ℕ) → IsEnd (rest_at i c)
    rest_at-IsEnd i c =
        rest_for-IsEnd crates config (events i) (own_visit i) c
          (function_handler-IsHandled crates config (events i))

    pub serving-Behind :
        (a : db.State)
        → Behind db rest_at rest_at-IsEnd (serving a) (record { state = a; procs = calls })
    serving-Behind a = record {
      state = refl;
      procs = λ i.
          handler-split crates config (events i) (own_visit i)
            (function_handler-IsHandled crates config (events i));
    }

    pub names-ours : (name : Text) (i : ℕ) → IsVisitOf name (events i) → names name i ≡ name
    names-ours name i (v, one, same) = rw one same

    pub names-others :
        (name : Text) (i : ℕ) → IsOther name (events i) → text_eq name (names name i) ≡ false
    names-others name i other = name_for-other name (events i) (own_visit i) other

    rest_at-ne-gave_up :
        (name : Text) (i c : ℕ) → IsVisitOf name (events i) → rest_at i c ≢ fail gave_up
    rest_at-ne-gave_up name i c (v, counts_one, _) gone =
        respond-ne-gave_up config.min_width (count_name (events i).request) v.visitor.tag c
          (rw counts_one at gone)

    module _ (name : Text) (count : ℕ) (a : db.State) (o : Option ℕ) (laws : DatabaseLaws db)
        (reliable : ReliableLaws db) (ours : (i : ℕ) → i < count → IsVisitOf name (events i))
        (others : (i : ℕ) → count ≤ i → IsOther name (events i)) (five : count ≤ 5)
        (counter : IsCounter (db.item a config.table_name name) o)
        (room : raised o + count + 1 < 2 ^ 64) where
      -- What holds of the calls of the handlers, however they have run.
      pub calls-progress :
          {φ : System db}
          → Reaches (record { state = a; procs = calls }) φ
          → ((i : ℕ) → i < count → φ.procs i ≢ fail gave_up)
            × ((i n : ℕ)
                → i < count
                → φ.procs i ≡ done n
                → (1 ≤ n) × (raised o ≤ n) × (n ≤ raised o + count))
            × ((now : Option ℕ) × IsCounter (db.item φ.state config.table_name name) now
                × (raised o ≤ raised now)
                × (raised now ≤ raised o + total count φ.procs))
      calls-progress run =
          Reaches-progress db crates.cbor config.table_name (names name) visits name count
            (λ i below. names-ours name i (ours i below))
            (λ i over. names-others name i (others i over)) laws reliable a o counter calls
            (λ i. call_for-start name (events i) (own_visit i))
            (λ i below. call_for-begun name (events i) (own_visit i) (ours i below)) five room run

    -- The service under load. Let any number of events be handled at once over a database that
    -- answers every request and loses no response, where at most five of the events count a visit of
    -- one counter, and the others count none or one of another counter. Let the counter be missing
    -- at the start or stored with its count, and the count stay below 2^64 - 1. Then in whatever
    -- order the requests of the handlers are served, none of the at most five ever fails with the
    -- error of giving up; and at any time the count of the counter, 0 while it is missing, is at
    -- least that of the start, and at most greater by the number of those events.
    pub function_handler-ne-gave_up :
        {τ : SystemOf db Response} (name : Text) (count : ℕ) (a : db.State) (o : Option ℕ)
        → DatabaseLaws db
        → ReliableLaws db
        → ((i : ℕ) → i < count → IsVisitOf name (events i))
        → ((i : ℕ) → count ≤ i → IsOther name (events i))
        → count ≤ 5
        → IsCounter (db.item a config.table_name name) o
        → raised o + count + 1 < 2 ^ 64
        → Reaches (serving a) τ
        → ((i : ℕ) → i < count → τ.procs i ≢ fail gave_up)
          × ((now : Option ℕ) × IsCounter (db.item τ.state config.table_name name) now
              × (raised o ≤ raised now)
              × (raised now ≤ raised o + count))
    function_handler-ne-gave_up {τ} name count a o laws reliable ours others five counter room run =
        let (φ, calls_run, behind) =
          Reaches-Behind db rest_at rest_at-IsEnd run (serving-Behind a) in
        let (kept, _, (now, stored, low, high)) =
          calls-progress name count a o laws reliable ours others five counter room calls_run in
        let most = total-le count φ.procs in
        (
          λ i below gone. kept i below (
              bind-gave_up (φ.procs i) (rest_at i) (λ c. rest_at-ne-gave_up name i c (ours i below))
                (sym (behind.procs i) ∙ gone)),
          (
            now,
            subst (λ state. IsCounter (db.item state config.table_name name) now)
                (sym (behind.state)) stored,
            low,
            omega arith,
          ),
        )
