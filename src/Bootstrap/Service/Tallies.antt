-- ===== src/Bootstrap/Service/Tallies.antt =====
-- The numbers that the service of src/bin/bootstrap.rs shows, told from the events alone.
use digital_garden_visitor_c.Common.{
  ℕ, ◌+◌, ◌≤◌, ◌≡◌, refl, sym, arith, List, [], ◌∷◌, Option, none, some, ok, Bytes, Text, text_eq,
  text_eq-to_eq, if◌then◌else◌, length, Bool-cases, inl, inr,
}
use mathlib.Core.Path.{subst}
use digital_garden_visitor_c.Counter.Render.{Render}
use digital_garden_visitor_c.Counter.Render.Drawn.{IsRendering}
use digital_garden_visitor_c.Store.Time.{SystemTime}
use digital_garden_visitor_c.Store.Entry.{max_recent_visitors}
use digital_garden_visitor_c.Store.Entry.RoundTrip.{CborLaws}
use digital_garden_visitor_c.Store.Dynamo.{Item, Proc, done, fail, panic, get_item, put_item}
use digital_garden_visitor_c.Store.Fake.{Dynamo, SdkConfig, sdk_config}
use digital_garden_visitor_c.Store.Fake.Table.{TableLaws}
use digital_garden_visitor_c.Store.Serial.{Visit, View, visit, empty_view}
use digital_garden_visitor_c.Store.Serial.Tallies.{
  seen_within, IsPrompt, Remembers, visit-count, visit-Remembers,
}
use digital_garden_visitor_c.Bootstrap.Config.{Config, from_env}
use digital_garden_visitor_c.Bootstrap.Handler.{Response, Crates, count_name, image_answer}
use digital_garden_visitor_c.Bootstrap.Handler.Images.{PngLaws}
use digital_garden_visitor_c.Bootstrap.Service.{Event, Reply, main}
use digital_garden_visitor_c.Bootstrap.Service.Admits.{visit_of}
use digital_garden_visitor_c.Bootstrap.Service.Replies.{
  Views, visit_at, views_after, IsUnsent, IsOneRound, AreNext, IsReply, IsReplies, IsNextEvent,
  latest, IsTraffic,
}
use digital_garden_visitor_c.Bootstrap.Service.Traffic.{main-IsReplies}

-- The visits of the past with the names of their counters, the latest first.
abbrev pub Past : Type 0
Past = List (Text × Visit)

-- The visits of one counter.
abbrev pub visits_of : Text → Past → List Visit
visits_of name [] = []
visits_of name ((other, v) ∷ past) =
    if text_eq name other then v ∷ visits_of name past else visits_of name past

-- How many of the visits, of which the latest comes first, repeat none before them.
abbrev pub tally : List Visit → ℕ
tally [] = 0
tally (v ∷ prior) = if seen_within v.visitor.tag v.now prior then tally prior else tally prior + 1

module _ (crates : Crates) (config : Config) where
  -- The reply to a visit is the image of the number of visits of its counter, itself included, that
  -- repeat none before them; to another event, it is the end of a handler that sends no request.
  abbrev pub IsNumbered : Event → Past → Option Visit → Reply → Type 0
  IsNumbered event past none reply = IsUnsent reply
  IsNumbered event past (some v) reply =
      IsOneRound config.table_name (count_name event.request) reply
      × (r : Render) × (png : Bytes) × IsRendering
          (tally (v ∷ visits_of (count_name event.request) past)) config.min_width r
      × (crates.png r.width r.height r.pixels ≡ ok png)
      × (reply.end
          ≡ done (
              image_answer (count_name event.request) v.visitor.tag
                (tally (v ∷ visits_of (count_name event.request) past)) png))

  abbrev pub past_after : Event → Option Visit → Past → Past
  past_after event none past = past
  past_after event (some v) past = (count_name event.request, v) ∷ past

  abbrev pub IsNumberedAll : List Event → Past → List Reply → Type 0
  IsNumberedAll [] past [] = Unit
  IsNumberedAll (event ∷ events) past (reply ∷ replies) =
      IsNumbered event past (visit_of crates config event) reply
      × AreNext reply.end replies
          (IsNumberedAll events (past_after event (visit_of crates config event) past) replies)
  IsNumberedAll _ past _ = ⊥

  -- Every visitor is seen in the second of the call.
  abbrev pub AllPrompt : List Event → Type 0
  AllPrompt [] = Unit
  AllPrompt (event ∷ events) =
      ((v : Visit) → visit_of crates config event ≡ some v → IsPrompt v) × AllPrompt events

-- The abstract counters have counted the visits of the past, and remember them.
record Agrees (before : SystemTime) (past : Past) (views : Views) : Type 0 where
  remembers : (name : Text) → Remembers before (visits_of name past) (views name)
  counted : (name : Text) → (views name).count ≡ tally (visits_of name past)

Remembers-later :
    (before later : SystemTime) (prior : List Visit) (view : View)
    → before ≤ later
    → Remembers before prior view
    → Remembers later prior view
Remembers-later before later prior view h r = record {
  knows = λ tag now order. r.knows tag now (omega arith);
  past = λ tag t e. let old = r.past tag t e in ground arith;
}

count-tally :
    (v : Visit) (before : SystemTime) (prior : List Visit) (view : View)
    → before ≤ v.now
    → Remembers before prior view
    → view.count ≡ tally prior
    → (visit v view).count ≡ tally (v ∷ prior)
count-tally v before prior view order r same =
    let knows = r.knows v.visitor.tag v.now order in rw (visit-count v view, knows, same) refl

visit-Agrees :
    (name : Text) (v : Visit) (before : SystemTime) (past : Past) (views : Views)
    → before ≤ v.now
    → IsPrompt v
    → Agrees before past views
    → Agrees v.now ((name, v) ∷ past) (visit_at name v views)
visit-Agrees name v before past views order prompt agrees = record {
  remembers = λ key. elim (Bool-cases (text_eq key name)) [
    | inl e ↦
        let same = text_eq-to_eq key name e in
        rw e (
          subst (λ k. Remembers v.now (v ∷ visits_of k past) (visit v (views name))) (sym same)
            (visit-Remembers v before (visits_of name past) (views name) prompt order
              (agrees.remembers name)))
    | inr e ↦
        rw e (
          Remembers-later before v.now (visits_of key past) (views key) order
            (agrees.remembers key))
  ];
  counted = λ key. elim (Bool-cases (text_eq key name)) [
    | inl e ↦
        let same = text_eq-to_eq key name e in
        rw e (
          subst (λ k. (visit v (views name)).count ≡ tally (v ∷ visits_of k past)) (sym same)
            (count-tally v before (visits_of name past) (views name) order (agrees.remembers name)
              (agrees.counted name)))
    | inr e ↦ rw e (agrees.counted key)
  ];
}

AreNext-mono :
    {P Q : Type 0} (end : Proc Response) (replies : List Reply)
    → AreNext end replies P
    → (P → Q)
    → AreNext end replies Q
AreNext-mono panic replies h f = h
AreNext-mono (done a) replies h f = f h
AreNext-mono (fail e) replies h f = f h
AreNext-mono (get_item i k) replies h f = f h
AreNext-mono (put_item i k) replies h f = f h

module _ (crates : Crates) (config : Config) where
  reply-IsNumbered :
      (event : Event) (o : Option Visit) (before : SystemTime) (past : Past) (views : Views)
      (reply : Reply)
      → IsNextEvent crates config before event o
      → ((v : Visit) → o ≡ some v → IsPrompt v)
      → Agrees before past views
      → IsReply crates config event views o reply
      → IsNumbered crates config event past o reply
        × Agrees
            (latest crates config before o)
            (past_after crates config event o past)
            (views_after crates config event o views)
  reply-IsNumbered event none before past views reply _ _ agrees quiet = (quiet, agrees)
  reply-IsNumbered event (some v) before past views reply ((order, _, _), _) prompt agrees
        numbered =
      let name = count_name event.request in
      let same =
        count-tally v before (visits_of name past) (views name) order (agrees.remembers name)
          (agrees.counted name) in
      (
        subst
            (λ n.
              IsOneRound config.table_name name reply
              × (r : Render) × (png : Bytes) × IsRendering n config.min_width r
              × (crates.png r.width r.height r.pixels ≡ ok png)
              × (reply.end ≡ done (image_answer name v.visitor.tag n png)))
            same numbered,
        visit-Agrees name v before past views order (prompt v refl) agrees,
      )

  IsReplies-IsNumberedAll :
      (events : List Event) (before : SystemTime) (past : Past) (views : Views)
      (replies : List Reply)
      → IsTraffic crates config before events
      → AllPrompt crates config events
      → Agrees before past views
      → IsReplies crates config events views replies
      → IsNumberedAll crates config events past replies
  IsReplies-IsNumberedAll [] before past views [] _ _ agrees h = tt
  IsReplies-IsNumberedAll [] before past views (reply ∷ replies) _ _ agrees h = h
  IsReplies-IsNumberedAll (event ∷ events) before past views [] _ _ agrees h = h
  IsReplies-IsNumberedAll (event ∷ events) before past views (reply ∷ replies) (next, traffic)
        (prompt, prompts) agrees (h, hs) =
      let o = visit_of crates config event in
      let (numbered, after) =
        reply-IsNumbered event o before past views reply next prompt agrees h in
      (
        numbered,
        AreNext-mono reply.end replies hs (λ rest.
            IsReplies-IsNumberedAll events (latest crates config before o)
              (past_after crates config event o past) (views_after crates config event o views)
              replies traffic prompts after rest),
      )

-- The service as its events tell it. Let the SDK's client, made with the configuration of the store,
-- work as DynamoDB's documentation says on a table that nobody else uses and that has no counter yet:
-- a get finds the item under its key, and a put whose condition holds is stored. Let the
-- configuration be read from the environment, with a width of at most 200,000,000, and let at most
-- `max_recent_visitors` events come one after the other. Let those that count a visit be in time
-- order, at instants that can be stored, with the visitor seen less than the cutoff before and in the
-- same second, and with names that can be header values. Then there is one reply to each event, up to
-- the first panic, which ends the process. An event that counts a visit leads to one get and one put
-- of its counter, and is answered with the image of the number of the visits of its name up to it
-- whose tag made no visit of that name less than the cutoff before, when the times of the visits
-- before are taken to the second. Every other event leads to no request to DynamoDB, and to the empty
-- 404, an error or a panic.
pub main-IsNumberedAll :
    {S : Type 0} (crates : Crates) (sdk : SdkConfig → Dynamo S)
    (item : S → Text → Text → Option Item) (var : Text → Option Text) (config : Config)
    (events : List Event) (a : S)
    → TableLaws (sdk sdk_config) item
    → ((name : Text) → item a config.table_name name ≡ none)
    → CborLaws crates.cbor
    → PngLaws crates
    → from_env var ≡ some config
    → config.min_width ≤ 200_000_000
    → IsTraffic crates config 0 events
    → AllPrompt crates config events
    → length events ≤ max_recent_visitors
    → (replies : List Reply) × (main crates sdk var events a ≡ some replies)
      × IsNumberedAll crates config events [] replies
main-IsNumberedAll crates sdk item var config events a db_laws empty laws png_laws read narrow
      traffic prompt room =
    let (replies, returns, h) =
      main-IsReplies crates sdk item var config events a db_laws empty laws png_laws read narrow
        traffic room in
    (
      replies,
      returns,
      IsReplies-IsNumberedAll crates config events 0 [] (λ name. empty_view) replies traffic prompt
          (record {
            remembers = λ name. record { knows = λ tag now h. refl; past = λ tag t e. cc };
            counted = λ name. refl;
          })
          h,
    )
