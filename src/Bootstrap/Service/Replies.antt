-- ===== src/Bootstrap/Service/Replies.antt =====
-- What the service of src/bin/bootstrap.rs answers to events one after the other.
use digital_garden_visitor_c.Common.{
  ℕ, ◌+◌, ◌≤◌, ◌<◌, ◌≡◌, refl, ap, ◌∙◌, arith, List, [], ◌∷◌, true, Option, none, some, Bytes, ok,
  Text, codes, text_eq, text_eq_refl, if◌then◌else◌, Bool-cases, inl, inr,
}
use mathlib.Core.Path.{subst, sym}
use digital_garden_visitor_c.Counter.Render.{Render}
use digital_garden_visitor_c.Counter.Render.Drawn.{IsRendering}
use digital_garden_visitor_c.Store.Time.{SystemTime}
use digital_garden_visitor_c.Store.Entry.{max_recent_visitors}
use digital_garden_visitor_c.Store.Entry.RoundTrip.{CborLaws}
use digital_garden_visitor_c.Store.Dynamo.{
  s, Item, get, PutItemInput, Proc, done, fail, panic, get_item, put_item, ◌>>=◌,
}
use digital_garden_visitor_c.Store.Increment.{maybe_increment_visitors}
use digital_garden_visitor_c.Store.Fake.{Dynamo, real}
use digital_garden_visitor_c.Store.Fake.Table.{Stored, TableLaws}
use digital_garden_visitor_c.Store.Serial.{Visit, View, visit}
use digital_garden_visitor_c.Store.Serial.Histories.{Stores, Stores-later, IsNext, Stores-Round}
use digital_garden_visitor_c.Bootstrap.Config.{Config}
use digital_garden_visitor_c.Bootstrap.Handler.{
  Response, Crates, count_name, image_answer, respond, function_handler,
}
use digital_garden_visitor_c.Bootstrap.Handler.Images.{PngLaws, respond-IsRendering}
use digital_garden_visitor_c.Bootstrap.Service.{Event, Reply, got, put, served, handle}
use digital_garden_visitor_c.Bootstrap.Service.Admits.{
  IsQuiet, rejected, failed, panicked, visit_of,
}
use digital_garden_visitor_c.Bootstrap.Service.Serves.{
  IsPrinted, number_of, counter_get, put-Stored, put-count, put-table_name, put-key, Round-served,
}

-- The abstract counters, by name.
abbrev pub Views : Type 0
Views = Text → View

-- The counters after a visit of one of them.
abbrev pub visit_at : Text → Visit → Views → Views
visit_at name v views key = if text_eq key name then visit v (views name) else views key

-- The reply of a handler that sends no request.
abbrev pub IsUnsent : Reply → Type 0
IsUnsent reply = (reply.sent ≡ []) × IsQuiet reply.end

-- The reply sent the get of a counter and then a put of it, and no more.
abbrev pub IsOneRound : Text → Text → Reply → Type 0
IsOneRound table_name name reply =
    (input : PutItemInput) × (reply.sent ≡ got (counter_get table_name name) ∷ put input ∷ [])
    × (input.table_name ≡ table_name)
    × (get (codes "key") input.item ≡ some (s name))

-- After an end that is a panic there are no replies; after another one, they are as is said.
abbrev pub AreNext : Proc Response → List Reply → Type 0 → Type 0
AreNext panic replies next = replies ≡ []
AreNext (done a) replies next = next
AreNext (fail e) replies next = next
AreNext (get_item i k) replies next = next
AreNext (put_item i k) replies next = next

module _ (crates : Crates) (config : Config) where
  -- The reply to an event that counts a visit is the image of the abstract counter's count, after
  -- one round of its counter; to another event, it is the end of a handler that sends no request.
  abbrev pub IsReply : Event → Views → Option Visit → Reply → Type 0
  IsReply event views none reply = IsUnsent reply
  IsReply event views (some v) reply =
      IsOneRound config.table_name (count_name event.request) reply
      × (r : Render) × (png : Bytes) × IsRendering
          (visit v (views (count_name event.request))).count config.min_width r
      × (crates.png r.width r.height r.pixels ≡ ok png)
      × (reply.end
          ≡ done (
              image_answer (count_name event.request) v.visitor.tag
                (visit v (views (count_name event.request))).count png))

  abbrev pub views_after : Event → Option Visit → Views → Views
  views_after event none views = views
  views_after event (some v) views = visit_at (count_name event.request) v views

  abbrev pub IsReplies : List Event → Views → List Reply → Type 0
  IsReplies [] views [] = Unit
  IsReplies (event ∷ events) views (reply ∷ replies) =
      IsReply event views (visit_of crates config event) reply
      × AreNext reply.end replies
          (IsReplies events (views_after event (visit_of crates config event) views) replies)
  IsReplies _ views _ = ⊥

  -- A visit in time order whose name can be a header value; other events may come at any time.
  abbrev pub IsNextEvent : SystemTime → Event → Option Visit → Type 0
  IsNextEvent before event none = Unit
  IsNextEvent before event (some v) =
      IsNext before v × (crates.valid_header (count_name event.request) ≡ true)

  abbrev pub latest : SystemTime → Option Visit → SystemTime
  latest before none = before
  latest before (some v) = v.now

  abbrev pub IsTraffic : SystemTime → List Event → Type 0
  IsTraffic before [] = Unit
  IsTraffic before (event ∷ events) =
      IsNextEvent before event (visit_of crates config event)
      × IsTraffic (latest before (visit_of crates config event)) events

  module _ {S : Type 0} (dynamo : Dynamo S) (item : S → Text → Text → Option Item) where
    -- The table stores the abstract counters after so many visits.
    abbrev pub Holds : SystemTime → ℕ → S → Views → Type 0
    Holds before n a views =
        (name : Text)
        → Stores crates.cbor before n (item a config.table_name name) (views name)
          × IsPrinted crates.cbor (item a config.table_name name)

    IsQuiet-served :
        (h : Proc Response) (a : S)
        → IsQuiet h
        → IsUnsent (served (real dynamo) h a).0 × ((served (real dynamo) h a).1 ≡ a)
    unfolding served
    IsQuiet-served h a (rejected e) = rw e ((refl, rejected refl), refl)
    IsQuiet-served h a (failed x e) = rw e ((refl, failed x refl), refl)
    IsQuiet-served h a (panicked e) = rw e ((refl, panicked refl), refl)

    -- An event that counts no visit changes nothing.
    pub IsQuiet-handle :
        (event : Event) (a : S)
        → IsQuiet (function_handler crates config event.seen event.now event.request)
        → IsUnsent (handle crates config (real dynamo) event a).0
          × ((handle crates config (real dynamo) event a).1 ≡ a)
    unfolding handle
    IsQuiet-handle event a q =
        IsQuiet-served (function_handler crates config event.seen event.now event.request) a q

    module _ (db_laws : TableLaws dynamo item) (laws : CborLaws crates.cbor)
        (png_laws : PngLaws crates) (narrow : config.min_width ≤ 200_000_000) where
      Stores-IsPrinted :
          (now : SystemTime) (n : ℕ) (next : Item) (view : View)
          → Stores crates.cbor now n (some next) view
          → get (codes "count") next ≡ some (number_of view.count)
          → IsPrinted crates.cbor (some next)
      Stores-IsPrinted now n next view (entry, decoded, sees, _, _) printed =
          let same = sees.count in (entry, decoded, rw same printed)

      put-Holds :
          (name : Text) (v : Visit) (before n : ℕ) (a : S) (views : Views) (input : PutItemInput)
          (written : Stored dynamo item a input name)
          → input.table_name ≡ config.table_name
          → before ≤ v.now
          → Holds before n a views
          → Stores crates.cbor v.now (n + 1) (some input.item) (visit v (views name))
          → IsPrinted crates.cbor (some input.item)
          → Holds v.now (n + 1) written.after (visit_at name v views)
      put-Holds name v before n a views input written mine order holds stores printed key =
          let stored = rw (mine, text_eq_refl) at (written.stored config.table_name key) in
          elim (Bool-cases (text_eq key name)) [
            | inl e ↦ rw (stored, e) (stores, printed)
            | inr e ↦
                rw (stored, e)
                  (
                    Stores-later crates.cbor before v.now n (n + 1) (item a config.table_name key)
                        (views key) order (omega arith) (holds key).0,
                    (holds key).1,
                  )
          ]

      pub visit-handle :
          (event : Event) (v : Visit) (before n : ℕ) (a : S) (views : Views)
          → function_handler crates config event.seen event.now event.request ≡ (
              maybe_increment_visitors crates.cbor config.table_name v.visitor
                (count_name event.request)
                v.now
              >>= respond crates config.min_width (count_name event.request) v.visitor.tag)
          → IsNextEvent before event (some v)
          → n < max_recent_visitors
          → Holds before n a views
          → IsReply event views (some v) (handle crates config (real dynamo) event a).0
            × Holds v.now
                (n + 1)
                (handle crates config (real dynamo) event a).1
                (visit_at (count_name event.request) v views)
      unfolding handle
      visit-handle event v before n a views h (next, valid) room holds =
          let name = count_name event.request in
          let count = (visit v (views name)).count in
          let stored = item a config.table_name name in
          let (_, round, stores) =
            Stores-Round crates.cbor laws config.table_name name v before n stored (views name) next
              room (holds name).0 in
          let (_, _, _, _, least) = stores in
          let (r, png, drawn, bytes, answer) =
            respond-IsRendering crates png_laws config.min_width name v.visitor.tag count
              (omega arith) narrow valid in
          let written =
            put-Stored dynamo item db_laws crates.cbor config.table_name name v a count stored
              round.input refl (holds name).1 round.shape in
          let whole =
            ap (λ p. served (real dynamo) p a) h
            ∙ Round-served dynamo item db_laws crates.cbor config.table_name name v a stored count _
                round written (respond crates config.min_width name v.visitor.tag)
                (image_answer name v.visitor.tag count png) refl answer in
          let kept = rw (← round.writes) at stores in
          let mine =
            put-table_name dynamo item db_laws crates.cbor config.table_name name v count stored
              round.input round.shape in
          let printed =
            put-count dynamo item db_laws crates.cbor config.table_name name v count stored
              round.input round.shape in
          let keyed =
            put-key dynamo item db_laws crates.cbor config.table_name name v count stored
              round.input round.shape in
          (
            (
              (round.input, ap (λ o. o.0.sent) whole, mine, keyed),
              r,
              png,
              drawn,
              bytes,
              ap (λ o. o.0.end) whole,
            ),
            subst (λ o. Holds v.now (n + 1) o.1 (visit_at name v views)) (sym whole)
                (put-Holds name v before n a views round.input written mine next.0 holds kept (
                  Stores-IsPrinted v.now (n + 1) round.input.item (visit v (views name)) kept
                    printed)),
          )
