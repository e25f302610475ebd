-- ===== src/Store/Serial/Tallies.antt =====
-- The abstract counter counts just the visits that repeat no earlier one, src/store.rs.
use digital_garden_visitor_c.Common.{
  ℕ, ◌+◌, ◌≤◌, ◌≡◌, refl, ap, ◌∙◌, arith, List, [], ◌∷◌, Bool, true, false, ◌&&◌, ◌||◌, Option,
  none, some, ◌==◌, ltb, if◌then◌else◌, All, length, Text,
}
use digital_garden_visitor_c.Store.Time.{SystemTime, recent_cutoff}
use digital_garden_visitor_c.Store.Entry.{Cbor, max_recent_visitors}
use digital_garden_visitor_c.Store.Entry.RoundTrip.{CborLaws}
use digital_garden_visitor_c.Store.Recent.Tags.{recent_time}
use digital_garden_visitor_c.Store.Serial.{Visit, View, visit, counts, empty_view, serve_all}
use digital_garden_visitor_c.Store.Serial.Rounding.{whole_second}
use digital_garden_visitor_c.Store.Serial.Histories.{IsHistory, serve_all-counts}

-- Whether one of the visits has the tag and is less than the cutoff before `now`, when its time is
-- taken to the second.
abbrev pub seen_within : ℕ → SystemTime → List Visit → Bool
seen_within tag now [] = false
seen_within tag now (w ∷ ws) =
    (tag == w.visitor.tag && ltb now (whole_second w.now + recent_cutoff)) || seen_within tag now ws

-- The running number of visits that do not repeat one before them, from a number on; the visits
-- before come first in the first list.
abbrev pub tallies : List Visit → ℕ → List Visit → List ℕ
tallies prior count [] = []
tallies prior count (v ∷ vs) =
    let next = if seen_within v.visitor.tag v.now prior then count else count + 1 in
    next ∷ tallies (v ∷ prior) next vs

abbrev pub known : Option SystemTime → Bool
known none = false
known (some t) = true

-- The visitor was seen in the second of the call.
abbrev pub IsPrompt : Visit → Type 0
IsPrompt v = whole_second v.visitor.last_seen ≡ whole_second v.now

pub record Remembers (latest : SystemTime) (prior : List Visit) (view : View) : Type 0 where
  pub knows :
      (tag : ℕ) (now : SystemTime)
      → latest ≤ now
      → known (recent_time now (view.seen tag)) ≡ seen_within tag now prior
  pub past : (tag : ℕ) (t : SystemTime) → view.seen tag ≡ some t → t ≤ whole_second latest

visit-seen :
    (v : Visit) (view : View) (tag : ℕ)
    → IsPrompt v
    → (visit v view).seen tag
      ≡ (if tag == v.visitor.tag then some (whole_second v.now) else view.seen tag)
visit-seen v view tag prompt = ground arith

pub visit-count :
    (v : Visit) (view : View)
    → (visit v view).count
      ≡ (if known (recent_time v.now (view.seen v.visitor.tag)) then view.count else view.count + 1)
visit-count v view = ground arith

-- What was seen before is older than the visit.
stale :
    (t now : SystemTime) (o : Option SystemTime) (latest : SystemTime)
    → ((u : SystemTime) → o ≡ some u → u ≤ whole_second latest)
    → latest ≤ t
    → ltb now (whole_second t + recent_cutoff) ≡ false
    → known (recent_time now o) ≡ false
stale t now none latest past order old = refl
stale t now (some u) latest past order old = let h = past u refl in ground arith

pub visit-Remembers :
    (v : Visit) (latest : SystemTime) (prior : List Visit) (view : View)
    → IsPrompt v
    → latest ≤ v.now
    → Remembers latest prior view
    → Remembers v.now (v ∷ prior) (visit v view)
visit-Remembers v latest prior view prompt order r = record {
  knows = λ tag now h.
      let before = r.knows tag now (omega arith) in
      let old = stale v.now now (view.seen tag) latest (r.past tag) order in
      rw (visit-seen v view tag prompt) (ground arith);
  past = λ tag t e.
      let seen = visit-seen v view tag prompt in let before = r.past tag t in ground arith;
}

counts-tallies :
    (vs : List Visit) (latest : SystemTime) (prior : List Visit) (view : View)
    → IsHistory latest vs
    → All IsPrompt vs
    → Remembers latest prior view
    → counts vs view ≡ tallies prior view.count vs
counts-tallies [] latest prior view _ _ r = refl
counts-tallies (v ∷ vs) latest prior view ((order, _, _), history) (prompt, prompts) r =
    let after = visit-Remembers v latest prior view prompt order r in
    let rest = counts-tallies vs v.now (v ∷ prior) (visit v view) history prompts after in
    let knows = r.knows v.visitor.tag v.now order in
    let same : (visit v view).count
        ≡ (if seen_within v.visitor.tag v.now prior then view.count else view.count + 1) =
      rw (visit-count v view, knows) refl in
    rw (rest, same) refl

-- The counter counts visits as it means to. Let calls follow each other in time order, without
-- contention or failure, each at an instant that can be stored and with the visitor seen less than
-- the cutoff before it and in the same second, and at most `max_recent_visitors` of them, from a
-- counter that does not exist. Then they return the running number of the visits whose tag made no
-- visit less than the cutoff before, when the times of the visits before are taken to the second.
pub serve_all-tallies :
    (cbor : Cbor) (table_name name : Text) (vs : List Visit)
    → CborLaws cbor
    → IsHistory 0 vs
    → All IsPrompt vs
    → length vs ≤ max_recent_visitors
    → serve_all cbor table_name name vs none ≡ some (tallies [] 0 vs)
serve_all-tallies cbor table_name name vs laws history prompt room =
    serve_all-counts cbor laws table_name name vs history room
    ∙ ap some (
        counts-tallies vs 0 [] empty_view history prompt
          (record { knows = λ tag now h. refl; past = λ tag t e. cc }))
