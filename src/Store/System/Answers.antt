-- ===== src/Store/System/Answers.antt =====
-- Invocations of src/store.rs within one second: what they find stored lets them come to their puts, and
-- what they put does so again.
pub mod Steps
use digital_garden_visitor_c.Common.{
  ℕ, zero, suc, ◌+◌, ◌^◌, ◌≤◌, ◌<◌, ◌≡◌, refl, ap, ◌∙◌, arith, List, [], ◌∷◌, Option, none, some,
  Text, Result, ok, err, All, map, if◌then◌else◌,
}
use mathlib.Core.Path.{subst}
use digital_garden_visitor_c.Store.Time.{SystemTime}
use digital_garden_visitor_c.Store.Visitor.{Visitor}
use digital_garden_visitor_c.Store.Entry.{CountEntry, Cbor}
use digital_garden_visitor_c.Store.Entry.RoundTrip.{CborLaws, rounded}
use digital_garden_visitor_c.Store.Dynamo.{
  Item, GetItemOutput, PutItemError, conditional_check_failed, Proc, done, fail, panic, get_item,
  put_item, ◌>>=◌,
}
use digital_garden_visitor_c.Store.Recent.Prune.{Seen, Fresh}
use digital_garden_visitor_c.Store.Recent.Tags.{Distinct}
use digital_garden_visitor_c.Store.Recent.Update.{update_entry-IsVisited}
use digital_garden_visitor_c.Store.Client.{
  decode_item, get_count_entry, put_input, put_new_input, put_result,
}
use digital_garden_visitor_c.Store.Client.RoundTrip.{
  decode_item-try_put_count_entry, decode_item-try_put_new_count_entry,
}
use digital_garden_visitor_c.Store.Increment.{attempts, maybe_increment_visitors}
use digital_garden_visitor_c.Store.Increment.Contention.{gave_up}
use digital_garden_visitor_c.Store.Serial.{Visit}
use digital_garden_visitor_c.Store.Serial.Rounding.{whole_second, rounded-Distinct}
use digital_garden_visitor_c.Store.Serial.Sees.{InRange, Fresh-Storable, Seen-later}
use digital_garden_visitor_c.Store.Serial.Serve.{round_of, Round, none-Round, some-Round}

-- A call in the second that begins at an instant, which can be stored, by a visitor seen a moment ago.
abbrev pub IsWithin : SystemTime → Visit → Type 0
IsWithin second v =
    (second ≤ v.now) × (whole_second v.now ≤ second) × InRange v.now × Fresh v.now v.visitor

rounded-Seen_second :
    (second now : SystemTime) (vs : List Visitor)
    → InRange now
    → whole_second now ≤ second
    → All (Fresh now) vs
    → All (Seen second) (map rounded vs)
rounded-Seen_second second now [] range h _ = tt
rounded-Seen_second second now (v ∷ vs) range h (p, ps) =
    (omega arith, rounded-Seen_second second now vs range h ps)

module _ (cbor : Cbor) (second : SystemTime) where
  -- The counter is missing, or its item is decoded to a `u64` count and distinct visitors, all seen
  -- when the second begins or before.
  abbrev pub IsGood : Option Item → Type 0
  IsGood none = Unit
  IsGood (some item) =
      (entry : CountEntry) × (decode_item cbor item ≡ done entry)
      × (entry.count < 2 ^ 64)
      × All (Seen second) entry.recent_visitors
      × Distinct entry.recent_visitors

  -- Where each get finds a good counter, each put is of one, and the function returns a `u64` or
  -- gives up.
  abbrev pub Sound : Proc ℕ → Type 0
  Sound (done count) = count < 2 ^ 64
  Sound (fail e) = e ≡ gave_up
  Sound panic = ⊥
  Sound (get_item i k) = (o : Option Item) → IsGood o → Sound (k (ok (record { item = o })))
  Sound (put_item i k) =
      IsGood (some i.item) × Sound (k (ok tt)) × Sound (k (err conditional_check_failed))

module _ (cbor : Cbor) (laws : CborLaws cbor) (table_name name : Text) (second : SystemTime)
    (v : Visit) (within : IsWithin second v) where
  Round-Sound :
      (stored : Option Item) (count : ℕ) (next : Item) (again : Proc ℕ)
      → Round cbor table_name name v stored count next
      → count < 2 ^ 64
      → IsGood cbor second (some next)
      → Sound cbor second again
      → Sound cbor second (round_of cbor table_name name v stored again)
  unfolding put_result
  Round-Sound stored count next again r small good h =
      let item = r.writes in rw (r.sends again) (rw item good, small, h)

  none-Sound :
      (again : Proc ℕ)
      → Sound cbor second again
      → Sound cbor second (round_of cbor table_name name v none again)
  none-Sound again h =
      let (order, same, range, fresh) = within in
      let (storable, _) = Fresh-Storable v.now (v.visitor ∷ []) range (fresh, tt) in
      let (bytes, sent, back) =
        decode_item-try_put_new_count_entry cbor laws table_name name v.visitor storable in
      let seen = rounded-Seen_second second v.now (v.visitor ∷ []) range same (fresh, tt) in
      Round-Sound none 1 _ again (none-Round cbor table_name name v _ sent) (omega arith)
        (_, back, omega arith, seen, (tt, tt)) h

  some-Sound :
      (item : Item) (again : Proc ℕ)
      → IsGood cbor second (some item)
      → Sound cbor second again
      → Sound cbor second (round_of cbor table_name name v (some item) again)
  some-Sound item again (entry, decoded, word, seen, distinct) h =
      let (order, same, range, fresh) = within in
      let (updated, run, visited) =
        update_entry-IsVisited v.visitor v.now entry fresh
          (Seen-later second v.now entry.recent_visitors order seen) distinct in
      let counted = visited.counted in
      let small : updated.count < 2 ^ 64 = ground arith in
      let (bytes, sent, back) =
        decode_item-try_put_count_entry cbor laws table_name name entry.count updated small
          (Fresh-Storable v.now updated.recent_visitors range visited.recent) in
      Round-Sound (some item) updated.count _ again
        (some-Round cbor table_name name v item entry updated _ decoded run sent) small
        (
          _,
          back,
          small,
          rounded-Seen_second second v.now updated.recent_visitors range same visited.recent,
          rounded-Distinct updated.recent_visitors visited.distinct,
        )
        h

  stored-Sound :
      (stored : Option Item) (again : Proc ℕ)
      → IsGood cbor second stored
      → Sound cbor second again
      → Sound cbor second (round_of cbor table_name name v stored again)
  stored-Sound none again good h = none-Sound again h
  stored-Sound (some item) again good h = some-Sound item again good h

  attempts-Sound :
      (left : ℕ) → Sound cbor second (attempts cbor table_name v.visitor name v.now left)
  unfolding attempts get_count_entry
  attempts-Sound zero = refl
  attempts-Sound (suc left) = λ stored good. stored-Sound stored _ good (attempts-Sound left)

  pub maybe_increment_visitors-Sound :
      Sound cbor second (maybe_increment_visitors cbor table_name v.visitor name v.now)
  unfolding maybe_increment_visitors
  maybe_increment_visitors-Sound = attempts-Sound 5
