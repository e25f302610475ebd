-- ===== src/Store/Serial.antt =====
-- Invocations of `maybe_increment_visitors` of src/store.rs one after the other, beside an abstract
-- counter that remembers the time of every visit.
pub mod Rounding
pub mod Serve
pub mod Sees
pub mod Histories
pub mod Tallies
use digital_garden_visitor_c.Common.{
  ℕ, ◌+◌, List, [], ◌∷◌, Option, none, some, Text, Result, ok, err, if◌then◌else◌, ◌==◌, ◌>>=◌,
}
use digital_garden_visitor_c.Store.Time.{SystemTime}
use digital_garden_visitor_c.Store.Visitor.{Visitor}
use digital_garden_visitor_c.Store.Entry.{Cbor}
use digital_garden_visitor_c.Store.Dynamo.{
  Item, GetItemOutput, PutItemInput, Proc, done, fail, panic, get_item, put_item,
}
use digital_garden_visitor_c.Store.Recent.Tags.{recent_time}
use digital_garden_visitor_c.Store.Increment.{maybe_increment_visitors}
use digital_garden_visitor_c.Store.Increment.Answered.{answered}
use digital_garden_visitor_c.Store.Serial.Rounding.{whole_second}

-- A call of `maybe_increment_visitors`.
pub record Visit : Type 0 where
  pub visitor : Visitor
  pub now : SystemTime

-- The first put of a function whose gets all have one response.
unfoldable pub first_put : {A : Type 0} → Result GetItemOutput ℕ → Proc A → Option PutItemInput
first_put got (done a) = none
first_put got (fail e) = none
first_put got panic = none
first_put got (get_item i k) = first_put got (k got)
first_put got (put_item i k) = some i

abbrev pub returned : Proc ℕ → Option ℕ
returned (done count) = some count
returned _ = none

module _ (cbor : Cbor) (table_name name : Text) where
  -- A call that finds the stored item and whose put succeeds: what it returns, and the new item.
  unfoldable pub serve : Visit → Option Item → Option (ℕ × Item)
  serve v stored =
      let call = maybe_increment_visitors cbor table_name v.visitor name v.now in
      let got : Result GetItemOutput ℕ = ok (record { item = stored }) in
      do
        count ← returned (answered got (ok tt) call)
        input ← first_put got call
        some (count, input.item)

  -- Calls one after the other: what they return, in order.
  unfoldable pub serve_all : List Visit → Option Item → Option (List ℕ)
  serve_all [] stored = some []
  serve_all (v ∷ vs) stored = do
    (count, item) ← serve v stored
    counts ← serve_all vs (some item)
    some (count ∷ counts)

-- The abstract counter: the count, and the last time of each tag, for ever.
pub record View : Type 0 where
  pub count : ℕ
  pub seen : ℕ → Option SystemTime

abbrev pub empty_view : View
empty_view = record { count = 0; seen = λ tag. none }

-- A visit of the abstract counter. It counts unless the tag was seen less than two hours ago, and
-- its time is remembered to the second: of a counted visit that of the visitor, else the call's.
abbrev pub visit : Visit → View → View
visit v view = elim (recent_time v.now (view.seen v.visitor.tag)) [
  | none ↦ record {
    count = view.count + 1;
    seen = λ tag.
        if tag == v.visitor.tag then some (whole_second v.visitor.last_seen) else view.seen tag;
  }
  | some _ ↦ record {
    count = view.count;
    seen = λ tag. if tag == v.visitor.tag then some (whole_second v.now) else view.seen tag;
  }
]

-- The counts of the abstract counter after each visit.
abbrev pub counts : List Visit → View → List ℕ
counts [] view = []
counts (v ∷ vs) view = let after = visit v view in after.count ∷ counts vs after
