-- ===== src/Store/Fake/Lost.antt =====
-- Puts whose response is lost, as when the SDK sends a put again that was already applied: then the
-- condition fails by the function's own write, src/store.rs.
use digital_garden_visitor_c.Common.{
  ℕ, zero, suc, ◌+◌, ◌≤◌, ◌<◌, ◌≡◌, refl, ap, ◌∙◌, arith, true, false, Option, some, Text, ok, err,
  if◌then◌else◌, ltb, Bool-cases, inl, inr,
}
use digital_garden_visitor_c.Store.Time.{recent_cutoff}
use digital_garden_visitor_c.Store.Entry.{Cbor, max_recent_visitors}
use digital_garden_visitor_c.Store.Entry.RoundTrip.{CborLaws}
use digital_garden_visitor_c.Store.Dynamo.{
  Item, PutItemInput, conditional_check_failed, Proc, done, put_item,
}
use digital_garden_visitor_c.Store.Client.{put_result, get_count_entry}
use digital_garden_visitor_c.Store.Recent.Prune.{Fresh}
use digital_garden_visitor_c.Store.Increment.{attempts, maybe_increment_visitors}
use digital_garden_visitor_c.Store.Increment.Answered.{exceeded}
use digital_garden_visitor_c.Store.Serial.{Visit, View, visit}
use digital_garden_visitor_c.Store.Serial.Rounding.{whole_second}
use digital_garden_visitor_c.Store.Serial.Serve.{after_put}
use digital_garden_visitor_c.Store.Serial.Sees.{InRange}
use digital_garden_visitor_c.Store.Serial.Histories.{Stores, Stores-Round}
use digital_garden_visitor_c.Store.Fake.{DynamoClient, fake, run}

-- The stored item, and how many responses were lost.
abbrev pub Lossy : Type 0
Lossy = Option Item × ℕ

-- A client that applies every put, but answers so many of them that the condition failed.
abbrev pub lossy : ℕ → DynamoClient Lossy
lossy losses = fake (record {
  get = λ state i. some (ok (record { item = state.0 }), state);
  put = λ state i. some (
      if ltb state.1 losses
      then (err conditional_check_failed, (some i.item, state.1 + 1))
      else (ok tt, (some i.item, state.1)));
})

-- A visit that is recorded again by the same call does not count again.
visit_again :
    (v : Visit) (view : View)
    → Fresh v.now v.visitor
    → v.now < whole_second v.visitor.last_seen + recent_cutoff
    → (visit v (visit v view)).count ≡ (visit v view).count
visit_again v view fresh near = ground arith

put_lossy :
    (losses : ℕ) (input : PutItemInput) (count : ℕ) (again : Proc ℕ) (stored : Option Item)
    (lost : ℕ)
    → run (lossy losses) (put_item input (after_put count again)) (stored, lost) ≡ (
        if ltb lost losses
        then run (lossy losses) again (some input.item, lost + 1)
        else some (done count))
unfolding run put_result
put_lossy losses input count again stored lost = elim (Bool-cases (ltb lost losses)) [
  | inl e ↦ rw e refl
  | inr e ↦ rw e refl
]

module _ (cbor : Cbor) (laws : CborLaws cbor) (table_name name : Text) (v : Visit) (losses : ℕ)
    (range : InRange v.now) (fresh : Fresh v.now v.visitor)
    (near : v.now < whole_second v.visitor.last_seen + recent_cutoff) where
  loop_end :
      (left lost before n : ℕ) (stored : Option Item) (view : View)
      → lost ≤ losses
      → before ≤ v.now
      → n + left ≤ max_recent_visitors
      → Stores cbor before n stored view
      → run (lossy losses) (attempts cbor table_name v.visitor name v.now left) (stored, lost)
        ≡ some (if ltb losses (lost + left) then done (visit v view).count else exceeded)
  unfolding run attempts get_count_entry
  loop_end zero lost before n stored view h order room stores =
      let over : ltb losses (lost + 0) ≡ false = ground arith in rw over refl
  loop_end (suc left) lost before n stored view h order room stores =
      let again = attempts cbor table_name v.visitor name v.now left in
      let (next, round, after) =
        Stores-Round cbor laws table_name name v before n stored view (order, range, fresh)
          (omega arith) stores in
      ap (λ p. run (lossy losses) p (stored, lost)) (round.sends again)
      ∙ put_lossy losses round.input (visit v view).count again stored lost
      ∙ elim (Bool-cases (ltb lost losses)) [
        | inl e ↦
            let sum : lost + 1 + left ≡ lost + suc left = omega arith in
            let rest =
              loop_end left (lost + 1) v.now (n + 1) (some next) (visit v view) (ground arith)
                (omega arith) (omega arith) after in
            rw (e, round.writes, ← sum, ← visit_again v view fresh near) rest
        | inr e ↦
            let inside : ltb losses (lost + suc left) ≡ true = ground arith in rw (e, inside) refl
      ]

  -- A lost response does not count a visit twice. Let the counter be stored after some visits as
  -- the abstract counter has it, with room for five more visitors; and let the call be at an instant
  -- that can be stored, at which the visitor was seen less than the cutoff ago, also when that time
  -- is taken to the second. If so many puts are applied but answered that the condition failed, and
  -- the later ones are answered with success, then up to four such puts `maybe_increment_visitors`
  -- returns the count of one visit of the abstract counter; with five or more it gives up.
  pub maybe_increment_visitors-lossy :
      (before n : ℕ) (stored : Option Item) (view : View)
      → before ≤ v.now
      → n + 5 ≤ max_recent_visitors
      → Stores cbor before n stored view
      → run
          (lossy losses)
          (maybe_increment_visitors cbor table_name v.visitor name v.now)
          (stored, 0)
        ≡ some (if ltb losses 5 then done (visit v view).count else exceeded)
  unfolding maybe_increment_visitors
  maybe_increment_visitors-lossy before n stored view order room stores =
      loop_end 5 0 before n stored view (omega arith) order room stores
