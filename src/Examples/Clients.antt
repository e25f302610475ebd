-- ===== src/Examples/Clients.antt =====
-- Instances of the theorems about clients that answer by themselves.
use digital_garden_visitor_c.Common.{◌≡◌, refl, arith, [], ◌∷◌, none, some, codes, Bytes, ok}
use digital_garden_visitor_c.Store.Visitor.{stored_visitor_from, visitor_from_stored}
use digital_garden_visitor_c.Store.Entry.RoundTrip.{rounded}
use digital_garden_visitor_c.Store.Dynamo.{Item, s, n, b, get, put_item, done}
use digital_garden_visitor_c.Store.Client.{
  decode_item, put_new_input, put_result, try_put_new_count_entry,
}
use digital_garden_visitor_c.Store.Client.RoundTrip.{decode_item-try_put_new_count_entry}
use digital_garden_visitor_c.Store.Increment.{maybe_increment_visitors}
use digital_garden_visitor_c.Store.Serial.{Visit, visit, empty_view}
use digital_garden_visitor_c.Store.Increment.Answered.{Ready, updates}
use digital_garden_visitor_c.Store.Recent.{update_entry}
use digital_garden_visitor_c.Decimal.{parse_u64}
use digital_garden_visitor_c.Store.Entry.{count_entry_from, stored_count_entry_from}
use digital_garden_visitor_c.Store.Fake.{run}
use digital_garden_visitor_c.Store.Fake.Retries.{contended, maybe_increment_visitors-contended}
use digital_garden_visitor_c.Store.Fake.Lost.{lossy, maybe_increment_visitors-lossy}
use digital_garden_visitor_c.Examples.Codec.{codec, codec-CborLaws}
use digital_garden_visitor_c.Examples.Storage.{visitor, system_time}

abbrev call : Visit
call = record { visitor = visitor 1 7200; now = system_time 7200 }

-- A counter of two other visitors.
abbrev counter : Item
counter =
    (codes "key", s (codes "default"))
    ∷ (codes "count", n (codes "41"))
    ∷ (codes "value", b (2 ∷ 10 ∷ 3 ∷ 20 ∷ []))
    ∷ []

-- The visitor is new, so the count is raised.
counter-Ready :
    Ready codec
      (codes "test")
      call.visitor
      (codes "default")
      call.now
      (ok (record { item = some counter }))
      42
unfolding decode_item get parse_u64 count_entry_from visitor_from_stored update_entry
    stored_count_entry_from stored_visitor_from
counter-Ready = updates counter _ _ _ _ refl refl refl refl refl refl

-- Two puts fail, and the third succeeds.
maybe_increment_visitors-contended_example :
    run
      (contended (some counter) 2)
      (maybe_increment_visitors codec (codes "test") call.visitor (codes "default") call.now)
      0
    ≡ some (done 42)
maybe_increment_visitors-contended_example =
    maybe_increment_visitors-contended codec (codes "test") (codes "default") call (some counter) 42
      2 counter-Ready

-- The first put creates the counter, but its response is lost.
maybe_increment_visitors-lossy_example :
    run
      (lossy 1)
      (maybe_increment_visitors codec (codes "test") call.visitor (codes "default") call.now)
      (none, 0)
    ≡ some (done (visit call empty_view).count)
maybe_increment_visitors-lossy_example =
    maybe_increment_visitors-lossy codec codec-CborLaws (codes "test") (codes "default") call 1
      (omega arith) (omega arith) (omega arith) 0 0 none empty_view (omega arith) (omega arith) refl

decode_item-try_put_new_count_entry_example :
    (bytes : Bytes) × (try_put_new_count_entry codec (codes "test") (codes "default") call.visitor
      ≡ put_item (put_new_input (codes "test") (codes "default") bytes) put_result)
    × (decode_item codec (put_new_input (codes "test") (codes "default") bytes).item
        ≡ done (record { count = 1; recent_visitors = rounded call.visitor ∷ [] }))
decode_item-try_put_new_count_entry_example =
    decode_item-try_put_new_count_entry codec codec-CborLaws (codes "test") (codes "default")
      call.visitor (omega arith)
