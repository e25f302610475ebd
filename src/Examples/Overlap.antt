-- ===== src/Examples/Overlap.antt =====
-- Two recent visitors who come at once, and the instance of the theorem about them.
use digital_garden_visitor_c.Common.{
  ℕ, ◌+◌, ◌≡◌, refl, arith, [], ◌∷◌, some, codes, ok, if◌then◌else◌,
}
use digital_garden_visitor_c.Decimal.{to_string, parse_u64}
use digital_garden_visitor_c.Store.Visitor.{stored_visitor_from, visitor_from_stored}
use digital_garden_visitor_c.Store.Entry.{CountEntry, count_entry_from, stored_count_entry_from}
use digital_garden_visitor_c.Store.Dynamo.{Proc, Item, PutItemInput, s, n, b, get, done, ◌>>=◌}
use digital_garden_visitor_c.Store.Dynamo.Requests.{AfterPut}
use digital_garden_visitor_c.Store.Recent.{update_entry}
use digital_garden_visitor_c.Store.Client.{
  get_count_entry, get_response, decode_item, put_result, put_input, try_put_count_entry,
}
use digital_garden_visitor_c.Store.Increment.{maybe_increment_visitors, attempts, attempt}
use digital_garden_visitor_c.Store.Serial.{Visit}
use digital_garden_visitor_c.Store.System.{System, update, read, write}
use digital_garden_visitor_c.Store.System.Turns.{Scheduled}
use digital_garden_visitor_c.Store.System.Overwrites.{
  Writes, call, Has, maybe_increment_visitors-overwrites,
}
use digital_garden_visitor_c.Examples.Codec.{codec}
use digital_garden_visitor_c.Examples.Progress.{table-ReliableLaws}
use digital_garden_visitor_c.Examples.Storage.{visitor, system_time}
use digital_garden_visitor_c.Examples.Table.{table, holds, has_count, key_of, put_in}

-- Both were seen less than half an hour before.
abbrev counter : Item
counter =
    (codes "key", s (codes "default"))
    ∷ (codes "count", n (codes "41"))
    ∷ (codes "value", b (1 ∷ 10 ∷ 2 ∷ 20 ∷ []))
    ∷ []

abbrev entry : CountEntry
entry = record { count = 41; recent_visitors = visitor 1 10 ∷ visitor 2 20 ∷ [] }

abbrev visits : ℕ → Visit
visits i = record { visitor = visitor (i + 1) 1800; now = system_time 1800 }

abbrev start : System table
start = record {
  state = λ _ _. some counter;
  procs = λ i. call table table-ReliableLaws codec (codes "test") (codes "default") (visits i);
}

Calls : Unit {0}
unfolding to_string parse_u64 stored_visitor_from visitor_from_stored stored_count_entry_from
    count_entry_from get update_entry get_count_entry get_response decode_item put_result put_input
    try_put_count_entry maybe_increment_visitors attempts attempt holds has_count key_of
Calls = tt

-- The rest of the loop after the first attempt of each.
abbrev again : ℕ → Proc ℕ
again i =
    attempts codec (codes "test") (visitor (i + 1) 1800) (codes "default") (system_time 1800) 4

abbrev read_by : ℕ → Proc ℕ
read_by i =
    get_response codec (ok (record { item = some counter }))
    >>= attempt codec (codes "test") (visitor (i + 1) 1800) (codes "default") (system_time 1800)
        (again i)

abbrev after_put : ℕ → AfterPut ℕ
after_put i r = put_result r >>= λ written. if written then done 41 else again i

abbrev first_put : PutItemInput
first_put = put_input (codes "test") (codes "default") 41 41 (1 ∷ 1800 ∷ 2 ∷ 20 ∷ [])

abbrev second_put : PutItemInput
second_put = put_input (codes "test") (codes "default") 41 41 (1 ∷ 10 ∷ 2 ∷ 1800 ∷ [])

abbrev asked : System table
asked = record start { procs = update start.procs 0 (read_by 0) }

abbrev both_asked : System table
both_asked = record asked { procs = update asked.procs 1 (read_by 1) }

abbrev put_once : System table
put_once = record {
  state = put_in both_asked.state first_put;
  procs = update both_asked.procs 0 (after_put 0 (ok tt));
}

abbrev put_twice : System table
put_twice = record {
  state = put_in put_once.state second_put;
  procs = update put_once.procs 1 (after_put 1 (ok tt));
}

turns : Scheduled start (0 ∷ 1 ∷ 0 ∷ 1 ∷ []) put_twice
unfolding Calls
turns = (
  asked,
  read 0 _ _ _ refl refl,
  refl,
  (
    both_asked,
    read 1 _ _ _ refl refl,
    refl,
    (
      put_once,
      write 0 first_put (after_put 0) (ok tt) put_once.state refl (refl, refl),
      refl,
      (
        put_twice,
        write 1 second_put (after_put 1) (ok tt) put_twice.state refl (refl, refl),
        refl,
        refl,
      ),
    ),
  ),
)

decoded : decode_item codec counter ≡ done entry
unfolding decode_item get parse_u64 count_entry_from visitor_from_stored
decoded = refl

counter-count : get (codes "count") counter ≡ some (n (to_string 41))
unfolding get to_string
counter-count = refl

abbrev first : CountEntry
first = record { count = 41; recent_visitors = visitor 1 1800 ∷ visitor 2 20 ∷ [] }

abbrev second : CountEntry
second = record { count = 41; recent_visitors = visitor 1 10 ∷ visitor 2 1800 ∷ [] }

first-Writes : Writes codec (visits 0) entry first (1 ∷ 1800 ∷ 2 ∷ 20 ∷ [])
unfolding update_entry stored_count_entry_from stored_visitor_from
first-Writes = record { updates = refl; stored = _; stores = refl; encodes = refl }

second-Writes : Writes codec (visits 1) entry second (1 ∷ 10 ∷ 2 ∷ 1800 ∷ [])
unfolding update_entry stored_count_entry_from stored_visitor_from
second-Writes = record { updates = refl; stored = _; stores = refl; encodes = refl }

maybe_increment_visitors-overwrites_example :
    (put_twice.procs 0 ≡ done 41)
    × (put_twice.procs 1 ≡ done 41)
    × Has table table-ReliableLaws codec
        (codes "test")
        (codes "default")
        put_twice
        (put_input (codes "test") (codes "default") 41 41 (1 ∷ 10 ∷ 2 ∷ 1800 ∷ [])).item
maybe_increment_visitors-overwrites_example =
    maybe_increment_visitors-overwrites table table-ReliableLaws codec (codes "test")
      (codes "default") 0 1 (visits 0) (visits 1) counter entry first second
      (1 ∷ 1800 ∷ 2 ∷ 20 ∷ []) (1 ∷ 10 ∷ 2 ∷ 1800 ∷ []) (λ e. omega arith) refl refl refl
      counter-count decoded first-Writes second-Writes refl turns
