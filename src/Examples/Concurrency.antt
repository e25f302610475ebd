-- ===== src/Examples/Concurrency.antt =====
-- Two invocations over one table, and the instances of the theorems on runs.
use digital_garden_visitor_c.Common.{
  ℕ, ◌+◌, ◌<◌, ◌≡◌, ◌≢◌, refl, arith, [], ◌∷◌, Option, none, some, Text, codes, ok, if◌then◌else◌,
}
use digital_garden_visitor_c.Decimal.{to_string, parse_u64}
use digital_garden_visitor_c.Store.Visitor.{stored_visitor_from, visitor_from_stored}
use digital_garden_visitor_c.Store.Entry.{count_entry_from, stored_count_entry_from}
use digital_garden_visitor_c.Store.Dynamo.{Proc, Item, PutItemInput, get, done, ◌>>=◌}
use digital_garden_visitor_c.Store.Dynamo.Requests.{AfterPut}
use digital_garden_visitor_c.Store.Recent.{update_entry}
use digital_garden_visitor_c.Store.Client.{
  get_count_entry, get_response, decode_item, put_result, put_new_input, put_input, count_of,
  try_put_new_count_entry, try_put_count_entry,
}
use digital_garden_visitor_c.Store.Increment.{maybe_increment_visitors, attempts, attempt}
use digital_garden_visitor_c.Store.Increment.Puts.{maybe_increment_visitors-Honest}
use digital_garden_visitor_c.Store.System.{System, update, Step, read, AllHonest}
use digital_garden_visitor_c.Store.System.Counts.{count_at, Room, Step-AllHonest, Step-Advances}
use digital_garden_visitor_c.Store.System.Effects.{Advances, count_in}
use digital_garden_visitor_c.Store.System.Runs.{
  Run, stay, next, CountedVisit, CountedVisit-Step, CountedVisit-lt,
}
use digital_garden_visitor_c.Store.System.Tallied.{Tallied, Run-Tallied}
use digital_garden_visitor_c.Store.Increment.Contention.{raised}
use digital_garden_visitor_c.Examples.Progress.{table-ReliableLaws}
use digital_garden_visitor_c.Examples.Codec.{codec}
use digital_garden_visitor_c.Examples.Storage.{visitor, system_time}
use digital_garden_visitor_c.Examples.Table.{
  table, table-DatabaseLaws, holds, has_count, key_of, put_in,
}

abbrev names : ℕ → Text
names i = codes "default"

-- Every invocation has a visitor of its own.
abbrev call : ℕ → Proc ℕ
call i =
    maybe_increment_visitors codec (codes "test") (visitor i 1000) (codes "default")
      (system_time 1000)

abbrev start : System table
start = record { state = λ _ _. none; procs = call }

start-AllHonest : AllHonest codec (codes "test") names start
start-AllHonest i =
    maybe_increment_visitors-Honest codec (codes "test") (visitor i 1000) (codes "default")
      (system_time 1000)

Calls : Unit {0}
unfolding to_string parse_u64 stored_visitor_from visitor_from_stored stored_count_entry_from
    count_entry_from get update_entry get_count_entry get_response decode_item put_result
    try_put_new_count_entry try_put_count_entry maybe_increment_visitors attempts attempt holds
    has_count key_of
Calls = tt

-- What is left of a call after its first response.
abbrev read_by : ℕ → Option Item → Proc ℕ
read_by i item =
    get_response codec (ok (record { item = item }))
    >>= attempt codec (codes "test") (visitor i 1000) (codes "default") (system_time 1000)
        (attempts codec (codes "test") (visitor i 1000) (codes "default") (system_time 1000) 4)

-- What is left of a call that has put a count.
abbrev after_put : ℕ → ℕ → AfterPut ℕ
after_put i count r = put_result r >>= λ written.
    if written
    then done count
    else attempts codec (codes "test") (visitor i 1000) (codes "default") (system_time 1000) 4

abbrev first_put : PutItemInput
first_put = put_new_input (codes "test") (codes "default") (0 ∷ 1000 ∷ [])

abbrev second_put : PutItemInput
second_put = put_input (codes "test") (codes "default") 1 2 (0 ∷ 1000 ∷ 1 ∷ 1000 ∷ [])

-- Invocation 0 has read that there is no counter.
abbrev asked : System table
asked = record { state = λ _ _. none; procs = update call 0 (read_by 0 none) }

ask : Step table start asked
unfolding Calls
ask = read 0 _ _ _ refl refl

abbrev created : System table
created = record {
  state = put_in asked.state first_put;
  procs = update asked.procs 0 (after_put 0 1 (ok tt));
}

-- Invocation 1 has read the counter that invocation 0 made.
abbrev asked_again : System table
asked_again = record created { procs = update created.procs 1 (read_by 1 (some first_put.item)) }

ask_again : Step table created asked_again
unfolding Calls put_new_input
ask_again = read 1 _ _ _ refl refl

abbrev counted : System table
counted = record {
  state = put_in asked_again.state second_put;
  procs = update asked_again.procs 1 (after_put 1 2 (ok tt));
}

first_visit : CountedVisit table codec (codes "test") names (codes "default") 1 asked created
unfolding Calls put_new_input count_in
first_visit = record {
  who = 0;
  input = first_put;
  k = after_put 0 1;
  b = created.state;
  counter = refl;
  sends = refl;
  succeeds = (refl, refl);
  becomes = refl;
  returns = refl;
  raises = λ e. cc;
}

created_count : count_at table (codes "test") created (codes "default") ≡ some 1
unfolding Calls put_new_input count_in count_of
created_count = refl

asked_again_count : count_at table (codes "test") asked_again (codes "default") ≢ some 2
asked_again_count e = ground (arith, created_count)

second_visit : CountedVisit table codec (codes "test") names (codes "default") 2 asked_again counted
unfolding Calls put_new_input put_input
second_visit = record {
  who = 1;
  input = second_put;
  k = after_put 1 2;
  b = counted.state;
  counter = refl;
  sends = refl;
  succeeds = (refl, refl);
  becomes = refl;
  returns = refl;
  raises = asked_again_count;
}

one_left : Room table (codes "test") created (codes "default")
one_left c e = ground (arith, created_count)

asked-AllHonest : AllHonest codec (codes "test") names asked
asked-AllHonest =
    Step-AllHonest table table-DatabaseLaws codec (codes "test") names ask start-AllHonest

CountedVisit-lt_example : ◌<◌ 1 2
CountedVisit-lt_example =
    CountedVisit-lt table codec (codes "test") names table-DatabaseLaws (codes "default")
      asked-AllHonest first_visit (next stay one_left ask_again) one_left second_visit

first-Step : Step table asked created
first-Step =
    CountedVisit-Step table codec (codes "test") names table-DatabaseLaws (codes "default")
      first_visit

created-AllHonest : AllHonest codec (codes "test") names created
created-AllHonest =
    Step-AllHonest table table-DatabaseLaws codec (codes "test") names first-Step asked-AllHonest

Step-Advances_example :
    Advances
      (count_at table (codes "test") created (codes "default"))
      (count_at table (codes "test") asked_again (codes "default"))
Step-Advances_example =
    Step-Advances table table-DatabaseLaws codec (codes "test") names (codes "default") ask_again
      created-AllHonest

empty_left : Room table (codes "test") start (codes "default")
unfolding count_in
empty_left c e = cc

second-Step : Step table asked_again counted
second-Step =
    CountedVisit-Step table codec (codes "test") names table-DatabaseLaws (codes "default")
      second_visit

whole-Run : Run table codec (codes "test") names (codes "default") start counted
whole-Run =
    next (next (next (next stay empty_left ask) empty_left first-Step) one_left ask_again) one_left
      second-Step

Run-Tallied_example :
    (k : ℕ) × Tallied table codec (codes "test") names (codes "default") start k counted
    × (raised (count_at table (codes "test") counted (codes "default"))
        ≡ raised (count_at table (codes "test") start (codes "default")) + k)
Run-Tallied_example =
    Run-Tallied table codec (codes "test") names table-DatabaseLaws table-ReliableLaws
      (codes "default") start-AllHonest whole-Run
