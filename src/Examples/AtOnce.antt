-- ===== src/Examples/AtOnce.antt =====
-- Five handlers at once beside those of bots, and the instances of the theorems.
use digital_garden_visitor_c.Common.{
  ℕ, [], ◌∷◌, ◌⊎◌, ◌+◌, ◌≤◌, ◌<◌, ◌≡◌, ◌≢◌, refl, arith, Option, none, codes, ok, inl, ltb, lt→ltb,
  false, if◌then◌else◌,
}
use digital_garden_visitor_c.RequestInfo.{request_info_try_from}
use digital_garden_visitor_c.Store.Visitor.{visitor_from_request, stored_visitor_from}
use digital_garden_visitor_c.Store.Dynamo.{PutItemInput, get, done, fail, ◌>>=◌}
use digital_garden_visitor_c.Store.Dynamo.Requests.{AfterPut}
use digital_garden_visitor_c.Store.Client.{
  get_count_entry, get_response, put_result, put_new_input, try_put_new_count_entry,
}
use digital_garden_visitor_c.Store.Increment.{attempt, attempts, maybe_increment_visitors}
use digital_garden_visitor_c.Store.Increment.Contention.{gave_up, IsCounter, absent, raised}
use digital_garden_visitor_c.Store.System.{SystemOf, update, Step, read, write}
use digital_garden_visitor_c.Store.System.Progress.Finishes.{here, further}
use digital_garden_visitor_c.Bootstrap.Handler.{Response, count_name, respond, function_handler}
use digital_garden_visitor_c.Bootstrap.Service.{Event}
use digital_garden_visitor_c.Bootstrap.Service.AtOnce.{
  IsVisitOf, IsOther, serving, function_handler-ne-gave_up,
}
use digital_garden_visitor_c.Store.System.Turns.{Scheduled}
use digital_garden_visitor_c.Store.System.WaitFree.{turns, IsEnded}
use digital_garden_visitor_c.Bootstrap.Service.Answered.{
  IsVisitIn, IsImageOf, function_handler-answers,
}
use digital_garden_visitor_c.Bootstrap.Service.Turns.{function_handler-turns}
use digital_garden_visitor_c.Examples.Codec.{codec, codec-CborLaws}
use digital_garden_visitor_c.Examples.Handler.{crates, crates-PngLaws, config, event}
use digital_garden_visitor_c.Examples.Progress.{table-ReliableLaws}
use digital_garden_visitor_c.Examples.Service.{at, robot}
use digital_garden_visitor_c.Examples.Storage.{visitor, system_time}
use digital_garden_visitor_c.Examples.Table.{
  table, table-DatabaseLaws, key_of, holds, has_count, put_in,
}

abbrev events : ℕ → Event
events i = if ltb i 5 then at event 7200 else at robot 7200

abbrev start : SystemOf table Response
start = serving crates config table events (λ _ _. none)

-- The first handler has read that there is no counter.
abbrev first_read : SystemOf table Response
first_read = record start {
  procs = update start.procs 0 (
      get_response codec (ok (record { item = none }))
      >>= attempt codec config.table_name (visitor 808333361 7200) (codes "blog") (system_time 7200)
          (attempts codec config.table_name (visitor 808333361 7200) (codes "blog")
            (system_time 7200) 4)
      >>= respond crates config.min_width (codes "blog") 808333361);
}

first-Step : Step table start first_read
unfolding function_handler request_info_try_from visitor_from_request count_name
    maybe_increment_visitors attempts get_count_entry key_of get
first-Step = read 0 _ _ _ refl refl

ours : (i : ℕ) → i < 5 → IsVisitOf crates config (codes "blog") (events i)
unfolding request_info_try_from visitor_from_request count_name
ours i below = let inside = lt→ltb i 5 below in rw inside (_, refl, refl)

others : (i : ℕ) → 5 ≤ i → IsOther crates config (codes "blog") (events i)
unfolding request_info_try_from visitor_from_request count_name
others i over = let outside : ltb i 5 ≡ false = ground arith in rw outside (inl refl)

function_handler-ne-gave_up_example :
    ((i : ℕ) → i < 5 → first_read.procs i ≢ fail gave_up)
    × ((now : Option ℕ) × IsCounter
          (table.item first_read.state config.table_name (codes "blog"))
          now
        × (raised none ≤ raised now)
        × (raised now ≤ raised none + 5))
function_handler-ne-gave_up_example =
    function_handler-ne-gave_up crates config table events (codes "blog") 5 (λ _ _. none) none
      table-DatabaseLaws table-ReliableLaws ours others (omega arith) absent (omega arith)
      (further here first-Step)

one_turn : Scheduled start (0 ∷ []) first_read
unfolding function_handler request_info_try_from visitor_from_request count_name
    maybe_increment_visitors attempts get_count_entry key_of get
one_turn = (first_read, read 0 _ _ _ refl refl, refl, refl)

function_handler-turns_example :
    (turns 0 (0 ∷ []) ≤ 10) × (IsEnded (first_read.procs 0) ⊎ (turns 0 (0 ∷ []) < 10))
function_handler-turns_example =
    function_handler-turns crates config table events (λ _ _. none) first_read (0 ∷ []) 0 one_turn

in_second : (i : ℕ) → i < 5 → IsVisitIn crates config (system_time 7200) (codes "blog") (events i)
unfolding request_info_try_from visitor_from_request count_name
in_second i below =
    let inside = lt→ltb i 5 below in
    rw inside (
      record { visitor = visitor 808333361 7200; now = system_time 7200 },
      refl,
      refl,
      (omega arith, omega arith, (omega arith, omega arith), (omega arith, omega arith)),
    )

abbrev first_write : PutItemInput
first_write = put_new_input config.table_name (codes "blog") (808333361 ∷ 7200 ∷ [])

abbrev first_after : AfterPut Response
first_after r =
    put_result r
    >>= (λ written.
        if written
        then done 1
        else attempts codec config.table_name (visitor 808333361 7200) (codes "blog")
            (system_time 7200) 4)
    >>= respond crates config.min_width (codes "blog") 808333361

-- The first handler has created the counter.
abbrev first_done : SystemOf table Response
first_done = record {
  state = put_in (λ _ _. none) first_write;
  procs = update first_read.procs 0 (first_after (ok tt));
}

two_turns : Scheduled start (0 ∷ 0 ∷ []) first_done
unfolding function_handler request_info_try_from visitor_from_request count_name
    maybe_increment_visitors attempts attempt get_count_entry get_response try_put_new_count_entry
    stored_visitor_from put_result put_new_input holds has_count key_of get
two_turns = (
  first_read,
  read 0 _ _ _ refl refl,
  refl,
  (
    first_done,
    write 0 first_write first_after (ok tt) first_done.state refl (refl, refl),
    refl,
    refl,
  ),
)

function_handler-answers_example :
    IsImageOf crates config 0 5 (codes "blog") (events 0) (first_done.procs 0)
    ⊎ (¬ IsEnded (first_done.procs 0) × (turns 0 (0 ∷ 0 ∷ []) < 10))
function_handler-answers_example =
    function_handler-answers crates config table table-DatabaseLaws table-ReliableLaws
      codec-CborLaws crates-PngLaws (omega arith) events (system_time 7200) (codes "blog") refl 5
      in_second others (λ _ _. none) tt none first_done (0 ∷ 0 ∷ []) 0 (omega arith) absent
      (omega arith) two_turns (omega arith)
