-- ===== src/Examples/Service.antt =====
-- The service on a few events, and the instance of the theorem about it.
use digital_garden_visitor_c.Common.{
  ◌≡◌, refl, arith, List, [], ◌∷◌, none, some, codes, text_eq, if◌then◌else◌, ℕ,
}
use digital_garden_visitor_c.RequestInfo.{request_info_try_from}
use digital_garden_visitor_c.Store.Visitor.{visitor_from_request}
use digital_garden_visitor_c.Store.Fake.{sdk_config}
use digital_garden_visitor_c.Store.Serial.{empty_view}
use digital_garden_visitor_c.Bootstrap.Handler.{Request, count_name}
use digital_garden_visitor_c.Bootstrap.Service.{Event, Reply, main}
use digital_garden_visitor_c.Bootstrap.Service.Replies.{IsReplies, IsTraffic}
use digital_garden_visitor_c.Bootstrap.Service.Tallies.{
  IsNumberedAll, AllPrompt, main-IsNumberedAll,
}
use digital_garden_visitor_c.Bootstrap.Service.Traffic.{main-IsReplies}
use digital_garden_visitor_c.Examples.Codec.{codec-CborLaws}
use digital_garden_visitor_c.Examples.Handler.{crates, crates-PngLaws, config, configured, event}
use digital_garden_visitor_c.Examples.Memory.{memory, memory-TableLaws}
use digital_garden_visitor_c.Examples.Storage.{system_time}

abbrev pub at : Request → ℕ → Event
at request offset = record {
  request = request;
  seen = system_time offset;
  now = system_time offset;
}

-- The same visitor for another counter, and a bot.
abbrev elsewhere : Request
elsewhere = record event { query = none }

abbrev pub robot : Request
robot = record event {
  context = some (record { user_agent = some (codes "bot"); source_ip = some (codes "10.0.0.9") });
}

abbrev events : List Event
events = at event 7200 ∷ at robot 7000 ∷ at elsewhere 7201 ∷ at event 9000 ∷ []

events-IsTraffic : IsTraffic crates config 0 events
unfolding request_info_try_from visitor_from_request count_name
events-IsTraffic = (
  ((omega arith, (omega arith, omega arith), (omega arith, omega arith)), refl),
  (
    tt,
    (
      ((omega arith, (omega arith, omega arith), (omega arith, omega arith)), refl),
      (((omega arith, (omega arith, omega arith), (omega arith, omega arith)), refl), tt),
    ),
  ),
)

main-IsReplies_example :
    (replies : List Reply) × (main crates memory
        (λ name.
          if text_eq name (codes "DGVC_ALLOWED_NAMES") then some (codes "default,blog") else none)
        events
        (λ _ _. none)
      ≡ some replies)
    × IsReplies crates config events (λ name. empty_view) replies
main-IsReplies_example =
    main-IsReplies crates memory (λ a. a)
      (λ name.
        if text_eq name (codes "DGVC_ALLOWED_NAMES") then some (codes "default,blog") else none)
      config events (λ _ _. none) (memory-TableLaws sdk_config) (λ name. refl) codec-CborLaws
      crates-PngLaws configured (omega arith) events-IsTraffic (omega arith)

events-AllPrompt : AllPrompt crates config events
unfolding request_info_try_from visitor_from_request count_name
events-AllPrompt = (λ v e. cc, (λ v e. cc, (λ v e. cc, (λ v e. cc, tt))))

main-IsNumberedAll_example :
    (replies : List Reply) × (main crates memory
        (λ name.
          if text_eq name (codes "DGVC_ALLOWED_NAMES") then some (codes "default,blog") else none)
        events
        (λ _ _. none)
      ≡ some replies)
    × IsNumberedAll crates config events [] replies
main-IsNumberedAll_example =
    main-IsNumberedAll crates memory (λ a. a)
      (λ name.
        if text_eq name (codes "DGVC_ALLOWED_NAMES") then some (codes "default,blog") else none)
      config events (λ _ _. none) (memory-TableLaws sdk_config) (λ name. refl) codec-CborLaws
      crates-PngLaws configured (omega arith) events-IsTraffic events-AllPrompt (omega arith)
