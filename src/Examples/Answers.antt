-- ===== src/Examples/Answers.antt =====
-- A handler over the table in memory, and the instance of the theorem about its answer.
use digital_garden_visitor_c.Common.{◌≡◌, refl, ap, arith, [], ◌∷◌, none, some, Bytes, codes, ok}
use digital_garden_visitor_c.Counter.Render.{Render}
use digital_garden_visitor_c.Counter.Render.Drawn.{IsRendering}
use digital_garden_visitor_c.RequestInfo.{request_info_try_from}
use digital_garden_visitor_c.Store.Visitor.{visitor_from_request, stored_visitor_from}
use digital_garden_visitor_c.Store.Dynamo.{PutItemInput, done, get}
use digital_garden_visitor_c.Store.Client.{
  get_count_entry, put_result, put_new_input, try_put_new_count_entry,
}
use digital_garden_visitor_c.Store.Increment.{maybe_increment_visitors, attempts, attempt}
use digital_garden_visitor_c.Store.Fake.{DynamoClient, fake, run, sdk_config}
use digital_garden_visitor_c.Bootstrap.Handler.{
  Response, count_name, image_answer, respond, function_handler,
}
use digital_garden_visitor_c.Bootstrap.Handler.Images.{respond-IsRendering}
use digital_garden_visitor_c.Bootstrap.Handler.Shown.{IsAnswer, function_handler-IsAnswer}
use digital_garden_visitor_c.Examples.Handler.{crates, crates-PngLaws, config, event}
use digital_garden_visitor_c.Examples.Memory.{memory}
use digital_garden_visitor_c.Examples.Storage.{system_time}
use digital_garden_visitor_c.Examples.Table.{Table, holds, has_count, key_of, put_in}

abbrev client : DynamoClient Table
client = fake (memory sdk_config)

-- The image of the first visitor.
image :
    (r : Render) × (png : Bytes) × IsRendering 1 5 r
    × (crates.png r.width r.height r.pixels ≡ ok png)
    × (respond crates 5 (codes "blog") 808333361 1
        ≡ done (image_answer (codes "blog") 808333361 1 png))
image =
    respond-IsRendering crates crates-PngLaws 5 (codes "blog") 808333361 1 (omega arith)
      (omega arith) refl

abbrev answer : Response
answer = image_answer (codes "blog") 808333361 1 image.1

abbrev creation : PutItemInput
creation = put_new_input config.table_name (codes "blog") (808333361 ∷ 7200 ∷ [])

answers :
    run client
      (function_handler crates config (system_time 7200) (system_time 7200) event)
      (λ _ _. none)
    ≡ some (done answer)
unfolding function_handler request_info_try_from visitor_from_request count_name
    maybe_increment_visitors attempts attempt get_count_entry try_put_new_count_entry
    stored_visitor_from put_result put_new_input holds has_count key_of get run
answers = ap (λ p. run client p (put_in (λ _ _. none) creation)) image.4

function_handler-IsAnswer_example :
    IsAnswer crates config (system_time 7200) (system_time 7200) event client (λ _ _. none) answer
function_handler-IsAnswer_example =
    function_handler-IsAnswer crates config (system_time 7200) (system_time 7200) event client
      (λ _ _. none) answer answers
