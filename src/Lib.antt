-- ===== src/Lib.antt =====
-- Digital garden visitor counter: an AWS Lambda function that counts visits in DynamoDB and
-- answers with an image of the count. This library models the crate's own logic and proves what
-- makes it correct.
--
-- The parts, and how they interact:
--
-- - Decimal: `to_string` and `parse::<u64>` of the standard library, by which src/counter.rs
--   prints the count and src/store.rs writes and reads the count attribute.
-- - Counter: src/counter.rs. Counter.Bitmaps and Counter.Font are its module `font`
--   (`glyph_for_char`, `blit_glyph_into`, `blit_into`, `text_size`); Counter.Layout has the groups
--   of three digits and the sizes; Counter.Render has `render_separated_number`.
-- - RequestInfo: src/request_info.rs, `RequestInfo::try_from` and the errors.
-- - Store: src/store.rs. Store.Time and Store.Visitor have the instants and the stored form of
--   visitors; Store.Entry the count entries; Store.Recent `find_recent_mut`, `prune_visitors` and
--   the update of an entry; Store.Dynamo the requests; Store.Client `get_count_entry`,
--   `try_put_new_count_entry` and `try_put_count_entry`; Store.Increment the loop of
--   `maybe_increment_visitors`, and Store.Increment.Contention when it gives up; Store.System many
--   invocations over one table, with Store.System.Progress, Store.System.Answers and
--   Store.System.Tallied for a table that answers every request, and Store.System.Overwrites for
--   two that overlap; Store.Serial calls one after the other, against a counter that never
--   forgets; Store.Fake the client, `Store::new` and `Store::fake`, and what calls do with clients
--   that fail or lose responses.
-- - Bootstrap: src/bin/bootstrap.rs. Bootstrap.Config is `Config::from_env`, Bootstrap.Handler the
--   function `function_handler`, which calls all of the above, and Bootstrap.Service is `main`, on
--   events one after the other, with Bootstrap.Service.AtOnce, Bootstrap.Service.Turns and
--   Bootstrap.Service.Answered for handlers that run at once.
-- - LocalRenderTest: local-render-test/src/main.rs, the frames that its window shows;
--   LocalRenderTest.Session is its `main`, with the window and the file.
-- - SourceTests: the tests of src/store.rs and src/request_info.rs as functions:
--   SourceTests.Asserts and SourceTests.StoreTests the fakes and the assertions,
--   SourceTests.Conversions the synchronous tests, SourceTests.ListSize the size of the list,
--   SourceTests.RequestTests those of the requests.
-- - Examples: tests of the definitions, and instances of the theorems.
--
-- How the code is read. A panic is `none`, or `panic` in an asynchronous function. Numbers are
-- natural numbers; a `u64` or `usize` sum that can wrap is reduced by `u64`, which for sums and
-- products may be done once for the whole expression. Texts and byte strings are lists of bytes. A
-- `SystemTime` is the number of nanoseconds since the earliest one, 2^63 seconds before the Unix
-- epoch. An asynchronous function is the tree of its requests to DynamoDB (`Proc`), so other
-- invocations can run between any two of them; `Step` lets any number of them take turns.
--
-- Loops. `attempts` recurs on the attempts left, five at first. `digits` recurs on fuel; a number
-- is fuel enough for its own digits, since each round divides by ten. `rchunks_from` takes the
-- length of the text as fuel, and each chunk takes at least one character. All other loops recur
-- on a list or a fixed count.
--
-- Parameters. The codec of the crate ciborium (`Cbor`, with its laws in `CborLaws` and the sizes
-- of its encodings in `CborSizes` and `CborFormat`), DynamoDB (`Database`, with its documented
-- behaviour in `DatabaseLaws`, `ConditionLaws` and `ReliableLaws`), the SDK's client (`Dynamo`,
-- with `TableLaws` for a table that nobody else uses),
-- the hash of the crate md-5 (with `Md5Laws`), the bot checker of the crate isbot, the encoder of
-- the crate png (with `PngLaws`), the desktop of the local render test (with `DesktopLaws`), the
-- header check of the crate http, the clock, the environment and the byte order of the target are
-- arguments of the definitions.
--
-- How the proofs are built. A buffer shows a picture (`Shows`), and each step of the renderer
-- draws into the picture; the picture of the digits is then read at the columns that the groups
-- give them. A property of an asynchronous function is one of all its requests (`Requests`), of
-- all that it returns (`Returns`), or of the number of its requests (`Within`), whatever the
-- responses; it is carried over to interleaved invocations by `Step`.
--
-- An abstract counter (`View`) has a count and, for each tag, the whole second of its last visit,
-- of all visits ever made; the stored entry may have dropped a visitor only where the counter
-- treats it as a new one again (`Sees`). A client is a state that answers each request at once
-- (`Dynamo`), so `run` gives the end of a call, and `served` that of a handler with the requests it
-- sent. The profile of the release aborts on a panic, so `main` handles no event after one.
--
-- Not modelled: what the SDK does with the timeouts and the retries that `Store::new` sets; the
-- logging and the runtime of src/bin/bootstrap.rs; the pace of the updates in the local render
-- test; the benchmark, which times one call of the renderer; the deployment under infrastructure.
pub mod Common
pub mod Decimal
pub mod Counter
pub mod RequestInfo
pub mod Store
pub mod Bootstrap
pub mod Examples
pub mod SourceTests
pub mod LocalRenderTest
