-- ===== src/SourceTests/RequestTests.antt =====
-- The tests of src/request_info.rs. The bot checker is a parameter, as in the code.
use digital_garden_visitor_c.Common.{
  ◌≡◌, refl, List, [], ◌∷◌, Bool, true, false, Option, none, some, Text, codes, text_eq, Result,
  err, All, ◌>>=◌,
}
use digital_garden_visitor_c.RequestInfo.{
  RequestInfo, RequestInfoError, missing_user_agent, missing_source_ip, looks_like_a_bot,
  HttpContext, request_info_try_from,
}
use digital_garden_visitor_c.SourceTests.Asserts.{assert, unwrap}

-- What the code reads of the request that the tests build.
abbrev pub request : Option Text → Option Text → HttpContext
request ua ip = record { user_agent = ua; source_ip = ip }

-- `matches!` on an error.
abbrev pub is_error : RequestInfoError → Result RequestInfo RequestInfoError → Bool
is_error missing_user_agent (err missing_user_agent) = true
is_error missing_source_ip (err missing_source_ip) = true
is_error looks_like_a_bot (err looks_like_a_bot) = true
is_error _ _ = false

module _ (is_bot : Text → Bool) where
  unfoldable pub valid_request : Option (Unit {0})
  unfolding request_info_try_from
  valid_request = do
    info ← unwrap (
        request_info_try_from is_bot
          (request (some (codes "foo bar baz")) (some (codes "127.0.0.1"))))
    user_agent_is ← assert (text_eq (codes "foo bar baz") info.user_agent)
    assert (text_eq (codes "127.0.0.1") info.source_ip)

  unfoldable pub missing_user_agent_test : Option (Unit {0})
  unfolding request_info_try_from
  missing_user_agent_test = assert (
      is_error missing_user_agent
        (request_info_try_from is_bot (request none (some (codes "127.0.0.1")))))

  unfoldable pub missing_source_ip_test : Option (Unit {0})
  unfolding request_info_try_from
  missing_source_ip_test = assert (
      is_error missing_source_ip
        (request_info_try_from is_bot (request (some (codes "foo bar baz")) none)))

  unfoldable pub bot : Option (Unit {0})
  unfolding request_info_try_from
  bot = assert (
      is_error looks_like_a_bot
        (request_info_try_from is_bot (request (some (codes "irbot")) (some (codes "127.0.0.1")))))

  -- The tests in the order of the source.
  unfoldable pub request_tests : List (Option (Unit {0}))
  request_tests = valid_request ∷ missing_user_agent_test ∷ missing_source_ip_test ∷ bot ∷ []

  -- If the bot checker takes the user agent "irbot" for a bot's and "foo bar baz" for none's, then the
  -- four tests of the request information pass.
  pub request_tests-All :
      is_bot (codes "foo bar baz") ≡ false
      → is_bot (codes "irbot") ≡ true
      → All (λ test. test ≡ some tt) request_tests
  unfolding request_tests valid_request missing_user_agent_test missing_source_ip_test bot
      request_info_try_from
  request_tests-All person robot = (rw person refl, (refl, (rw person refl, (rw robot refl, tt))))
