-- ===== src/RequestInfo.antt =====
-- The extraction of request information, src/request_info.rs. The bot checker is the crate isbot's,
-- a parameter; of the request only what the code reads is kept.
use digital_garden_visitor_c.Common.{
  Bool, Option, none, some, Text, codes, if◌then◌else◌, Result, ok, err,
}

pub data RequestInfoError : Type 0 where
  missing_user_agent missing_source_ip looks_like_a_bot : RequestInfoError

-- `Display`
unfoldable pub display : RequestInfoError → Text
display missing_user_agent = codes "request has no user agent"
display missing_source_ip = codes "request has no source IP"
display looks_like_a_bot = codes "request looks like a bot"

pub record RequestInfo : Type 0 where
  pub user_agent : Text
  pub source_ip : Text

-- The fields of the HTTP description in the context of an API Gateway request.
pub record HttpContext : Type 0 where
  pub user_agent : Option Text
  pub source_ip : Option Text

-- `RequestInfo::try_from(&Request)` behind the `expect` of the context.
unfoldable pub request_info_try_from :
    (Text → Bool) → HttpContext → Result RequestInfo RequestInfoError
request_info_try_from is_bot context = elim context.user_agent [
  | none ↦ err missing_user_agent
  | some user_agent ↦ if is_bot user_agent then err looks_like_a_bot else elim context.source_ip [
    | none ↦ err missing_source_ip
    | some source_ip ↦ ok (record { user_agent = user_agent; source_ip = source_ip })
  ]
]
