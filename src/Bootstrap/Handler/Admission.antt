-- ===== src/Bootstrap/Handler/Admission.antt =====
-- Which requests `function_handler` of src/bin/bootstrap.rs lets through to the store.
use digital_garden_visitor_c.Common.{
  ℕ, suc, ◌≡◌, refl, ap, List, [], ◌∷◌, Bool, true, false, Option, none, some, Text, codes, text_eq,
  text_eq-to_eq, ok, err, get_elem?, ◌⊎◌, inl, inr, Bool-cases, Option-cases,
}
use digital_garden_visitor_c.RequestInfo.{
  missing_user_agent, missing_source_ip, looks_like_a_bot, HttpContext, request_info_try_from,
}
use digital_garden_visitor_c.Store.Time.{SystemTime}
use digital_garden_visitor_c.Store.Visitor.{Visitor, visitor_from_request}
use digital_garden_visitor_c.Store.Dynamo.{
  Proc, done, fail, panic, request_info_error, ◌>>=◌, or_panic,
}
use digital_garden_visitor_c.Store.Increment.{maybe_increment_visitors}
use digital_garden_visitor_c.Bootstrap.Config.{Config}
use digital_garden_visitor_c.Bootstrap.Handler.{
  Request, Response, Crates, not_found, contains, count_name, respond, count_visit, handle_info,
  function_handler,
}

-- A request that counts: for the root, by a user agent that is no bot, from a known address, and
-- for a name that the configuration allows.
pub record Admitted (is_bot : Text → Bool) (config : Config) (event : Request) : Type 0 where
  pub root : event.path ≡ codes "/"
  pub context : HttpContext
  pub has_context : event.context ≡ some context
  pub user_agent : Text
  pub has_user_agent : context.user_agent ≡ some user_agent
  pub no_bot : is_bot user_agent ≡ false
  pub source_ip : Text
  pub has_source_ip : context.source_ip ≡ some source_ip
  pub index : ℕ
  pub allowed : get_elem? config.allowed_names index ≡ some (count_name event)

-- A request for the root that is not by a bot, with what is extracted of it.
pub record Informed (is_bot : Text → Bool) (event : Request) : Type 0 where
  pub root : event.path ≡ codes "/"
  pub context : HttpContext
  pub has_context : event.context ≡ some context
  pub user_agent : Text
  pub has_user_agent : context.user_agent ≡ some user_agent
  pub no_bot : is_bot user_agent ≡ false
  pub source_ip : Text
  pub has_source_ip : context.source_ip ≡ some source_ip

-- The visitor of a request, seen at an instant.
abbrev pub visitor_for :
    (crates : Crates)
    → SystemTime
    → {event : Request} → Informed crates.is_bot event
    → Option Visitor
visitor_for crates seen who =
    visitor_from_request crates.md5 crates.endian seen
      (record { user_agent = who.user_agent; source_ip = who.source_ip })

contains-get :
    (name : Text) (names : List Text)
    → contains name names ≡ true
    → (i : ℕ) × (get_elem? names i ≡ some name)
contains-get name [] h = cc
contains-get name (first ∷ names) h = elim (Bool-cases (text_eq first name)) [
  | inl e ↦ (0, ap some (text_eq-to_eq first name e))
  | inr e ↦ let (i, found) = contains-get name names (rw e at h) in (suc i, found)
]

-- The extraction gives just the user agent and the address, and only of a request that is not by
-- a bot.
pub request_info_try_from-cases :
    (is_bot : Text → Bool) (context : HttpContext)
    → ((context.user_agent ≡ none)
        × (request_info_try_from is_bot context ≡ err missing_user_agent))
      ⊎ ((user_agent : Text) × (context.user_agent ≡ some user_agent)
          × (((is_bot user_agent ≡ true)
                × (request_info_try_from is_bot context ≡ err looks_like_a_bot))
              ⊎ ((is_bot user_agent ≡ false)
                  × (context.source_ip ≡ none)
                  × (request_info_try_from is_bot context ≡ err missing_source_ip))
              ⊎ ((source_ip : Text) × (is_bot user_agent ≡ false)
                  × (context.source_ip ≡ some source_ip)
                  × (request_info_try_from is_bot context
                      ≡ ok (record { user_agent = user_agent; source_ip = source_ip })))))
unfolding request_info_try_from
request_info_try_from-cases is_bot context = elim (Option-cases context.user_agent) [
  | inl e ↦ inl (e, rw e)
  | inr (user_agent, e) ↦ inr (
    user_agent,
    e,
    elim (Bool-cases (is_bot user_agent)) [
      | inl f ↦ inl (f, rw (e, f))
      | inr f ↦ elim (Option-cases context.source_ip) [
        | inl g ↦ inr (inl (f, g, rw (e, f, g)))
        | inr (source_ip, g) ↦ inr (inr (source_ip, f, g, rw (e, f, g)))
      ]
    ],
  )
]

module _ (crates : Crates) (config : Config) (seen now : SystemTime) (event : Request) where
  -- What the handler does, and why.
  pub data Verdict (h : Proc Response) : Type 0 where
    other_path : text_eq event.path (codes "/") ≡ false → h ≡ done not_found → Verdict h
    without_context : event.path ≡ codes "/" → event.context ≡ none → h ≡ panic → Verdict h
    without_user_agent :
        (context : HttpContext)
        → event.path ≡ codes "/"
        → event.context ≡ some context
        → context.user_agent ≡ none
        → h ≡ fail (request_info_error missing_user_agent)
        → Verdict h
    by_a_bot :
        (context : HttpContext) (user_agent : Text)
        → event.path ≡ codes "/"
        → event.context ≡ some context
        → context.user_agent ≡ some user_agent
        → crates.is_bot user_agent ≡ true
        → h ≡ done not_found
        → Verdict h
    without_source_ip :
        (context : HttpContext) (user_agent : Text)
        → event.path ≡ codes "/"
        → event.context ≡ some context
        → context.user_agent ≡ some user_agent
        → crates.is_bot user_agent ≡ false
        → context.source_ip ≡ none
        → h ≡ fail (request_info_error missing_source_ip)
        → Verdict h
    short_hash :
        (who : Informed crates.is_bot event)
        → visitor_for crates seen who ≡ none
        → h ≡ panic
        → Verdict h
    unknown_name :
        (who : Informed crates.is_bot event) (visitor : Visitor)
        → visitor_for crates seen who ≡ some visitor
        → contains (count_name event) config.allowed_names ≡ false
        → h ≡ done not_found
        → Verdict h
    admitted :
        (who : Informed crates.is_bot event) (visitor : Visitor)
        → visitor_for crates seen who ≡ some visitor
        → Admitted crates.is_bot config event
        → h ≡ (
            maybe_increment_visitors crates.cbor config.table_name visitor (count_name event) now
            >>= respond crates config.min_width (count_name event) visitor.tag)
        → Verdict h

  -- An informed request is admitted if its name is allowed.
  Informed-Admitted :
      Informed crates.is_bot event
      → contains (count_name event) config.allowed_names ≡ true
      → Admitted crates.is_bot config event
  Informed-Admitted who allowed =
      let (index, found) = contains-get (count_name event) config.allowed_names allowed in
      record {
        root = who.root;
        context = who.context;
        has_context = who.has_context;
        user_agent = who.user_agent;
        has_user_agent = who.has_user_agent;
        no_bot = who.no_bot;
        source_ip = who.source_ip;
        has_source_ip = who.has_source_ip;
        index = index;
        allowed = found;
      }

  Informed-Verdict :
      (who : Informed crates.is_bot event)
      → Verdict (
          or_panic (visitor_for crates seen who)
          >>= count_visit crates config now (count_name event))
  unfolding count_visit
  Informed-Verdict who = elim (Option-cases (visitor_for crates seen who)) [
    | inl e ↦ short_hash who e (rw e)
    | inr (visitor, e) ↦ elim (Bool-cases (contains (count_name event) config.allowed_names)) [
      | inr f ↦ unknown_name who visitor e f (rw (e, f))
      | inl f ↦ admitted who visitor e (Informed-Admitted who f) (rw (e, f))
    ]
  ]

  with_context :
      (context : HttpContext)
      → text_eq event.path (codes "/") ≡ true
      → event.context ≡ some context
      → function_handler crates config seen now event
        ≡ handle_info crates config seen now event (request_info_try_from crates.is_bot context)
  unfolding function_handler
  with_context context e c = rw (e, c) refl

  handle_info-Verdict :
      (context : HttpContext)
      → event.path ≡ codes "/"
      → event.context ≡ some context
      → Verdict
          (handle_info crates config seen now event (request_info_try_from crates.is_bot context))
  unfolding handle_info
  handle_info-Verdict context root c = elim (request_info_try_from-cases crates.is_bot context) [
    | inl (u, r) ↦ rw r (without_user_agent context root c u refl)
    | inr (user_agent, u, inl (b, r)) ↦ rw r (by_a_bot context user_agent root c u b refl)
    | inr (user_agent, u, inr (inl (b, i, r))) ↦
        rw r (without_source_ip context user_agent root c u b i refl)
    | inr (user_agent, u, inr (inr (source_ip, b, i, r))) ↦ rw r (
        Informed-Verdict (record {
          root = root;
          context = context;
          has_context = c;
          user_agent = user_agent;
          has_user_agent = u;
          no_bot = b;
          source_ip = source_ip;
          has_source_ip = i;
        }))
  ]

  -- Each request is dealt with by the first of these that holds, with all those before it ruled out.
  -- It is not found if it is for another path than the root; it is a panic without a context; an
  -- error if the user agent is missing; not found if the user agent is a bot's; an error if the
  -- address is missing; a panic if the hash of its user agent and address has less than four bytes;
  -- not found for a name that is not allowed. Else the visitor of that hash is counted under the
  -- name that is asked for, and the count is rendered with the visitor's tag.
  pub function_handler-Verdict : Verdict (function_handler crates config seen now event)
  unfolding function_handler
  function_handler-Verdict = elim (Bool-cases (text_eq event.path (codes "/"))) [
    | inr e ↦ other_path e (rw e refl)
    | inl e ↦ elim (Option-cases event.context) [
      | inl c ↦ without_context (text_eq-to_eq event.path (codes "/") e) c (rw (e, c) refl)
      | inr (context, c) ↦
          rw (with_context context e c)
            (handle_info-Verdict context (text_eq-to_eq event.path (codes "/") e) c)
    ]
  ]
