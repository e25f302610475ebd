-- ===== src/Bootstrap/Handler/Shown.antt =====
-- What `function_handler` of src/bin/bootstrap.rs answers, whatever the store responds.
use digital_garden_visitor_c.Common.{ℕ, ◌≡◌, true, false, some, Text, codes, text_eq, ◌⊎◌, inl, inr}
use digital_garden_visitor_c.RequestInfo.{HttpContext}
use digital_garden_visitor_c.Store.Time.{SystemTime}
use digital_garden_visitor_c.Store.Visitor.{Visitor}
use digital_garden_visitor_c.Store.Dynamo.{Proc, done, ◌>>=◌}
use digital_garden_visitor_c.Store.Fake.{DynamoClient, run}
use digital_garden_visitor_c.Store.Fake.Ends.{run-bind, run-Returns}
use digital_garden_visitor_c.Store.Increment.{maybe_increment_visitors}
use digital_garden_visitor_c.Store.Increment.Returned.{IsWord, maybe_increment_visitors-Returns}
use digital_garden_visitor_c.Bootstrap.Config.{Config}
use digital_garden_visitor_c.Bootstrap.Handler.{
  Request, Response, Crates, not_found, contains, count_name, respond, function_handler,
}
use digital_garden_visitor_c.Bootstrap.Handler.Admission.{
  Admitted, Informed, visitor_for, Verdict, other_path, without_context, without_user_agent,
  by_a_bot, without_source_ip, short_hash, unknown_name, admitted, function_handler-Verdict,
}
use digital_garden_visitor_c.Bootstrap.Handler.Answers.{IsImage, respond-cases}

module _ (crates : Crates) (config : Config) (seen now : SystemTime) (event : Request) where
  -- The request is for another path, by a bot, or for a name that is not allowed.
  abbrev pub IsRefused : Type 0
  IsRefused =
      (text_eq event.path (codes "/") ≡ false)
      ⊎ ((context : HttpContext) × (user_agent : Text) × (event.context ≡ some context)
          × (context.user_agent ≡ some user_agent)
          × (crates.is_bot user_agent ≡ true))
      ⊎ (contains (count_name event) config.allowed_names ≡ false)

  -- The count of the request's visitor, with a client that is in a state.
  abbrev pub counting : Visitor → Proc ℕ
  counting visitor =
      maybe_increment_visitors crates.cbor config.table_name visitor (count_name event) now

  -- The answer: not found for a refused request; or the image of the count that the store returns
  -- for the visitor of the request.
  abbrev pub IsAnswer : {S : Type 0} → DynamoClient S → S → Response → Type 0
  IsAnswer client state r =
      (IsRefused × (r ≡ not_found))
      ⊎ (Admitted crates.is_bot config event
          × (who : Informed crates.is_bot event) × (visitor : Visitor) × (count : ℕ) × (visitor_for
                crates seen who
              ≡ some visitor)
          × (run client (counting visitor) state ≡ some (done count))
          × IsWord count
          × IsImage crates config.min_width (count_name event) visitor.tag count r)

  module _ {S : Type 0} (client : DynamoClient S) (state : S) (r : Response) where
    respond-IsImage :
        (tag count : ℕ) (after : S)
        → run client (respond crates config.min_width (count_name event) tag count) after
          ≡ some (done r)
        → IsImage crates config.min_width (count_name event) tag count r
    unfolding run
    respond-IsImage tag count after h =
        elim (respond-cases crates config.min_width (count_name event) tag count) [
          | inl e ↦ let ends = rw e at h in cc
          | inr (inl (x, e)) ↦ let ends = rw e at h in cc
          | inr (inr (image, e, shown)) ↦
              let ends = rw e at h in let same : image ≡ r = cc in rw (← same) shown
        ]

    counted-IsAnswer :
        (who : Informed crates.is_bot event) (visitor : Visitor)
        → visitor_for crates seen who ≡ some visitor
        → Admitted crates.is_bot config event
        → run client
            (counting visitor >>= respond crates config.min_width (count_name event) visitor.tag)
            state
          ≡ some (done r)
        → IsAnswer client state r
    counted-IsAnswer who visitor v a h =
        let (count, counts, after, shows) =
          run-bind client (counting visitor)
            (respond crates config.min_width (count_name event) visitor.tag) state r h in
        inr (
          a,
          who,
          visitor,
          count,
          v,
          counts,
          run-Returns client IsWord (counting visitor) state count
              (maybe_increment_visitors-Returns crates.cbor config.table_name visitor
                (count_name event) now)
              counts,
          respond-IsImage visitor.tag count after shows,
        )

    Verdict-IsAnswer :
        (h : Proc Response)
        → Verdict crates config seen now event h
        → run client h state ≡ some (done r)
        → IsAnswer client state r
    unfolding run
    Verdict-IsAnswer h (other_path p e) runs = let ends = rw e at runs in inl (inl p, cc)
    Verdict-IsAnswer h (without_context _ _ e) runs = let ends = rw e at runs in cc
    Verdict-IsAnswer h (without_user_agent _ _ _ _ e) runs = let ends = rw e at runs in cc
    Verdict-IsAnswer h (by_a_bot context user_agent _ c u b e) runs =
        let ends = rw e at runs in inl (inr (inl (context, user_agent, c, u, b)), cc)
    Verdict-IsAnswer h (without_source_ip _ _ _ _ _ _ _ e) runs = let ends = rw e at runs in cc
    Verdict-IsAnswer h (short_hash _ _ e) runs = let ends = rw e at runs in cc
    Verdict-IsAnswer h (unknown_name _ _ _ n e) runs =
        let ends = rw e at runs in inl (inr (inr n), cc)
    Verdict-IsAnswer h (admitted who visitor v a e) runs =
        counted-IsAnswer who visitor v a (rw e at runs)

    -- Whatever the client of the store responds, if the handler answers, then the request is refused
    -- (for its path, its bot or its name) and the answer is the empty 404; or the request is admitted
    -- and the answer carries the image of the count that `maybe_increment_visitors` returns with
    -- these responses for the visitor of the request, whose tag is of its user agent and address.
    -- The count is a `u64`, the body the encoding of its rendering at the configured width, and the
    -- headers have the count, the name, the tag and the length of the image.
    pub function_handler-IsAnswer :
        run client (function_handler crates config seen now event) state ≡ some (done r)
        → IsAnswer client state r
    function_handler-IsAnswer runs =
        Verdict-IsAnswer (function_handler crates config seen now event)
          (function_handler-Verdict crates config seen now event) runs
