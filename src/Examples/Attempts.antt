-- ===== src/Examples/Attempts.antt =====
-- Instances of the theorems about the loop of src/store.rs, and about the visitor of a request.
use digital_garden_visitor_c.Common.{
  ℕ, ◌≤◌, ◌<◌, ◌^◌, ◌≡◌, refl, arith, [], ◌∷◌, ◌++◌, some, Bytes, codes, ok, err, replicate,
}
use digital_garden_visitor_c.Decimal.{parse_u64}
use digital_garden_visitor_c.RequestInfo.{RequestInfo}
use digital_garden_visitor_c.Store.Visitor.{
  visitor_from_stored, stored_visitor_from, big, visitor_from_request,
}
use digital_garden_visitor_c.Store.Visitor.Hashed.{
  IsByte, Md5Laws, ordered, visitor_from_request-ordered,
}
use digital_garden_visitor_c.Store.Entry.{
  dynamo_max_item_size_bytes, count_entry_from, stored_count_entry_from,
}
use digital_garden_visitor_c.Store.Dynamo.{Item, s, n, b, get, conditional_check_failed}
use digital_garden_visitor_c.Store.Dynamo.Requests.{Requests}
use digital_garden_visitor_c.Store.Recent.{update_entry}
use digital_garden_visitor_c.Store.Client.{decode_item}
use digital_garden_visitor_c.Store.Increment.{maybe_increment_visitors}
use digital_garden_visitor_c.Store.Increment.Sizes.{item_size, maybe_increment_visitors-item_size}
use digital_garden_visitor_c.Store.Increment.Answered.{
  Ready, updates, answered, put_end, maybe_increment_visitors-answered,
}
use digital_garden_visitor_c.Examples.Codec.{codec, codec-CborSizes}
use digital_garden_visitor_c.Examples.Storage.{system_time, visitor}

maybe_increment_visitors-item_size_example :
    Requests
      (λ _. Unit {0})
      (λ i _. item_size i.item ≤ dynamo_max_item_size_bytes)
      (maybe_increment_visitors codec
        (codes "test")
        (visitor 1 1000)
        (codes "default")
        (system_time 1000))
maybe_increment_visitors-item_size_example =
    maybe_increment_visitors-item_size codec codec-CborSizes (codes "test") (codes "default")
      (omega arith) (visitor 1 1000) (system_time 1000)

-- An item that the codec decodes, with a visitor seen half an hour before.
abbrev found : Item
found =
    (codes "key", s (codes "default"))
    ∷ (codes "count", n (codes "41"))
    ∷ (codes "value", b (2 ∷ 10 ∷ []))
    ∷ []

ready :
    Ready codec
      (codes "test")
      (visitor 1 1810)
      (codes "default")
      (system_time 1810)
      (ok (record { item = some found }))
      42
unfolding decode_item update_entry stored_count_entry_from get parse_u64 count_entry_from
    visitor_from_stored stored_visitor_from
ready =
    updates found (record { count = 41; recent_visitors = visitor 2 10 ∷ [] })
      (record { count = 42; recent_visitors = visitor 2 10 ∷ visitor 1 1810 ∷ [] })
      (record {
        recent_visitors =
            record { tag = 2; last_seen = 10 } ∷ record { tag = 1; last_seen = 1810 } ∷ [];
      })
      (2 ∷ 10 ∷ 1 ∷ 1810 ∷ []) refl refl refl refl refl refl

maybe_increment_visitors-answered_example :
    answered (ok (record { item = some found })) (err conditional_check_failed) (
      maybe_increment_visitors codec
        (codes "test")
        (visitor 1 1810)
        (codes "default")
        (system_time 1810))
    ≡ put_end 42 (err conditional_check_failed)
maybe_increment_visitors-answered_example =
    maybe_increment_visitors-answered codec (codes "test") (visitor 1 1810) (codes "default")
      (system_time 1810) (ok (record { item = some found })) (err conditional_check_failed) 42 ready

-- A digest of sixteen bytes.
abbrev digest : Bytes → Bytes
digest text = 1 ∷ 2 ∷ 3 ∷ replicate 13 4

digest-Md5Laws : Md5Laws digest
digest-Md5Laws = record {
  size = λ text. refl;
  bytes = λ text.
      let four : IsByte 4 = omega arith in
      (
        omega arith,
        (
          omega arith,
          (
            omega arith,
            (
              four,
              (
                four,
                (
                  four,
                  (
                    four,
                    (four, (four, (four, (four, (four, (four, (four, (four, (four, tt))))))))),
                  ),
                ),
              ),
            ),
          ),
        ),
      );
}

abbrev info : RequestInfo
info = record { user_agent = codes "browser"; source_ip = codes "10.0.0.1" }

visitor_from_request-ordered_example :
    (c1 c2 c3 c4 : ℕ) × (rest : Bytes) × (digest (info.source_ip ++ info.user_agent)
      ≡ c1 ∷ c2 ∷ c3 ∷ c4 ∷ rest)
    × (visitor_from_request digest big (system_time 10) info
        ≡ some (record { tag = ordered big c1 c2 c3 c4; last_seen = system_time 10 }))
    × (ordered big c1 c2 c3 c4 < 2 ^ 32)
visitor_from_request-ordered_example =
    visitor_from_request-ordered digest big (system_time 10) info digest-Md5Laws
