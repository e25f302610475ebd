-- ===== src/SourceTests/Conversions/Passing.antt =====
-- The conversion of bytes of src/store.rs undoes the transmutation of its test, and its synchronous
-- tests pass.
use digital_garden_visitor_c.Common.{
  ℕ, ◌^◌, ◌<◌, ◌≡◌, refl, ap, ◌∙◌, arith, true, ◌==◌, ◌>>=◌, some, Bytes, codes, ◌++◌,
}
use digital_garden_visitor_c.Store.Time.{SystemTime}
use digital_garden_visitor_c.Store.Visitor.{
  Endian, little, big, u32_from_ne_bytes, visitor_from_request, slice_to,
}
use digital_garden_visitor_c.SourceTests.Conversions.{
  transmute, assert_tag, test_from, test_u32_from_ne_bytes, visitor_stored_visitor_round_trip,
  count_entry_round_trip, prune_oldest_after_reaching_max_recents,
}

-- Whatever the byte order of the target, `u32_from_ne_bytes` gives back the `u32` whose bytes it is
-- given.
pub u32_from_ne_bytes-transmute :
    (endian : Endian) (x : ℕ) → x < 2 ^ 32 → u32_from_ne_bytes endian (transmute endian x) ≡ some x
unfolding u32_from_ne_bytes
u32_from_ne_bytes-transmute little x h = ground arith
u32_from_ne_bytes-transmute big x h = ground arith

sliced :
    (endian : Endian) (x : ℕ) (rest : Bytes)
    → slice_to 4 (transmute endian x ++ rest) ≡ some (transmute endian x)
unfolding slice_to
sliced little x rest = ground arith
sliced big x rest = ground arith

tagged :
    (md5 : Bytes → Bytes) (endian : Endian) (now : SystemTime) (agent ip rest : Bytes) (tag : ℕ)
    → tag < 2 ^ 32
    → md5 (ip ++ agent) ≡ transmute endian tag ++ rest
    → assert_tag md5 endian now agent ip tag ≡ some tt
unfolding visitor_from_request
tagged md5 endian now agent ip rest tag word digest =
    let same : (tag == tag) ≡ true = ground arith in
    rw (digest, sliced endian tag rest, u32_from_ne_bytes-transmute endian tag word, same) refl

-- The test on MD5 digests passes on a target where the digests of its three texts begin with the
-- bytes of the tags.
test_from_lem :
    (md5 : Bytes → Bytes) (endian : Endian) (now : SystemTime) (a b c : Bytes)
    → md5 (codes "127.0.0.1test") ≡ transmute endian 1600273645 ++ a
    → md5 (codes "127.0.0.1test2") ≡ transmute endian 508621390 ++ b
    → md5 (codes "0:0:0:0:0:0:0:1testv6") ≡ transmute endian 4102698867 ++ c
    → test_from md5 endian now ≡ some tt
unfolding test_from
test_from_lem md5 endian now a b c d e f =
    let first =
      tagged md5 endian now (codes "test") (codes "127.0.0.1") a 1600273645 (omega arith) d in
    let second =
      tagged md5 endian now (codes "test2") (codes "127.0.0.1") b 508621390 (omega arith) e in
    let third =
      tagged md5 endian now (codes "testv6") (codes "0:0:0:0:0:0:0:1") c 4102698867 (omega arith)
        f in
    ap
      (λ t. t >>= λ one.
        assert_tag md5 endian now (codes "test2") (codes "127.0.0.1") 508621390 >>= λ two.
        assert_tag md5 endian now (codes "testv6") (codes "0:0:0:0:0:0:0:1") 4102698867)
      first
    ∙ ap
        (λ t. t >>= λ two.
          assert_tag md5 endian now (codes "testv6") (codes "0:0:0:0:0:0:0:1") 4102698867)
        second
    ∙ third

-- The other synchronous tests pass.
sync_tests :
    (endian : Endian)
    → (test_u32_from_ne_bytes endian ≡ some tt)
      × (visitor_stored_visitor_round_trip ≡ some tt)
      × (count_entry_round_trip ≡ some tt)
      × (prune_oldest_after_reaching_max_recents ≡ some tt)
unfolding test_u32_from_ne_bytes visitor_stored_visitor_round_trip count_entry_round_trip
    prune_oldest_after_reaching_max_recents
sync_tests little = (refl, refl, refl, refl)
sync_tests big = (refl, refl, refl, refl)
