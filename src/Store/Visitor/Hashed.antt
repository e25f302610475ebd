-- ===== src/Store/Visitor/Hashed.antt =====
-- The visitor of a request, src/store.rs: the first four bytes of a hash as a `u32`.
use digital_garden_visitor_c.Common.{
  ℕ, ◌+◌, ◌*◌, ◌^◌, ◌≤◌, ◌<◌, ◌≡◌, refl, ap, arith, [], ◌∷◌, ◌++◌, true, some, Bytes, leb, length,
  All,
}
use digital_garden_visitor_c.RequestInfo.{RequestInfo}
use digital_garden_visitor_c.Store.Time.{SystemTime}
use digital_garden_visitor_c.Store.Visitor.{
  Endian, little, big, u32_from_ne_bytes, slice_to, visitor_from_request,
}

abbrev pub IsByte : ℕ → Type 0
IsByte n = n < 256

-- The digest has sixteen bytes.
pub record Md5Laws (md5 : Bytes → Bytes) : Type 0 where
  pub size : (text : Bytes) → length (md5 text) ≡ 16
  pub bytes : (text : Bytes) → All IsByte (md5 text)

-- The number of four bytes, the first of them the lowest.
abbrev pub number : ℕ → ℕ → ℕ → ℕ → ℕ
number a b c d = a + 2 ^ 8 * b + 2 ^ 16 * c + 2 ^ 24 * d

-- The number in the byte order of the target.
abbrev pub ordered : Endian → ℕ → ℕ → ℕ → ℕ → ℕ
ordered little a b c d = number a b c d
ordered big a b c d = number d c b a

slice_to_four :
    (bytes : Bytes)
    → 4 ≤ length bytes
    → All IsByte bytes
    → (a b c d : ℕ) × (rest : Bytes) × (bytes ≡ a ∷ b ∷ c ∷ d ∷ rest)
      × (slice_to 4 bytes ≡ some (a ∷ b ∷ c ∷ d ∷ []))
      × All IsByte (a ∷ b ∷ c ∷ d ∷ [])
unfolding slice_to
slice_to_four [] h all = elim h [ ]
slice_to_four (a ∷ []) h all = let no : ◌≤◌ 1 0 = omega arith in elim no [ ]
slice_to_four (a ∷ b ∷ []) h all = let no : ◌≤◌ 1 0 = omega arith in elim no [ ]
slice_to_four (a ∷ b ∷ c ∷ []) h all = let no : ◌≤◌ 1 0 = omega arith in elim no [ ]
slice_to_four (a ∷ b ∷ c ∷ d ∷ rest) h (pa, (pb, (pc, (pd, _)))) =
    let long : leb 4 (length (a ∷ b ∷ c ∷ d ∷ rest)) ≡ true = ground arith in
    (a, b, c, d, rest, refl, rw long refl, (pa, (pb, (pc, (pd, tt)))))

ordered-lt :
    (endian : Endian) (a b c d : ℕ)
    → IsByte a
    → IsByte b
    → IsByte c
    → IsByte d
    → ordered endian a b c d < 2 ^ 32
ordered-lt little a b c d pa pb pc pd = omega arith
ordered-lt big a b c d pa pb pc pd = omega arith

u32_from_ne_bytes-ordered :
    (endian : Endian) (a b c d : ℕ)
    → u32_from_ne_bytes endian (a ∷ b ∷ c ∷ d ∷ []) ≡ some (ordered endian a b c d)
unfolding u32_from_ne_bytes
u32_from_ne_bytes-ordered little a b c d = ap some (omega arith)
u32_from_ne_bytes-ordered big a b c d = ap some (omega arith)

-- If the digest is one of MD5, the visitor is found without a panic: its tag is the first four
-- bytes of the digest of the address and the user agent, as a number in the byte order of the
-- target, which is a `u32`; and it was last seen at the answer of the clock.
pub visitor_from_request-ordered :
    (md5 : Bytes → Bytes) (endian : Endian) (now : SystemTime) (value : RequestInfo)
    → Md5Laws md5
    → (a b c d : ℕ) × (rest : Bytes) × (md5 (value.source_ip ++ value.user_agent)
        ≡ a ∷ b ∷ c ∷ d ∷ rest)
      × (visitor_from_request md5 endian now value
          ≡ some (record { tag = ordered endian a b c d; last_seen = now }))
      × (ordered endian a b c d < 2 ^ 32)
unfolding visitor_from_request
visitor_from_request-ordered md5 endian now value laws =
    let text = value.source_ip ++ value.user_agent in
    let size = laws.size text in
    let (a, b, c, d, rest, e, slice, (pa, (pb, (pc, (pd, _))))) =
      slice_to_four (md5 text) (omega arith) (laws.bytes text) in
    (
      a,
      b,
      c,
      d,
      rest,
      e,
      rw (slice, u32_from_ne_bytes-ordered endian a b c d) refl,
      ordered-lt endian a b c d pa pb pc pd,
    )
