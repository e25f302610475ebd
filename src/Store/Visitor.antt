-- ===== src/Store/Visitor.antt =====
-- Visitors and their stored form, src/store.rs. `none` is a panic: a failed `expect`, or a copy
-- between slices of different lengths.
pub mod RoundTrip
pub mod Hashed
use digital_garden_visitor_c.Common.{
  ℕ, ◌+◌, ◌*◌, [], ◌∷◌, ◌++◌, Option, none, some, Bytes, if◌then◌else◌, leb, length, take, ◌>>=◌,
}
use digital_garden_visitor_c.RequestInfo.{RequestInfo}
use digital_garden_visitor_c.Store.Time.{
  SystemTime, unix_epoch, from_secs, as_secs, duration_since, checked_sub, u32_try_from,
  timestamp_offset,
}

pub record StoredVisitor : Type 0 where
  pub tag : ℕ  -- u32
  pub last_seen : ℕ  -- u32, seconds since `timestamp_offset`

pub record Visitor : Type 0 where
  pub tag : ℕ  -- u32
  pub last_seen : SystemTime

-- `StoredVisitor::from(Visitor)`
unfoldable pub stored_visitor_from : Visitor → Option StoredVisitor
unfolding duration_since checked_sub u32_try_from
stored_visitor_from value = do
  since_epoch ← duration_since value.last_seen unix_epoch
  since_offset ← checked_sub (as_secs since_epoch) timestamp_offset
  seconds ← u32_try_from since_offset
  some (record { tag = value.tag; last_seen = seconds })

-- `Visitor::from(StoredVisitor)`
unfoldable pub visitor_from_stored : StoredVisitor → Visitor
visitor_from_stored value = record {
  tag = value.tag;
  last_seen = unix_epoch + from_secs (timestamp_offset + value.last_seen);
}

-- The byte order of the target.
pub data Endian : Type 0 where
  little big : Endian

-- `u32_from_ne_bytes`: `copy_from_slice` panics unless there are four bytes.
unfoldable pub u32_from_ne_bytes : Endian → Bytes → Option ℕ
u32_from_ne_bytes little (a ∷ b ∷ c ∷ d ∷ []) = some (a + 256 * (b + 256 * (c + 256 * d)))
u32_from_ne_bytes big (a ∷ b ∷ c ∷ d ∷ []) = some (d + 256 * (c + 256 * (b + 256 * a)))
u32_from_ne_bytes _ _ = none

-- `&bytes[0..n]`
unfoldable pub slice_to : ℕ → Bytes → Option Bytes
slice_to n bytes = if leb n (length bytes) then some (take n bytes) else none

-- `Visitor::from(&RequestInfo)`. The hash function is the crate md-5's, and `now` is the clock's
-- answer.
unfoldable pub visitor_from_request :
    (Bytes → Bytes) → Endian → SystemTime → RequestInfo → Option Visitor
unfolding slice_to u32_from_ne_bytes
visitor_from_request md5 endian now value = do
  hash ← slice_to 4 (md5 (value.source_ip ++ value.user_agent))
  tag ← u32_from_ne_bytes endian hash
  some (record { tag = tag; last_seen = now })
