-- ===== src/Store/Time.antt =====
-- The instants and durations of the standard library that src/store.rs computes with, and its time
-- constants. A `SystemTime` holds signed 64-bit seconds and nanoseconds about the Unix epoch; here
-- it is the number of nanoseconds since the earliest of them, 2^63 seconds before the epoch, so
-- instants before the epoch are values like the others.
use digital_garden_visitor_c.Common.{
  ℕ, ◌-◌, ◌*◌, ◌/◌, ◌^◌, Option, none, some, if◌then◌else◌, leb, ltb,
}

-- Nanoseconds.
abbrev pub Duration : Type 0
Duration = ℕ

abbrev pub SystemTime : Type 0
SystemTime = ℕ

abbrev pub nanos_per_sec : ℕ
nanos_per_sec = 1_000_000_000

abbrev pub from_secs : ℕ → Duration
from_secs n = n * nanos_per_sec

abbrev pub as_secs : Duration → ℕ
as_secs d = d / nanos_per_sec

abbrev pub unix_epoch : SystemTime
unix_epoch = from_secs (2 ^ 63)

-- `t.duration_since(earlier)`, an error where `earlier` is the later one.
unfoldable pub duration_since : SystemTime → SystemTime → Option Duration
duration_since t earlier = if leb earlier t then some (t - earlier) else none

unfoldable pub checked_sub : ℕ → ℕ → Option ℕ
checked_sub a b = if leb b a then some (a - b) else none

unfoldable pub u32_try_from : ℕ → Option ℕ
u32_try_from n = if ltb n (2 ^ 32) then some n else none

abbrev pub timestamp_offset : ℕ
timestamp_offset = 1_690_000_000

abbrev pub recent_cutoff : Duration
recent_cutoff = from_secs 7200
