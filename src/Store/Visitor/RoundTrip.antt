-- ===== src/Store/Visitor/RoundTrip.antt =====
-- Which visitors can be stored, and what comes back.
use digital_garden_visitor_c.Common.{◌+◌, ◌^◌, ◌≤◌, ◌<◌, ◌≡◌, ◌≢◌, ◌↔◌, arith, none, some}
use digital_garden_visitor_c.Store.Time.{unix_epoch, from_secs, nanos_per_sec, timestamp_offset}
use digital_garden_visitor_c.Store.Visitor.{
  StoredVisitor, Visitor, stored_visitor_from, visitor_from_stored,
}

-- From the offset on, and less than 2^32 seconds after it.
abbrev pub Storable : Visitor → Type 0
Storable v =
    (unix_epoch + from_secs timestamp_offset ≤ v.last_seen)
    × (v.last_seen < unix_epoch + from_secs (timestamp_offset + 2 ^ 32))

-- The conversion to the stored form panics exactly for the visitors that are not storable: seen
-- before the timestamp offset, or 2^32 seconds or more after it.
pub stored_visitor_from-ne-none_iff : (v : Visitor) → (stored_visitor_from v ≢ none) ↔ Storable v
unfolding stored_visitor_from
stored_visitor_from-ne-none_iff v = (λ h. ground arith, λ h e. ground arith)

-- A visitor that was stored and loaded has its tag, and its time rounded down to a whole second:
-- never later, and by less than a second earlier. The stored time fits 32 bits.
pub visitor_from_stored-stored_visitor_from :
    (v : Visitor) {s : StoredVisitor}
    → stored_visitor_from v ≡ some s
    → ((visitor_from_stored s).tag ≡ v.tag)
      × ((visitor_from_stored s).last_seen ≤ v.last_seen)
      × (v.last_seen < (visitor_from_stored s).last_seen + nanos_per_sec)
      × (s.last_seen < 2 ^ 32)
unfolding stored_visitor_from visitor_from_stored
visitor_from_stored-stored_visitor_from v h =
    (ground arith, ground arith, ground arith, ground arith)

-- A stored visitor whose time is a `u32` is loaded and stored again unchanged.
pub stored_visitor_from-visitor_from_stored :
    (s : StoredVisitor)
    → s.last_seen < 2 ^ 32
    → stored_visitor_from (visitor_from_stored s) ≡ some s
unfolding stored_visitor_from visitor_from_stored
stored_visitor_from-visitor_from_stored s h = ground arith
