-- ===== src/Store/Entry/RoundTrip.antt =====
-- The stored form of a whole list of visitors, and what the CBOR codec is assumed to do.
use digital_garden_visitor_c.Common.{
  ◌+◌, ◌-◌, ◌≡◌, refl, arith, List, [], ◌∷◌, some, map, Bytes, ok, All, length,
}
use digital_garden_visitor_c.Store.Time.{unix_epoch, from_secs, as_secs, timestamp_offset}
use digital_garden_visitor_c.Store.Visitor.{
  StoredVisitor, Visitor, stored_visitor_from, visitor_from_stored,
}
use digital_garden_visitor_c.Store.Visitor.RoundTrip.{Storable}
use digital_garden_visitor_c.Store.Entry.{
  StoredCountEntry, CountEntry, Cbor, store_visitors, stored_count_entry_from, count_entry_from,
}

-- The documented behaviour of the codec: writing to a vector does not fail, and reading gives back
-- what was written.
pub record CborLaws (cbor : Cbor) : Type 0 where
  pub encodes : (e : StoredCountEntry) → (b : Bytes) × (cbor.to_cbor e ≡ ok b)
  pub decodes : (e : StoredCountEntry) {b : Bytes} → cbor.to_cbor e ≡ ok b → cbor.from_cbor b ≡ ok e

-- A visitor with the time rounded down to a whole second.
abbrev pub rounded : Visitor → Visitor
rounded v = record v { last_seen = unix_epoch + from_secs (as_secs (v.last_seen - unix_epoch)) }

-- The stored form of a storable visitor.
abbrev pub shorten : Visitor → StoredVisitor
shorten v = record {
  tag = v.tag;
  last_seen = as_secs (v.last_seen - unix_epoch) - timestamp_offset;
}

pub stored_visitor_from-shorten :
    (v : Visitor) → Storable v → stored_visitor_from v ≡ some (shorten v)
unfolding stored_visitor_from
stored_visitor_from-shorten v h = ground arith

pub visitor_from_stored-shorten :
    (v : Visitor) → Storable v → visitor_from_stored (shorten v) ≡ rounded v
unfolding visitor_from_stored
visitor_from_stored-shorten v h = ground arith

store_visitors-shorten :
    (vs : List Visitor) → All Storable vs → store_visitors vs ≡ some (map shorten vs)
unfolding store_visitors
store_visitors-shorten [] _ = refl
store_visitors-shorten (v ∷ vs) (p, ps) =
    rw (stored_visitor_from-shorten v p, store_visitors-shorten vs ps)

map-shorten :
    (vs : List Visitor)
    → All Storable vs
    → map visitor_from_stored (map shorten vs) ≡ map rounded vs
map-shorten [] _ = refl
map-shorten (v ∷ vs) (p, ps) = rw (visitor_from_stored-shorten v p, map-shorten vs ps)

-- If every visitor is storable, the entry has a stored form, as many visitors long, and the entry
-- of that form has the visitors in order, their times rounded down to whole seconds, and the count
-- zero.
pub count_entry_from-stored_count_entry_from :
    (entry : CountEntry)
    → All Storable entry.recent_visitors
    → (value : StoredCountEntry) × (stored_count_entry_from entry ≡ some value)
      × (length value.recent_visitors ≡ length entry.recent_visitors)
      × (count_entry_from value
          ≡ record { count = 0; recent_visitors = map rounded entry.recent_visitors })
unfolding stored_count_entry_from count_entry_from
count_entry_from-stored_count_entry_from entry h = (
  record { recent_visitors = map shorten entry.recent_visitors },
  rw (store_visitors-shorten entry.recent_visitors h),
  length-map entry.recent_visitors,
  rw (map-shorten entry.recent_visitors h),
)
  where
    length-map : (vs : List Visitor) → length (map shorten vs) ≡ length vs
    length-map [] = refl
    length-map (v ∷ vs) = omega (arith, length-map vs)
