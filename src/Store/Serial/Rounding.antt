-- ===== src/Store/Serial/Rounding.antt =====
-- Visitor lists whose times are rounded to whole seconds by the stored form.
use digital_garden_visitor_c.Common.{
  ℕ, ◌+◌, ◌-◌, ◌≤◌, ◌≡◌, refl, arith, List, [], ◌∷◌, Option, none, some, map, All, length,
}
use digital_garden_visitor_c.Store.Time.{SystemTime, unix_epoch, from_secs, as_secs}
use digital_garden_visitor_c.Store.Visitor.{Visitor}
use digital_garden_visitor_c.Store.Entry.RoundTrip.{rounded}
use digital_garden_visitor_c.Store.Recent.Prune.{Seen}
use digital_garden_visitor_c.Store.Recent.Tags.{Other, Distinct, last_of, recent_time}

-- A time rounded down to a whole second.
abbrev pub whole_second : SystemTime → SystemTime
whole_second t = unix_epoch + from_secs (as_secs (t - unix_epoch))

abbrev pub whole_seconds : Option SystemTime → Option SystemTime
whole_seconds none = none
whole_seconds (some t) = some (whole_second t)

abbrev pub Whole : Visitor → Type 0
Whole v = whole_second v.last_seen ≡ v.last_seen

pub last_of-rounded :
    (tag : ℕ) (vs : List Visitor) → last_of tag (map rounded vs) ≡ whole_seconds (last_of tag vs)
unfolding last_of
last_of-rounded tag [] = refl
last_of-rounded tag (v ∷ vs) = ground (arith, last_of-rounded tag vs)

rounded-Other :
    (tag : ℕ) (vs : List Visitor) → All (Other tag) vs → All (Other tag) (map rounded vs)
rounded-Other tag [] _ = tt
rounded-Other tag (v ∷ vs) (p, ps) = (p, rounded-Other tag vs ps)

pub rounded-Distinct : (vs : List Visitor) → Distinct vs → Distinct (map rounded vs)
rounded-Distinct [] _ = tt
rounded-Distinct (v ∷ vs) (p, d) = (rounded-Other v.tag vs p, rounded-Distinct vs d)

pub rounded-Whole : (vs : List Visitor) → All Whole (map rounded vs)
rounded-Whole [] = tt
rounded-Whole (v ∷ vs) = (omega arith, rounded-Whole vs)

-- From the epoch on, a time is not rounded up.
pub rounded-Seen :
    (now : SystemTime) (vs : List Visitor)
    → All (λ v. (unix_epoch ≤ v.last_seen) × (v.last_seen ≤ now)) vs
    → All (Seen now) (map rounded vs)
rounded-Seen now [] _ = tt
rounded-Seen now (v ∷ vs) (p, ps) = (omega arith, rounded-Seen now vs ps)

pub length-rounded : (vs : List Visitor) → length (map rounded vs) ≡ length vs
length-rounded [] = refl
length-rounded (v ∷ vs) = omega (arith, length-rounded vs)

-- The times of a list of whole seconds are whole.
pub last_of-Whole :
    (tag : ℕ) (vs : List Visitor) → All Whole vs → whole_seconds (last_of tag vs) ≡ last_of tag vs
unfolding last_of
last_of-Whole tag [] _ = refl
last_of-Whole tag (v ∷ vs) (p, ps) = ground (arith, last_of-Whole tag vs ps)

-- A time that was dropped stays stale.
pub recent_time_later :
    (now later : SystemTime) (o : Option SystemTime)
    → now ≤ later
    → whole_seconds o ≡ o
    → recent_time later (whole_seconds (recent_time now o)) ≡ recent_time later o
recent_time_later now later none h e = refl
recent_time_later now later (some t) h e = ground arith
