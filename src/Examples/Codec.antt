-- ===== src/Examples/Codec.antt =====
-- A codec that meets the laws of the CBOR interface: the tags and times one after the other.
use digital_garden_visitor_c.Common.{◌≡◌, ◌*◌, length, refl, ap, arith, List, [], ◌∷◌, Bytes, ok}
use digital_garden_visitor_c.Store.Increment.Sizes.{CborSizes}
use digital_garden_visitor_c.Store.Visitor.{StoredVisitor}
use digital_garden_visitor_c.Store.Entry.{Cbor}
use digital_garden_visitor_c.Store.Entry.RoundTrip.{CborLaws}

abbrev encode : List StoredVisitor → Bytes
encode [] = []
encode (v ∷ vs) = v.tag ∷ v.last_seen ∷ encode vs

abbrev decode : Bytes → List StoredVisitor
decode (tag ∷ last_seen ∷ rest) = record { tag = tag; last_seen = last_seen } ∷ decode rest
decode _ = []

decode-encode : (vs : List StoredVisitor) → decode (encode vs) ≡ vs
decode-encode [] = refl
decode-encode (v ∷ vs) = ap (◌∷◌ v) (decode-encode vs)

abbrev pub codec : Cbor
codec = record {
  to_cbor = λ e. ok (encode e.recent_visitors);
  from_cbor = λ b. ok (record { recent_visitors = decode b });
}

pub codec-CborLaws : CborLaws codec
codec-CborLaws = record {
  encodes = λ e. (encode e.recent_visitors, refl);
  decodes = λ e h. ground (arith, decode-encode e.recent_visitors);
}

length-encode : (vs : List StoredVisitor) → length (encode vs) ≡ 2 * length vs
length-encode [] = refl
length-encode (v ∷ vs) = omega (arith, length-encode vs)

pub codec-CborSizes : CborSizes codec
codec-CborSizes = record {
  size = λ e value few h.
      let same : encode e.recent_visitors ≡ value = cc in
      let double = length-encode e.recent_visitors in rw (← same) (omega arith);
}
