-- ===== src/Asn1/Tests.antt =====
-- asn1: the theorems at concrete inputs.
use go_iec.Base.{
  ℕ, ◌+◌, ◌^◌, ◌≡◌, ◌≢◌, ◌↔◌, refl, true, List, [], ◌∷◌, ◌++◌, none, some, length, ltb,
  if◌then◌else◌, ok, err, arith,
}
use go_iec.Asn1.{
  Tag, out_of_fuel, context_primitive, context_constructed, append_tag, tag_size, length_size,
}
use go_iec.Asn1.Decoder.{
  Decoder, read_tag, read_length, read_tlv, high_tag, read_tag_at, read_length_at, length_loop,
  read_content, read_element, scan, end_of_contents,
}
use go_iec.Asn1.Tags.{IsTag, length-append_tag}
use go_iec.Asn1.Fuel.{read_tlv-ne-fuel}
use go_iec.Asn1.Bounds.{Advances, read_tlv-Advances}
use go_iec.Asn1.Span.{Span, read_span, definite, scanned, read_span-read_tlv}
use go_iec.Asn1.Element.{
  Element, cons, given, prim, encode, size, content_octets, tag_of, IsSized, read_tlv-encode,
}
use go_iec.Asn1.Oid.{append_oid, decode_oid, decode_oid-append_oid}

-- A tag in the high form.
abbrev high : Tag
high = context_constructed 201

high-IsTag : IsTag high
high-IsTag = record { class_range = omega arith; number_range = omega arith }

abbrev content : List ℕ
content = 0x80 ∷ 0x01 ∷ 0x05 ∷ []

abbrev behind : List ℕ
behind = 0xde ∷ 0xad ∷ []

length-append_tag_example :
    length (append_tag behind high)
    ≡ length behind + (tag_size high + (if ltb 201 (2 ^ 28) then 0 else 1))
length-append_tag_example = length-append_tag behind high high-IsTag

-- Indefinite length: an element, then the end of contents.
abbrev indefinite : Decoder
indefinite = record { off = 0; rest = 0x30 ∷ 0x80 ∷ 0x02 ∷ 0x01 ∷ 0x07 ∷ 0x00 ∷ 0x00 ∷ 0xff ∷ [] }

read_tlv-ne-fuel_example : read_tlv indefinite ≢ err out_of_fuel
read_tlv-ne-fuel_example = read_tlv-ne-fuel indefinite

abbrev indefinite_after : Decoder
indefinite_after = record { off = 7; rest = 0xff ∷ [] }

read_indefinite :
    read_tlv indefinite
    ≡ ok (
      record { class = 0; constructed = true; number = 16 },
      0x02 ∷ 0x01 ∷ 0x07 ∷ [],
      indefinite_after,
    )
unfolding read_tlv read_element scan read_content read_length read_length_at length_loop read_tag
    read_tag_at high_tag end_of_contents
read_indefinite = refl

read_tlv-Advances_example : Advances 2 indefinite indefinite_after
read_tlv-Advances_example =
    read_tlv-Advances indefinite (record { class = 0; constructed = true; number = 16 })
      (0x02 ∷ 0x01 ∷ 0x07 ∷ []) indefinite_after read_indefinite

-- A constructed element with an element of the caller's inside.
abbrev tree : Element
tree = cons high (some (prim (context_primitive 0) (0x05 ∷ [])) ∷ none ∷ [])

tree-IsSized : IsSized tree
unfolding cons given prim size tag_size length_size
tree-IsSized =
    (omega arith, omega arith, omega arith, ((omega arith, omega arith, omega arith, tt), tt))

read_tlv-encode_example :
    read_tlv (record { off = 0; rest = encode tree ++ behind })
    ≡ ok (tag_of tree, content_octets tree, record { off = 0 + size tree; rest = behind })
read_tlv-encode_example = read_tlv-encode tree 0 behind tree-IsSized (unfold cons in refl)

-- 1.0.9506.2.3, the abstract syntax of MMS.
decode_oid-append_oid_example :
    decode_oid (append_oid [] (1 ∷ 0 ∷ 9506 ∷ 2 ∷ 3 ∷ [])) ≡ ok (1 ∷ 0 ∷ 9506 ∷ 2 ∷ 3 ∷ [])
decode_oid-append_oid_example = decode_oid-append_oid 1 0 (9506 ∷ 2 ∷ 3 ∷ []) (record {
  root = omega arith;
  second = λ _. omega arith;
  first_number = omega arith;
  arcs_range = (omega arith, (omega arith, (omega arith, tt)));
})

abbrev indefinite_span : Span
indefinite_span = record {
  tag = record { class = 0; constructed = true; number = 16 };
  full = 0x30 ∷ 0x80 ∷ 0x02 ∷ 0x01 ∷ 0x07 ∷ 0x00 ∷ 0x00 ∷ [];
  content = 0x02 ∷ 0x01 ∷ 0x07 ∷ [];
  content_eoc = 0x02 ∷ 0x01 ∷ 0x07 ∷ 0x00 ∷ 0x00 ∷ [];
  indefinite = true;
}

read_indefinite_span : read_span indefinite ≡ ok (indefinite_span, indefinite_after)
unfolding read_span definite scanned read_tlv read_element scan read_content read_length
    read_length_at length_loop read_tag read_tag_at high_tag end_of_contents
read_indefinite_span = refl

read_span-read_tlv_example :
    (read_tlv indefinite ≡ ok (indefinite_span.tag, indefinite_span.content, indefinite_after)) ↔ (
      (s : Span) × (read_span indefinite ≡ ok (s, indefinite_after))
      × (s.tag ≡ indefinite_span.tag)
      × (s.content ≡ indefinite_span.content)
      × (indefinite.rest ≡ s.full ++ indefinite_after.rest))
read_span-read_tlv_example =
    read_span-read_tlv indefinite indefinite_after indefinite_span.tag indefinite_span.content
