-- ===== src/Asn1/Fuel.antt =====
-- The fuel that `read_tlv` gives is enough: the recursion of `readTLV` ends on every input.
use go_iec.Base.{
  ℕ, zero, suc, ◌+◌, ◌-◌, ◌*◌, ◌%◌, ◌^◌, ◌≤◌, ◌<◌, ◌≡◌, ◌≢◌, bit_and, bit_or, Option-cases, List,
  [], ◌∷◌, length, length-drop, ltb, if◌then◌else◌, ok, err, Result-cases, inl, inr, arith,
}
use go_iec.Asn1.{Tag, Error, out_of_fuel, too_deep, max_depth}
use go_iec.Asn1.Decoder.{
  Decoder, high_tag, read_tag_at, read_tag, read_length_at, read_length, end_of_contents,
  read_content, read_element, scan, read_tlv,
}
use go_iec.Asn1.Bounds.{
  Advances, read_element_header, header-Advances, scan_end, scan_child, scan_fails,
  read_element-Advances,
}

high_tag-ne-fuel : (i n off : ℕ) (bs : List ℕ) → high_tag i n off bs ≢ err out_of_fuel
unfolding high_tag
high_tag-ne-fuel i n off [] e = cc
high_tag-ne-fuel i n off (c ∷ bs) e =
    ground
      (arith, high_tag-ne-fuel (i + 1) (bit_or (n * 2 ^ 7 % 2 ^ 32) (bit_and c 0x7f)) (off + 1) bs)

read_tag_at-ne-fuel : (off : ℕ) (bs : List ℕ) → read_tag_at off bs ≢ err out_of_fuel
unfolding read_tag_at
read_tag_at-ne-fuel off [] e = cc
read_tag_at-ne-fuel off (b ∷ bs) e = ground (arith, high_tag-ne-fuel 0 0 (off + 1) bs)

read_length_at-ne-fuel : (off : ℕ) (bs : List ℕ) → read_length_at off bs ≢ err out_of_fuel
unfolding read_length_at
read_length_at-ne-fuel off [] e = cc
read_length_at-ne-fuel off (b ∷ bs) e = ground arith

read_content-ne-fuel : (t : Tag) (n : ℕ) (d : Decoder) → read_content t n d ≢ err out_of_fuel
unfolding read_content
read_content-ne-fuel t n d e = ground arith

tag_ne : (d : Decoder) → read_tag d ≢ err out_of_fuel
unfolding read_tag
tag_ne d = read_tag_at-ne-fuel d.off d.rest

length_ne : (d : Decoder) → read_length d ≢ err out_of_fuel
unfolding read_length
length_ne d = read_length_at-ne-fuel d.off d.rest

tag_error :
    (fuel depth : ℕ) (d : Decoder) (x : Error)
    → read_tag d ≡ err x
    → read_element (suc fuel) depth d ≡ (if ltb max_depth depth then err too_deep else err x)
unfolding read_element
tag_error fuel depth d x e = rw e

length_error :
    (fuel depth : ℕ) (d : Decoder) (t : Tag) (d' : Decoder) (x : Error)
    → read_tag d ≡ ok (t, d')
    → read_length d' ≡ err x
    → read_element (suc fuel) depth d ≡ (if ltb max_depth depth then err too_deep else err x)
unfolding read_element
length_error fuel depth d t d' x e f = rw (e, f)

-- How far the octets left fall.
left_of : (n : ℕ) (d d' : Decoder) → Advances n d d' → length d'.rest + n ≤ length d.rest
left_of n d d' h = ground (arith, length-drop (d'.off - d.off) d.rest)

mutual
  read_element-ne-fuel :
      (fuel depth : ℕ) (d : Decoder)
      → length d.rest < fuel
      → read_element fuel depth d ≢ err out_of_fuel
  read_element-ne-fuel zero depth d h = elim h [ ]
  read_element-ne-fuel (suc fuel) depth d h = elim (Result-cases (read_tag d)) [
    | inr (x, e) ↦ λ q. ground (arith, tag_error fuel depth d x e, tag_ne d)
    | inl ((t, d1), e) ↦ elim (Result-cases (read_length d1)) [
      | inr (x, f) ↦ λ q. ground (arith, length_error fuel depth d t d1 x e f, length_ne d1)
      | inl ((n, indefinite, d2), f) ↦ λ q. ground (
        arith,
        read_element_header fuel depth d t d1 n indefinite d2 e f,
        read_content-ne-fuel t n d2,
        scan-ne-fuel fuel depth t d2 d2
            (omega (arith, left_of 2 d d2 (header-Advances d d1 d2 t n indefinite e f))),
      )
    ]
  ]

  scan-ne-fuel :
      (fuel depth : ℕ) (t : Tag) (start d : Decoder)
      → length d.rest + 1 < fuel
      → scan fuel depth t start d ≢ err out_of_fuel
  scan-ne-fuel zero depth t start d h = elim h [ ]
  scan-ne-fuel (suc fuel) depth t start d h = elim (Option-cases (end_of_contents d.rest)) [
    | inr (rest, e) ↦ λ q. cc (scan_end fuel depth t start d rest e)
    | inl e ↦ elim (Result-cases (read_element fuel (depth + 1) d)) [
      | inl ((a, c, d1), f) ↦ λ q.
          scan-ne-fuel fuel depth t start d1
            (omega (arith, left_of 2 d d1 (read_element-Advances fuel (depth + 1) d a c d1 f)))
            (cc (scan_child fuel depth t start d a c d1 e f))
      | inr (x, f) ↦ λ q.
          read_element-ne-fuel fuel (depth + 1) d (omega arith)
            (cc (scan_fails fuel depth t start d x e f))
    ]
  ]

-- `ReadTLV` returns on every input: the fuel of the model does not run out.
pub read_tlv-ne-fuel : (d : Decoder) → read_tlv d ≢ err out_of_fuel
unfolding read_tlv
read_tlv-ne-fuel d = read_element-ne-fuel (length d.rest + 1) 0 d (omega arith)
