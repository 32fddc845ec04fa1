-- ===== src/Goose/Wire/Fields.antt =====
-- The elements of a goosePdu, read one by one.
use go_iec.Base.{
  ℕ, ◌+◌, ◌^◌, ◌≤◌, ◌<◌, ◌≡◌, refl, ap, Bool, true, false, Option, some, List, [], ◌∷◌, map, length,
  if◌then◌else◌, ok, arith,
}
use go_iec.Asn1.{context_primitive, context_constructed}
use go_iec.Asn1.Decoder.{new_decoder, expect, optional}
use go_iec.Asn1.Fields.{expect-next, optional-next}
use go_iec.Asn1.Element.{
  Element, Elements, prim, cons, given, append_elements, size, IsSized, AllSized, content_octets,
  tag_of,
}
use go_iec.Asn1.Primitives.{uint_elem, bool_elem, decode_bool, append_uint}
use go_iec.Asn1.Primitives.Unsigned.{decode_uint-append_uint}
use go_iec.Asn1.Primitives.Floats.{Floats}
use go_iec.Mms.{Value, Values, nil, next}
use go_iec.Mms.Codec.{data_element, data_elements, decode_items, decode_data, new_utc_time_raw}
use go_iec.Mms.Codec.RoundTrip.{AreValues, depth_all, items}
use go_iec.Mms.Time.{Time, new_utc_time, time_quality_flags}
use go_iec.Goose.Wire.{bytes_of, list_of, all_data, uint32, expect_uint32}

content-uint_elem :
    (n v : ℕ) → content_octets (uint_elem (context_primitive n) v) ≡ append_uint [] v
unfolding uint_elem prim content_octets
content-uint_elem n v = refl

uint32-append_uint : (v : ℕ) → v < 2 ^ 32 → uint32 (append_uint [] v) ≡ ok v
uint32-append_uint v h = rw (uint32, decode_uint-append_uint v (omega arith)) (ground arith)

pub expect_uint32-next :
    (n v : ℕ) (es : Elements) (off : ℕ)
    → v < 2 ^ 32
    → IsSized (uint_elem (context_primitive n) v)
    → expect_uint32 n (record {
      off = off;
      rest = append_elements [] (Elements.next (uint_elem (context_primitive n) v) es);
    })
      ≡ ok (
        v,
        record {
          off = off + size (uint_elem (context_primitive n) v);
          rest = append_elements [] es;
        },
      )
unfolding expect_uint32 uint_elem prim tag_of
expect_uint32-next n v es off range sized =
    let el = uint_elem (context_primitive n) v in
    rw (expect-next el es off sized refl, content-uint_elem n v, uint32-append_uint v range)

pub prim-next :
    (n : ℕ) (c : List ℕ) (es : Elements) (off : ℕ)
    → IsSized (prim (context_primitive n) c)
    → expect (context_primitive n) (record {
      off = off;
      rest = append_elements [] (Elements.next (prim (context_primitive n) c) es);
    })
      ≡ ok (
        c,
        record { off = off + size (prim (context_primitive n) c); rest = append_elements [] es },
      )
unfolding prim content_octets tag_of
prim-next n c es off sized = expect-next (prim (context_primitive n) c) es off sized refl

pub given-next :
    (n : ℕ) (c : List ℕ) (es : Elements) (off : ℕ)
    → IsSized (prim (context_primitive n) c)
    → optional (context_primitive n) (record {
      off = off;
      rest = append_elements [] (Elements.next (prim (context_primitive n) c) es);
    })
      ≡ ok (
        some c,
        record { off = off + size (prim (context_primitive n) c); rest = append_elements [] es },
      )
unfolding prim content_octets tag_of
given-next n c es off sized = optional-next (prim (context_primitive n) c) es off sized refl

abbrev flag_octets : Bool → List ℕ
flag_octets b = if b then 0xff ∷ [] else 0x00 ∷ []

pub flag-next :
    (n : ℕ) (b : Bool) (es : Elements) (off : ℕ)
    → IsSized (bool_elem (context_primitive n) b)
    → optional (context_primitive n) (record {
      off = off;
      rest = append_elements [] (Elements.next (bool_elem (context_primitive n) b) es);
    })
      ≡ ok (
        some (flag_octets b),
        record {
          off = off + size (bool_elem (context_primitive n) b);
          rest = append_elements [] es;
        },
      )
unfolding bool_elem
flag-next n true es off sized = given-next n (0xff ∷ []) es off sized
flag-next n false es off sized = given-next n (0x00 ∷ []) es off sized

pub decode_bool-flag_octets : (b : Bool) → decode_bool (flag_octets b) ≡ ok b
unfolding decode_bool
decode_bool-flag_octets true = refl
decode_bool-flag_octets false = refl

pub new_utc_time_raw-bytes_of :
    (t : Time) (q : ℕ)
    → (new_utc_time_raw (bytes_of (new_utc_time t q)) ≡ ok (new_utc_time t q))
      × (time_quality_flags (new_utc_time t q) ≡ q)
unfolding new_utc_time_raw new_utc_time time_quality_flags
new_utc_time_raw-bytes_of t q = (refl, refl)

unfoldable pub values_of : List Value → Values
values_of [] = nil
values_of (v ∷ vs) = next v (values_of vs)

pub list_of-values_of : (vs : List Value) → list_of (values_of vs) ≡ vs
unfolding values_of
list_of-values_of [] = refl
list_of-values_of (v ∷ vs) = ap (λ (xs : List Value). v ∷ xs) (list_of-values_of vs)

map-data_element :
    (f : Floats) (vs : List Value) → map (data_element f) vs ≡ data_elements f (values_of vs)
unfolding values_of data_element
map-data_element f [] = refl
map-data_element f (v ∷ vs) =
    ap (λ (xs : List (Option Element)). data_element f v ∷ xs) (map-data_element f vs)

-- The values of a message as `DecodeData` can return them, no nesting beyond 33 levels.
unfoldable pub AreWireValues : Floats → List Value → Type 0
AreWireValues f vs = AreValues f (values_of vs) × (depth_all (values_of vs) ≤ 33)

pub values-decode :
    (f : Floats) (vs : List Value)
    → AreWireValues f vs
    → IsSized (all_data f vs)
    → decode_items
        (decode_data f)
        (length (content_octets (all_data f vs)) + 1)
        (new_decoder (content_octets (all_data f vs)))
      ≡ ok (values_of vs)
unfolding AreWireValues cons content_octets decode_data
values-decode f vs (are, deep) sized =
    let e = map-data_element f vs in
    let all : AllSized (given (data_elements f (values_of vs))) = rw e at sized.3 in
    rw e (items f 33 _ 0 (values_of vs) are deep all (omega arith))

pub data-next :
    (f : Floats) (vs : List Value) (off : ℕ)
    → IsSized (all_data f vs)
    → expect (context_constructed 11) (record {
      off = off;
      rest = append_elements [] (Elements.next (all_data f vs) Elements.nil);
    })
      ≡ ok (
        content_octets (all_data f vs),
        record { off = off + size (all_data f vs); rest = append_elements [] Elements.nil },
      )
unfolding cons tag_of
data-next f vs off sized = expect-next (all_data f vs) Elements.nil off sized refl
