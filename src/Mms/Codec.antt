-- ===== src/Mms/Codec.antt =====
-- mms/value_codec.go: values as BER elements, the Data CHOICE of MMS.
pub mod RoundTrip
pub mod Fuel
use go_iec.Base.{
  ℕ, zero, suc, ◌+◌, ◌%◌, ◌^◌, Bool, true, false, not, ◌&&◌, ◌||◌, Option, none, some, List, [],
  ◌∷◌, length, ◌==◌, if◌then◌else◌, Result, ok, err, ◌>>=◌,
}
use go_iec.Asn1
use go_iec.Asn1.{
  Tag, context_primitive, context_constructed, too_deep, unexpected, bad_value, out_of_fuel,
}
use go_iec.Asn1.Decoder.{Decoder, new_decoder, more, read_tlv, peek}
use go_iec.Asn1.Element.{Element, prim, cons, append_element}
use go_iec.Asn1.Primitives.{int_elem, uint_elem, bool_elem, decode_int, decode_uint, decode_bool}
use go_iec.Asn1.Primitives.Bits.{BitString, bit_string_elem, decode_bit_string, fitted, need}
use go_iec.Asn1.Primitives.Floats.{Floats, append_float32, append_float64, decode_float}
use go_iec.Mms.{
  Value, Values, absent, none_value, array, structure, boolean, bit_string, integer, unsigned,
  float32, float64, octet_string, visible_string, generalized_time, binary_time, mms_string,
  utc_time, data_access_error, nil, next, Error, wrapped, bad_utc_time, lift,
}

abbrev tag_data_array : ℕ
tag_data_array = 1

abbrev tag_data_structure : ℕ
tag_data_structure = 2

abbrev max_value_depth : ℕ
max_value_depth = 32

-- `NewBitStringBits`
unfoldable pub new_bit_string_bits : List ℕ → ℕ → Value
new_bit_string_bits bits length = bit_string (fitted (need length) bits) length

-- `NewUTCTimeRaw`
unfoldable pub new_utc_time_raw : List ℕ → Result Error Value
new_utc_time_raw b = if not (length b == 8) then err bad_utc_time else ok (utc_time b)

-- The loop over the content of an array or a structure; `read` reads one element. An element takes
-- an octet at least, so `length content + 1` rounds are enough.
unfoldable pub decode_items :
    (Decoder → Result Error (Value × Decoder)) → ℕ → Decoder → Result Error Values
decode_items read zero inner = err (wrapped out_of_fuel)
decode_items read (suc fuel) inner =
    let rest = (do (c, inner') ← read inner; cs ← decode_items read fuel inner'; ok (next c cs)) in
    if more inner then rest else ok nil

unfoldable pub decode_children :
    (Decoder → Result Error (Value × Decoder)) → (Values → Value) → List ℕ → Result Error Value
decode_children read make content = do
  vs ← decode_items read (length content + 1) (new_decoder content)
  ok (make vs)

module _ (floats : Floats) where
  -- `DataElement`. The source adds the children one by one to an element that has none.
  unfoldable mutual
    pub data_element : Value → Option Element
    data_element absent = none
    data_element none_value = none
    data_element (array vs) = some (cons (context_constructed tag_data_array) (data_elements vs))
    data_element (structure vs) =
        some (cons (context_constructed tag_data_structure) (data_elements vs))
    data_element (boolean b) = some (bool_elem (context_primitive 3) b)
    data_element (bit_string bits n) =
        some (bit_string_elem (context_primitive 4) (record { bits = bits; bit_length = n }))
    data_element (integer n) = some (int_elem (context_primitive 5) n)
    data_element (unsigned n) = some (uint_elem (context_primitive 6) n)
    data_element (float32 x) =
        some (prim (context_primitive 7) (append_float32 [] (floats.narrow x)))
    data_element (float64 x) = some (prim (context_primitive 7) (append_float64 [] x))
    data_element (octet_string b) = some (prim (context_primitive 9) b)
    data_element (visible_string b) = some (prim (context_primitive 10) b)
    data_element (generalized_time b) = some (prim (context_primitive 11) b)
    data_element (binary_time b) = some (prim (context_primitive 12) b)
    data_element (mms_string b) = some (prim (context_primitive 16) b)
    data_element (utc_time b) = some (prim (context_primitive 17) b)
    data_element (data_access_error n) = some (uint_elem (context_primitive 0) n)

    pub data_elements : Values → List (Option Element)
    data_elements nil = []
    data_elements (next v vs) = data_element v ∷ data_elements vs

  unfoldable pub append_data : List ℕ → Value → List ℕ
  append_data dst v = elim (data_element v) [ none ↦ dst | some el ↦ append_element dst el ]

  -- `decodeDataTLV`, where `read` reads an element one level down.
  unfoldable pub decode_data_tlv :
      (Decoder → Result Error (Value × Decoder)) → Tag → List ℕ → Result Error Value
  decode_data_tlv read tag content =
      let n = tag.number in
      if not (tag.class == 2)
      then err (wrapped unexpected)
      else if n == tag_data_array
      then decode_children read array content
      else if n == tag_data_structure
      then decode_children read structure content
      else if n == 3
      then (do b ← lift (decode_bool content); ok (boolean b))
      else if n == 4
      then (do
        bs ← lift (decode_bit_string content)
        ok (new_bit_string_bits bs.bits bs.bit_length))
      else if n == 5
      then (do k ← lift (decode_int content); ok (integer k))
      else if n == 6
      then (do k ← lift (decode_uint content); ok (unsigned k))
      else if n == 7
      then (do
        x ← lift (decode_float floats content)
        ok (if length content == 5 then float32 x else float64 x))
      else if n == 9
      then ok (octet_string content)
      else if n == 10
      then ok (visible_string content)
      else if n == 11
      then ok (generalized_time content)
      else if n == 12
      then (if not (length content == 4) && not (length content == 6)
          then err (wrapped bad_value)
          else ok (binary_time content))
      else if n == 16
      then ok (mms_string content)
      else if n == 17
      then new_utc_time_raw content
      else if n == 0
      then (if tag.constructed
          then err (wrapped unexpected)
          else do k ← lift (decode_uint content); ok (data_access_error (k % 2 ^ 8)))
      else err (wrapped unexpected)

  -- `decodeData` at the depth `maxValueDepth + 1 - levels`.
  unfoldable pub decode_data_at : ℕ → Decoder → Result Error (Value × Decoder)
  decode_data_at zero dec = err (wrapped too_deep)
  decode_data_at (suc levels) dec = do
    (tag, content, dec') ← lift (read_tlv dec)
    v ← decode_data_tlv (decode_data_at levels) tag content
    ok (v, dec')

  unfoldable pub decode_data : Decoder → Result Error (Value × Decoder)
  decode_data dec = decode_data_at (max_value_depth + 1) dec

  unfoldable pub decode_access_result : Decoder → Result Error (Value × Decoder)
  decode_access_result dec = do
    tag ← lift (peek dec)
    let failure : Result Error (Value × Decoder) = (do
      (_, content, dec') ← lift (read_tlv dec)
      code ← lift (decode_uint content)
      ok (data_access_error (code % 2 ^ 8), dec'))
    if tag.class == 2 && tag.number == 0 && not tag.constructed then failure else decode_data dec
