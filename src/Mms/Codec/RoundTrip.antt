-- ===== src/Mms/Codec/RoundTrip.antt =====
-- `DecodeData` reads back what `AppendData` wrote.
use go_iec.Base.{
  ℕ, zero, suc, ◌+◌, ◌/◌, ◌≤◌, ◌<◌, ◌^◌, max, ◌≡◌, ◌⊎◌, refl, ◌∙◌, ap, true, false, Option, none,
  some, List, [], ◌++◌, length, length-append, ◌==◌, if◌then◌else◌, Result, ok, ◌>>=◌, arith,
}
use go_iec.Asn1.{context_primitive}
use go_iec.Asn1.Decoder.{Decoder, more}
use go_iec.Asn1.Element.{
  Element, Elements, prim, cons, given, append_elements, encode, size, IsSized, AllSized,
  content_octets, tag_of, is_verbatim_of, read_tlv-encode, append_elements-nil,
  append_elements-next, encode_pos, length-append_element,
}
use go_iec.Asn1.Primitives.{int_elem, uint_elem, bool_elem, decode_bool}
use go_iec.Asn1.Primitives.Signed.{decode_int-append_int}
use go_iec.Asn1.Primitives.Unsigned.{decode_uint-append_uint}
use go_iec.Asn1.Primitives.Bits.{
  bit_string_elem, append_bit_string, decode_bit_string, decode_bit_string-append_bit_string,
  fitted-eq_self, need,
}
use go_iec.Asn1.Primitives.Floats.{
  Floats, IsNumber, append_float32, decode_float, decode_float-append_float32,
  decode_float-append_float64, length-append_float32, length-append_float64,
}
use go_iec.Mms.{
  Value, Values, absent, none_value, array, structure, boolean, bit_string, integer, unsigned,
  float32, float64, octet_string, visible_string, generalized_time, binary_time, mms_string,
  utc_time, data_access_error, nil, next, Error, lift,
}
use go_iec.Mms.Codec.{
  data_element, data_elements, append_data, decode_items, decode_children, decode_data_tlv,
  decode_data_at, decode_data, new_bit_string_bits, new_utc_time_raw,
}

abbrev mutual
  -- A value that the constructors of the package make, for the wire: no nil, numbers in the range of
  -- their types, and times of the right length.
  pub IsValue : Floats → Value → Type 0
  IsValue f absent = ⊥
  IsValue f none_value = ⊥
  IsValue f (array vs) = AreValues f vs
  IsValue f (structure vs) = AreValues f vs
  IsValue f (boolean b) = Unit {0}
  IsValue f (bit_string bits n) = length bits ≡ (n + 7) / 8
  IsValue f (integer n) = n < 2 ^ 64
  IsValue f (unsigned n) = n < 2 ^ 64
  IsValue f (float32 x) = (b : ℕ) × (b < 2 ^ 32) × IsNumber b × (x ≡ f.widen b)
  IsValue f (float64 x) = x < 2 ^ 64
  IsValue f (binary_time b) = (length b ≡ 4) ⊎ (length b ≡ 6)
  IsValue f (utc_time b) = length b ≡ 8
  IsValue f (data_access_error n) = n < 2 ^ 8
  IsValue f _ = Unit {0}

  pub AreValues : Floats → Values → Type 0
  AreValues f nil = Unit {0}
  AreValues f (next v vs) = IsValue f v × AreValues f vs

abbrev mutual
  -- The levels of nesting, 1 for a value without children.
  pub depth : Value → ℕ
  depth (array vs) = suc (depth_all vs)
  depth (structure vs) = suc (depth_all vs)
  depth _ = 1

  pub depth_all : Values → ℕ
  depth_all nil = 0
  depth_all (next v vs) = max (depth v) (depth_all vs)

abbrev element_or : Option Element → Element
element_or none = prim (context_primitive 0) []
element_or (some el) = el

-- The element of a value.
abbrev pub element_of : Floats → Value → Element
element_of f v = element_or (data_element f v)

is_verbatim_of-element_of : (f : Floats) (v : Value) → is_verbatim_of (element_of f v) ≡ false
unfolding data_element cons prim bool_elem int_elem uint_elem bit_string_elem
is_verbatim_of-element_of f absent = refl
is_verbatim_of-element_of f (boolean true) = refl
is_verbatim_of-element_of f (boolean false) = refl
is_verbatim_of-element_of f _ = refl

data_element-element_of :
    (f : Floats) (v : Value) → IsValue f v → data_element f v ≡ some (element_of f v)
unfolding data_element
data_element-element_of f absent h = elim h [ ]
data_element-element_of f none_value h = elim h [ ]
data_element-element_of f _ h = refl

-- One level: the element is read, and its content decodes to the value.
decode_data_at-suc :
    (f : Floats) (l : ℕ) (v : Value) (off : ℕ) (ys : List ℕ)
    → IsSized (element_of f v)
    → decode_data_tlv f
        (decode_data_at f l)
        (tag_of (element_of f v))
        (content_octets (element_of f v))
      ≡ ok v
    → decode_data_at f (suc l) (record { off = off; rest = encode (element_of f v) ++ ys })
      ≡ ok (v, record { off = off + size (element_of f v); rest = ys })
unfolding decode_data_at
decode_data_at-suc f l v off ys sized h =
    rw (read_tlv-encode (element_of f v) off ys sized (is_verbatim_of-element_of f v), h)

depth_pos : (v : Value) → 1 ≤ depth v
depth_pos (array vs) = omega arith
depth_pos _ = omega arith

given-next :
    (f : Floats) (v : Value) (vs : Values)
    → IsValue f v
    → given (data_elements f (next v vs))
      ≡ Elements.next (element_of f v) (given (data_elements f vs))
unfolding data_element given
given-next f v vs h = rw (data_element-element_of f v h)

-- The loop over the content goes on after an element that it could read.
decode_items_step :
    (read : Decoder → Result Error (Value × Decoder)) (fuel : ℕ) (d d' : Decoder) (v : Value)
    (vs : Values)
    → 0 < length d.rest
    → read d ≡ ok (v, d')
    → decode_items read fuel d' ≡ ok vs
    → decode_items read (suc fuel) d ≡ ok (next v vs)
unfolding decode_items more
decode_items_step read fuel d d' v vs h e f = ground (arith, e, f)

no_items :
    (read : Decoder → Result Error (Value × Decoder)) (fuel off : ℕ)
    → decode_items read (suc fuel) (record { off = off; rest = [] }) ≡ ok nil
unfolding decode_items more
no_items read fuel off = refl

bit_string-decodes :
    (bits : List ℕ) (n : ℕ)
    → length bits ≡ need n
    → (lift (decode_bit_string (append_bit_string [] (record { bits = bits; bit_length = n })))
        >>= λ bs. ok (new_bit_string_bits bs.bits bs.bit_length))
      ≡ ok (bit_string bits n)
unfolding new_bit_string_bits
bit_string-decodes bits n h = rw (
  decode_bit_string-append_bit_string (record { bits = bits; bit_length = n }),
  fitted-eq_self (need n) bits h,
  fitted-eq_self (need n) bits h,
)

utc_time-decodes : (b : List ℕ) → length b ≡ 8 → new_utc_time_raw b ≡ ok (utc_time b)
unfolding new_utc_time_raw
utc_time-decodes b h = rw h

float32-decodes :
    (f : Floats) (x b : ℕ)
    → b < 2 ^ 32
    → IsNumber b
    → x ≡ f.widen b
    → (lift (decode_float f (append_float32 [] (f.narrow x))) >>= λ y.
        ok (if length (append_float32 [] (f.narrow x)) == 5 then float32 y else float64 y))
      ≡ ok (float32 x)
float32-decodes f x b range number e =
    let back : f.narrow x ≡ b = rw e (f.narrow-widen b range number) in
    rw (back, decode_float-append_float32 f b range, length-append_float32 b, e)

mutual
  unfolding data_element given cons prim bool_elem int_elem uint_elem bit_string_elem content_octets
      tag_of decode_data_tlv decode_children decode_bool

  value-tlv :
      (f : Floats) (l : ℕ) (v : Value)
      → IsValue f v
      → depth v ≤ suc l
      → IsSized (element_of f v)
      → decode_data_tlv f
          (decode_data_at f l)
          (tag_of (element_of f v))
          (content_octets (element_of f v))
        ≡ ok v
  value-tlv f l absent h d s = elim h [ ]
  value-tlv f l none_value h d s = elim h [ ]
  value-tlv f l (array vs) h d s =
      let rest = append_elements [] (given (data_elements f vs)) in
      rw (items f l (length rest + 1) 0 vs h (omega arith) s.3 (omega arith))
  value-tlv f l (structure vs) h d s =
      let rest = append_elements [] (given (data_elements f vs)) in
      rw (items f l (length rest + 1) 0 vs h (omega arith) s.3 (omega arith))
  value-tlv f l (boolean true) h d s = refl
  value-tlv f l (boolean false) h d s = refl
  value-tlv f l (bit_string bits n) h d s = bit_string-decodes bits n h
  value-tlv f l (integer n) h d s = rw (decode_int-append_int n h)
  value-tlv f l (unsigned n) h d s = rw (decode_uint-append_uint n h)
  value-tlv f l (float32 x) (b, range, number, e) d s = float32-decodes f x b range number e
  value-tlv f l (float64 x) h d s = rw (decode_float-append_float64 f x h, length-append_float64 x)
  value-tlv f l (octet_string b) h d s = refl
  value-tlv f l (visible_string b) h d s = refl
  value-tlv f l (generalized_time b) h d s = refl
  value-tlv f l (binary_time b) h d s = ground arith
  value-tlv f l (mms_string b) h d s = refl
  value-tlv f l (utc_time b) h d s = utc_time-decodes b h
  value-tlv f l (data_access_error n) h d s =
      rw (decode_uint-append_uint n (omega arith))
        (ap (λ (k : ℕ). ok (data_access_error k)) (omega arith))

  pub items :
      (f : Floats) (l fuel off : ℕ) (vs : Values)
      → AreValues f vs
      → depth_all vs ≤ l
      → AllSized (given (data_elements f vs))
      → length (append_elements [] (given (data_elements f vs))) < fuel
      → decode_items
          (decode_data_at f l)
          fuel
          (record { off = off; rest = append_elements [] (given (data_elements f vs)) })
        ≡ ok vs
  items f l zero off nil h d s n = absurd (omega arith)
  items f l (suc fuel) off nil h d s n =
      rw append_elements-nil (no_items (decode_data_at f l) fuel off)
  items f zero fuel off (next v vs) h d s n = absurd (omega (arith, depth_pos v))
  items f (suc l) zero off (next v vs) h d s n = absurd (omega arith)
  items f (suc l) (suc fuel) off (next v vs) (h, hs) d s n =
      let el = element_of f v in
      let es = given (data_elements f vs) in
      let shape = given-next f v vs h in
      let sized : IsSized el × AllSized es = rw shape at s in
      let octets : append_elements [] (given (data_elements f (next v vs)))
          ≡ encode el ++ append_elements [] es =
        ap (append_elements []) shape ∙ append_elements-next el es in
      let some_octets = encode_pos el sized.0 (is_verbatim_of-element_of f v) in
      let count = length-append (encode el) (append_elements [] es) in
      let total = ap length octets in
      rw octets (
        decode_items_step (decode_data_at f (suc l)) fuel
          (record { off = off; rest = encode el ++ append_elements [] es })
          (record { off = off + size el; rest = append_elements [] es }) v vs (omega (arith, count))
          (decode_data_at-suc f l v off (append_elements [] es) sized.0
            (value-tlv f l v h (omega arith) sized.0))
          (items f (suc l) fuel (off + size el) vs hs (omega arith) sized.1
            (omega (arith, count, total))))

append_data-encode :
    (f : Floats) (v : Value) → IsValue f v → append_data f [] v ≡ encode (element_of f v)
unfolding append_data encode
append_data-encode f v h = rw (append_data, data_element-element_of f v h)

-- A value as `DecodeData` can return it, with no NaN of single precision in it (Go does not document
-- that the bits of a NaN survive the conversions between float32 and float64) and no nesting beyond 33
-- levels, its element with contents
-- shorter than 2 ^ 32 octets throughout: what `AppendData` appends, `DecodeData` reads back, and it
-- stops behind it.
pub decode_data-append_data :
    (f : Floats) (v : Value) (off : ℕ) (ys : List ℕ)
    → IsValue f v
    → depth v ≤ 33
    → IsSized (element_of f v)
    → decode_data f (record { off = off; rest = append_data f [] v ++ ys })
      ≡ ok (v, record { off = off + length (append_data f [] v); rest = ys })
unfolding decode_data
decode_data-append_data f v off ys h d s =
    let el = element_of f v in
    rw (append_data-encode f v h, (length-append_element [] el s).1)
      (decode_data_at-suc f 32 v off ys s (value-tlv f 32 v h d s))
