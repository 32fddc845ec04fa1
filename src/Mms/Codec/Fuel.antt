-- ===== src/Mms/Codec/Fuel.antt =====
-- `DecodeData` returns on every input: the fuel of the model does not run out.
use go_iec.Base.{
  ℕ, zero, suc, ◌+◌, ◌-◌, ◌<◌, ◌≡◌, ◌≢◌, inl, inr, ap, ◌&&◌, Bool, true, false, not, List, [], ◌∷◌,
  length, length-drop, ◌==◌, if◌then◌else◌, Result-cases, Result, ok, err, ◌>>=◌, arith,
}
use go_iec.Asn1
use go_iec.Asn1.{Tag, out_of_fuel, bad_value}
use go_iec.Asn1.Decoder.{Decoder, new_decoder, read_tlv}
use go_iec.Asn1.Fuel.{read_tlv-ne-fuel}
use go_iec.Asn1.Bounds.{read_tlv-Advances}
use go_iec.Asn1.Primitives.{decode_int, decode_uint, decode_bool}
use go_iec.Asn1.Primitives.Bits.{decode_bit_string}
use go_iec.Asn1.Primitives.Floats.{Floats, decode_float}
use go_iec.Mms.{Value, Values, Error, wrapped, lift, array, structure}
use go_iec.Mms.Codec.{
  new_utc_time_raw, decode_items, decode_children, decode_data_tlv, decode_data_at, decode_data,
}

abbrev Returns {ℓ} : {A : Type ℓ} → Result Error A → Type ℓ
Returns r = r ≢ err (wrapped out_of_fuel)

-- A reader that returns, and leaves less than it was given.
record IsReader (read : Decoder → Result Error (Value × Decoder)) : Type 0 where
  returns : (d : Decoder) → Returns (read d)
  shrinks : (d d' : Decoder) (v : Value) → read d ≡ ok (v, d') → length d'.rest < length d.rest

decode_items-Returns :
    (read : Decoder → Result Error (Value × Decoder)) (fuel : ℕ) (d : Decoder)
    → IsReader read
    → length d.rest < fuel
    → Returns (decode_items read fuel d)
unfolding decode_items
decode_items-Returns read zero d r h = absurd (omega arith)
decode_items-Returns read (suc fuel) d r h = elim (Result-cases (read d)) [
  | inl ((v, d'), e) ↦ ground (arith, e, r.shrinks d d' v e, decode_items-Returns read fuel d' r)
  | inr (x, e) ↦ ground (arith, e, r.returns d)
]

decode_children-Returns :
    (read : Decoder → Result Error (Value × Decoder)) (make : Values → Value) (content : List ℕ)
    → IsReader read
    → Returns (decode_children read make content)
unfolding decode_children
decode_children-Returns read make content r =
    ground (arith, decode_items-Returns read (length content + 1) (new_decoder content) r)

decode_int-ne-fuel : (c : List ℕ) → decode_int c ≢ err out_of_fuel
unfolding decode_int
decode_int-ne-fuel [] h = cc
decode_int-ne-fuel (b ∷ bs) h = ground arith

decode_uint-ne-fuel : (c : List ℕ) → decode_uint c ≢ err out_of_fuel
unfolding decode_uint
decode_uint-ne-fuel [] h = cc
decode_uint-ne-fuel (b ∷ bs) h = ground arith

decode_bool-ne-fuel : (c : List ℕ) → decode_bool c ≢ err out_of_fuel
unfolding decode_bool
decode_bool-ne-fuel [] h = cc
decode_bool-ne-fuel (b ∷ []) h = cc
decode_bool-ne-fuel (b ∷ c ∷ bs) h = cc

decode_bit_string-ne-fuel : (c : List ℕ) → decode_bit_string c ≢ err out_of_fuel
unfolding decode_bit_string
decode_bit_string-ne-fuel [] h = cc
decode_bit_string-ne-fuel (b ∷ bs) h = ground arith

decode_float-ne-fuel : (f : Floats) (c : List ℕ) → decode_float f c ≢ err out_of_fuel
unfolding decode_float
decode_float-ne-fuel f [] h = cc
decode_float-ne-fuel f (b ∷ bs) h = ground arith

if-Returns :
    {A : Type 0} (c : Bool) (r s : Result Error A)
    → Returns r
    → Returns s
    → Returns (if c then r else s)
if-Returns true r s hr hs = hr
if-Returns false r s hr hs = hs

lift-Returns :
    {A B : Type 0} (r : Result Asn1.Error A) (g : A → B)
    → r ≢ err out_of_fuel
    → Returns (do a ← lift r; ok (g a))
lift-Returns (ok a) g h k = cc
lift-Returns (err e) g h k = h cc

decode_data_tlv-Returns :
    (f : Floats) (read : Decoder → Result Error (Value × Decoder)) (tag : Tag) (content : List ℕ)
    → IsReader read
    → Returns (decode_data_tlv f read tag content)
unfolding decode_data_tlv new_utc_time_raw
decode_data_tlv-Returns f read tag content r =
    let n = tag.number in
    if-Returns (not (tag.class == 2)) _ _ (λ h. cc)
      (if-Returns (n == 1) _ _ (decode_children-Returns read array content r) (
        if-Returns (n == 2) _ _ (decode_children-Returns read structure content r) (
          if-Returns (n == 3) _ _
            (lift-Returns (decode_bool content) _ (decode_bool-ne-fuel content))
            (if-Returns (n == 4) _ _
              (lift-Returns (decode_bit_string content) _ (decode_bit_string-ne-fuel content))
              (if-Returns (n == 5) _ _
                (lift-Returns (decode_int content) _ (decode_int-ne-fuel content))
                (if-Returns (n == 6) _ _
                  (lift-Returns (decode_uint content) _ (decode_uint-ne-fuel content))
                  (if-Returns (n == 7) _ _
                    (lift-Returns (decode_float f content) _ (decode_float-ne-fuel f content))
                    (if-Returns (n == 9) _ _ (λ h. cc)
                      (if-Returns (n == 10) _ _ (λ h. cc)
                        (if-Returns (n == 11) _ _ (λ h. cc)
                          (if-Returns (n == 12) _ _
                            (if-Returns (not (length content == 4) && not (length content == 6)) _ _
                              (λ h. cc) (λ h. cc))
                            (if-Returns (n == 16) _ _ (λ h. cc)
                              (if-Returns (n == 17) _ _
                                (if-Returns (not (length content == 8)) _ _ (λ h. cc) (λ h. cc))
                                (if-Returns (n == 0) _ _
                                  (if-Returns tag.constructed _ _ (λ h. cc)
                                    (lift-Returns (decode_uint content) _
                                      (decode_uint-ne-fuel content)))
                                  (λ h. cc)))))))))))))))

read_tlv-shrinks :
    (d d' : Decoder) (tag : Tag) (content : List ℕ)
    → read_tlv d ≡ ok (tag, content, d')
    → length d'.rest < length d.rest
read_tlv-shrinks d d' tag content h =
    let (e, low, high) = read_tlv-Advances d tag content d' h in
    omega (arith, ap length e, length-drop (d'.off - d.off) d.rest)

decode_data_at-IsReader : (f : Floats) (levels : ℕ) → IsReader (decode_data_at f levels)
unfolding decode_data_at
decode_data_at-IsReader f zero = record { returns = λ d h. cc; shrinks = λ d d' v h. cc }
decode_data_at-IsReader f (suc levels) =
    let below = decode_data_at-IsReader f levels in
    record {
      returns = λ d. elim (Result-cases (read_tlv d)) [
        | inl ((tag, content, d'), e) ↦
            ground (arith, e, decode_data_tlv-Returns f (decode_data_at f levels) tag content below)
        | inr (x, e) ↦ ground (arith, e, read_tlv-ne-fuel d)
      ];
      shrinks = λ d d' v h. elim (Result-cases (read_tlv d)) [
        | inl ((tag, content, e'), e) ↦ ground (
          arith,
          e,
          h,
          read_tlv-shrinks d e' tag content e,
          Result-cases (decode_data_tlv f (decode_data_at f levels) tag content),
        )
        | inr (x, e) ↦ absurd (ground (arith, e))
      ];
    }

-- `DecodeData` returns on every input: no loop of it runs out of the fuel that the model gives it.
pub decode_data-ne-fuel :
    (f : Floats) (dec : Decoder) → decode_data f dec ≢ err (wrapped out_of_fuel)
unfolding decode_data
decode_data-ne-fuel f dec = (decode_data_at-IsReader f 33).returns dec
