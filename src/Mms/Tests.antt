-- ===== src/Mms/Tests.antt =====
-- mms: the theorems at concrete inputs.
use go_iec.Base.{
  ℕ, pos, ◌+◌, ◌≤◌, ◌≡◌, ◌≢◌, refl, true, List, [], ◌∷◌, ◌++◌, length, ok, err, arith,
}
use go_iec.Asn1.{out_of_fuel, tag_size, length_size}
use go_iec.Asn1.Decoder.{new_decoder}
use go_iec.Asn1.Element.{cons, given, prim, IsSized, children_size, size}
use go_iec.Asn1.Primitives.{bool_elem}
use go_iec.Asn1.Primitives.Floats.{Floats}
use go_iec.Mms.{Value, structure, boolean, visible_string, nil, next, wrapped}
use go_iec.Mms.Codec.{data_element, append_data, decode_data}
use go_iec.Mms.Codec.RoundTrip.{element_of, decode_data-append_data}
use go_iec.Mms.Codec.Fuel.{decode_data-ne-fuel}
use go_iec.Mms.Time.{new_utc_time, time, time_quality_flags}
use go_iec.Mms.Time.Accuracy.{time-new_utc_time}

-- Widening that keeps the bits, in place of Go's conversion.
abbrev same_bits : Floats
same_bits = record { widen = λ b. b; narrow = λ x. x; narrow-widen = λ b h k. refl }

-- A structure of a boolean and a string.
abbrev pair : Value
pair = structure (next (boolean true) (next (visible_string (0x41 ∷ 0x42 ∷ [])) nil))

pair-IsSized : IsSized (element_of same_bits pair)
unfolding data_element bool_elem prim cons given
pair-IsSized = (
  omega arith,
  omega arith,
  unfold children_size size tag_size length_size in omega arith,
  ((omega arith, omega arith, omega arith, tt), ((omega arith, omega arith, omega arith, tt), tt)),
)

decode_data-append_data_example :
    decode_data same_bits (record { off = 3; rest = append_data same_bits [] pair ++ (0x05 ∷ []) })
    ≡ ok (pair, record { off = 3 + length (append_data same_bits [] pair); rest = 0x05 ∷ [] })
decode_data-append_data_example =
    decode_data-append_data same_bits pair 3 (0x05 ∷ []) (tt, (tt, tt)) (omega arith) pair-IsSized

-- Two nested arrays of indefinite length, cut short.
decode_data-ne-fuel_example :
    decode_data same_bits (new_decoder (0xa1 ∷ 0x80 ∷ 0xa1 ∷ 0x80 ∷ [])) ≢ err (wrapped out_of_fuel)
decode_data-ne-fuel_example =
    decode_data-ne-fuel same_bits (new_decoder (0xa1 ∷ 0x80 ∷ 0xa1 ∷ 0x80 ∷ []))

time-new_utc_time_example :
    (ns' : ℕ) × (time (new_utc_time (record { unix = pos 1700000000; nanosecond = 123456789 }) 0x8a)
      ≡ record { unix = pos 1700000000; nanosecond = ns' })
    × (ns' ≤ 123456789)
    × (123456789 ≤ ns' + 60)
    × (time_quality_flags
          (new_utc_time (record { unix = pos 1700000000; nanosecond = 123456789 }) 0x8a)
        ≡ 0x8a)
time-new_utc_time_example = time-new_utc_time 1700000000 123456789 0x8a (omega arith) (omega arith)

abbrev flags : List ℕ
flags = 0x00 ∷ 0xff ∷ []
