-- ===== src/Asn1/Primitives.antt =====
-- asn1/primitives.go: integers and booleans. An int64 is its bit pattern, a number below 2 ^ 64.
pub mod Bits
pub mod Unsigned
pub mod Floats
pub mod Signed
use go_iec.Base.{
  ℕ, zero, suc, ◌+◌, ◌-◌, ◌*◌, ◌/◌, ◌%◌, ◌^◌, bit_or, Bool, true, false, not, ◌&&◌, ◌||◌, List, [],
  ◌∷◌, ◌++◌, length, get_or, ltb, leb, ◌==◌, if◌then◌else◌, Result, ok, err,
}
use go_iec.Asn1.{Tag, Error, bad_value}
use go_iec.Asn1.Element.{Element, prim}

-- `v >> 8` of an int64, which keeps the sign.
abbrev pub sar8 : ℕ → ℕ
sar8 v = if ltb v (2 ^ 63) then v / 2 ^ 8 else v / 2 ^ 8 + (2 ^ 64 - 2 ^ 56)

-- `v > 0x7f || v < -0x80` of an int64.
abbrev pub beyond_octet : ℕ → Bool
beyond_octet v = leb 0x80 v && ltb v (2 ^ 64 - 0x80)

-- The loop of `IntSize`. Eight rounds are enough for 64 bits.
pub int_size_loop : ℕ → ℕ → ℕ → ℕ
int_size_loop zero v n = n
int_size_loop (suc fuel) v n =
    let rest = int_size_loop fuel (sar8 v) (n + 1) in if beyond_octet v then rest else n

pub int_size : ℕ → ℕ
int_size v = int_size_loop 8 v 1

-- The loops of `AppendInt` and `AppendUint`: `byte(v >> (i * 8))` for i from n - 1 down to 0. The low
-- octet is the same whether the shift keeps a sign or not.
unfoldable pub octets_from : ℕ → ℕ → List ℕ
octets_from zero v = []
octets_from (suc i) v = v / 2 ^ (i * 8) % 256 ∷ octets_from i v

pub append_int : List ℕ → ℕ → List ℕ
append_int dst v = dst ++ octets_from (int_size v) v

-- `v = v<<8 | b` for each octet, on 64 bits.
pub shift_in : ℕ → List ℕ → ℕ
shift_in v [] = v
shift_in v (b ∷ bs) = shift_in (bit_or (v * 2 ^ 8 % 2 ^ 64) b) bs

-- `int64(int8(b))`
abbrev pub sign_extend : ℕ → ℕ
sign_extend b = if ltb b 0x80 then b else b + (2 ^ 64 - 0x100)

unfoldable pub decode_int : List ℕ → Result Error ℕ
decode_int [] = err bad_value
decode_int (b ∷ bs) =
    if ltb 8 (length (b ∷ bs)) then err bad_value else ok (shift_in (sign_extend b) bs)

-- The loop of `UintSize`.
unfoldable pub uint_size_loop : ℕ → ℕ → ℕ → ℕ
uint_size_loop zero v n = n
uint_size_loop (suc fuel) v n =
    let rest = uint_size_loop fuel (v / 2 ^ 8) (n + 1) in if ltb 0x7f v then rest else n

unfoldable pub uint_size : ℕ → ℕ
uint_size v = uint_size_loop 9 v 1

unfoldable pub append_uint : List ℕ → ℕ → List ℕ
append_uint dst v = dst ++ octets_from (uint_size v) v

unfoldable pub decode_uint : List ℕ → Result Error ℕ
decode_uint [] = err bad_value
decode_uint (b ∷ bs) =
    if ltb 9 (length (b ∷ bs)) || (length (b ∷ bs) == 9 && not (b == 0))
    then err bad_value
    else ok (shift_in 0 (b ∷ bs))

unfoldable pub int_elem : Tag → ℕ → Element
int_elem t v = prim t (append_int [] v)

unfoldable pub uint_elem : Tag → ℕ → Element
uint_elem t v = prim t (append_uint [] v)

unfoldable pub bool_elem : Tag → Bool → Element
bool_elem t v = if v then prim t (0xff ∷ []) else prim t (0x00 ∷ [])

unfoldable pub decode_bool : List ℕ → Result Error Bool
decode_bool (b ∷ []) = ok (not (b == 0))
decode_bool _ = err bad_value
