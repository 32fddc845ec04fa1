-- ===== src/Asn1/Primitives/Floats.antt =====
-- asn1/primitives.go: floating point. A float is its IEEE 754 bits, so `math.Float32bits` and the like
-- are the identity; the conversions between the two widths are Go's.
use go_iec.Base.{
  ℕ, ◌*◌, ◌/◌, ◌%◌, ◌^◌, ◌<◌, ◌≡◌, sym, ap, ◌∙◌, List, [], ◌∷◌, ◌++◌, length, ◌==◌, if◌then◌else◌,
  false, not, ◌&&◌, Result, ok, err, arith,
}
use go_iec.Asn1.{Error, bad_value}
use go_iec.Asn1.Primitives.{octets_from, shift_in}
use go_iec.Asn1.Primitives.Unsigned.{length-octets_from, shift_in-octets_from}

-- The bits of a float32 that is not NaN.
pub IsNumber : ℕ → Type 0
IsNumber b = (b / 2 ^ 23 % 2 ^ 8 == 255 && not (b % 2 ^ 23 == 0)) ≡ false

-- `float64(x)` and `float32(x)` of Go: widening is exact, so narrowing takes it back.
pub record Floats : Type 0 where
  pub widen : ℕ → ℕ
  pub narrow : ℕ → ℕ
  pub narrow-widen : (b : ℕ) → b < 2 ^ 32 → IsNumber b → narrow (widen b) ≡ b

-- The exponent's width, then the octets from the highest on.
pub append_float32 : List ℕ → ℕ → List ℕ
append_float32 dst b = dst ++ (8 ∷ octets_from 4 b)

pub append_float64 : List ℕ → ℕ → List ℕ
append_float64 dst b = dst ++ (11 ∷ octets_from 8 b)

-- The bits of the float64.
unfoldable pub decode_float : Floats → List ℕ → Result Error ℕ
decode_float f [] = err bad_value
decode_float f (width ∷ octets) =
    if length octets == 4
    then (if not (width == 8) then err bad_value else ok (f.widen (shift_in 0 octets)))
    else if length octets == 8
    then (if not (width == 11) then err bad_value else ok (shift_in 0 octets))
    else err bad_value

pub length-append_float32 : (b : ℕ) → length (append_float32 [] b) ≡ 5
unfolding append_float32
length-append_float32 b = omega (arith, length-octets_from 4 b)

pub length-append_float64 : (b : ℕ) → length (append_float64 [] b) ≡ 9
unfolding append_float64
length-append_float64 b = omega (arith, length-octets_from 8 b)

shift_in-octets : (k b : ℕ) → b < 2 ^ 64 → b / 2 ^ (k * 8) ≡ 0 → shift_in 0 (octets_from k b) ≡ b
shift_in-octets k b h top =
    ap (λ (t : ℕ). shift_in t (octets_from k b)) (sym top) ∙ shift_in-octets_from k b h

-- `DecodeFloat` reads back the float32 that `AppendFloat32` wrote, widened.
pub decode_float-append_float32 :
    (f : Floats) (b : ℕ) → b < 2 ^ 32 → decode_float f (append_float32 [] b) ≡ ok (f.widen b)
unfolding append_float32 decode_float
decode_float-append_float32 f b h =
    rw (length-octets_from 4 b, shift_in-octets 4 b (omega arith) (omega arith))

-- `DecodeFloat` reads back the float64 that `AppendFloat64` wrote.
pub decode_float-append_float64 :
    (f : Floats) (b : ℕ) → b < 2 ^ 64 → decode_float f (append_float64 [] b) ≡ ok b
unfolding append_float64 decode_float
decode_float-append_float64 f b h = rw (length-octets_from 8 b, shift_in-octets 8 b h (omega arith))
