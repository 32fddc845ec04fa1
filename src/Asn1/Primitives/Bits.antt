-- ===== src/Asn1/Primitives/Bits.antt =====
-- asn1/primitives.go: bit strings, as octets with the number of bits that count. `Length` is an int;
-- the model has those that are not negative, on which `max(bs.Length, 0)` changes nothing.
use go_iec.Base.{
  ℕ, ◌+◌, ◌-◌, ◌*◌, ◌/◌, ◌%◌, ◌≡◌, refl, ap, not, ◌&&◌, ◌||◌, List, [], ◌∷◌, ◌++◌, length, take,
  replicate, length-append, length-take, length-replicate, ltb, leb, ◌==◌, if◌then◌else◌, Result,
  ok, err, arith,
}
use go_iec.Asn1.{Error, bad_value, Tag}
use go_iec.Asn1.Element.{Element, prim}

pub record BitString : Type 0 where
  pub bits : List ℕ
  pub bit_length : ℕ

-- The octets that a number of bits needs.
abbrev pub need : ℕ → ℕ
need n = (n + 7) / 8

new_bit_string : ℕ → BitString
new_bit_string n = record { bits = replicate (need n) 0; bit_length = n }

-- `bits`, cut or extended with zeros to `n` octets.
abbrev pub fitted : ℕ → List ℕ → List ℕ
fitted n bits = if leb n (length bits) then take n bits else bits ++ replicate (n - length bits) 0

unfoldable pub append_bit_string : List ℕ → BitString → List ℕ
append_bit_string dst bs =
    let n = need bs.bit_length in dst ++ ((n * 8 - bs.bit_length) % 256 ∷ fitted n bs.bits)

unfoldable pub decode_bit_string : List ℕ → Result Error BitString
decode_bit_string [] = err bad_value
decode_bit_string (pad ∷ bits) =
    if ltb 7 pad || length bits == 0 && not (pad == 0)
    then err bad_value
    else ok (record { bits = bits; bit_length = length bits * 8 - pad })

unfoldable pub bit_string_elem : Tag → BitString → Element
bit_string_elem t bs = prim t (append_bit_string [] bs)

length-fitted : (n : ℕ) (bits : List ℕ) → length (fitted n bits) ≡ n
length-fitted n bits = ground (
  arith,
  length-append bits (replicate (n - length bits) 0),
  length-take n bits,
  length-replicate {A = ℕ} (n - length bits) 0,
)

take-length : (bits : List ℕ) → take (length bits) bits ≡ bits
take-length [] = refl
take-length (b ∷ bits) = ap (λ t. b ∷ t) (take-length bits)

-- Octets that are as many as they should be stay as they are.
pub fitted-eq_self : (n : ℕ) (bits : List ℕ) → length bits ≡ n → fitted n bits ≡ bits
fitted-eq_self n bits h = rw (← h) (ground (arith, take-length bits))

-- `DecodeBitString` reads back what `AppendBitString` wrote: the same number of bits, in as many
-- octets as they need; octets beyond these are cut off, missing ones are zero.
pub decode_bit_string-append_bit_string :
    (bs : BitString)
    → decode_bit_string (append_bit_string [] bs)
      ≡ ok (record { bits = fitted ((bs.bit_length + 7) / 8) bs.bits; bit_length = bs.bit_length })
unfolding append_bit_string decode_bit_string
decode_bit_string-append_bit_string bs =
    ground (arith, length-fitted ((bs.bit_length + 7) / 8) bs.bits)
