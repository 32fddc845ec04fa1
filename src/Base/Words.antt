-- ===== src/Base/Words.antt =====
-- Numbers of 16, 24 and 32 bits as octets in big-endian order.
use Prim.Native.Nat.{ℕ, ◌+◌, ◌*◌, ◌/◌, ◌%◌, ◌^◌, ◌<◌, bit_or}
use mathlib.Core.Path.{◌≡◌}
use mathlib.Core.List.{List, [], ◌∷◌}
use native.Mathlib.Omega.{arith}
use go_iec.Base.Bits.{bit_or_add}

-- `binary.BigEndian.AppendUint32`
abbrev pub octets_32 : ℕ → List ℕ
octets_32 n = n / 2 ^ 24 % 256 ∷ n / 2 ^ 16 % 256 ∷ n / 2 ^ 8 % 256 ∷ n % 256 ∷ []

-- `binary.BigEndian.AppendUint16`
abbrev pub octets_16 : ℕ → List ℕ
octets_16 n = n / 2 ^ 8 % 256 ∷ n % 256 ∷ []

unfoldable pub big_endian_32 : ℕ → ℕ → ℕ → ℕ → ℕ
big_endian_32 a b c d =
    bit_or (bit_or (bit_or (a * 2 ^ 24 % 2 ^ 32) (b * 2 ^ 16 % 2 ^ 32)) (c * 2 ^ 8 % 2 ^ 32)) d

unfoldable pub big_endian_24 : ℕ → ℕ → ℕ → ℕ
big_endian_24 a b c = bit_or (bit_or (a * 2 ^ 16) (b * 2 ^ 8)) c

unfoldable pub big_endian_16 : ℕ → ℕ → ℕ
big_endian_16 a b = bit_or (a * 2 ^ 8 % 2 ^ 16) b

pub big_endian_32-octets :
    (n : ℕ)
    → n < 2 ^ 32
    → big_endian_32 (n / 2 ^ 24 % 256) (n / 2 ^ 16 % 256) (n / 2 ^ 8 % 256) (n % 256) ≡ n
unfolding big_endian_32
big_endian_32-octets n h =
    let a = n / 2 ^ 24 % 256 in
    let b = n / 2 ^ 16 % 256 in
    let c = n / 2 ^ 8 % 256 in
    let e : a * 2 ^ 24 % 2 ^ 32 ≡ a * 2 ^ 24 = omega arith in
    let f : b * 2 ^ 16 % 2 ^ 32 ≡ b * 2 ^ 16 = omega arith in
    let g : c * 2 ^ 8 % 2 ^ 32 ≡ c * 2 ^ 8 = omega arith in
    let top : a * 2 ^ 24 + b * 2 ^ 16 ≡ (a * 2 ^ 8 + b) * 2 ^ 16 = omega arith in
    let mid : (a * 2 ^ 8 + b) * 2 ^ 16 + c * 2 ^ 8 ≡ (a * 2 ^ 16 + b * 2 ^ 8 + c) * 2 ^ 8 =
      omega arith in
    rw
      (
        e,
        f,
        g,
        bit_or_add 24 a (b * 2 ^ 16) (omega arith),
        top,
        bit_or_add 16 (a * 2 ^ 8 + b) (c * 2 ^ 8) (omega arith),
        mid,
        bit_or_add 8 (a * 2 ^ 16 + b * 2 ^ 8 + c) (n % 256) (omega arith),
      )
      (omega arith)

pub big_endian_24-octets :
    (n : ℕ) → n < 2 ^ 24 → big_endian_24 (n / 2 ^ 16 % 256) (n / 2 ^ 8 % 256) (n % 256) ≡ n
unfolding big_endian_24
big_endian_24-octets n h =
    let b = n / 2 ^ 16 % 256 in
    let c = n / 2 ^ 8 % 256 in
    let mid : b * 2 ^ 16 + c * 2 ^ 8 ≡ (b * 2 ^ 8 + c) * 2 ^ 8 = omega arith in
    rw
      (
        bit_or_add 16 b (c * 2 ^ 8) (omega arith),
        mid,
        bit_or_add 8 (b * 2 ^ 8 + c) (n % 256) (omega arith),
      )
      (omega arith)

pub big_endian_16-octets : (n : ℕ) → n < 2 ^ 16 → big_endian_16 (n / 2 ^ 8 % 256) (n % 256) ≡ n
unfolding big_endian_16
big_endian_16-octets n h =
    let e : n / 2 ^ 8 % 256 * 2 ^ 8 % 2 ^ 16 ≡ n / 2 ^ 8 % 256 * 2 ^ 8 = omega arith in
    rw (e, bit_or_add 8 (n / 2 ^ 8 % 256) (n % 256) (omega arith)) (omega arith)
