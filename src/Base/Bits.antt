-- ===== src/Base/Bits.antt =====
-- Laws of `bit_and` and `bit_or` at variables, from the digit recursion that they stand for.
use Prim.Native.Nat.{
  ℕ, zero, suc, ◌+◌, ◌*◌, ◌/◌, ◌%◌, ◌^◌, ◌≤◌, ◌<◌, min, max, bit_and, bit_or, digits,
  bit_and-bitwise, bit_or-bitwise,
}
use mathlib.Core.Path.{◌≡◌, refl, ap, ◌∙◌}
use native.Mathlib.Omega.{arith}
use native.Mathlib.Nat.{pow-suc, mul_comm, div-div-eq-div-mul}

-- The digit recursion behind both operations: `low` says what the first number's end gives, `meet`
-- what two digits give.
module _ (low : ℕ → ℕ) (meet : ℕ → ℕ → ℕ) where
  abbrev walk : ℕ → ℕ → ℕ → ℕ
  walk fuel x y = digits low meet fuel x y

  -- Fuel that is enough does not matter.
  walk-any : (i j x y : ℕ) → x ≤ min i j → walk i x y ≡ walk j x y
  walk-any zero zero x y h = refl
  walk-any zero (suc j) zero y h = refl
  walk-any zero (suc j) (suc x) y h = absurd (omega arith)
  walk-any (suc i) zero zero y h = refl
  walk-any (suc i) zero (suc x) y h = absurd (omega arith)
  walk-any (suc i) (suc j) zero y h = refl
  walk-any (suc i) (suc j) (suc x) y h =
      ap (λ (high : ℕ). high * 2 + meet (suc x % 2) (y % 2))
        (walk-any i j (suc x / 2) (y / 2) (omega arith))

pub bit_and_step : (a b : ℕ) → bit_and a b ≡ bit_and (a / 2) (b / 2) * 2 + min (a % 2) (b % 2)
bit_and_step zero b = omega (arith, bit_and-bitwise 0 b, bit_and-bitwise 0 (b / 2))
bit_and_step (suc a) b =
    let half = suc a / 2 in
    let same = walk-any (λ _. 0) min a half half (b / 2) (omega arith) in
    omega (arith, same, bit_and-bitwise half (b / 2), bit_and-bitwise (suc a) b)

pub bit_or_step : (a b : ℕ) → bit_or a b ≡ bit_or (a / 2) (b / 2) * 2 + max (a % 2) (b % 2)
bit_or_step zero b = omega (arith, bit_or-bitwise 0 b, bit_or-bitwise 0 (b / 2))
bit_or_step (suc a) b =
    let half = suc a / 2 in
    let same = walk-any (λ y. y) max a half half (b / 2) (omega arith) in
    omega (arith, same, bit_or-bitwise half (b / 2), bit_or-bitwise (suc a) b)

and_walk : (i x : ℕ) → walk (λ _. 0) min i x 0 ≡ 0
and_walk zero x = refl
and_walk (suc i) zero = refl
and_walk (suc i) (suc x) = omega (arith, and_walk i (suc x / 2))

or_walk : (i x : ℕ) → x ≤ i → walk (λ y. y) max i x 0 ≡ x
or_walk zero x h = omega arith
or_walk (suc i) zero h = refl
or_walk (suc i) (suc x) h = omega (arith, or_walk i (suc x / 2) (omega arith))

pub bit_and-zero : (a : ℕ) → bit_and a 0 ≡ 0
bit_and-zero a = bit_and-bitwise a 0 ∙ and_walk a a

bit_or-zero : (a : ℕ) → bit_or a 0 ≡ a
bit_or-zero a = bit_or-bitwise a 0 ∙ or_walk a a (omega arith)

bit_or_double : (q b : ℕ) → bit_or (q * 2) b ≡ bit_or q (b / 2) * 2 + b % 2
bit_or_double q b = let half : q * 2 / 2 ≡ q = omega arith in ground (arith, bit_or_step (q * 2) b)

or_even : (a q : ℕ) → bit_or a (q * 2) ≡ bit_or (a / 2) q * 2 + a % 2
or_even a q = let half : q * 2 / 2 ≡ q = omega arith in ground (arith, bit_or_step a (q * 2))

bit_and_double : (a q : ℕ) → bit_and a (q * 2) ≡ bit_and (a / 2) q * 2
bit_and_double a q =
    let half : q * 2 / 2 ≡ q = omega arith in ground (arith, bit_and_step a (q * 2))

bit_and_odd : (a q : ℕ) → bit_and a (q * 2 + 1) ≡ bit_and (a / 2) q * 2 + a % 2
bit_and_odd a q =
    let half : (q * 2 + 1) / 2 ≡ q = omega arith in ground (arith, bit_and_step a (q * 2 + 1))

-- Bits that do not overlap add up.
pub bit_or_add : (k a b : ℕ) → b < 2 ^ k → bit_or (a * 2 ^ k) b ≡ a * 2 ^ k + b
bit_or_add zero a b h =
    let none_left : b ≡ 0 = omega arith in rw none_left (omega (arith, bit_or-zero (a * 1)))
bit_or_add (suc k) a b h =
    let doubled : a * 2 ^ suc k ≡ a * 2 ^ k * 2 =
      omega (arith, ap (λ (t : ℕ). a * t) (pow-suc 2 k)) in
    rw doubled (
      omega
        (arith, bit_or_double (a * 2 ^ k) b, bit_or_add k a (b / 2) (omega (arith, pow-suc 2 k))))

bit_or_comm_below : (n a b : ℕ) → a ≤ n → b ≤ n → bit_or a b ≡ bit_or b a
bit_or_comm_below zero a b h k =
    let left : a ≡ 0 = omega arith in let right : b ≡ 0 = omega arith in rw (left, right) refl
bit_or_comm_below (suc n) a b h k =
    let below = bit_or_comm_below n (a / 2) (b / 2) (omega arith) (omega arith) in
    omega (arith, bit_or_step a b, bit_or_step b a, below)

-- A bit above a number.
pub bit_or_bit : (k b : ℕ) → b < 2 ^ k → bit_or b (2 ^ k) ≡ 2 ^ k + b
bit_or_bit k b h =
    let added : bit_or (1 * 2 ^ k) b ≡ 1 * 2 ^ k + b = bit_or_add k 1 b h in
    let one : 1 * 2 ^ k ≡ 2 ^ k = omega arith in
    bit_or_comm_below (b + 2 ^ k) b (2 ^ k) (omega arith) (omega arith) ∙ (rw one at added)

-- A mask of one bit.
pub bit_and_bit : (k a : ℕ) → bit_and a (2 ^ k) ≡ a / 2 ^ k % 2 * 2 ^ k
bit_and_bit zero a = omega (arith, bit_and_step a 1, bit_and-zero (a / 2))
bit_and_bit (suc k) a =
    rw
      (pow-suc 2 k, bit_and_double a (2 ^ k), bit_and_bit k (a / 2), div-div-eq-div-mul a 2 (2 ^ k))
      (omega (arith, mul_comm (2 ^ k) 2, ap (λ (t : ℕ). a / t % 2 * t) (mul_comm (2 ^ k) 2)))

-- The masks that the codecs use.
pub mask_1f : (a : ℕ) → bit_and a 0x1f ≡ a % 32
mask_1f a = omega (
  arith,
  bit_and_odd a 15,
  bit_and_odd (a / 2) 7,
  bit_and_odd (a / 2 / 2) 3,
  bit_and_odd (a / 2 / 2 / 2) 1,
  bit_and_odd (a / 2 / 2 / 2 / 2) 0,
  bit_and-zero (a / 2 / 2 / 2 / 2 / 2),
)

pub mask_7f : (a : ℕ) → bit_and a 0x7f ≡ a % 128
mask_7f a = omega (arith, bit_and_odd a 63, bit_and_odd (a / 2) 31, mask_1f (a / 2 / 2))

pub mask_80 : (a : ℕ) → bit_and a 0x80 ≡ a / 128 % 2 * 128
mask_80 a = bit_and_bit 7 a

pub mask_20 : (a : ℕ) → bit_and a 0x20 ≡ a / 32 % 2 * 32
mask_20 a = bit_and_bit 5 a

-- Setting the top bit of a byte whose top bit is clear.
pub set_80 : (b : ℕ) → b < 128 → bit_or b 0x80 ≡ b + 128
set_80 b h = omega (
  arith,
  or_even b 64,
  or_even (b / 2) 32,
  or_even (b / 2 / 2) 16,
  or_even (b / 2 / 2 / 2) 8,
  or_even (b / 2 / 2 / 2 / 2) 4,
  or_even (b / 2 / 2 / 2 / 2 / 2) 2,
  or_even (b / 2 / 2 / 2 / 2 / 2 / 2) 1,
  bit_or_step (b / 2 / 2 / 2 / 2 / 2 / 2 / 2) 1,
  bit_or-zero (b / 2 / 2 / 2 / 2 / 2 / 2 / 2 / 2),
)
