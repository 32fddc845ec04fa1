-- ===== src/Base/Digits.antt =====
-- The binary digits of a number, the lowest first, and what the operations on masks do to them.
use Prim.Native.Nat.{ℕ, zero, suc, ◌+◌, ◌-◌, ◌*◌, ◌/◌, ◌%◌, ◌^◌, ◌<◌, max, bit_and, bit_or}
use mathlib.Core.Path.{◌≡◌, refl, ap, sym, ◌∙◌}
use native.Mathlib.Omega.{arith}
use native.Mathlib.Nat.{pow-suc, div-add-mod'}
use go_iec.Base.Bits.{bit_and_step, bit_or_step, bit_and-zero}
use go_iec.Base.Tests.{ltb, if◌then◌else◌, ◌==◌}

pub digit : ℕ → ℕ → ℕ
digit zero a = a % 2
digit (suc i) a = digit i (a / 2)

pub digit_bound : (i a : ℕ) → digit i a < 2
unfolding digit
digit_bound zero a = omega arith
digit_bound (suc i) a = digit_bound i (a / 2)

pub digit-zero : (i : ℕ) → digit i 0 ≡ 0
unfolding digit
digit-zero zero = refl
digit-zero (suc i) = digit-zero i

pub digit-or : (i a b : ℕ) → digit i (bit_or a b) ≡ max (digit i a) (digit i b)
unfolding digit
digit-or zero a b = omega (arith, bit_or_step a b)
digit-or (suc i) a b =
    let half : bit_or a b / 2 ≡ bit_or (a / 2) (b / 2) = omega (arith, bit_or_step a b) in
    rw half (digit-or i (a / 2) (b / 2))

double : (k a : ℕ) → a * 2 ^ suc k ≡ a * 2 ^ k * 2
double k a = omega (arith, ap (λ (t : ℕ). a * t) (pow-suc 2 k))

-- The digits of `a * 2 ^ k`, those of `a` moved up.
pub digit-shift : (k i a : ℕ) → digit i (a * 2 ^ k) ≡ (if ltb i k then 0 else digit (i - k) a)
unfolding digit
digit-shift zero i a =
    let e : a * 1 ≡ a = omega arith in let f : i - 0 ≡ i = omega arith in rw (e, f) (ground arith)
digit-shift (suc k) zero a = rw (double k a) (ground arith)
digit-shift (suc k) (suc i) a =
    let half : a * 2 ^ k * 2 / 2 ≡ a * 2 ^ k = omega arith in
    let less : suc i - suc k ≡ i - k = omega arith in
    rw (double k a, half, digit-shift k i a, less) (ground arith)

-- The digits below `w` do not see what is added at `2 ^ w`.
digit-above : (w i q r : ℕ) → i < w → digit i (q * 2 ^ w + r) ≡ digit i r
unfolding digit
digit-above zero i q r h = absurd (omega arith)
digit-above (suc w) zero q r h = rw (double w q) (omega arith)
digit-above (suc w) (suc i) q r h =
    let half : (q * 2 ^ w * 2 + r) / 2 ≡ q * 2 ^ w + r / 2 = omega arith in
    rw (double w q, half) (digit-above w i q (r / 2) (omega arith))

pub digit-mod : (w i a : ℕ) → i < w → digit i (a % 2 ^ w) ≡ digit i a
digit-mod w i a h =
    sym (digit-above w i (a / 2 ^ w) (a % 2 ^ w) h) ∙ ap (digit i) (div-add-mod' a (2 ^ w))

pub digit-one : (i : ℕ) → digit i 1 ≡ (if i == 0 then 1 else 0)
unfolding digit
digit-one zero = refl
digit-one (suc i) = ground (arith, digit-zero i)

pub digit-pow : (k i : ℕ) → digit i (2 ^ k) ≡ (if i == k then 1 else 0)
digit-pow k i =
    let e : 1 * 2 ^ k ≡ 2 ^ k = omega arith in
    rw (← e, digit-shift k i 1, digit-one (i - k)) (ground arith)

-- A mask of one digit meets the digit or nothing.
pub bit_and-pow : (k a : ℕ) → (bit_and a (2 ^ k) == 0) ≡ (digit k a == 0)
unfolding digit
bit_and-pow zero a = ground (arith, bit_and_step a 1, bit_and-zero (a / 2))
bit_and-pow (suc k) a =
    let half : 2 ^ suc k / 2 ≡ 2 ^ k = omega (arith, pow-suc 2 k) in
    let even : 2 ^ suc k % 2 ≡ 0 = omega (arith, pow-suc 2 k) in
    let halves = ap (λ (t : ℕ). bit_and (a / 2) t) half in
    let met : bit_and a (2 ^ suc k) ≡ bit_and (a / 2) (2 ^ k) * 2 =
      omega (arith, bit_and_step a (2 ^ suc k), halves) in
    rw (met, ← bit_and-pow k (a / 2)) (ground arith)
