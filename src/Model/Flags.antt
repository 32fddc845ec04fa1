-- ===== src/Model/Flags.antt =====
-- model/quality.go: flags of up to 16 bits and the bit strings that carry them. A flag word is a
-- uint8 or a uint16.

use go_iec.Base.{
  pos, ℕ, zero, suc, ◌+◌, ◌*◌, ◌/◌, ◌%◌, ◌^◌, ◌≤◌, ◌<◌, ◌≡◌, ◌⊎◌, refl, sym, ◌∙◌, ap, inl, inr,
  Bool, not, Bool-cases, All, replicate, length-replicate, ◌==◌, if◌then◌else◌, bit_and, bit_or,
  min, arith,
}
use go_iec.Base.Bits.{bit_and_bit, bit_or_bit}
use native.Mathlib.Nat.{pow-suc, mod-eq_of_lt, div-div-eq-div-mul, mod_def, div-add-mod'}
use go_iec.Mms.{Value, bit_string}
use go_iec.Mms.BitStrings.{bit, set_bit, bit-set_bit, IsPacked, set_bit-IsPacked}

-- `q & (1 << i) != 0`
abbrev pub has : ℕ → ℕ → Bool
has q i = not (bit_and q (2 ^ i) == 0)

-- `BitLen`
abbrev pub bit_length : Value → ℕ
bit_length (bit_string bytes n) = n
bit_length _ = 0

-- `NewBitString`
abbrev pub zero_bits : ℕ → Value
zero_bits n = bit_string (replicate ((n + 7) / 8) 0) n

-- The loop of the `Value` methods, after i rounds.
unfoldable pub set_flags : ℕ → ℕ → Value → Value
set_flags zero q v = v
set_flags (suc i) q v = set_bit (set_flags i q v) (pos i) (has q i)

-- The loop of the `FromValue` functions, after i rounds.
unfoldable pub collect : ℕ → Value → ℕ
collect zero v = 0
collect (suc i) v = let o = collect i v in if bit v (pos i) then bit_or o (2 ^ i) else o

unfoldable pub flags_value : ℕ → ℕ → Value
flags_value n q = set_flags n q (zero_bits n)

unfoldable pub flags_from_value : ℕ → Value → ℕ
flags_from_value n v = collect (min n (bit_length v)) v

-- `TrgOps.Value`, `OptFlds.Value`, `ReasonCode.Value`, `Quality.Value` and the functions back.
unfoldable pub trg_ops_value : ℕ → Value
trg_ops_value t = flags_value 6 t

unfoldable pub opt_flds_value : ℕ → Value
opt_flds_value o = flags_value 10 o

unfoldable pub reason_value : ℕ → Value
reason_value r = flags_value 7 r

unfoldable pub quality_value : ℕ → Value
quality_value q = flags_value 13 q

unfoldable pub trg_ops_from_value : Value → ℕ
trg_ops_from_value v = flags_from_value 6 v

unfoldable pub opt_flds_from_value : Value → ℕ
opt_flds_from_value v = flags_from_value 10 v

unfoldable pub reason_from_value : Value → ℕ
reason_from_value v = flags_from_value 7 v

unfoldable pub quality_from_value : Value → ℕ
quality_from_value v = flags_from_value 16 v

zeros_range : (k : ℕ) → All (λ b. b < 256) (replicate k 0)
zeros_range zero = tt
zeros_range (suc k) = (omega arith, zeros_range k)

set_flags-IsPacked : (i n q : ℕ) → IsPacked n (set_flags i q (zero_bits n))
unfolding set_flags
set_flags-IsPacked zero n q =
    (replicate ((n + 7) / 8) 0, refl, zeros_range ((n + 7) / 8), length-replicate ((n + 7) / 8) 0)
set_flags-IsPacked (suc i) n q =
    set_bit-IsPacked (set_flags i q (zero_bits n)) n i (has q i) (set_flags-IsPacked i n q)

-- A bit of what the loop has written, below the bits it has come to.
bit-set_flags : (i n q j : ℕ) → i ≤ n → j < i → bit (set_flags i q (zero_bits n)) (pos j) ≡ has q j
unfolding set_flags
bit-set_flags zero n q j h k = absurd (omega arith)
bit-set_flags (suc i) n q j h k =
    let (bytes, e, all, size) = set_flags-IsPacked i n q in
    let now = bit-set_bit bytes n i j (has q i) all size in
    let before : (j ≡ i) ⊎ (j < i) = elim (Bool-cases (i == j)) [
      | inl b ↦ inl (ground arith)
      | inr b ↦ inr (ground arith)
    ] in
    rw e (
      now ∙ elim before [
        | inl same ↦ ground (arith, same)
        | inr less ↦ ground (arith, sym e, bit-set_flags i n q j (omega arith) less)
      ])

mod_step : (k a : ℕ) → a % 2 ^ suc k ≡ a / 2 ^ k % 2 * 2 ^ k + a % 2 ^ k
mod_step k a =
    let m = 2 ^ k in
    let q = a / m in
    let half : a / (m * 2) ≡ q / 2 = sym (div-div-eq-div-mul a m 2) in
    let halves : q ≡ q / 2 * 2 + q % 2 = omega arith in
    let parts : q * m ≡ (q / 2 * 2 + q % 2) * m = ap (λ (t : ℕ). t * m) halves in
    rw (pow-suc 2 k, mod_def a (m * 2), half) (omega (arith, parts, div-add-mod' a m))

set_one :
    (n r : ℕ) → r < 2 ^ n → (if not (1 * 2 ^ n == 0) then bit_or r (2 ^ n) else r) ≡ 1 * 2 ^ n + r
set_one n r h = ground (arith, bit_or_bit n r h)

-- The lowest n bits, collected from a value that has them.
collect-has :
    (n q : ℕ) (v : Value) → ((j : ℕ) → j < n → bit v (pos j) ≡ has q j) → collect n v ≡ q % 2 ^ n
unfolding collect
collect-has zero q v h = omega arith
collect-has (suc n) q v h =
    let low = collect-has n q v (λ j k. h j (omega arith)) in
    let digit : (q / 2 ^ n % 2 ≡ 0) ⊎ (q / 2 ^ n % 2 ≡ 1) = omega arith in
    let here : bit v (pos n) ≡ has q n = h n (omega arith) in
    rw (low, here, bit_and_bit n q, mod_step n q)
      (elim digit [
        | inl zero_digit ↦ rw zero_digit (ground arith)
        | inr one_digit ↦ rw one_digit (set_one n (q % 2 ^ n) (omega arith))
      ])

bit_length-set_flags : (i n q : ℕ) → bit_length (set_flags i q (zero_bits n)) ≡ n
bit_length-set_flags i n q = let (bytes, e, all, size) = set_flags-IsPacked i n q in rw e refl

-- A flag word that n bits write is read back by a reader of at most m bits, if it reads that many.
flags_from_value-flags_value :
    (m n q : ℕ) → n ≤ m → q < 2 ^ n → flags_from_value m (flags_value n q) ≡ q
unfolding flags_from_value flags_value
flags_from_value-flags_value m n q h small =
    let rounds : min m n ≡ n = omega arith in
    let read =
      collect-has n q (set_flags n q (zero_bits n))
        (λ j k. bit-set_flags n n q j (omega arith) k) in
    rw (bit_length-set_flags n n q, rounds, read) (mod-eq_of_lt small)

-- What `Value` writes of trigger options below 2 ^ 6, optional fields below 2 ^ 10, reasons below
-- 2 ^ 7 and a quality below 2 ^ 13 as a bit string, the `FromValue` function of the type reads back.
pub flags-round_trip :
    (t o r q : ℕ)
    → t < 2 ^ 6
    → o < 2 ^ 10
    → r < 2 ^ 7
    → q < 2 ^ 13
    → (trg_ops_from_value (trg_ops_value t) ≡ t)
      × (opt_flds_from_value (opt_flds_value o) ≡ o)
      × (reason_from_value (reason_value r) ≡ r)
      × (quality_from_value (quality_value q) ≡ q)
unfolding trg_ops_from_value trg_ops_value opt_flds_from_value opt_flds_value reason_from_value
    reason_value quality_from_value quality_value
flags-round_trip t o r q ht ho hr hq = (
  flags_from_value-flags_value 6 6 t (omega arith) ht,
  flags_from_value-flags_value 10 10 o (omega arith) ho,
  flags_from_value-flags_value 7 7 r (omega arith) hr,
  flags_from_value-flags_value 16 13 q (omega arith) hq,
)
