-- ===== src/Asn1/Primitives/Signed.antt =====
-- `AppendInt` and `DecodeInt` on the bit patterns of int64 values.
use go_iec.Base.{
  ℕ, zero, suc, ◌+◌, ◌-◌, ◌*◌, ◌/◌, ◌%◌, ◌^◌, ◌≤◌, ◌<◌, ◌≡◌, refl, ◌∙◌, ap, bit_or, false, List, [],
  ◌++◌, length, ltb, if◌then◌else◌, Bool-cases, inl, inr, ok, ◌≢◌, arith,
}
use go_iec.Base.Bits.{bit_or_add}
use go_iec.Asn1.Primitives.{
  octets_from, shift_in, sar8, beyond_octet, sign_extend, int_size_loop, int_size, append_int,
  decode_int,
}
use go_iec.Asn1.Primitives.Unsigned.{length-octets_from}

-- `v >> (8 * i)` of an int64, which keeps the sign.
abbrev sar : ℕ → ℕ → ℕ
sar i v = if ltb v (2 ^ 63) then v / 2 ^ (i * 8) else v / 2 ^ (i * 8) + (2 ^ 64 - 2 ^ (64 - i * 8))

abbrev Below8 : (ℕ → Type 0) → Type 0
Below8 P = P 0 × P 1 × P 2 × P 3 × P 4 × P 5 × P 6 × P 7

-- A statement about 0 to 7 is proved at each.
at_each : (P : ℕ → Type 0) → Below8 P → (i : ℕ) → i < 8 → P i
at_each P h zero l = h.0
at_each P h (suc zero) l = h.1
at_each P h (suc (suc zero)) l = h.2
at_each P h (suc (suc (suc zero))) l = h.3
at_each P h (suc (suc (suc (suc zero)))) l = h.4
at_each P h (suc (suc (suc (suc (suc zero))))) l = h.5
at_each P h (suc (suc (suc (suc (suc (suc zero)))))) l = h.6
at_each P h (suc (suc (suc (suc (suc (suc (suc zero))))))) l = h.7
at_each P h (suc (suc (suc (suc (suc (suc (suc (suc i)))))))) l = absurd (omega arith)

-- One more round of shifting.
sar8-sar : (v i : ℕ) → v < 2 ^ 64 → i < 8 → sar8 (sar i v) ≡ sar (i + 1) v
sar8-sar v i h hi = at_each (λ i. sar8 (sar i v) ≡ sar (i + 1) v) each i hi
  where
    each : Below8 (λ i. sar8 (sar i v) ≡ sar (i + 1) v)
    each = (
      ground arith,
      ground arith,
      ground arith,
      ground arith,
      ground arith,
      ground arith,
      ground arith,
      ground arith,
    )

-- One octet shifted in again.
sar_step :
    (v i : ℕ) → v < 2 ^ 64 → i < 8 → sar (suc i) v * 256 % 2 ^ 64 + v / 2 ^ (i * 8) % 256 ≡ sar i v
sar_step v i h hi =
    at_each (λ i. sar (suc i) v * 256 % 2 ^ 64 + v / 2 ^ (i * 8) % 256 ≡ sar i v) each i hi
  where
    each : Below8 (λ i. sar (suc i) v * 256 % 2 ^ 64 + v / 2 ^ (i * 8) % 256 ≡ sar i v)
    each = (
      ground arith,
      ground arith,
      ground arith,
      ground arith,
      ground arith,
      ground arith,
      ground arith,
      ground arith,
    )

-- The first octet, where the value fits.
sign_extend-sar :
    (v i : ℕ)
    → v < 2 ^ 64
    → i < 8
    → beyond_octet (sar i v) ≡ false
    → sign_extend (v / 2 ^ (i * 8) % 256) ≡ sar i v
sign_extend-sar v i h hi =
    at_each (λ i. beyond_octet (sar i v) ≡ false → sign_extend (v / 2 ^ (i * 8) % 256) ≡ sar i v)
      each i hi
  where
    each :
        Below8 (λ i. beyond_octet (sar i v) ≡ false → sign_extend (v / 2 ^ (i * 8) % 256) ≡ sar i v)
    each = (
      λ b. ground arith,
      λ b. ground arith,
      λ b. ground arith,
      λ b. ground arith,
      λ b. ground arith,
      λ b. ground arith,
      λ b. ground arith,
      λ b. ground arith,
    )

sar_zero : (v : ℕ) → v < 2 ^ 64 → sar 0 v ≡ v
sar_zero v h = ground arith

shift_in-sar : (i v : ℕ) → v < 2 ^ 64 → i ≤ 8 → shift_in (sar i v) (octets_from i v) ≡ v
unfolding octets_from shift_in
shift_in-sar zero v h hi = sar_zero v h
shift_in-sar (suc i) v h hi =
    let next : bit_or (sar (suc i) v * 2 ^ 8 % 2 ^ 64) (v / 2 ^ (i * 8) % 256) ≡ sar i v =
      low_octet (sar (suc i) v) (v / 2 ^ (i * 8) % 256) (omega arith)
      ∙ sar_step v i h (omega arith) in
    ap (λ (t : ℕ). shift_in t (octets_from i v)) next ∙ shift_in-sar i v h (omega arith)
  where
    low_octet : (a b : ℕ) → b < 256 → bit_or (a * 2 ^ 8 % 2 ^ 64) b ≡ a * 256 % 2 ^ 64 + b
    low_octet a b hb =
        let e : a * 2 ^ 8 % 2 ^ 64 ≡ a % 2 ^ 56 * 2 ^ 8 = omega arith in
        rw e (omega (arith, bit_or_add 8 (a % 2 ^ 56) b hb))

last_fits : (v : ℕ) → v < 2 ^ 64 → beyond_octet (sar 7 v) ≡ false
last_fits v h = ground arith

-- After `k` rounds the loop of `IntSize` stops, at the latest after seven, and it stops at the first
-- chance.
int_size_loop_stops :
    (fuel j v : ℕ)
    → v < 2 ^ 64
    → j ≤ 7
    → fuel + j ≡ 8
    → (k : ℕ) × (int_size_loop fuel (sar j v) (j + 1) ≡ suc k)
      × (beyond_octet (sar k v) ≡ false)
      × (k ≤ 7)
unfolding int_size_loop
int_size_loop_stops zero j v h hj e = absurd (omega arith)
int_size_loop_stops (suc fuel) j v h hj e = elim (Bool-cases (beyond_octet (sar j v))) [
  | inl large ↦
      let lower : j ≢ 7 = λ q. cc (last_fits v h, ap (λ (t : ℕ). beyond_octet (sar t v)) q) in
      let (k, stops, fits, few) =
        int_size_loop_stops fuel (j + 1) v h (omega arith) (omega arith) in
      (k, rw (large, sar8-sar v j h (omega arith)) stops, fits, few)
  | inr small ↦ (j, rw small (omega arith), small, hj)
]

int_size_cases :
    (v : ℕ)
    → v < 2 ^ 64
    → (k : ℕ) × (int_size v ≡ suc k) × (beyond_octet (sar k v) ≡ false) × (k ≤ 7)
unfolding int_size
int_size_cases v h = rw (sar_zero v h) at (int_size_loop_stops 8 0 v h (omega arith) (omega arith))

decode_octets :
    (k v : ℕ)
    → v < 2 ^ 64
    → beyond_octet (sar k v) ≡ false
    → k ≤ 7
    → decode_int (octets_from (suc k) v) ≡ ok v
unfolding decode_int octets_from
decode_octets k v h fits hk =
    let few : ltb 8 (suc (length (octets_from k v))) ≡ false =
      ground (arith, length-octets_from k v) in
    rw (few, sign_extend-sar v k h (omega arith) fits, shift_in-sar k v h (omega arith))

-- `DecodeInt` reads back the int64 that `AppendInt` wrote.
pub decode_int-append_int : (v : ℕ) → v < 2 ^ 64 → decode_int (append_int [] v) ≡ ok v
unfolding append_int
decode_int-append_int v h =
    let (k, size, fits, few) = int_size_cases v h in rw size (decode_octets k v h fits few)

-- `AppendInt` keeps `dst` and appends the one to eight octets that `IntSize` says.
append_int_shape :
    (dst : List ℕ) (v : ℕ)
    → v < 2 ^ 64
    → (append_int dst v ≡ dst ++ append_int [] v)
      × (length (append_int [] v) ≡ int_size v)
      × (1 ≤ int_size v)
      × (int_size v ≤ 8)
unfolding append_int
append_int_shape dst v h =
    let (k, size, fits, few) = int_size_cases v h in
    (refl, length-octets_from (int_size v) v, omega arith, omega arith)
