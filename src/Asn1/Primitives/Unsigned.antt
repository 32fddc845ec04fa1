-- ===== src/Asn1/Primitives/Unsigned.antt =====
-- `AppendUint` and `DecodeUint`.
use go_iec.Base.{
  ℕ, zero, suc, ◌+◌, ◌*◌, ◌/◌, ◌%◌, ◌^◌, ◌≤◌, ◌<◌, ◌≡◌, refl, ◌∙◌, ap, List, [], ◌∷◌, ◌++◌, length,
  get_or, ◌≢◌, ltb, Bool-cases, inl, inr, ok, arith,
}
use go_iec.Base.Bits.{bit_or_add}
use native.Mathlib.Numerals.{towards_suc}
use native.Mathlib.Nat.{div-div-eq-div-mul}
use go_iec.Asn1.Primitives.{
  octets_from, shift_in, uint_size_loop, uint_size, append_uint, decode_uint,
}

pub length-octets_from : (n v : ℕ) → length (octets_from n v) ≡ n
unfolding octets_from
length-octets_from zero v = refl
length-octets_from (suc i) v = ap suc (length-octets_from i v)

-- Eight more bits.
pow_eight : (i : ℕ) → 2 ^ (suc i * 8) ≡ 2 ^ (i * 8) * 256
pow_eight i = let e : suc i * 8 ≡ i * 8 + 8 = omega arith in rw e (simp towards_suc (omega arith))

shift_eight : (i v : ℕ) → v / 2 ^ (suc i * 8) ≡ v / 2 ^ (i * 8) / 256
shift_eight i v = rw (pow_eight i, div-div-eq-div-mul v (2 ^ (i * 8)) 256)

shift_in_step :
    (v b : ℕ) (bs : List ℕ) → v < 2 ^ 56 → b < 256 → shift_in v (b ∷ bs) ≡ shift_in (v * 256 + b) bs
unfolding shift_in
shift_in_step v b bs hv hb = ground (arith, bit_or_add 8 v b hb)

shift-le : (i v : ℕ) → v / 2 ^ (i * 8) ≤ v
shift-le zero v = omega arith
shift-le (suc i) v = omega (arith, shift_eight i v, shift-le i v)

-- From the bits of `v` above the lowest `i` octets, those octets make `v`.
pub shift_in-octets_from : (i v : ℕ) → v < 2 ^ 64 → shift_in (v / 2 ^ (i * 8)) (octets_from i v) ≡ v
unfolding octets_from
shift_in-octets_from zero v h = unfold shift_in in omega arith
shift_in-octets_from (suc i) v h =
    shift_in_step (v / 2 ^ (suc i * 8)) (v / 2 ^ (i * 8) % 256) (octets_from i v)
      (omega (arith, shift_eight i v, shift-le i v)) (omega arith)
    ∙ ap (λ (t : ℕ). shift_in t (octets_from i v)) (omega (arith, shift_eight i v))
    ∙ shift_in-octets_from i v h

below : (j v : ℕ) → v < 2 ^ 64 → j ≤ 8 → 0x7f < v / 2 ^ (j * 8) → j < 8
below j v h hj large = let short : j ≢ 8 = λ e. not_far v h (rw e at large) in omega arith
  where
    not_far : (v : ℕ) → v < 2 ^ 64 → 0x7f < v / 2 ^ (8 * 8) → ⊥
    not_far v h large = omega arith

-- After `k` rounds the loop of `UintSize` stops, at the latest after eight.
uint_size_loop_stops :
    (fuel j v : ℕ)
    → v < 2 ^ 64
    → j ≤ 8
    → fuel + j ≡ 9
    → (k : ℕ) × (uint_size_loop fuel (v / 2 ^ (j * 8)) (j + 1) ≡ suc k)
      × (v / 2 ^ (k * 8) < 128)
      × (k ≤ 8)
unfolding uint_size_loop
uint_size_loop_stops zero j v h hj e = absurd (omega arith)
uint_size_loop_stops (suc fuel) j v h hj e = elim (Bool-cases (ltb 0x7f (v / 2 ^ (j * 8)))) [
  | inl large ↦
      let (k, stops, small, few) =
        uint_size_loop_stops fuel (suc j) v h (below j v h hj (ground arith)) (omega arith) in
      (k, ground (arith, shift_eight j v, stops, large), small, few)
  | inr small ↦ (j, ground (arith, small), ground arith, hj)
]

uint_size_cases :
    (v : ℕ) → v < 2 ^ 64 → (k : ℕ) × (uint_size v ≡ suc k) × (v / 2 ^ (k * 8) < 128) × (k ≤ 8)
unfolding uint_size
uint_size_cases v h =
    let start : v / 2 ^ (0 * 8) ≡ v = omega arith in
    rw start at (uint_size_loop_stops 9 0 v h (omega arith) (omega arith))

decode_octets :
    (k v : ℕ)
    → v < 2 ^ 64
    → v / 2 ^ (k * 8) < 128
    → k ≤ 8
    → decode_uint (octets_from (suc k) v) ≡ ok v
unfolding decode_uint octets_from
decode_octets k v h top hk = ground (
  arith,
  length-octets_from k v,
  nine_zero k v h,
  shift_in_step 0 (v / 2 ^ (k * 8) % 256) (octets_from k v),
  shift_in-octets_from k v h,
)
  where
    nine_zero : (k v : ℕ) → v < 2 ^ 64 → k ≡ 8 → v / 2 ^ (k * 8) % 256 ≡ 0
    nine_zero k v h e = rw e (omega arith)

-- `DecodeUint` reads back the uint64 that `AppendUint` wrote.
pub decode_uint-append_uint : (v : ℕ) → v < 2 ^ 64 → decode_uint (append_uint [] v) ≡ ok v
unfolding append_uint
decode_uint-append_uint v h =
    let (k, size, top, few) = uint_size_cases v h in rw size (decode_octets k v h top few)

-- `AppendUint` keeps `dst` and appends one to nine octets, the first of them below 0x80, so that it
-- does not read as a sign.
append_uint_shape :
    (dst : List ℕ) (v : ℕ)
    → v < 2 ^ 64
    → (append_uint dst v ≡ dst ++ append_uint [] v)
      × (length (append_uint [] v) ≡ uint_size v)
      × (1 ≤ uint_size v)
      × (uint_size v ≤ 9)
      × (get_or (append_uint [] v) 0 0 < 0x80)
unfolding append_uint
append_uint_shape dst v h =
    let (k, size, top, few) = uint_size_cases v h in
    (
      refl,
      length-octets_from (uint_size v) v,
      omega arith,
      omega arith,
      rw size (unfold octets_from in omega arith),
    )
