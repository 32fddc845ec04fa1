-- ===== src/Mms/BitStrings.antt =====
-- mms/value.go: the bits of a bit string. Its octets are those that its length needs, since only the
-- constructors set them, so that no access is out of range.
use go_iec.Base.{
  ℤ, pos, ℕ, zero, suc, ◌+◌, ◌-◌, ◌/◌, ◌%◌, ◌^◌, ◌<◌, ◌≡◌, ◌≢◌, refl, sym, inl, inr, Bool, true,
  false, not, ◌&&◌, Bool-cases, List, [], ◌∷◌, All, get_or, set, get_or-set_self, get_or-set_ne,
  length, length-set, ltb, ◌==◌, if◌then◌else◌, bit_and, bit_or, arith,
}
use go_iec.Asn1.Decoder.{bool_eq}
use go_iec.Mms.{Value, bit_string}

-- `b & (0x80 >> i) != 0`
abbrev octet_bit : ℕ → ℕ → Bool
octet_bit b i = not (bit_and b (0x80 / 2 ^ i) == 0)

-- `b |= 0x80 >> i`, or `b &^= 0x80 >> i`.
abbrev with_octet_bit : ℕ → ℕ → Bool → ℕ
with_octet_bit b i on = if on then bit_or b (0x80 / 2 ^ i) else b - bit_and b (0x80 / 2 ^ i)

-- `Bit`
unfoldable pub bit : Value → ℤ → Bool
bit (bit_string bytes n) (pos i) =
    if ltb i n then octet_bit (get_or bytes (i / 8) 0) (i % 8) else false
bit _ _ = false

-- `SetBit`
unfoldable pub set_bit : Value → ℤ → Bool → Value
set_bit (bit_string bytes n) (pos i) on =
    if ltb i n
    then bit_string (set bytes (i / 8) (with_octet_bit (get_or bytes (i / 8) 0) (i % 8) on)) n
    else bit_string bytes n
set_bit v _ on = v

abbrev all_below : ℕ → (ℕ → Bool) → Bool
all_below zero p = true
all_below (suc n) p = p n && all_below n p

all_below-get : (n : ℕ) (p : ℕ → Bool) → all_below n p ≡ true → (i : ℕ) → i < n → p i ≡ true
all_below-get zero p h i k = absurd (omega arith)
all_below-get (suc n) p h i k = ground (arith, all_below-get n p _ i)

-- On all octets and all bits: the bit that was set is read, and the others stay.
abbrev octet_ok : Bool → ℕ → ℕ → ℕ → Bool
octet_ok on i j b =
    bool_eq (octet_bit (with_octet_bit b i on) j) (if i == j then on else octet_bit b j)

octet_table :
    (on : Bool) → all_below 8 (λ i. all_below 8 (λ j. all_below 256 (octet_ok on i j))) ≡ true
unfolding bool_eq
octet_table true = refl
octet_table false = refl

octet_bit-with_octet_bit :
    (on : Bool) (i j b : ℕ)
    → i < 8
    → j < 8
    → b < 256
    → octet_bit (with_octet_bit b i on) j ≡ (if i == j then on else octet_bit b j)
unfolding bool_eq
octet_bit-with_octet_bit on i j b hi hj hb =
    let rows =
      all_below-get 8 (λ k. all_below 8 (λ l. all_below 256 (octet_ok on k l))) (octet_table on) i
        hi in
    let cells = all_below-get 8 (λ l. all_below 256 (octet_ok on i l)) rows j hj in
    let ok = all_below-get 256 (octet_ok on i j) cells b hb in
    bool_eq→eq (octet_bit (with_octet_bit b i on) j) (if i == j then on else octet_bit b j) ok
  where
    bool_eq→eq : (a b : Bool) → bool_eq a b ≡ true → a ≡ b
    bool_eq→eq true b h = sym h
    bool_eq→eq false true h = h
    bool_eq→eq false false h = refl

get_or-All : (xs : List ℕ) (i : ℕ) → All (λ x. x < 256) xs → get_or xs i 0 < 256
get_or-All [] i h = omega arith
get_or-All (x ∷ xs) zero (h, hs) = h
get_or-All (x ∷ xs) (suc i) (h, hs) = get_or-All xs i hs

abbrev bit_at : List ℕ → ℕ → Bool
bit_at bytes j = octet_bit (get_or bytes (j / 8) 0) (j % 8)

bit_at-set :
    (bytes : List ℕ) (i j : ℕ) (on : Bool)
    → All (λ b. b < 256) bytes
    → i / 8 < length bytes
    → bit_at (set bytes (i / 8) (with_octet_bit (get_or bytes (i / 8) 0) (i % 8) on)) j
      ≡ (if i == j then on else bit_at bytes j)
bit_at-set bytes i j on range h =
    let b = get_or bytes (i / 8) 0 in
    let v = with_octet_bit b (i % 8) on in
    elim (Bool-cases (i / 8 == j / 8)) [
      | inl e ↦
          let same : j / 8 ≡ i / 8 = ground (arith, e) in
          rw
            (
              same,
              get_or-set_self bytes (i / 8) v 0 h,
              octet_bit-with_octet_bit on (i % 8) (j % 8) b (omega arith) (omega arith)
                  (get_or-All bytes (i / 8) range),
            )
            (ground (arith, same))
      | inr e ↦
          let apart : i / 8 ≢ j / 8 = λ k. ground (arith, e, k) in
          rw (get_or-set_ne bytes (i / 8) (j / 8) v 0 apart) (ground (arith, e))
    ]

-- On a bit string whose octets are below 256 and as many as its bits need: after `SetBit` at an index
-- in range, `Bit` reads there the bit that was set, and at every other index what it read before;
-- beyond the range, `SetBit` changes nothing.
pub bit-set_bit :
    (bytes : List ℕ) (n i j : ℕ) (on : Bool)
    → All (λ b. b < 256) bytes
    → length bytes ≡ (n + 7) / 8
    → bit (set_bit (bit_string bytes n) (pos i) on) (pos j)
      ≡ (if ltb i n && i == j then on else bit (bit_string bytes n) (pos j))
unfolding bit set_bit
bit-set_bit bytes n i j on range size = elim (Bool-cases (ltb i n)) [
  | inl inside ↦ ground (arith, inside, bit_at-set bytes i j on range (ground (arith, inside)))
  | inr outside ↦ ground (arith, outside)
]

-- A bit string of n bits, in octets that are as many as its bits need.
abbrev pub IsPacked : ℕ → Value → Type 0
IsPacked n v =
    (bytes : List ℕ) × (v ≡ bit_string bytes n)
    × All (λ b. b < 256) bytes
    × (length bytes ≡ (n + 7) / 8)

range_table :
    (on : Bool) → all_below 8 (λ i. all_below 256 (λ b. ltb (with_octet_bit b i on) 256)) ≡ true
range_table true = refl
range_table false = refl

ltb→lt : (a b : ℕ) → ltb a b ≡ true → a < b
ltb→lt a b h = ground arith

with_octet_bit_range : (b i : ℕ) (on : Bool) → b < 256 → i < 8 → with_octet_bit b i on < 256
with_octet_bit_range b i on hb hi =
    let rows =
      all_below-get 8 (λ k. all_below 256 (λ c. ltb (with_octet_bit c k on) 256)) (range_table on) i
        hi in
    let cell = all_below-get 256 (λ c. ltb (with_octet_bit c i on) 256) rows b hb in
    ltb→lt (with_octet_bit b i on) 256 cell

All-set :
    (bytes : List ℕ) (i v : ℕ)
    → v < 256
    → All (λ b. b < 256) bytes
    → All (λ b. b < 256) (set bytes i v)
All-set [] i v h all = tt
All-set (x ∷ xs) zero v h (_, all) = (h, all)
All-set (x ∷ xs) (suc i) v h (g, all) = (g, All-set xs i v h all)

pub set_bit-IsPacked :
    (v : Value) (n i : ℕ) (on : Bool) → IsPacked n v → IsPacked n (set_bit v (pos i) on)
unfolding set_bit
set_bit-IsPacked v n i on (bytes, e, all, size) = elim (Bool-cases (ltb i n)) [
  | inl inside ↦
      let b = with_octet_bit (get_or bytes (i / 8) 0) (i % 8) on in
      let small =
        with_octet_bit_range (get_or bytes (i / 8) 0) (i % 8) on (get_or-All bytes (i / 8) all)
          (omega arith) in
      rw (e, inside)
        (
          set bytes (i / 8) b,
          refl,
          All-set bytes (i / 8) b small all,
          rw (length-set bytes (i / 8) b) size,
        )
  | inr outside ↦ rw (e, outside) (bytes, refl, all, size)
]
