-- ===== src/Asn1/Base128.antt =====
-- The base-128 octets that `appendBase128` and `AppendTag` write, in plain arithmetic.
use go_iec.Base.{
  ℕ, zero, suc, ◌+◌, ◌/◌, ◌%◌, ◌^◌, ◌≤◌, ◌<◌, ◌≡◌, refl, ◌∙◌, bit_and, bit_or, List, [], ◌∷◌, ◌++◌,
  append_assoc, length, length-append, inl, inr, ltb, ◌==◌, if◌then◌else◌, zero-cases, arith,
}
use go_iec.Base.Bits.{mask_7f, set_80}
use native.Mathlib.Nat.{pow-suc}
use go_iec.Asn1.{base128_groups, mark_groups, append_base128}

-- The groups of `v`, highest first and all marked; none for 0.
unfoldable pub lead : ℕ → ℕ → List ℕ
lead zero v = []
lead (suc k) v =
    let groups = lead k (v / 128) ++ ((v % 128 + 128) ∷ []) in if v == 0 then [] else groups

pub length-lead : (k v : ℕ) → length (lead k v) ≤ k
unfolding lead
length-lead zero v = omega arith
length-lead (suc k) v =
    ground (arith, length-lead k (v / 128), length-append (lead k (v / 128)) ((v % 128 + 128) ∷ []))

lead_zero : (k : ℕ) → lead k 0 ≡ []
unfolding lead
lead_zero zero = refl
lead_zero (suc k) = refl

group : (v : ℕ) → bit_and v 0x7f % 256 ≡ v % 128
group v = omega (arith, mask_7f v)

marked : (v : ℕ) → bit_or (v % 128) 0x80 ≡ v % 128 + 128
marked v = set_80 (v % 128) (omega arith)

groups_last : (k v : ℕ) (tmp : List ℕ) → v / 128 ≡ 0 → base128_groups (suc k) v tmp ≡ v % 128 ∷ tmp
unfolding base128_groups
groups_last k v tmp h = ground (arith, group v)

groups_more :
    (k v : ℕ) (tmp : List ℕ)
    → 0 < v / 128
    → base128_groups (suc k) v tmp ≡ base128_groups k (v / 128) (v % 128 ∷ tmp)
unfolding base128_groups
groups_more k v tmp h = ground (arith, group v)

pub lead_pos : (k v : ℕ) → 0 < v → lead (suc k) v ≡ lead k (v / 128) ++ ((v % 128 + 128) ∷ [])
unfolding lead
lead_pos k v h = ground arith

mark-cons :
    (v x : ℕ) (xs : List ℕ)
    → mark_groups (v % 128 ∷ x ∷ xs) ≡ (v % 128 + 128) ∷ mark_groups (x ∷ xs)
unfolding mark_groups
mark-cons v x xs = rw (marked v)

groups-lead :
    (k v x : ℕ) (xs : List ℕ)
    → 0 < v
    → v < 128 ^ k
    → mark_groups (base128_groups k v (x ∷ xs)) ≡ lead k v ++ mark_groups (x ∷ xs)
groups-lead zero v x xs p h = absurd (omega arith)
groups-lead (suc k) v x xs p h = elim (zero-cases (v / 128)) [
  | inl z ↦ rw (groups_last k v (x ∷ xs) z, lead_pos k v p, z, lead_zero k, mark-cons v x xs)
  | inr q ↦
      rw (groups_more k v (x ∷ xs) q, lead_pos k v p)
        (groups-lead k (v / 128) (v % 128) (x ∷ xs) q (omega (arith, pow-suc 128 k))
          ∙ rw (mark-cons v x xs, append_assoc (lead k (v / 128)) ((v % 128 + 128) ∷ [])))
]

-- Up to `suc k` groups: those of `v / 128`, marked, and the last one.
octets_shape :
    (k v : ℕ)
    → v < 128 ^ suc k
    → mark_groups (base128_groups (suc k) v []) ≡ lead k (v / 128) ++ (v % 128 ∷ [])
unfolding mark_groups
octets_shape k v h = elim (zero-cases (v / 128)) [
  | inl z ↦ rw (groups_last k v [] z, z, lead_zero k)
  | inr q ↦
      rw (groups_more k v [] q)
        (groups-lead k (v / 128) (v % 128) [] q (omega (arith, pow-suc 128 k)))
]

-- For a uint32 the five places of `tmp` are enough.
pub append_base128-lead :
    (dst : List ℕ) (v : ℕ)
    → v < 2 ^ 32
    → append_base128 dst v ≡ dst ++ (lead 4 (v / 128) ++ (v % 128 ∷ []))
unfolding append_base128
append_base128-lead dst v h = rw (octets_shape 4 v (omega arith))

length-lead-suc :
    (k v : ℕ) → length (lead (suc k) v) ≡ (if v == 0 then 0 else suc (length (lead k (v / 128))))
unfolding lead
length-lead-suc k v = ground (arith, length-append (lead k (v / 128)) ((v % 128 + 128) ∷ []))

length-lead_zero : (v : ℕ) → length (lead 0 v) ≡ 0
unfolding lead
length-lead_zero v = refl

pub length-lead_exact :
    (v : ℕ)
    → v < 2 ^ 25
    → length (lead 4 v) ≡ (
        if ltb v 1
        then 0
        else if ltb v (2 ^ 7)
        then 1
        else if ltb v (2 ^ 14)
        then 2
        else if ltb v (2 ^ 21)
        then 3
        else 4)
length-lead_exact v h = ground (
  arith,
  length-lead-suc 3 v,
  length-lead-suc 2 (v / 128),
  length-lead-suc 1 (v / 128 / 128),
  length-lead-suc 0 (v / 128 / 128 / 128),
  length-lead_zero (v / 128 / 128 / 128 / 128),
)
