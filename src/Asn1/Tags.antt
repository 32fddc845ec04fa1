-- ===== src/Asn1/Tags.antt =====
-- Identifier octets: what `AppendTag` writes, `readTag` reads, and `TagSize` counts.
use go_iec.Base.{
  ℕ, zero, suc, ◌+◌, ◌*◌, ◌/◌, ◌%◌, ◌^◌, ◌≤◌, ◌<◌, ◌≡◌, ◌∙◌, bit_or, Bool, true, false, List, [],
  ◌∷◌, ◌++◌, append_assoc, length, length-append, inl, inr, ltb, if◌then◌else◌, zero-cases,
  Bool-cases, ap, ok, arith,
}
use go_iec.Base.Bits.{mask_7f, mask_1f, mask_20, mask_80, bit_or_add}
use native.Mathlib.Nat.{pow-suc, add-zero, add_assoc}
use go_iec.Asn1.{Tag, tag_lead, append_tag, append_base128, tag_size}
use go_iec.Asn1.Base128.{lead, length-lead, length-lead_exact, lead_pos, append_base128-lead}
use go_iec.Asn1.Decoder.{high_tag, read_tag_at, read_tag}

-- A tag as Go's types hold it: one of four classes, and a uint32.
pub record IsTag (t : Tag) : Type 0 where
  pub class_range : t.class < 4
  pub number_range : t.number < 2 ^ 32

flag : Bool → ℕ
flag true = 1
flag false = 0

-- The first octet in plain arithmetic.
tag_lead_lem : (t : Tag) → t.class < 4 → tag_lead t ≡ (t.class * 2 + flag t.constructed) * 2 ^ 5
unfolding tag_lead flag
tag_lead_lem t h = ground (arith, bit_or_add 6 t.class 32)

first_octet :
    (t : Tag) (n : ℕ)
    → t.class < 4
    → n < 32
    → bit_or (tag_lead t) n ≡ t.class * 64 + flag t.constructed * 32 + n
first_octet t n hc hn =
    rw (tag_lead_lem t hc)
      (omega (arith, bit_or_add 5 (t.class * 2 + flag t.constructed) n (omega arith)))

-- One round of the loop of `readTag`, on a marked octet and on the last one.
high_tag_marked :
    (i v off : ℕ) (ys : List ℕ)
    → i < 5
    → v < 2 ^ 32
    → high_tag i (v / 128) off ((v % 128 + 128) ∷ ys) ≡ high_tag (i + 1) v (off + 1) ys
unfolding high_tag
high_tag_marked i v off ys hi hv = ground (
  arith,
  mask_7f (v % 128 + 128),
  mask_80 (v % 128 + 128),
  bit_or_add 7 (v / 128) (v % 128) (omega arith),
)

high_tag_last :
    (i v off : ℕ) (ys : List ℕ)
    → i < 5
    → v < 2 ^ 32
    → high_tag i (v / 128) off (v % 128 ∷ ys) ≡ ok (v, record { off = off + 1; rest = ys })
unfolding high_tag
high_tag_last i v off ys hi hv =
    ground
      (arith, mask_7f (v % 128), mask_80 (v % 128), bit_or_add 7 (v / 128) (v % 128) (omega arith))

high_tag-lead_step :
    (k v off : ℕ) (ys : List ℕ)
    → k < 4
    → v < 2 ^ 32
    → 0 < v
    → high_tag 0 0 off (lead k (v / 128) ++ ((v % 128 + 128) ∷ ys))
      ≡ high_tag
          (length (lead k (v / 128)))
          (v / 128)
          (off + length (lead k (v / 128)))
          ((v % 128 + 128) ∷ ys)
    → high_tag 0 0 off (lead (suc k) v ++ ys)
      ≡ high_tag (length (lead (suc k) v)) v (off + length (lead (suc k) v)) ys
high_tag-lead_step k v off ys hk hv p ih =
    let groups = lead k (v / 128) in
    let few : length groups < 5 = omega (arith, length-lead k (v / 128)) in
    rw
      (
        lead_pos k v p,
        append_assoc groups ((v % 128 + 128) ∷ []) ys,
        length-append groups ((v % 128 + 128) ∷ []),
        ih,
        high_tag_marked (length groups) v (off + length groups) ys few hv,
      )
      (rw (add_assoc off (length groups) 1))

-- The loop of `readTag` from 0 over the marked groups of `v` has read `v`.
high_tag-lead :
    (k v off : ℕ) (ys : List ℕ)
    → k ≤ 4
    → v < 2 ^ 32
    → v < 128 ^ k
    → high_tag 0 0 off (lead k v ++ ys)
      ≡ high_tag (length (lead k v)) v (off + length (lead k v)) ys
unfolding lead
high_tag-lead zero v off ys hk hv h =
    let nothing : v ≡ 0 = omega arith in rw (nothing, add-zero off)
high_tag-lead (suc k) v off ys hk hv h = elim (zero-cases v) [
  | inl z ↦ rw (z, add-zero off)
  | inr p ↦ high_tag-lead_step k v off ys hk hv p (
      high_tag-lead k (v / 128) off ((v % 128 + 128) ∷ ys) (omega arith) (omega arith)
        (omega (arith, pow-suc 128 k)))
]

high_tag-octets :
    (v off : ℕ) (ys : List ℕ)
    → v < 2 ^ 32
    → high_tag 0 0 off (lead 4 (v / 128) ++ (v % 128 ∷ ys))
      ≡ ok (v, record { off = off + length (lead 4 (v / 128)) + 1; rest = ys })
high_tag-octets v off ys h =
    let few : length (lead 4 (v / 128)) < 5 = omega (arith, length-lead 4 (v / 128)) in
    high_tag-lead 4 (v / 128) off (v % 128 ∷ ys) (omega arith) (omega arith) (omega arith)
    ∙ high_tag_last (length (lead 4 (v / 128))) v (off + length (lead 4 (v / 128))) ys few h

-- The octets of a tag in plain arithmetic: a low number stands in the first octet.
tag_octets : Tag → List ℕ
tag_octets t =
    let first = t.class * 64 + flag t.constructed * 32 in
    if ltb t.number 31
    then (first + t.number) ∷ []
    else (first + 31) ∷ (lead 4 (t.number / 128) ++ (t.number % 128 ∷ []))

append_tag-octets : (dst : List ℕ) (t : Tag) → IsTag t → append_tag dst t ≡ dst ++ tag_octets t
unfolding append_tag tag_octets
append_tag-octets dst t h = elim (Bool-cases (ltb t.number 31)) [
  | inl low ↦
      rw (low, first_octet t (t.number % 256) h.class_range (ground arith))
        (ap (λ (b : ℕ). dst ++ (b ∷ [])) (ground arith))
  | inr high ↦ rw (
    high,
    first_octet t 31 h.class_range (omega arith),
    append_base128-lead (dst ++ ((t.class * 64 + flag t.constructed * 32 + 31) ∷ [])) t.number
        h.number_range,
    append_assoc dst,
  )
]

read_first :
    (t : Tag) (off n : ℕ) (ys : List ℕ)
    → t.class < 4
    → n < 31
    → read_tag_at off ((t.class * 64 + flag t.constructed * 32 + n) ∷ ys)
      ≡ ok (record t { number = n }, record { off = off + 1; rest = ys })
unfolding read_tag_at flag
read_first t off n ys hc hn =
    let b = t.class * 64 + flag t.constructed * 32 + n in ground (arith, mask_1f b, mask_20 b)

read_high :
    (t : Tag) (off : ℕ) (ys : List ℕ)
    → IsTag t
    → read_tag_at off (
        ((t.class * 64 + flag t.constructed * 32 + 31) ∷ lead 4 (t.number / 128))
        ++ (t.number % 128 ∷ ys))
      ≡ ok (t, record { off = off + 1 + length (lead 4 (t.number / 128)) + 1; rest = ys })
unfolding read_tag_at flag
read_high t off ys h =
    let b = t.class * 64 + flag t.constructed * 32 + 31 in
    ground (arith, mask_1f b, mask_20 b, high_tag-octets t.number (off + 1) ys)

-- `readTag` reads back the tag that `AppendTag` wrote, and stops behind it.
pub read_tag-append_tag :
    (t : Tag) (off : ℕ) (ys : List ℕ)
    → IsTag t
    → read_tag (record { off = off; rest = append_tag [] t ++ ys })
      ≡ ok (t, record { off = off + length (append_tag [] t); rest = ys })
unfolding read_tag tag_octets
read_tag-append_tag t off ys h = elim (Bool-cases (ltb t.number 31)) [
  | inl low ↦
      rw (append_tag-octets [] t h, low, read_first t off t.number ys h.class_range (ground arith))
  | inr high ↦
      let groups = lead 4 (t.number / 128) in
      rw
        (
          append_tag-octets [] t h,
          high,
          append_assoc groups (t.number % 128 ∷ []) ys,
          length-append groups (t.number % 128 ∷ []),
        )
        (ground (arith, read_high t off ys h))
]

length-tag_octets :
    (t : Tag)
    → t.number < 2 ^ 32
    → length (tag_octets t) ≡ tag_size t + (if ltb t.number (2 ^ 28) then 0 else 1)
unfolding tag_octets tag_size
length-tag_octets t h =
    let groups = lead 4 (t.number / 128) in
    ground (
      arith,
      length-append groups (t.number % 128 ∷ []),
      length-lead_exact (t.number / 128) (omega arith),
    )

-- `TagSize` counts the octets that `AppendTag` appends for a tag number below 2 ^ 28. From there on
-- `AppendTag` appends one octet more.
pub length-append_tag :
    (dst : List ℕ) (t : Tag)
    → IsTag t
    → length (append_tag dst t)
      ≡ length dst + (tag_size t + (if ltb t.number (2 ^ 28) then 0 else 1))
length-append_tag dst t h = rw (
  append_tag-octets dst t h,
  length-append dst (tag_octets t),
  length-tag_octets t h.number_range,
)

-- What stands in front does not matter.
pub append_tag-append : (dst : List ℕ) (t : Tag) → append_tag dst t ≡ dst ++ append_tag [] t
unfolding append_tag append_base128
append_tag-append dst t = elim (Bool-cases (ltb t.number 31)) [
  | inl low ↦ rw low
  | inr high ↦ rw (high, append_assoc dst)
]
