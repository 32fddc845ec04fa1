-- ===== src/Asn1.antt =====
-- asn1/ber.go: tags, errors, and the octets of a tag, a length and a whole element.
-- An octet string is a list of numbers below 256.
pub mod Base128
pub mod Bounds
pub mod Decoder
pub mod Element
pub mod Fields
pub mod Fuel
pub mod Lengths
pub mod Oid
pub mod Primitives
pub mod Span
pub mod Tags
mod Tests
pub mod Tlv
use go_iec.Base.{
  ℕ, zero, suc, ◌+◌, ◌*◌, ◌/◌, ◌%◌, ◌^◌, bit_and, bit_or, Bool, true, false, List, [], ◌∷◌, ◌++◌,
  length, ltb, leb, ◌==◌, if◌then◌else◌,
}

-- The four classes are 0 (universal), 1 (application), 2 (context-specific) and 3 (private).
pub record Tag : Type 0 where
  pub class : ℕ  -- uint8
  pub constructed : Bool
  pub number : ℕ  -- uint32

pub data Error : Type 0 where
  truncated bad_tag bad_length too_deep unexpected bad_value len_overflow : Error
  -- No error of the source: a loop of the model ran out of fuel.
  out_of_fuel : Error

abbrev pub context_primitive : ℕ → Tag
context_primitive n = record { class = 2; constructed = false; number = n }

abbrev pub context_constructed : ℕ → Tag
context_constructed n = record { class = 2; constructed = true; number = n }

abbrev pub application_constructed : ℕ → Tag
application_constructed n = record { class = 1; constructed = true; number = n }

-- `MaxDepth`
abbrev pub max_depth : ℕ
max_depth = 64

-- `byte(x >> k)` of a number that is not negative.
abbrev byte_at : ℕ → ℕ → ℕ
byte_at k x = x / 2 ^ k % 256

-- The first loop of `appendBase128`: groups of seven bits, written into `tmp` from its end. The
-- first argument counts the free places of `tmp`; with none left the source would panic.
base128_groups : ℕ → ℕ → List ℕ → List ℕ
base128_groups zero v tmp = tmp
base128_groups (suc free) v tmp =
    let rest = base128_groups free (v / 2 ^ 7) (bit_and v 0x7f % 256 ∷ tmp) in
    if v / 2 ^ 7 == 0 then bit_and v 0x7f % 256 ∷ tmp else rest

-- The second loop: the top bit of every octet but the last.
mark_groups : List ℕ → List ℕ
mark_groups [] = []
mark_groups (b ∷ []) = b ∷ []
mark_groups (b ∷ c ∷ bs) = bit_or b 0x80 ∷ mark_groups (c ∷ bs)

pub append_base128 : List ℕ → ℕ → List ℕ
append_base128 dst v = dst ++ mark_groups (base128_groups 5 v [])

tag_lead : Tag → ℕ
tag_lead t = let b = t.class * 2 ^ 6 % 256 in if t.constructed then bit_or b 0x20 else b

-- The source repeats the loops of `appendBase128` here.
pub append_tag : List ℕ → Tag → List ℕ
append_tag dst t =
    if ltb t.number 31
    then dst ++ (bit_or (tag_lead t) (t.number % 256) ∷ [])
    else append_base128 (dst ++ (bit_or (tag_lead t) 0x1f ∷ [])) t.number

-- Lengths of slices are not negative, so the case that panics is not there.
pub append_length : List ℕ → ℕ → List ℕ
append_length dst n =
    if ltb n 0x80
    then dst ++ (n % 256 ∷ [])
    else if leb n 0xff
    then dst ++ (0x81 ∷ n % 256 ∷ [])
    else if leb n 0xffff
    then dst ++ (0x82 ∷ byte_at 8 n ∷ n % 256 ∷ [])
    else if leb n 0xffffff
    then dst ++ (0x83 ∷ byte_at 16 n ∷ byte_at 8 n ∷ n % 256 ∷ [])
    else dst ++ (0x84 ∷ byte_at 24 n ∷ byte_at 16 n ∷ byte_at 8 n ∷ n % 256 ∷ [])

unfoldable pub tag_size : Tag → ℕ
tag_size t =
    if ltb t.number 31
    then 1
    else if ltb t.number (2 ^ 7)
    then 2
    else if ltb t.number (2 ^ 14)
    then 3
    else if ltb t.number (2 ^ 21)
    then 4
    else 5

unfoldable pub length_size : ℕ → ℕ
length_size n =
    if ltb n 0x80
    then 1
    else if leb n 0xff
    then 2
    else if leb n 0xffff
    then 3
    else if leb n 0xffffff
    then 4
    else 5

pub tlv_size : Tag → ℕ → ℕ
tlv_size t n = tag_size t + length_size n + n

pub append_tlv : List ℕ → Tag → List ℕ → List ℕ
append_tlv dst t content = append_length (append_tag dst t) (length content) ++ content
