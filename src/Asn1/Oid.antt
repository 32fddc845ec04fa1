-- ===== src/Asn1/Oid.antt =====
-- asn1/oid.go: object identifiers, lists of arcs that are uint32.
use go_iec.Base.{
  ℕ, zero, suc, ◌+◌, ◌-◌, ◌*◌, ◌/◌, ◌%◌, ◌^◌, ◌≤◌, ◌<◌, ◌≡◌, refl, sym, ◌∙◌, ap, append-nil,
  bit_and, bit_or, Bool, true, false, ◌||◌, ◌&&◌, List, [], ◌∷◌, ◌++◌, append_assoc, length, All,
  length-append, ltb, leb, ◌==◌, if◌then◌else◌, zero-cases, inl, inr, Result, ok, err, min, arith,
}
use go_iec.Base.Bits.{mask_7f, mask_80, bit_or_add}
use native.Mathlib.Nat.{pow-suc}
use go_iec.Asn1.{Error, truncated, bad_value, append_base128}
use go_iec.Asn1.Base128.{lead, lead_pos, length-lead, append_base128-lead}

-- `Equal`
pub equal : List ℕ → List ℕ → Bool
equal [] [] = true
equal (a ∷ o) (b ∷ other) = a == b && equal o other
equal _ _ = false

append_arcs : List ℕ → List ℕ → List ℕ
append_arcs dst [] = dst
append_arcs dst (arc ∷ arcs) = append_arcs (append_base128 dst arc) arcs

-- `o[0]*40+o[1]` is an uint32.
pub append_oid : List ℕ → List ℕ → List ℕ
append_oid dst (a ∷ b ∷ arcs) = append_arcs (append_base128 dst ((a * 40 + b) % 2 ^ 32)) arcs
append_oid dst _ = dst

-- The arcs of a decoded number: the first number holds two. `first * 40` is at most `v`.
split_arc : List ℕ → ℕ → List ℕ
split_arc [] v = let first = min (v / 40) 2 in first ∷ (v - first * 40) ∷ []
split_arc (a ∷ o) v = (a ∷ o) ++ (v ∷ [])

-- The loop of `DecodeOID`, with its variables o, v and n.
decode_arcs : List ℕ → ℕ → ℕ → List ℕ → Result Error (List ℕ)
decode_arcs o v n [] = if n == 0 then ok o else err truncated
decode_arcs o v n (b ∷ bs) =
    let v' = bit_or (v * 2 ^ 7 % 2 ^ 32) (bit_and b 0x7f) in
    let last = decode_arcs (split_arc o v') 0 0 bs in
    let inner = decode_arcs o v' (n + 1) bs in
    if leb 5 n || ltb ((2 ^ 32 - 1) / 2 ^ 7) v
    then err bad_value
    else if bit_and b 0x80 == 0
    then last
    else inner

pub decode_oid : List ℕ → Result Error (List ℕ)
decode_oid [] = err bad_value
decode_oid (b ∷ bs) = decode_arcs [] 0 0 (b ∷ bs)

-- One octet of the loop: a marked one, and the last one of a number.
marked_octet :
    (o : List ℕ) (v n : ℕ) (ys : List ℕ)
    → n < 5
    → v < 2 ^ 32
    → decode_arcs o (v / 128) n ((v % 128 + 128) ∷ ys) ≡ decode_arcs o v (n + 1) ys
unfolding decode_arcs
marked_octet o v n ys hn hv = ground (
  arith,
  mask_7f (v % 128 + 128),
  mask_80 (v % 128 + 128),
  bit_or_add 7 (v / 128) (v % 128) (omega arith),
)

last_octet :
    (o : List ℕ) (v n : ℕ) (ys : List ℕ)
    → n < 5
    → v < 2 ^ 32
    → decode_arcs o (v / 128) n (v % 128 ∷ ys) ≡ decode_arcs (split_arc o v) 0 0 ys
unfolding decode_arcs
last_octet o v n ys hn hv =
    ground
      (arith, mask_7f (v % 128), mask_80 (v % 128), bit_or_add 7 (v / 128) (v % 128) (omega arith))

inner :
    (k v : ℕ) (o ys : List ℕ)
    → k < 4
    → v < 2 ^ 32
    → 0 < v
    → decode_arcs o 0 0 (lead k (v / 128) ++ ((v % 128 + 128) ∷ ys))
      ≡ decode_arcs o (v / 128) (length (lead k (v / 128))) ((v % 128 + 128) ∷ ys)
    → decode_arcs o 0 0 (lead (suc k) v ++ ys) ≡ decode_arcs o v (length (lead (suc k) v)) ys
inner k v o ys hk hv p ih =
    let groups = lead k (v / 128) in
    rw (
      lead_pos k v p,
      append_assoc groups ((v % 128 + 128) ∷ []) ys,
      length-append groups ((v % 128 + 128) ∷ []),
      ih,
      marked_octet o v (length groups) ys (omega (arith, length-lead k (v / 128))) hv,
    )

marked_octets :
    (k v : ℕ) (o ys : List ℕ)
    → k ≤ 4
    → v < 2 ^ 32
    → v < 128 ^ k
    → decode_arcs o 0 0 (lead k v ++ ys) ≡ decode_arcs o v (length (lead k v)) ys
unfolding lead
marked_octets zero v o ys hk hv h = let nothing : v ≡ 0 = omega arith in rw nothing
marked_octets (suc k) v o ys hk hv h = elim (zero-cases v) [
  | inl z ↦ rw z
  | inr p ↦ inner k v o ys hk hv p (
      marked_octets k (v / 128) o ((v % 128 + 128) ∷ ys) (omega arith) (omega arith)
        (omega (arith, pow-suc 128 k)))
]

-- A whole number of the content.
number_octets :
    (v : ℕ) (o ys : List ℕ)
    → v < 2 ^ 32
    → decode_arcs o 0 0 (append_base128 [] v ++ ys) ≡ decode_arcs (split_arc o v) 0 0 ys
number_octets v o ys h =
    let groups = lead 4 (v / 128) in
    rw (append_base128-lead [] v h, append_assoc groups (v % 128 ∷ []) ys)
      (marked_octets 4 (v / 128) o (v % 128 ∷ ys) (omega arith) (omega arith) (omega arith)
        ∙ last_octet o v (length groups) ys (omega (arith, length-lead 4 (v / 128))) h)

base128-append : (dst : List ℕ) (v : ℕ) → append_base128 dst v ≡ dst ++ append_base128 [] v
unfolding append_base128
base128-append dst v = refl

arcs-append : (dst arcs : List ℕ) → append_arcs dst arcs ≡ dst ++ append_arcs [] arcs
unfolding append_arcs
arcs-append dst [] = sym (append-nil dst)
arcs-append dst (arc ∷ arcs) =
    arcs-append (append_base128 dst arc) arcs
    ∙ rw (base128-append dst arc, append_assoc dst, arcs-append (append_base128 [] arc) arcs)

decode_end : (o : List ℕ) → decode_arcs o 0 0 [] ≡ ok o
unfolding decode_arcs
decode_end o = refl

decode_arcs-append_arcs :
    (a : ℕ) (o arcs : List ℕ)
    → All (λ arc. arc < 2 ^ 32) arcs
    → decode_arcs (a ∷ o) 0 0 (append_arcs [] arcs) ≡ ok ((a ∷ o) ++ arcs)
unfolding append_arcs split_arc
decode_arcs-append_arcs a o [] h = decode_end (a ∷ o) ∙ ap ok (sym (append-nil (a ∷ o)))
decode_arcs-append_arcs a o (arc ∷ arcs) h = rw (arcs-append (append_base128 [] arc) arcs) (
    number_octets arc (a ∷ o) (append_arcs [] arcs) h.0
    ∙ decode_arcs-append_arcs a (o ++ (arc ∷ [])) arcs h.1
    ∙ ap (λ t. ok (a ∷ t)) (append_assoc o (arc ∷ []) arcs))

decode_nonempty : (bs : List ℕ) → 0 < length bs → decode_oid bs ≡ decode_arcs [] 0 0 bs
unfolding decode_oid
decode_nonempty [] h = elim h [ ]
decode_nonempty (b ∷ bs) h = refl

length-base128 : (v : ℕ) → v < 2 ^ 32 → 0 < length (append_base128 [] v)
length-base128 v h =
    rw (append_base128-lead [] v h, length-append (lead 4 (v / 128)) (v % 128 ∷ [])) (omega arith)

-- An object identifier that BER can write: two arcs at least, the first of them 0, 1 or 2, the second
-- below 40 under 0 and 1, and uint32 numbers throughout.
pub record IsOid (a b : ℕ) (arcs : List ℕ) : Type 0 where
  pub root : a ≤ 2
  pub second : a < 2 → b < 40
  pub first_number : a * 40 + b < 2 ^ 32
  pub arcs_range : All (λ arc. arc < 2 ^ 32) arcs

split_first : (a b : ℕ) → a ≤ 2 → (a < 2 → b < 40) → split_arc [] (a * 40 + b) ≡ a ∷ b ∷ []
unfolding split_arc
split_first a b ha hb = ground arith

-- `DecodeOID` reads back the arcs that `AppendOID` wrote: a first arc of at most 2, a second one below
-- 40 under 0 and 1, and numbers that fit 32 bits, the one that holds the first two arcs included.
pub decode_oid-append_oid :
    (a b : ℕ) (arcs : List ℕ)
    → IsOid a b arcs
    → decode_oid (append_oid [] (a ∷ b ∷ arcs)) ≡ ok (a ∷ b ∷ arcs)
unfolding append_oid
decode_oid-append_oid a b arcs h =
    let v = a * 40 + b in
    let fits : v % 2 ^ 32 ≡ v = omega arith in
    let front = append_base128 [] v in
    rw (fits, arcs-append front arcs)
      (decode_nonempty (front ++ append_arcs [] arcs) (
          omega (arith, length-append front (append_arcs [] arcs), length-base128 v h.first_number))
        ∙ number_octets v [] (append_arcs [] arcs) h.first_number
        ∙ rw (split_first a b h.root h.second)
            (decode_arcs-append_arcs a (b ∷ []) arcs h.arcs_range))

-- `Equal` decides equality.
pub equal→eq : (o other : List ℕ) → equal o other ≡ true → o ≡ other
unfolding equal
equal→eq [] [] h = refl
equal→eq [] (b ∷ other) h = cc
equal→eq (a ∷ o) [] h = cc
equal→eq (a ∷ o) (b ∷ other) h = ground (arith, equal→eq o other)
