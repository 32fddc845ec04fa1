-- ===== src/Asn1/Decoder.antt =====
-- asn1/decoder.go and asn1/span.go: the bounds-checked cursor.
-- Of `d.data` the cursor keeps what is not yet read: `rest` is `d.data[d.off:]`, and `off` is the
-- offset. A slice `d.data[a:b]` that the source takes begins at an offset where the cursor stood, so
-- it is a part of the `rest` of that cursor. Where a read fails, its error alone is returned.
use go_iec.Base.{
  ℕ, zero, suc, ◌+◌, ◌-◌, ◌*◌, ◌/◌, ◌%◌, ◌^◌, bit_and, bit_or, Bool, true, false, not, ◌&&◌, ◌||◌,
  Option, none, some, List, [], ◌∷◌, length, take, drop, ltb, leb, ◌==◌, if◌then◌else◌, Result, ok,
  err, ◌>>=◌,
}
use go_iec.Asn1.{
  Tag, Error, truncated, bad_tag, bad_length, too_deep, unexpected, len_overflow, out_of_fuel,
  max_depth,
}

pub record Decoder : Type 0 where
  pub off : ℕ
  pub rest : List ℕ

-- `NewDecoder`
abbrev pub new_decoder : List ℕ → Decoder
new_decoder bytes = record { off = 0; rest = bytes }

unfoldable pub more : Decoder → Bool
more d = ltb 0 (length d.rest)

abbrev pub advance : ℕ → Decoder → Decoder
advance n d = record { off = d.off + n; rest = drop n d.rest }

-- The loop of `readTag` over the octets of a high tag number.
unfoldable pub high_tag : ℕ → ℕ → ℕ → List ℕ → Result Error (ℕ × Decoder)
high_tag i number off [] = err truncated
high_tag i number off (c ∷ bs) =
    let number' = bit_or (number * 2 ^ 7 % 2 ^ 32) (bit_and c 0x7f) in
    let next = high_tag (i + 1) number' (off + 1) bs in
    if leb 5 i || ltb ((2 ^ 32 - 1) / 2 ^ 7) number
    then err bad_tag
    else if bit_and c 0x80 == 0
    then ok (number', record { off = off + 1; rest = bs })
    else next

unfoldable pub read_tag_at : ℕ → List ℕ → Result Error (Tag × Decoder)
read_tag_at off [] = err truncated
read_tag_at off (b ∷ bs) =
    let constructed = not (bit_and b 0x20 == 0) in
    if not (bit_and b 0x1f == 0x1f)
    then ok (
      record { class = b / 2 ^ 6; constructed = constructed; number = bit_and b 0x1f },
      record { off = off + 1; rest = bs },
    )
    else do
      (number, d) ← high_tag 0 0 (off + 1) bs
      ok (record { class = b / 2 ^ 6; constructed = constructed; number = number }, d)

unfoldable pub read_tag : Decoder → Result Error (Tag × Decoder)
read_tag d = read_tag_at d.off d.rest

-- The loop of `readLength`. It runs after the check that `k` octets are there.
unfoldable pub length_loop : ℕ → ℕ → ℕ → List ℕ → ℕ × Decoder
length_loop zero n off bs = (n, record { off = off; rest = bs })
length_loop (suc k) n off [] = (n, record { off = off; rest = [] })
length_loop (suc k) n off (b ∷ bs) = length_loop k (bit_or (n * 2 ^ 8 % 2 ^ 64) b) (off + 1) bs

-- `n < 0` of a 64-bit `int` is a bit pattern of at least 2 ^ 63.
unfoldable pub read_length_at : ℕ → List ℕ → Result Error (ℕ × Bool × Decoder)
read_length_at off [] = err truncated
read_length_at off (b ∷ bs) =
    let octets = bit_and b 0x7f in
    let (n, d) = length_loop octets 0 (off + 1) bs in
    if ltb b 0x80
    then ok (b, false, record { off = off + 1; rest = bs })
    else if b == 0x80
    then ok (0, true, record { off = off + 1; rest = bs })
    else if ltb 4 octets
    then err len_overflow
    else if ltb (length bs) octets
    then err truncated
    else if leb (2 ^ 63) n
    then err len_overflow
    else ok (n, false, d)

unfoldable pub read_length : Decoder → Result Error (ℕ × Bool × Decoder)
read_length d = read_length_at d.off d.rest

-- What stands behind the end-of-contents octets, if the cursor stands at them.
unfoldable pub end_of_contents : List ℕ → Option (List ℕ)
end_of_contents (zero ∷ zero ∷ rest) = some rest
end_of_contents _ = none

unfoldable pub read_content : Tag → ℕ → Decoder → Result Error (Tag × List ℕ × Decoder)
read_content t n d =
    if ltb (length d.rest) n then err truncated else ok (t, take n d.rest, advance n d)

-- `readTLV` at a nesting depth, and its scan of the children of an indefinite-length element that
-- begins at `start`. Both take fuel; `read_tlv` gives enough.
unfoldable mutual
  pub read_element : ℕ → ℕ → Decoder → Result Error (Tag × List ℕ × Decoder)
  read_element zero depth d = err out_of_fuel
  read_element (suc fuel) depth d =
      let body = do
        (t, d') ← read_tag d
        (n, indefinite, d'') ← read_length d'
        let children = scan fuel depth t d'' d''
        if not indefinite
            then read_content t n d''
            else if not t.constructed
            then err bad_length
            else children
      in if ltb max_depth depth then err too_deep else body

  pub scan : ℕ → ℕ → Tag → Decoder → Decoder → Result Error (Tag × List ℕ × Decoder)
  scan zero depth t start d = err out_of_fuel
  scan (suc fuel) depth t start d = elim (end_of_contents d.rest) [
    | some rest ↦
        ok (t, take (d.off - start.off) start.rest, record { off = d.off + 2; rest = rest })
    | none ↦ (do (_, _, d') ← read_element fuel (depth + 1) d; scan fuel depth t start d')
  ]

-- `ReadTLV`
unfoldable pub read_tlv : Decoder → Result Error (Tag × List ℕ × Decoder)
read_tlv d = read_element (length d.rest + 1) 0 d

unfoldable pub bool_eq : Bool → Bool → Bool
bool_eq true b = b
bool_eq false b = not b

-- `==` of Go on tags.
unfoldable pub tag_eq : Tag → Tag → Bool
unfolding bool_eq
tag_eq t u = t.class == u.class && bool_eq t.constructed u.constructed && t.number == u.number

unfoldable pub peek : Decoder → Result Error Tag
peek d = do (t, _) ← read_tag d; ok t

unfoldable peek_is : Decoder → Tag → Bool
peek_is d t = elim (peek d) [ ok got ↦ tag_eq got t | err e ↦ false ]

unfoldable pub expect : Tag → Decoder → Result Error (List ℕ × Decoder)
expect t d = do
  (got, content, d') ← read_tlv d
  if tag_eq got t then ok (content, d') else err unexpected

unfoldable pub optional : Tag → Decoder → Result Error (Option (List ℕ) × Decoder)
optional t d =
    let found = (do (_, content, d') ← read_tlv d; ok (some content, d')) in
    if not (more d)
    then ok (none, d)
    else do got ← peek d; if not (tag_eq got t) then ok (none, d) else found

unfoldable skip : Decoder → Result Error Decoder
skip d = do (_, _, d') ← read_tlv d; ok d'
