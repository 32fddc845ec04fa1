-- ===== src/Asn1/Lengths.antt =====
-- Length octets: what `AppendLength` writes, `readLength` reads, and `LengthSize` counts.
use go_iec.Base.{
  ℕ, suc, ◌+◌, ◌*◌, ◌/◌, ◌%◌, ◌^◌, ◌≤◌, ◌<◌, ◌≡◌, refl, false, List, [], ◌∷◌, ◌++◌, length,
  length-append, ltb, leb, if◌then◌else◌, ok, arith,
}
use go_iec.Base.Bits.{mask_7f, bit_or_add}
use go_iec.Asn1.{append_length, length_size}
use go_iec.Asn1.Decoder.{Decoder, length_loop, read_length_at, read_length}

-- One round of the loop of `readLength`.
round :
    (k n off b : ℕ) (bs : List ℕ)
    → n < 2 ^ 32
    → b < 256
    → length_loop (suc k) n off (b ∷ bs) ≡ length_loop k (n * 256 + b) (off + 1) bs
unfolding length_loop
round k n off b bs hn hb = ground (arith, bit_or_add 8 n b hb)

length_octets : ℕ → List ℕ
length_octets n =
    if ltb n 0x80
    then n ∷ []
    else if leb n 0xff
    then 0x81 ∷ n ∷ []
    else if leb n 0xffff
    then 0x82 ∷ n / 256 ∷ n % 256 ∷ []
    else if leb n 0xffffff
    then 0x83 ∷ n / 65536 ∷ n / 256 % 256 ∷ n % 256 ∷ []
    else 0x84 ∷ n / 16777216 ∷ n / 65536 % 256 ∷ n / 256 % 256 ∷ n % 256 ∷ []

append_length-octets :
    (dst : List ℕ) (n : ℕ) → n < 2 ^ 32 → append_length dst n ≡ dst ++ length_octets n
unfolding append_length length_octets
append_length-octets dst n h = ground arith

pub append_length-append : (dst : List ℕ) (n : ℕ) → append_length dst n ≡ dst ++ append_length [] n
unfolding append_length
append_length-append dst n = ground arith

-- `LengthSize` counts the octets of `AppendLength`.
pub length-append_length :
    (dst : List ℕ) (n : ℕ) → n < 2 ^ 32 → length (append_length dst n) ≡ length dst + length_size n
unfolding length_octets length_size
length-append_length dst n h =
    rw (append_length-octets dst n h, length-append dst (length_octets n)) (ground arith)

done : (n off : ℕ) (bs : List ℕ) → length_loop 0 n off bs ≡ (n, record { off = off; rest = bs })
unfolding length_loop
done n off bs = refl

long_form :
    (k n off : ℕ) (bs : List ℕ) (d : Decoder)
    → 0 < k
    → k ≤ 4
    → k ≤ length bs
    → n < 2 ^ 32
    → length_loop k 0 (off + 1) bs ≡ (n, d)
    → read_length_at off ((0x80 + k) ∷ bs) ≡ ok (n, false, d)
unfolding read_length_at
long_form k n off bs d hk h4 hl hn e = ground (arith, mask_7f (0x80 + k))

short_form :
    (n off : ℕ) (ys : List ℕ)
    → n < 0x80
    → read_length_at off (n ∷ ys) ≡ ok (n, false, record { off = off + 1; rest = ys })
unfolding read_length_at
short_form n off ys h = ground arith

loop_1 :
    (n off : ℕ) (ys : List ℕ)
    → n < 2 ^ 8
    → length_loop 1 0 off (n ∷ ys) ≡ (n, record { off = off + 1; rest = ys })
loop_1 n off ys h = ground (arith, round 0 0 off n ys, done n (off + 1) ys)

loop_2 :
    (n off : ℕ) (ys : List ℕ)
    → n < 2 ^ 16
    → length_loop 2 0 off (n / 256 ∷ n % 256 ∷ ys) ≡ (n, record { off = off + 2; rest = ys })
loop_2 n off ys h = ground (
  arith,
  round 1 0 off (n / 256) (n % 256 ∷ ys),
  round 0 (n / 256) (off + 1) (n % 256) ys,
  done n (off + 2) ys,
)

loop_3 :
    (n off : ℕ) (ys : List ℕ)
    → n < 2 ^ 24
    → length_loop 3 0 off (n / 65536 ∷ n / 256 % 256 ∷ n % 256 ∷ ys)
      ≡ (n, record { off = off + 3; rest = ys })
loop_3 n off ys h = ground (
  arith,
  round 2 0 off (n / 65536) (n / 256 % 256 ∷ n % 256 ∷ ys),
  round 1 (n / 65536) (off + 1) (n / 256 % 256) (n % 256 ∷ ys),
  round 0 (n / 256) (off + 2) (n % 256) ys,
  done n (off + 3) ys,
)

loop_4 :
    (n off : ℕ) (ys : List ℕ)
    → n < 2 ^ 32
    → length_loop 4 0 off (n / 16777216 ∷ n / 65536 % 256 ∷ n / 256 % 256 ∷ n % 256 ∷ ys)
      ≡ (n, record { off = off + 4; rest = ys })
loop_4 n off ys h = ground (
  arith,
  round 3 0 off (n / 16777216) (n / 65536 % 256 ∷ n / 256 % 256 ∷ n % 256 ∷ ys),
  round 2 (n / 16777216) (off + 1) (n / 65536 % 256) (n / 256 % 256 ∷ n % 256 ∷ ys),
  round 1 (n / 65536) (off + 2) (n / 256 % 256) (n % 256 ∷ ys),
  round 0 (n / 256) (off + 3) (n % 256) ys,
  done n (off + 4) ys,
)

-- `readLength` reads back the length below 2 ^ 32 that `AppendLength` wrote, and stops behind it.
pub read_length-append_length :
    (n off : ℕ) (ys : List ℕ)
    → n < 2 ^ 32
    → read_length (record { off = off; rest = append_length [] n ++ ys })
      ≡ ok (n, false, record { off = off + length (append_length [] n); rest = ys })
unfolding read_length length_octets
read_length-append_length n off ys h = rw (append_length-octets [] n h) (
    ground (
      arith,
      short_form n off ys,
      long_form 1 n off (n ∷ ys) (record { off = off + 1 + 1; rest = ys }) (omega arith)
          (omega arith) (omega arith) h,
      loop_1 n (off + 1) ys,
      long_form 2 n off (n / 256 ∷ n % 256 ∷ ys) (record { off = off + 1 + 2; rest = ys })
          (omega arith) (omega arith) (omega arith) h,
      loop_2 n (off + 1) ys,
      long_form 3 n off (n / 65536 ∷ n / 256 % 256 ∷ n % 256 ∷ ys)
          (record { off = off + 1 + 3; rest = ys }) (omega arith) (omega arith) (omega arith) h,
      loop_3 n (off + 1) ys,
      long_form 4 n off (n / 16777216 ∷ n / 65536 % 256 ∷ n / 256 % 256 ∷ n % 256 ∷ ys)
          (record { off = off + 1 + 4; rest = ys }) (omega arith) (omega arith) (omega arith) h,
      loop_4 n (off + 1) ys,
    ))
