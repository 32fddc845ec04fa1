-- ===== src/Asn1/Bounds.antt =====
-- Where the cursor stands after a read that succeeds, and that no read runs out of fuel.
use go_iec.Base.{
  ℕ, zero, suc, ◌+◌, ◌-◌, ◌*◌, ◌%◌, ◌^◌, ◌≤◌, ◌≡◌, refl, bit_and, bit_or, Bool, not, Option-cases,
  none, some, List, [], ◌∷◌, length, take, drop, drop_step, drop-drop, length-drop, ltb,
  if◌then◌else◌, ok, err, Result-cases, Bool-cases, inl, inr, arith,
}
use go_iec.Asn1.{Tag, Error, out_of_fuel, too_deep, bad_length, max_depth}
use go_iec.Asn1.Decoder.{
  Decoder, high_tag, read_tag_at, read_tag, length_loop, read_length_at, read_length,
  end_of_contents, read_content, read_element, scan, read_tlv,
}

-- `d'` is `d` moved over at least `lo` of the octets that it had left, and over no others.
abbrev pub Advances : ℕ → Decoder → Decoder → Type 0
Advances lo d d' =
    (d'.rest ≡ drop (d'.off - d.off) d.rest)
    × (d.off + lo ≤ d'.off)
    × (d'.off ≤ d.off + length d.rest)

Advances-trans :
    (a b : ℕ) (d e f : Decoder) → Advances a d e → Advances b e f → Advances (a + b) d f
Advances-trans a b d e f h k =
    ground
      (arith, drop-drop (e.off - d.off) (f.off - e.off) d.rest, length-drop (e.off - d.off) d.rest)

Advances-weaken : (d d' : Decoder) → Advances 2 d d' → Advances 0 d d'
Advances-weaken d d' h = ground arith

high_tag-Advances :
    (i n off : ℕ) (bs : List ℕ) (v : ℕ) (d : Decoder)
    → high_tag i n off bs ≡ ok (v, d)
    → Advances 1 (record { off = off; rest = bs }) d
unfolding high_tag
high_tag-Advances i n off [] v d h = cc
high_tag-Advances i n off (c ∷ bs) v d h = ground (
  arith,
  high_tag-Advances (i + 1) (bit_or (n * 2 ^ 7 % 2 ^ 32) (bit_and c 0x7f)) (off + 1) bs v d,
  drop_step (d.off - off) c bs,
)

read_tag_at-Advances :
    (off : ℕ) (bs : List ℕ) (t : Tag) (d : Decoder)
    → read_tag_at off bs ≡ ok (t, d)
    → Advances 1 (record { off = off; rest = bs }) d
unfolding read_tag_at
read_tag_at-Advances off [] t d h = cc
read_tag_at-Advances off (b ∷ bs) t d h = elim (Result-cases (high_tag 0 0 (off + 1) bs)) [
  | inl ((v, d'), e) ↦
      ground (arith, high_tag-Advances 0 0 (off + 1) bs v d' e, drop_step (d.off - off) b bs)
  | inr (x, e) ↦ ground (arith, e, drop_step (d.off - off) b bs)
]

read_tag-Advances :
    (d : Decoder) (t : Tag) (d' : Decoder) → read_tag d ≡ ok (t, d') → Advances 1 d d'
unfolding read_tag
read_tag-Advances d t d' h = read_tag_at-Advances d.off d.rest t d' h

length_loop-Advances :
    (k n off : ℕ) (bs : List ℕ)
    → k ≤ length bs
    → (length_loop k n off bs).1 ≡ record { off = off + k; rest = drop k bs }
unfolding length_loop
length_loop-Advances zero n off bs h = ground arith
length_loop-Advances (suc k) n off [] h = absurd (omega arith)
length_loop-Advances (suc k) n off (b ∷ bs) h =
    ground (arith, length_loop-Advances k (bit_or (n * 2 ^ 8 % 2 ^ 64) b) (off + 1) bs)

read_length_at-Advances :
    (off : ℕ) (bs : List ℕ) (n : ℕ) (indefinite : Bool) (d : Decoder)
    → read_length_at off bs ≡ ok (n, indefinite, d)
    → Advances 1 (record { off = off; rest = bs }) d
unfolding read_length_at
read_length_at-Advances off [] n indefinite d h = cc
read_length_at-Advances off (b ∷ bs) n indefinite d h =
    ground
      (arith, length_loop-Advances (bit_and b 0x7f) 0 (off + 1) bs, drop_step (d.off - off) b bs)

read_length-Advances :
    (d : Decoder) (n : ℕ) (indefinite : Bool) (d' : Decoder)
    → read_length d ≡ ok (n, indefinite, d')
    → Advances 1 d d'
unfolding read_length
read_length-Advances d n indefinite d' h = read_length_at-Advances d.off d.rest n indefinite d' h

end_of_contents-drop :
    (bs rest : List ℕ) → end_of_contents bs ≡ some rest → (rest ≡ drop 2 bs) × (2 ≤ length bs)
unfolding end_of_contents
end_of_contents-drop (zero ∷ zero ∷ bs) rest h = ground arith
end_of_contents-drop [] rest h = cc
end_of_contents-drop (zero ∷ []) rest h = cc
end_of_contents-drop (zero ∷ suc b ∷ bs) rest h = cc
end_of_contents-drop (suc a ∷ bs) rest h = cc

read_content-Advances :
    (t : Tag) (n : ℕ) (d : Decoder) (t' : Tag) (content : List ℕ) (d' : Decoder)
    → read_content t n d ≡ ok (t', content, d')
    → Advances 0 d d'
unfolding read_content
read_content-Advances t n d t' content d' h = ground arith

-- `readTLV` behind a header that it could read.
pub read_element_header :
    (fuel depth : ℕ) (d : Decoder) (t : Tag) (d' : Decoder) (n : ℕ) (indefinite : Bool)
    (d'' : Decoder)
    → read_tag d ≡ ok (t, d')
    → read_length d' ≡ ok (n, indefinite, d'')
    → read_element (suc fuel) depth d ≡ (
        if ltb max_depth depth
        then err too_deep
        else if not indefinite
        then read_content t n d''
        else if not t.constructed
        then err bad_length
        else scan fuel depth t d'' d'')
unfolding read_element
read_element_header fuel depth d t d' n indefinite d'' e f = rw (e, f)

-- ... and behind one that it could not.
pub read_element_fails :
    (fuel depth : ℕ) (d : Decoder) {a : Tag × List ℕ × Decoder}
    → read_element (suc fuel) depth d ≡ ok a
    → (t : Tag) × (d' : Decoder) × (n : ℕ) × (indefinite : Bool) × (d'' : Decoder) × (read_tag d
        ≡ ok (t, d'))
      × (read_length d' ≡ ok (n, indefinite, d''))
unfolding read_element
read_element_fails fuel depth d h = elim (Result-cases (read_tag d)) [
  | inl ((t, d'), e) ↦ elim (Result-cases (read_length d')) [
    | inl ((n, indefinite, d''), f) ↦ (t, d', n, indefinite, d'', e, f)
    | inr (x, f) ↦ absurd (ground (arith, e, f))
  ]
  | inr (x, e) ↦ absurd (ground (arith, e))
]

-- One round of the scan of an indefinite-length element.
pub scan_end :
    (fuel depth : ℕ) (t : Tag) (start d : Decoder) (rest : List ℕ)
    → end_of_contents d.rest ≡ some rest
    → scan (suc fuel) depth t start d
      ≡ ok (t, take (d.off - start.off) start.rest, record { off = d.off + 2; rest = rest })
unfolding scan
scan_end fuel depth t start d rest e = ground (arith, e)

pub scan_child :
    (fuel depth : ℕ) (t : Tag) (start d : Decoder) (a : Tag) (c : List ℕ) (d' : Decoder)
    → end_of_contents d.rest ≡ none
    → read_element fuel (depth + 1) d ≡ ok (a, c, d')
    → scan (suc fuel) depth t start d ≡ scan fuel depth t start d'
unfolding scan
scan_child fuel depth t start d a c d' e f = ground (arith, e, f)

pub scan_fails :
    (fuel depth : ℕ) (t : Tag) (start d : Decoder) (x : Error)
    → end_of_contents d.rest ≡ none
    → read_element fuel (depth + 1) d ≡ err x
    → scan (suc fuel) depth t start d ≡ err x
unfolding scan
scan_fails fuel depth t start d x e f = ground (arith, e, f)

no_fuel : (depth : ℕ) (d : Decoder) → read_element 0 depth d ≡ err out_of_fuel
unfolding read_element
no_fuel depth d = refl

pub no_fuel_scan :
    (depth : ℕ) (t : Tag) (start d : Decoder) → scan 0 depth t start d ≡ err out_of_fuel
unfolding scan
no_fuel_scan depth t start d = refl

pub header-Advances :
    (d d1 d2 : Decoder) (t : Tag) (n : ℕ) (indefinite : Bool)
    → read_tag d ≡ ok (t, d1)
    → read_length d1 ≡ ok (n, indefinite, d2)
    → Advances 2 d d2
header-Advances d d1 d2 t n indefinite e f =
    Advances-trans 1 1 d d1 d2 (read_tag-Advances d t d1 e)
      (read_length-Advances d1 n indefinite d2 f)

eoc-Advances :
    (d : Decoder) (rest : List ℕ)
    → end_of_contents d.rest ≡ some rest
    → Advances 2 d (record { off = d.off + 2; rest = rest })
eoc-Advances d rest e = ground (arith, end_of_contents-drop d.rest rest e)

mutual
  pub read_element-Advances :
      (fuel depth : ℕ) (d : Decoder) (t : Tag) (content : List ℕ) (d' : Decoder)
      → read_element fuel depth d ≡ ok (t, content, d')
      → Advances 2 d d'
  read_element-Advances zero depth d t content d' h = absurd (cc (no_fuel depth d))
  read_element-Advances (suc fuel) depth d t content d' h =
      let (u, d1, n, indefinite, d2, e, f) = read_element_fails fuel depth d h in
      let header = read_element_header fuel depth d u d1 n indefinite d2 e f in
      let whole = header-Advances d d1 d2 u n indefinite e f in
      elim (Bool-cases indefinite) [
        | inl long ↦
            Advances-trans 2 0 d d2 d' whole
              (scan-Advances fuel depth u d2 d2 t content d' (ground (arith, header, long)))
        | inr short ↦
            Advances-trans 2 0 d d2 d' whole
              (read_content-Advances u n d2 t content d' (ground (arith, header, short)))
      ]

  scan-Advances :
      (fuel depth : ℕ) (u : Tag) (start d : Decoder) (t : Tag) (content : List ℕ) (d' : Decoder)
      → scan fuel depth u start d ≡ ok (t, content, d')
      → Advances 0 d d'
  scan-Advances zero depth u start d t content d' h = absurd (cc (no_fuel_scan depth u start d))
  scan-Advances (suc fuel) depth u start d t content d' h =
      elim (Option-cases (end_of_contents d.rest)) [
        | inr (rest, e) ↦
            ground (arith, scan_end fuel depth u start d rest e, eoc-Advances d rest e)
        | inl e ↦ elim (Result-cases (read_element fuel (depth + 1) d)) [
          | inl ((a, c, d1), f) ↦ Advances-weaken d d' (
              Advances-trans 2 0 d d1 d' (read_element-Advances fuel (depth + 1) d a c d1 f) (
                scan-Advances fuel depth u start d1 t content d'
                  (cc (scan_child fuel depth u start d a c d1 e f))))
          | inr (x, f) ↦ absurd (cc (scan_fails fuel depth u start d x e f))
        ]
      ]

-- A read that succeeds takes at least two octets, and only octets that were there: the cursor never
-- stands beyond the end of the input, and what it has left is what stood behind the element.
pub read_tlv-Advances :
    (d : Decoder) (t : Tag) (content : List ℕ) (d' : Decoder)
    → read_tlv d ≡ ok (t, content, d')
    → Advances 2 d d'
unfolding read_tlv
read_tlv-Advances d t content d' h = read_element-Advances (length d.rest + 1) 0 d t content d' h
