-- ===== src/Asn1/Tlv.antt =====
-- Whole elements: `AppendTLV` against `ReadTLV`, `Expect`, `Optional` and `TLVSize`.
use go_iec.Base.{
  ℕ, suc, ◌+◌, ◌^◌, ◌≤◌, ◌<◌, ◌≡◌, true, false, List, [], ◌++◌, append_assoc, none, some, length,
  length-append, take-length_append, drop-length_append, ltb, if◌then◌else◌, Bool-cases, inl, inr,
  ok, err, arith,
}
use native.Mathlib.Numerals.{add-one}
use go_iec.Asn1.{Tag, unexpected, append_tag, append_length, append_tlv, tlv_size, tag_size}
use go_iec.Asn1.Decoder.{
  Decoder, read_content, read_element, read_tlv, tag_eq, bool_eq, peek, expect, optional, more,
}
use go_iec.Asn1.Bounds.{read_element_header}
use go_iec.Asn1.Lengths.{append_length-append, length-append_length, read_length-append_length}
use go_iec.Asn1.Tags.{IsTag, read_tag-append_tag, length-append_tag}

append_tlv-parts :
    (dst : List ℕ) (t : Tag) (content : List ℕ)
    → append_tlv dst t content ≡ append_tag dst t ++ (append_length [] (length content) ++ content)
unfolding append_tlv
append_tlv-parts dst t content =
    rw (append_length-append (append_tag dst t) (length content), append_assoc (append_tag dst t))

-- `AppendTLV`, with a content shorter than 2 ^ 32 octets, appends as many octets as `TLVSize` says for
-- a tag number below 2 ^ 28; from there on one more.
length-append_tlv :
    (dst : List ℕ) (t : Tag) (content : List ℕ)
    → IsTag t
    → length content < 2 ^ 32
    → length (append_tlv dst t content)
      ≡ length dst + tlv_size t (length content) + (if ltb t.number (2 ^ 28) then 0 else 1)
unfolding append_tlv tlv_size
length-append_tlv dst t content h hl =
    rw
      (
        length-append (append_length (append_tag dst t) (length content)) content,
        length-append_length (append_tag dst t) (length content) hl,
        length-append_tag dst t h,
      )
      (omega arith)

read_content_all :
    (t : Tag) (off : ℕ) (content ys : List ℕ)
    → read_content t (length content) (record { off = off; rest = content ++ ys })
      ≡ ok (t, content, record { off = off + length content; rest = ys })
unfolding read_content
read_content_all t off content ys =
    ground (
      arith,
      length-append content ys,
      take-length_append content ys,
      drop-length_append content ys,
    )

-- At any nesting depth that is allowed, and with any fuel but none.
read_element-append_tlv :
    (fuel depth off : ℕ) (t : Tag) (content ys : List ℕ)
    → depth ≤ 64
    → IsTag t
    → length content < 2 ^ 32
    → read_element (suc fuel) depth (record { off = off; rest = append_tlv [] t content ++ ys })
      ≡ ok (t, content, record { off = off + length (append_tlv [] t content); rest = ys })
read_element-append_tlv fuel depth off t content ys hd ht hl =
    let octets = append_length [] (length content) in
    let off' = off + length (append_tag [] t) in
    rw
      (
        append_tlv-parts [] t content,
        append_assoc (append_tag [] t) (octets ++ content) ys,
        append_assoc octets content ys,
        length-append (append_tag [] t) (octets ++ content),
        length-append octets content,
      )
      (ground (
        arith,
        read_element_header fuel depth
            (record { off = off; rest = append_tag [] t ++ (octets ++ (content ++ ys)) }) t
            (record { off = off'; rest = octets ++ (content ++ ys) }) (length content) false
            (record { off = off' + length octets; rest = content ++ ys })
            (read_tag-append_tag t off (octets ++ (content ++ ys)) ht)
            (read_length-append_length (length content) off' (content ++ ys) hl),
        read_content_all t (off' + length octets) content ys,
      ))

-- `ReadTLV` reads back the element that `AppendTLV` wrote, with a content shorter than 2 ^ 32 octets:
-- tag and content, and it stops behind it.
pub read_tlv-append_tlv :
    (t : Tag) (off : ℕ) (content ys : List ℕ)
    → IsTag t
    → length content < 2 ^ 32
    → read_tlv (record { off = off; rest = append_tlv [] t content ++ ys })
      ≡ ok (t, content, record { off = off + length (append_tlv [] t content); rest = ys })
unfolding read_tlv
read_tlv-append_tlv t off content ys ht hl = rw add-one (
    read_element-append_tlv (length (append_tlv [] t content ++ ys)) 0 off t content ys
      (omega arith) ht hl)

pub tag_eq→eq : (t u : Tag) → tag_eq t u ≡ true → t ≡ u
unfolding tag_eq bool_eq
tag_eq→eq t u h = ground arith

pub tag_eq_refl : (t : Tag) → tag_eq t t ≡ true
unfolding tag_eq bool_eq
tag_eq_refl t = ground arith

-- `Expect` takes a written element, with a content shorter than 2 ^ 32 octets, if it has the tag that
-- is asked for, and refuses any other tag.
expect-append_tlv :
    (t u : Tag) (off : ℕ) (content ys : List ℕ)
    → IsTag t
    → length content < 2 ^ 32
    → expect u (record { off = off; rest = append_tlv [] t content ++ ys }) ≡ (
        if tag_eq t u
        then ok (content, record { off = off + length (append_tlv [] t content); rest = ys })
        else err unexpected)
unfolding expect
expect-append_tlv t u off content ys ht hl = rw (read_tlv-append_tlv t off content ys ht hl)

peek-append_tlv :
    (t : Tag) (off : ℕ) (content ys : List ℕ)
    → IsTag t
    → length content < 2 ^ 32
    → peek (record { off = off; rest = append_tlv [] t content ++ ys }) ≡ ok t
unfolding peek
peek-append_tlv t off content ys ht hl =
    let octets = append_length [] (length content) ++ content in
    rw (
      append_tlv-parts [] t content,
      append_assoc (append_tag [] t) octets ys,
      read_tag-append_tag t off (octets ++ ys) ht,
    )

more-append_tlv :
    (t : Tag) (off : ℕ) (content ys : List ℕ)
    → IsTag t
    → length content < 2 ^ 32
    → more (record { off = off; rest = append_tlv [] t content ++ ys }) ≡ true
unfolding more tlv_size tag_size
more-append_tlv t off content ys ht hl =
    ground (arith, length-append (append_tlv [] t content) ys, length-append_tlv [] t content ht hl)

-- `Optional` takes a written element, with a content shorter than 2 ^ 32 octets, if it has the tag that
-- is asked for, and leaves one with another tag unread.
pub optional-append_tlv :
    (t u : Tag) (off : ℕ) (content ys : List ℕ)
    → IsTag t
    → length content < 2 ^ 32
    → let d : Decoder = record { off = off; rest = append_tlv [] t content ++ ys } in
      optional u d ≡ (
        if tag_eq t u
        then ok (some content, record { off = off + length (append_tlv [] t content); rest = ys })
        else ok (none, d))
unfolding optional
optional-append_tlv t u off content ys ht hl = elim (Bool-cases (tag_eq t u)) [
  | inl same ↦ rw (
    more-append_tlv t off content ys ht hl,
    peek-append_tlv t off content ys ht hl,
    same,
    read_tlv-append_tlv t off content ys ht hl,
  )
  | inr other ↦
      rw (more-append_tlv t off content ys ht hl, peek-append_tlv t off content ys ht hl, other)
]
