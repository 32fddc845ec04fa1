-- ===== src/Asn1/Span.antt =====
-- asn1/span.go: an element with its octets as they stand on the wire.
use go_iec.Base.{
  ℕ, zero, suc, ◌+◌, ◌-◌, ◌≡◌, ◌↔◌, refl, sym, ap, ◌∙◌, Bool, true, false, not, Option, none, some,
  List, ◌++◌, length, take, take-append-drop, ltb, if◌then◌else◌, Bool-cases, Option-cases, inl,
  inr, Result-cases, Result, ok, err, ◌>>=◌, arith,
}
use mathlib.Core.Path.{subst}
use native.Mathlib.Numerals.{add-one}
use go_iec.Asn1.{Tag, Error, truncated, bad_length}
use go_iec.Asn1.Decoder.{
  Decoder, more, advance, read_tag, read_length, end_of_contents, read_content, read_element, scan,
  read_tlv, peek,
}
use go_iec.Asn1.Bounds.{
  read_tlv-Advances, read_element_header, read_element_fails, scan_end, scan_child, scan_fails,
  no_fuel_scan,
}

pub record Span : Type 0 where
  pub tag : Tag
  pub full : List ℕ
  pub content : List ℕ
  pub content_eoc : List ℕ
  pub indefinite : Bool

-- `d.data[start:d.off]`, of two cursors on the same octets.
abbrev between : Decoder → Decoder → List ℕ
between start d = take (d.off - start.off) start.rest

-- An element of definite length, whose header ends at `hdr_end`.
unfoldable pub definite : Tag → ℕ → Decoder → Decoder → Result Error (Span × Decoder)
definite t n start hdr_end =
    let e = advance n hdr_end in
    if ltb (length hdr_end.rest) n
    then err truncated
    else ok (
      record {
        tag = t;
        full = between start e;
        content = between hdr_end e;
        content_eoc = between hdr_end e;
        indefinite = false;
      },
      e,
    )

-- An element of indefinite length, read again from its start.
unfoldable pub scanned : Tag → Decoder → Decoder → Result Error (Span × Decoder)
scanned t start hdr_end = do
  (_, content, e) ← read_tlv start
  ok (
    record {
      tag = t;
      full = between start e;
      content = content;
      content_eoc = between hdr_end e;
      indefinite = true;
    },
    e,
  )

unfoldable pub read_span : Decoder → Result Error (Span × Decoder)
read_span start = do
  (t, d) ← read_tag start
  (n, indefinite, hdr_end) ← read_length d
  if not indefinite then definite t n start hdr_end else scanned t start hdr_end

-- The tag, or `none` for the false of the source.
peek_tag : Decoder → Option Tag
peek_tag d =
    let t : Option Tag = elim (peek d) [ ok t ↦ some t | err e ↦ none ] in
    if more d then t else none

scan-tag :
    (fuel depth : ℕ) (u : Tag) (start d : Decoder) (t : Tag) (content : List ℕ) (d' : Decoder)
    → scan fuel depth u start d ≡ ok (t, content, d')
    → t ≡ u
scan-tag zero depth u start d t content d' h = absurd (cc (no_fuel_scan depth u start d))
scan-tag (suc fuel) depth u start d t content d' h = elim (Option-cases (end_of_contents d.rest)) [
  | inr (rest, e) ↦ cc (scan_end fuel depth u start d rest e)
  | inl e ↦ elim (Result-cases (read_element fuel (depth + 1) d)) [
    | inl ((a, c, d1), f) ↦
        scan-tag fuel depth u start d1 t content d'
          (cc (scan_child fuel depth u start d a c d1 e f))
    | inr (x, f) ↦ absurd (cc (scan_fails fuel depth u start d x e f))
  ]
]

read_span_header :
    (d d1 d2 : Decoder) (t : Tag) (n : ℕ) (indefinite : Bool)
    → read_tag d ≡ ok (t, d1)
    → read_length d1 ≡ ok (n, indefinite, d2)
    → read_span d ≡ (if not indefinite then definite t n d d2 else scanned t d d2)
unfolding read_span
read_span_header d d1 d2 t n indefinite e f = rw (e, f)

read_tlv_header :
    (d d1 d2 : Decoder) (t : Tag) (n : ℕ) (indefinite : Bool)
    → read_tag d ≡ ok (t, d1)
    → read_length d1 ≡ ok (n, indefinite, d2)
    → read_tlv d ≡ (
        if not indefinite
        then read_content t n d2
        else if not t.constructed
        then err bad_length
        else scan (length d.rest) 0 t d2 d2)
unfolding read_tlv
read_tlv_header d d1 d2 t n indefinite e f =
    rw add-one (read_element_header (length d.rest) 0 d t d1 n indefinite d2 e f)

span_header :
    (d : Decoder) {a : Span × Decoder}
    → read_span d ≡ ok a
    → (t : Tag) × (d1 : Decoder) × (n : ℕ) × (indefinite : Bool) × (d2 : Decoder) × (read_tag d
        ≡ ok (t, d1))
      × (read_length d1 ≡ ok (n, indefinite, d2))
unfolding read_span
span_header d h = elim (Result-cases (read_tag d)) [
  | inl ((t, d1), e) ↦ elim (Result-cases (read_length d1)) [
    | inl ((n, indefinite, d2), f) ↦ (t, d1, n, indefinite, d2, e, f)
    | inr (x, f) ↦ absurd (ground (arith, e, f))
  ]
  | inr (x, e) ↦ absurd (ground (arith, e))
]

definite-content :
    (t : Tag) (n : ℕ) (d hdr_end d' : Decoder) (s : Span)
    → definite t n d hdr_end ≡ ok (s, d')
    → (read_content t n hdr_end ≡ ok (s.tag, s.content, d')) × (s.full ≡ between d d')
unfolding definite read_content
definite-content t n d hdr_end d' s h =
    let cut : hdr_end.off + n - hdr_end.off ≡ n = omega arith in
    let octets : take (hdr_end.off + n - hdr_end.off) hdr_end.rest ≡ take n hdr_end.rest =
      rw cut refl in
    ground (arith, octets)

scanned-tlv :
    (t : Tag) (d hdr_end d' : Decoder) (s : Span)
    → scanned t d hdr_end ≡ ok (s, d')
    → (u : Tag) × (read_tlv d ≡ ok (u, s.content, d')) × (s.tag ≡ t) × (s.full ≡ between d d')
unfolding scanned
scanned-tlv t d hdr_end d' s h = elim (Result-cases (read_tlv d)) [
  | inl ((u, c, e), f) ↦ (u, ground (arith, f), ground (arith, f), ground (arith, f))
  | inr (x, f) ↦ absurd (ground (arith, f))
]

both-parts :
    (d d' : Decoder) (s : Span)
    → read_tlv d ≡ ok (s.tag, s.content, d')
    → s.full ≡ between d d'
    → (read_tlv d ≡ ok (s.tag, s.content, d')) × (d.rest ≡ s.full ++ d'.rest)
both-parts d d' s h full =
    let (rest, _, _) = read_tlv-Advances d s.tag s.content d' h in
    (h, rw (full, rest) (sym (take-append-drop (d'.off - d.off) d.rest)))

span-tlv :
    (d d' : Decoder) (s : Span)
    → read_span d ≡ ok (s, d')
    → (read_tlv d ≡ ok (s.tag, s.content, d')) × (d.rest ≡ s.full ++ d'.rest)
span-tlv d d' s h =
    let (t, d1, n, indefinite, d2, e, f) = span_header d h in
    let span = read_span_header d d1 d2 t n indefinite e f in
    let tlv = read_tlv_header d d1 d2 t n indefinite e f in
    elim (Bool-cases indefinite) [
      | inl long ↦
          let (u, got, same, full) = scanned-tlv t d d2 d' s (ground (arith, span, long)) in
          let by_scan : scan (length d.rest) 0 t d2 d2 ≡ ok (u, s.content, d') =
            ground (arith, tlv, got, long) in
          let tags : u ≡ s.tag =
            scan-tag (length d.rest) 0 t d2 d2 u s.content d' by_scan ∙ sym same in
          both-parts d d' s (rw tags at got) full
      | inr short ↦
          let (got, full) = definite-content t n d d2 d' s (ground (arith, span, short)) in
          both-parts d d' s (ground (arith, tlv, short, got)) full
    ]

tlv_header :
    (d : Decoder) {a : Tag × List ℕ × Decoder}
    → read_tlv d ≡ ok a
    → (t : Tag) × (d1 : Decoder) × (n : ℕ) × (indefinite : Bool) × (d2 : Decoder) × (read_tag d
        ≡ ok (t, d1))
      × (read_length d1 ≡ ok (n, indefinite, d2))
unfolding read_tlv
tlv_header d h = read_element_fails (length d.rest) 0 d (rw add-one at h)

content-definite :
    (t : Tag) (n : ℕ) (d hdr_end : Decoder) {a : Tag × List ℕ × Decoder}
    → read_content t n hdr_end ≡ ok a
    → (r : Span × Decoder) × (definite t n d hdr_end ≡ ok r)
unfolding definite read_content
content-definite t n d hdr_end h = elim (Bool-cases (ltb (length hdr_end.rest) n)) [
  | inl b ↦ absurd (ground (arith, b))
  | inr b ↦ rw b (_, refl)
]

tlv-scanned :
    (t : Tag) (d hdr_end : Decoder) {a : Tag × List ℕ × Decoder}
    → read_tlv d ≡ ok a
    → (r : Span × Decoder) × (scanned t d hdr_end ≡ ok r)
unfolding scanned
tlv-scanned t d hdr_end h = rw h (_, refl)

tlv-span :
    (d : Decoder) {a : Tag × List ℕ × Decoder}
    → read_tlv d ≡ ok a
    → (r : Span × Decoder) × (read_span d ≡ ok r)
tlv-span d h =
    let (t, d1, n, indefinite, d2, e, f) = tlv_header d h in
    let span = read_span_header d d1 d2 t n indefinite e f in
    let tlv = read_tlv_header d d1 d2 t n indefinite e f in
    elim (Bool-cases indefinite) [
      | inl long ↦ let (r, got) = tlv-scanned t d d2 h in (r, ground (arith, span, long, got))
      | inr short ↦
          let same = rw (tlv, short) at h in
          let (r, got) = content-definite t n d d2 same in (r, ground (arith, span, short, got))
    ]

-- `ReadSpan` succeeds exactly where `ReadTLV` does, and with the same tag, content and cursor; `Full` is
-- what the element took of the input: it and what the cursor has left make up the octets that were
-- there.
pub read_span-read_tlv :
    (d d' : Decoder) (t : Tag) (content : List ℕ)
    → ((read_tlv d ≡ ok (t, content, d')) ↔ (
        (s : Span) × (read_span d ≡ ok (s, d'))
        × (s.tag ≡ t)
        × (s.content ≡ content)
        × (d.rest ≡ s.full ++ d'.rest)))
read_span-read_tlv d d' t content = (
  λ h.
      let ((s, e), got) = tlv-span d h in
      let (same, parts) = span-tlv d e s got in
      let tag : s.tag ≡ t = cc (h, same) in
      let octets : s.content ≡ content = cc (h, same) in
      let cursor : e ≡ d' = cc (h, same) in
      (
        s,
        subst (λ x. read_span d ≡ ok (s, x)) cursor got,
        tag,
        octets,
        parts ∙ ap (λ (x : Decoder). s.full ++ x.rest) cursor,
      ),
  λ h.
      let (s, got, tag, octets, _) = h in
      let (same, _) = span-tlv d d' s got in rw (tag, octets) at same,
)
