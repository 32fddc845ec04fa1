-- ===== src/Asn1/Fields.antt =====
-- Elements in a row, taken one by one by their tags.
use go_iec.Base.{ℕ, ◌+◌, ◌^◌, ◌<◌, ◌≡◌, false, some, [], length, ok}
use go_iec.Asn1.{append_tlv}
use go_iec.Asn1.Decoder.{expect, optional}
use go_iec.Asn1.Tlv.{tag_eq_refl, optional-append_tlv}
use go_iec.Asn1.Element.{
  Element, Elements, append_elements, size, IsSized, content_octets, tag_of, is_verbatim_of,
  read_tlv-encode, append_elements-next, length-append_element, encode-append_tlv,
  length-content_octets, content_size_bound, tag_of-IsTag,
}

-- An element in front of others is taken by its tag.
pub expect-next :
    (el : Element) (es : Elements) (off : ℕ)
    → IsSized el
    → is_verbatim_of el ≡ false
    → expect (tag_of el) (record { off = off; rest = append_elements [] (Elements.next el es) })
      ≡ ok (content_octets el, record { off = off + size el; rest = append_elements [] es })
unfolding expect
expect-next el es off sized plain = rw (
  append_elements-next el es,
  read_tlv-encode el off (append_elements [] es) sized plain,
  tag_eq_refl (tag_of el),
)

pub optional-next :
    (el : Element) (es : Elements) (off : ℕ)
    → IsSized el
    → is_verbatim_of el ≡ false
    → optional (tag_of el) (record { off = off; rest = append_elements [] (Elements.next el es) })
      ≡ ok (some (content_octets el), record { off = off + size el; rest = append_elements [] es })
optional-next el es off sized plain =
    let content = content_octets el in
    let total = append_tlv [] (tag_of el) content in
    let range : length content < 2 ^ 32 =
      rw (length-content_octets el sized) (content_size_bound el sized) in
    let octets = encode-append_tlv el sized plain in
    let counted : length total ≡ size el = rw (← octets) (length-append_element [] el sized).1 in
    rw (
      append_elements-next el es,
      octets,
      optional-append_tlv (tag_of el) (tag_of el) off content (append_elements [] es)
          (tag_of-IsTag el sized) range,
      tag_eq_refl (tag_of el),
      counted,
    )
