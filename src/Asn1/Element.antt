-- ===== src/Asn1/Element.antt =====
-- asn1/element.go: trees of elements, sized before they are encoded.
use go_iec.Base.{
  ℕ, ◌+◌, ◌^◌, ◌<◌, ◌≡◌, refl, sym, ◌∙◌, Bool, true, false, List, [], ◌∷◌, ◌++◌, append-nil,
  append_assoc, Option, none, some, length, length-append, if◌then◌else◌, ok, arith,
}
use go_iec.Asn1.{Tag, append_tag, append_length, append_tlv, tag_size, length_size}
use go_iec.Asn1.Decoder.{read_tlv}
use go_iec.Asn1.Tags.{IsTag, append_tag-append, length-append_tag}
use go_iec.Asn1.Lengths.{append_length-append, length-append_length}
use go_iec.Asn1.Tlv.{read_tlv-append_tlv}

mutual
  -- The fields of the struct: Tag, Value, Children, raw, isRaw, verbatim, isVerbatim.
  pub data Element : Type 0 where
    element : Tag → List ℕ → Elements → List ℕ → Bool → List ℕ → Bool → Element

  pub data Elements : Type 0 where
    nil : Elements
    next : Element → Elements → Elements

abbrev zero_tag : Tag
zero_tag = record { class = 0; constructed = false; number = 0 }

raw_content : Tag → List ℕ → Element
raw_content t content = element (record t { constructed = true }) [] nil content true [] false

raw_tlv : List ℕ → Element
raw_tlv tlv = element zero_tag [] nil [] false tlv true

unfoldable pub prim : Tag → List ℕ → Element
prim t value = element t value nil [] false [] false

-- The children that are not nil.
unfoldable pub given : List (Option Element) → Elements
given [] = nil
given (none ∷ cs) = given cs
given (some c ∷ cs) = next c (given cs)

unfoldable pub cons : Tag → List (Option Element) → Element
cons t children = element (record t { constructed = true }) [] (given children) [] false [] false

append_children : Elements → Elements → Elements
append_children nil cs = cs
append_children (next e es) cs = next e (append_children es cs)

pub add : Element → List (Option Element) → Element
add (element t value es raw is_raw verbatim is_verbatim) children =
    element t value (append_children es (given children)) raw is_raw verbatim is_verbatim

-- The octets of content that `ContentSize` counts, given the size of the children.
abbrev content_length : Tag → List ℕ → List ℕ → Bool → ℕ → ℕ
content_length t value raw is_raw children =
    if is_raw then length raw else if t.constructed then children else length value

unfoldable mutual
  -- `Size`
  pub size : Element → ℕ
  size (element t value es raw is_raw verbatim is_verbatim) =
      let n = content_length t value raw is_raw (children_size es) in
      if is_verbatim then length verbatim else tag_size t + length_size n + n

  pub children_size : Elements → ℕ
  children_size nil = 0
  children_size (next e es) = size e + children_size es

-- `ContentSize`
pub content_size : Element → ℕ
content_size (element t value es raw is_raw verbatim is_verbatim) =
    content_length t value raw is_raw (children_size es)

mutual
  -- `Append`
  pub append_element : List ℕ → Element → List ℕ
  append_element dst (element t value es raw is_raw verbatim is_verbatim) =
      let n = content_length t value raw is_raw (children_size es) in
      let header = append_length (append_tag dst t) n in
      let with_children = append_elements header es in
      if is_verbatim
      then dst ++ verbatim
      else if is_raw
      then header ++ raw
      else if t.constructed
      then with_children
      else header ++ value

  pub append_elements : List ℕ → Elements → List ℕ
  append_elements dst nil = dst
  append_elements dst (next e es) = append_elements (append_element dst e) es

unfoldable pub encode : Element → List ℕ
encode el = append_element [] el

abbrev pub is_verbatim_of : Element → Bool
is_verbatim_of (element t value es raw is_raw verbatim is_verbatim) = is_verbatim

abbrev mutual
  -- Every tag number is below 2 ^ 28 and every content shorter than 2 ^ 32.
  pub IsSized : Element → Type 0
  IsSized (element t value es raw is_raw verbatim is_verbatim) =
      (t.class < 4)
      × (t.number < 2 ^ 28)
      × (content_length t value raw is_raw (children_size es) < 2 ^ 32)
      × AllSized es

  pub AllSized : Elements → Type 0
  AllSized nil = Unit {0}
  AllSized (next e es) = IsSized e × AllSized es

header-append :
    (dst : List ℕ) (t : Tag) (n : ℕ)
    → append_length (append_tag dst t) n ≡ dst ++ append_length (append_tag [] t) n
header-append dst t n = rw (
  append_length-append (append_tag dst t) n,
  append_length-append (append_tag [] t) n,
  append_tag-append dst t,
  append_assoc dst,
)

mutual
  unfolding append_element append_elements

  element-append :
      (dst : List ℕ) (el : Element) → append_element dst el ≡ dst ++ append_element [] el
  element-append dst (element t value es raw is_raw verbatim is_verbatim) =
      let n = content_length t value raw is_raw (children_size es) in
      let front = append_length (append_tag [] t) n in
      ground (
        arith,
        header-append dst t n,
        elements-append (append_length (append_tag dst t) n) es,
        elements-append front es,
        append_assoc dst front raw,
        append_assoc dst front value,
        append_assoc dst front (append_elements [] es),
      )

  elements-append :
      (dst : List ℕ) (es : Elements) → append_elements dst es ≡ dst ++ append_elements [] es
  elements-append dst nil = sym (append-nil dst)
  elements-append dst (next e es) =
      elements-append (append_element dst e) es
      ∙ rw (element-append dst e, append_assoc dst, elements-append (append_element [] e) es)

length-header :
    (t : Tag) (n : ℕ)
    → t.class < 4
    → t.number < 2 ^ 28
    → n < 2 ^ 32
    → length (append_length (append_tag [] t) n) ≡ tag_size t + length_size n
length-header t n hc hn h = ground (
  arith,
  length-append_length (append_tag [] t) n h,
  length-append_tag [] t (record { class_range = hc; number_range = omega arith }),
)

mutual
  unfolding append_element append_elements size children_size

  element-size : (el : Element) → IsSized el → length (append_element [] el) ≡ size el
  element-size (element t value es raw is_raw verbatim is_verbatim) h =
      let n = content_length t value raw is_raw (children_size es) in
      let front = append_length (append_tag [] t) n in
      ground (
        arith,
        length-header t n h.0 h.1 h.2,
        length-append front raw,
        length-append front value,
        length-append front (append_elements [] es),
        elements-append front es,
        elements-size es h.3,
      )

  elements-size : (es : Elements) → AllSized es → length (append_elements [] es) ≡ children_size es
  elements-size nil h = refl
  elements-size (next e es) h =
      rw (elements-append (append_element [] e) es, length-append (append_element [] e))
        (omega (arith, element-size e h.0, elements-size es h.1))

-- With tag numbers below 2 ^ 28 and contents shorter than 2 ^ 32 octets throughout the tree: `Append`
-- keeps `dst` and adds exactly as many octets as `Size` promised, so `Encode` fills the slice that it
-- allocates and never grows it.
pub length-append_element :
    (dst : List ℕ) (el : Element)
    → IsSized el
    → (append_element dst el ≡ dst ++ encode el) × (length (encode el) ≡ size el)
unfolding encode
length-append_element dst el h = (element-append dst el, element-size el h)

pub append_elements-nil : append_elements [] nil ≡ []
unfolding append_elements
append_elements-nil = refl

pub append_elements-next :
    (e : Element) (es : Elements)
    → append_elements [] (next e es) ≡ encode e ++ append_elements [] es
unfolding append_elements encode
append_elements-next e es = elements-append (append_element [] e) es

-- No element but a verbatim one is empty.
pub encode_pos : (el : Element) → IsSized el → is_verbatim_of el ≡ false → 0 < length (encode el)
unfolding size tag_size
encode_pos (element t value es raw is_raw verbatim is_verbatim) h v =
    ground (arith, length-append_element [] (element t value es raw is_raw verbatim is_verbatim) h)

-- The content octets of an element that is not verbatim.
unfoldable pub content_octets : Element → List ℕ
content_octets (element t value es raw is_raw verbatim is_verbatim) =
    if is_raw then raw else if t.constructed then append_elements [] es else value

unfoldable pub tag_of : Element → Tag
tag_of (element t value es raw is_raw verbatim is_verbatim) = t

pub length-content_octets :
    (el : Element) → IsSized el → length (content_octets el) ≡ content_size el
unfolding content_octets content_size
length-content_octets (element t value es raw is_raw verbatim is_verbatim) h =
    ground (arith, elements-size es h.3)

pub tag_of-IsTag : (el : Element) → IsSized el → IsTag (tag_of el)
unfolding tag_of
tag_of-IsTag (element t value es raw is_raw verbatim is_verbatim) h = record {
  class_range = h.0;
  number_range = omega arith;
}

pub content_size_bound : (el : Element) → IsSized el → content_size el < 2 ^ 32
unfolding content_size
content_size_bound (element t value es raw is_raw verbatim is_verbatim) h = h.2

-- The tree encoder agrees with `AppendTLV`, with tag numbers below 2 ^ 28 and contents shorter than
-- 2 ^ 32 octets throughout the tree: an element that is not verbatim is encoded as one element
-- with its tag, around the octets of its content.
pub encode-append_tlv :
    (el : Element)
    → IsSized el
    → is_verbatim_of el ≡ false
    → encode el ≡ append_tlv [] (tag_of el) (content_octets el)
unfolding encode append_element append_tlv content_octets tag_of
encode-append_tlv (element t value es raw is_raw verbatim is_verbatim) h v =
    let n = content_length t value raw is_raw (children_size es) in
    ground (arith, elements-append (append_length (append_tag [] t) n) es, elements-size es h.3)

-- With tag numbers below 2 ^ 28 and contents shorter than 2 ^ 32 octets throughout the tree: what
-- `Encode` wrote of an element that is not verbatim, `ReadTLV` reads back, the tag and the octets of
-- the content; the cursor moves over `Size` octets.
pub read_tlv-encode :
    (el : Element) (off : ℕ) (ys : List ℕ)
    → IsSized el
    → is_verbatim_of el ≡ false
    → read_tlv (record { off = off; rest = encode el ++ ys })
      ≡ ok (tag_of el, content_octets el, record { off = off + size el; rest = ys })
read_tlv-encode el off ys h v =
    let octets = encode-append_tlv el h v in
    let counted : length (append_tlv [] (tag_of el) (content_octets el)) ≡ size el =
      rw (← octets) (length-append_element [] el h).1 in
    rw octets (
      read_tlv-append_tlv (tag_of el) off (content_octets el) ys (tag_of-IsTag el h)
        (rw (length-content_octets el h) (content_size_bound el h))
      ∙ rw counted)
