-- ===== src/Goose/Wire.antt =====
-- goose/message.go: the octets of a message.
pub mod Fields
pub mod RoundTrip
mod Tests
use go_iec.Base.{
  ℤ, pos, negsuc, ℕ, ◌+◌, ◌-◌, ◌*◌, ◌/◌, ◌%◌, ◌^◌, bit_or, Bool, true, false, not, ◌&&◌, ◌||◌,
  Option, none, some, List, [], ◌∷◌, map, length, take, drop, get_or, ltb, leb, ◌==◌, if◌then◌else◌,
  Result, ok, err, ◌>>=◌,
}
use go_iec.Asn1.{
  Tag, application_constructed, context_primitive, context_constructed, truncated, bad_length,
  bad_value,
}
use go_iec.Asn1.Decoder.{Decoder, new_decoder, expect, optional}
use go_iec.Asn1.Element.{Element, prim, cons, append_element, size}
use go_iec.Asn1.Primitives.{uint_elem, bool_elem, decode_uint, decode_bool}
use go_iec.Asn1.Primitives.Floats.{Floats}
use go_iec.Mms.{
  Value, Values, nil, next, Error, wrapped, lift, bit_string, octet_string, visible_string,
  generalized_time, binary_time, mms_string, utc_time,
}
use go_iec.Mms.Codec.{data_element, decode_items, decode_data, new_utc_time_raw}
use go_iec.Mms.Time.{Time, zero_time, new_utc_time, time, time_quality_flags}
use go_iec.Goose.{Message}

-- `headerLen`
abbrev pub header_len : ℕ
header_len = 8

abbrev pub pdu_tag : Tag
pdu_tag = application_constructed 1

-- `mms.DefaultTimeQuality`
abbrev default_time_quality : ℕ
default_time_quality = 0x8a

abbrev pub quality : Option ℕ → ℕ
quality none = default_time_quality
quality (some q) = q

-- A message's moment as a `time.Time`, and back.
abbrev pub to_time : Option ℕ → Time
to_time none = zero_time
to_time (some ns) = record { unix = pos (ns / 1000000000); nanosecond = ns % 1000000000 }

abbrev pub of_time : Time → Option ℕ
of_time t = elim t.unix [ negsuc k ↦ none | pos secs ↦ some (secs * 1000000000 + t.nanosecond) ]

-- `Bytes` of a UtcTime.
abbrev pub bytes_of : Value → List ℕ
bytes_of (utc_time b) = b
bytes_of _ = []

abbrev pub list_of : Values → List Value
list_of nil = []
list_of (next v vs) = v ∷ list_of vs

-- What `expectUint32` makes of the content.
abbrev pub uint32 : List ℕ → Result Error ℕ
uint32 content = elim (decode_uint content) [
  | err e ↦ err (wrapped bad_value)
  | ok v ↦ if ltb (2 ^ 32 - 1) v then err (wrapped bad_value) else ok v
]

-- `expectUint32`
unfoldable pub expect_uint32 : ℕ → Decoder → Result Error (ℕ × Decoder)
expect_uint32 n d = do
  (content, d') ← lift (expect (context_primitive n) d)
  v ← uint32 content
  ok (v, d')

abbrev given_or : Option (List ℕ) → List ℕ
given_or none = []
given_or (some b) = b

abbrev flag_or : Option (List ℕ) → Result Error Bool
flag_or none = ok false
flag_or (some b) = lift (decode_bool b)

module _ (floats : Floats) where
  abbrev pub all_data : List Value → Element
  all_data values = cons (context_constructed 11) (map (data_element floats) values)

  abbrev pub pdu : Message Value → Element
  pdu m = cons pdu_tag (
      some (prim (context_primitive 0) m.go_cb_ref)
      ∷ some (uint_elem (context_primitive 1) m.time_allowed_to_live)
      ∷ some (prim (context_primitive 2) m.dat_set)
      ∷ some (prim (context_primitive 3) m.go_id)
      ∷ some (
          prim (context_primitive 4)
            (bytes_of (new_utc_time (to_time m.t) (quality m.time_quality))))
      ∷ some (uint_elem (context_primitive 5) m.st_num)
      ∷ some (uint_elem (context_primitive 6) m.sq_num)
      ∷ some (bool_elem (context_primitive 7) m.test)
      ∷ some (uint_elem (context_primitive 8) m.conf_rev)
      ∷ some (bool_elem (context_primitive 9) m.nds_com)
      ∷ some (uint_elem (context_primitive 10) m.num_dat_set_entries)
      ∷ some (all_data m.values)
      ∷ [])

  -- `Marshal`
  unfoldable pub marshal : Message Value → List ℕ
  marshal m =
      let el = pdu m in
      let total = header_len + size el in
      append_element
        (m.app_id / 2 ^ 8 % 256
          ∷ m.app_id % 256
          ∷ total / 2 ^ 8 % 256
          ∷ total % 256
          ∷ 0
          ∷ 0
          ∷ 0
          ∷ 0
          ∷ [])
        el

  -- The octets of the goosePdu.
  unfoldable pub parse_pdu : ℕ → Decoder → Result Error (Message Value)
  parse_pdu app_id d0 = do
    (go_cb_ref, d1) ← lift (expect (context_primitive 0) d0)
    (tatl, d2) ← expect_uint32 1 d1
    (dat_set, d3) ← lift (expect (context_primitive 2) d2)
    (go_id, d4) ← lift (optional (context_primitive 3) d3)
    (t, d5) ← lift (expect (context_primitive 4) d4)
    tv ← new_utc_time_raw t
    (st_num, d6) ← expect_uint32 5 d5
    (sq_num, d7) ← expect_uint32 6 d6
    (test, d8) ← lift (optional (context_primitive 7) d7)
    is_test ← flag_or test
    (conf_rev, d9) ← expect_uint32 8 d8
    (nds_com, d10) ← lift (optional (context_primitive 9) d9)
    is_nds_com ← flag_or nds_com
    (entries, d11) ← expect_uint32 10 d10
    (content, d12) ← lift (expect (context_constructed 11) d11)
    values ← decode_items (decode_data floats) (length content + 1) (new_decoder content)
    ok (record {
      go_cb_ref = go_cb_ref;
      dat_set = dat_set;
      go_id = given_or go_id;
      time_allowed_to_live = tatl;
      t = of_time (time tv);
      st_num = st_num;
      sq_num = sq_num;
      conf_rev = conf_rev;
      test = is_test;
      nds_com = is_nds_com;
      num_dat_set_entries = entries;
      values = list_of values;
      app_id = app_id;
      time_quality = some (time_quality_flags tv);
    })

  -- `Parse`
  unfoldable pub parse : List ℕ → Result Error (Message Value)
  parse apdu =
      let total = bit_or (get_or apdu 2 0 * 2 ^ 8) (get_or apdu 3 0) in
      if ltb (length apdu) header_len
      then err (wrapped truncated)
      else if ltb total header_len || ltb (length apdu) total
      then err (wrapped bad_length)
      else do
        (content, _) ← lift (expect pdu_tag (new_decoder (drop header_len (take total apdu))))
        parse_pdu (bit_or (get_or apdu 0 0 * 2 ^ 8 % 2 ^ 16) (get_or apdu 1 0))
            (new_decoder content)
