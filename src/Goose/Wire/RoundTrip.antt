-- ===== src/Goose/Wire/RoundTrip.antt =====
-- `Parse` reads back what `Marshal` wrote.
use go_iec.Base.{
  ℕ, ◌+◌, ◌*◌, ◌/◌, ◌%◌, ◌^◌, ◌<◌, ◌≡◌, refl, ap, ◌∙◌, bit_or, false, ◌||◌, some, List, [], ◌∷◌,
  ◌++◌, append-nil, length, take, take_all, ltb, ok, ◌>>=◌, arith,
}
use go_iec.Base.Bits.{bit_or_add}
use go_iec.Base.Words.{big_endian_16, big_endian_16-octets}
use go_iec.Asn1.{context_primitive}
use go_iec.Asn1.Decoder.{new_decoder, expect}
use go_iec.Asn1.Fields.{expect-next}
use go_iec.Asn1.Element.{
  Elements, prim, cons, given, append_elements, encode, size, IsSized, content_octets, tag_of,
  append_elements-nil, append_elements-next, length-append_element,
}
use go_iec.Asn1.Primitives.{uint_elem, bool_elem}
use go_iec.Asn1.Primitives.Floats.{Floats}
use go_iec.Mms.{Value, lift}
use go_iec.Mms.Time.{new_utc_time, time}
use go_iec.Goose.{Message}
use go_iec.Goose.Wire.{
  header_len, pdu_tag, quality, to_time, of_time, bytes_of, all_data, pdu, marshal, parse_pdu,
  parse,
}
use go_iec.Goose.Wire.Fields.{
  expect_uint32-next, prim-next, given-next, flag-next, decode_bool-flag_octets,
  new_utc_time_raw-bytes_of, values-decode, data-next, list_of-values_of, AreWireValues,
}

-- The conditions on the numbers of a message, for the wire.
pub record IsMessage (m : Message Value) : Type 0 where
  pub app_id_range : m.app_id < 2 ^ 16
  pub tatl_range : m.time_allowed_to_live < 2 ^ 32
  pub st_num_range : m.st_num < 2 ^ 32
  pub sq_num_range : m.sq_num < 2 ^ 32
  pub conf_rev_range : m.conf_rev < 2 ^ 32
  pub entries_range : m.num_dat_set_entries < 2 ^ 32

-- The message as it arrives: the time as a UtcTime holds it, and the quality that went out.
abbrev pub arrived : Message Value → Message Value
arrived m = record m {
  t = of_time (time (new_utc_time (to_time m.t) (quality m.time_quality)));
  time_quality = some (quality m.time_quality);
}

-- Every field of the PDU is sized.
fields :
    (f : Floats) (m : Message Value)
    → IsSized (pdu f m)
    → IsSized (prim (context_primitive 0) m.go_cb_ref)
      × IsSized (uint_elem (context_primitive 1) m.time_allowed_to_live)
      × IsSized (prim (context_primitive 2) m.dat_set)
      × IsSized (prim (context_primitive 3) m.go_id)
      × IsSized (
          prim
            (context_primitive 4)
            (bytes_of (new_utc_time (to_time m.t) (quality m.time_quality))))
      × IsSized (uint_elem (context_primitive 5) m.st_num)
      × IsSized (uint_elem (context_primitive 6) m.sq_num)
      × IsSized (bool_elem (context_primitive 7) m.test)
      × IsSized (uint_elem (context_primitive 8) m.conf_rev)
      × IsSized (bool_elem (context_primitive 9) m.nds_com)
      × IsSized (uint_elem (context_primitive 10) m.num_dat_set_entries)
      × IsSized (all_data f m.values)
unfolding cons given
fields f m sized =
    let z = sized.3 in
    let (z0, (z1, (z2, (z3, (z4, (z5, (z6, (z7, (z8, (z9, (z10, (z11, _)))))))))))) = z in
    (z0, z1, z2, z3, z4, z5, z6, z7, z8, z9, z10, z11)

parse_pdu-pdu :
    (f : Floats) (m : Message Value) (app_id : ℕ)
    → IsMessage m
    → AreWireValues f m.values
    → IsSized (pdu f m)
    → parse_pdu f app_id (new_decoder (content_octets (pdu f m)))
      ≡ ok (record (arrived m) { app_id = app_id })
unfolding parse_pdu
parse_pdu-pdu f m app_id is are sized =
    let T = to_time m.t in
    let q = quality m.time_quality in
    let e0 = prim (context_primitive 0) m.go_cb_ref in
    let e1 = uint_elem (context_primitive 1) m.time_allowed_to_live in
    let e2 = prim (context_primitive 2) m.dat_set in
    let e3 = prim (context_primitive 3) m.go_id in
    let e4 = prim (context_primitive 4) (bytes_of (new_utc_time T q)) in
    let e5 = uint_elem (context_primitive 5) m.st_num in
    let e6 = uint_elem (context_primitive 6) m.sq_num in
    let e7 = bool_elem (context_primitive 7) m.test in
    let e8 = uint_elem (context_primitive 8) m.conf_rev in
    let e9 = bool_elem (context_primitive 9) m.nds_com in
    let e10 = uint_elem (context_primitive 10) m.num_dat_set_entries in
    let e11 = all_data f m.values in
    let s11 : Elements = Elements.next e11 Elements.nil in
    let s10 : Elements = Elements.next e10 s11 in
    let s9 : Elements = Elements.next e9 s10 in
    let s8 : Elements = Elements.next e8 s9 in
    let s7 : Elements = Elements.next e7 s8 in
    let s6 : Elements = Elements.next e6 s7 in
    let s5 : Elements = Elements.next e5 s6 in
    let s4 : Elements = Elements.next e4 s5 in
    let s3 : Elements = Elements.next e3 s4 in
    let s2 : Elements = Elements.next e2 s3 in
    let s1 : Elements = Elements.next e1 s2 in
    let s0 : Elements = Elements.next e0 s1 in
    let (z0, z1, z2, z3, z4, z5, z6, z7, z8, z9, z10, z11) = fields f m sized in
    let o1 = 0 + size e0 in
    let o2 = o1 + size e1 in
    let o3 = o2 + size e2 in
    let o4 = o3 + size e3 in
    let o5 = o4 + size e4 in
    let o6 = o5 + size e5 in
    let o7 = o6 + size e6 in
    let o8 = o7 + size e7 in
    let o9 = o8 + size e8 in
    let o10 = o9 + size e9 in
    let o11 = o10 + size e10 in
    let (raw, flags) = new_utc_time_raw-bytes_of T q in
    let shape : content_octets (pdu f m) ≡ append_elements [] s0 =
      unfold cons given content_octets in refl in
    rw (
      shape,
      prim-next 0 m.go_cb_ref s1 0 z0,
      expect_uint32-next 1 m.time_allowed_to_live s2 o1 is.tatl_range z1,
      prim-next 2 m.dat_set s3 o2 z2,
      given-next 3 m.go_id s4 o3 z3,
      prim-next 4 (bytes_of (new_utc_time T q)) s5 o4 z4,
      raw,
      expect_uint32-next 5 m.st_num s6 o5 is.st_num_range z5,
      expect_uint32-next 6 m.sq_num s7 o6 is.sq_num_range z6,
      flag-next 7 m.test s8 o7 z7,
      decode_bool-flag_octets m.test,
      expect_uint32-next 8 m.conf_rev s9 o8 is.conf_rev_range z8,
      flag-next 9 m.nds_com s10 o9 z9,
      decode_bool-flag_octets m.nds_com,
      expect_uint32-next 10 m.num_dat_set_entries s11 o10 is.entries_range z10,
      data-next f m.values o11 z11,
      values-decode f m.values are z11,
      flags,
      list_of-values_of m.values,
    )

expect-pdu :
    (f : Floats) (m : Message Value)
    → IsSized (pdu f m)
    → expect pdu_tag (new_decoder (encode (pdu f m)))
      ≡ ok (
        content_octets (pdu f m),
        record { off = 0 + size (pdu f m); rest = append_elements [] Elements.nil },
      )
unfolding cons tag_of
expect-pdu f m sized =
    let el = pdu f m in
    let whole : append_elements [] (Elements.next el Elements.nil) ≡ encode el =
      append_elements-next el Elements.nil
      ∙ ap (λ (xs : List ℕ). encode el ++ xs) append_elements-nil
      ∙ append-nil (encode el) in
    rw (← whole) (expect-next el Elements.nil 0 sized refl)

parse-octets :
    (f : Floats) (a b c d total : ℕ) (body : List ℕ)
    → a < 256
    → b < 256
    → total ≡ 8 + length body
    → bit_or (c * 2 ^ 8) d ≡ total
    → parse f (a ∷ b ∷ c ∷ d ∷ 0 ∷ 0 ∷ 0 ∷ 0 ∷ body) ≡ (do
      (content, _) ← lift (expect pdu_tag (new_decoder body))
      parse_pdu f (bit_or (a * 2 ^ 8 % 2 ^ 16) b) (new_decoder content))
unfolding parse
parse-octets f a b c d total body ha hb size read =
    let count : 8 + length body ≡ length (a ∷ b ∷ c ∷ d ∷ 0 ∷ 0 ∷ 0 ∷ 0 ∷ body) = omega arith in
    let apdu = a ∷ b ∷ c ∷ d ∷ 0 ∷ 0 ∷ 0 ∷ 0 ∷ body in
    let enough : ltb (length apdu) 8 ≡ false = ground (arith, count) in
    let fits : (ltb total 8 || ltb (length apdu) total) ≡ false = ground (arith, count, size) in
    let all : take total apdu ≡ apdu = take_all apdu total (omega (arith, count, size)) in
    rw (read, enough, fits, all)

-- On a message whose numbers are in the ranges of their fields, with an APDU shorter than 2 ^ 16 octets, its
-- elements sized, and values that `DecodeData` can return, but no NaN of single precision among them and
-- no nesting beyond 33 levels: what `Marshal`
-- wrote, `Parse` reads back, all the fields the same but for the time, which is the one that a UtcTime
-- holds, and the quality, which is there even where the default went out.
pub parse-marshal :
    (f : Floats) (m : Message Value)
    → IsMessage m
    → AreWireValues f m.values
    → IsSized (pdu f m)
    → header_len + size (pdu f m) < 2 ^ 16
    → parse f (marshal f m) ≡ ok (arrived m)
unfolding marshal big_endian_16
parse-marshal f m is are sized short =
    let el = pdu f m in
    let total = header_len + size el in
    let (appended, counted) =
      length-append_element
        (m.app_id / 2 ^ 8 % 256
          ∷ m.app_id % 256
          ∷ total / 2 ^ 8 % 256
          ∷ total % 256
          ∷ 0
          ∷ 0
          ∷ 0
          ∷ 0
          ∷ [])
        el sized in
    let read : bit_or (total / 2 ^ 8 % 256 * 2 ^ 8) (total % 256) ≡ total =
      bit_or_add 8 (total / 2 ^ 8 % 256) (total % 256) (omega arith) ∙ omega arith in
    let id : bit_or (m.app_id / 2 ^ 8 % 256 * 2 ^ 8 % 2 ^ 16) (m.app_id % 256) ≡ m.app_id =
      big_endian_16-octets m.app_id is.app_id_range in
    rw
      (
        appended,
        parse-octets f (m.app_id / 2 ^ 8 % 256) (m.app_id % 256) (total / 2 ^ 8 % 256) (total % 256)
            total (encode el) (omega arith) (omega arith) (omega (arith, counted)) read,
        expect-pdu f m sized,
        id,
      )
      (parse_pdu-pdu f m m.app_id is are sized)
