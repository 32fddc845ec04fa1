-- ===== src/Goose/Wire/Tests.antt =====
-- goose/message.go: the round trip at a message with two values.
use go_iec.Base.{ℕ, ◌+◌, ◌<◌, ◌^◌, ◌≡◌, refl, true, false, none, some, [], ◌∷◌, ok, arith}
use go_iec.Asn1.{tag_size, length_size}
use go_iec.Asn1.Element.{IsSized, prim, cons, given, size, children_size}
use go_iec.Asn1.Primitives.{
  uint_elem, bool_elem, append_uint, octets_from, uint_size, uint_size_loop,
}
use go_iec.Asn1.Primitives.Floats.{Floats}
use go_iec.Mms.{Value, boolean, visible_string}
use go_iec.Mms.Codec.{data_element}
use go_iec.Mms.Time.{new_utc_time}
use go_iec.Goose.{Message}
use go_iec.Goose.Wire.{header_len, pdu, marshal, parse}
use go_iec.Goose.Wire.Fields.{AreWireValues, values_of}
use go_iec.Goose.Wire.RoundTrip.{IsMessage, arrived, parse-marshal}

-- Widening that keeps the bits, in place of Go's conversion.
abbrev same_bits : Floats
same_bits = record { widen = λ b. b; narrow = λ x. x; narrow-widen = λ b h k. refl }

abbrev sent : Message Value
sent = record {
  go_cb_ref = 0x67 ∷ 0x63 ∷ [];
  dat_set = 0x64 ∷ [];
  go_id = [];
  time_allowed_to_live = 2000;
  t = some 1700000000123456789;
  st_num = 1;
  sq_num = 0;
  conf_rev = 3;
  test = false;
  nds_com = true;
  num_dat_set_entries = 2;
  values = boolean true ∷ visible_string (0x41 ∷ []) ∷ [];
  app_id = 0x3001;
  time_quality = none;
}

sent-IsMessage : IsMessage sent
sent-IsMessage = record {
  app_id_range = omega arith;
  tatl_range = omega arith;
  st_num_range = omega arith;
  sq_num_range = omega arith;
  conf_rev_range = omega arith;
  entries_range = omega arith;
}

values-AreWireValues : AreWireValues same_bits sent.values
unfolding AreWireValues values_of
values-AreWireValues = ((tt, (tt, tt)), omega arith)

abbrev Leaf : ℕ → ℕ → Type 0
Leaf number n = (2 < 4) × (number < 2 ^ 28) × (n < 2 ^ 32) × Unit {0}

sent-IsSized : IsSized (pdu same_bits sent)
unfolding cons given prim uint_elem bool_elem data_element new_utc_time size tag_size length_size
    children_size append_uint octets_from uint_size uint_size_loop
sent-IsSized =
    let s : (number n : ℕ) → number < 2 ^ 28 → n < 2 ^ 32 → Leaf number n =
      λ number n h k. (omega arith, h, k, tt) in
    let values : Leaf 3 1 × (Leaf 10 1 × Unit {0}) =
      (s 3 1 (omega arith) (omega arith), (s 10 1 (omega arith) (omega arith), tt)) in
    (
      omega arith,
      omega arith,
      omega arith,
      (
        s 0 2 (omega arith) (omega arith),
        (
          s 1 2 (omega arith) (omega arith),
          (
            s 2 1 (omega arith) (omega arith),
            (
              s 3 0 (omega arith) (omega arith),
              (
                s 4 8 (omega arith) (omega arith),
                (
                  s 5 1 (omega arith) (omega arith),
                  (
                    s 6 1 (omega arith) (omega arith),
                    (
                      s 7 1 (omega arith) (omega arith),
                      (
                        s 8 1 (omega arith) (omega arith),
                        (
                          s 9 1 (omega arith) (omega arith),
                          (
                            s 10 1 (omega arith) (omega arith),
                            ((omega arith, omega arith, omega arith, values), tt),
                          ),
                        ),
                      ),
                    ),
                  ),
                ),
              ),
            ),
          ),
        ),
      ),
    )

short : header_len + size (pdu same_bits sent) < 2 ^ 16
unfolding cons given prim uint_elem bool_elem data_element new_utc_time size tag_size length_size
    children_size append_uint octets_from uint_size uint_size_loop
short = omega arith

parse-marshal_example : parse same_bits (marshal same_bits sent) ≡ ok (arrived sent)
parse-marshal_example =
    parse-marshal same_bits sent sent-IsMessage values-AreWireValues sent-IsSized short
