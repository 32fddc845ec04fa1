-- ===== src/Mms.antt =====
-- mms/: MMS data values (value.go), their encoding (value_codec.go) and their use.
pub mod Codec
pub mod Time
pub mod BitStrings
mod Tests
use go_iec.Base.{ℕ, Bool, List, Result, ok, err}
use go_iec.Asn1

mutual
  -- A `*Value`, by its type: `absent` is nil, `none_value` has TypeNone. An integer and an unsigned
  -- are the 64 bits of `num`, a float is the bits of the float64 `flt`, a data access error is `num`;
  -- the others hold `bytes`, and a bit string `bitLen` too.
  pub data Value : Type 0 where
    absent none_value : Value
    array structure : Values → Value
    boolean : Bool → Value
    bit_string : List ℕ → ℕ → Value
    integer unsigned float32 float64 : ℕ → Value
    octet_string visible_string generalized_time binary_time mms_string utc_time : List ℕ → Value
    data_access_error : ℕ → Value

  pub data Values : Type 0 where
    nil : Values
    next : Value → Values → Values

-- The errors of package asn1 that the codecs return, wrapped or not, and that of a UtcTime.
pub data Error : Type 0 where
  wrapped : Asn1.Error → Error
  bad_utc_time : Error

abbrev pub lift {ℓ} : {A : Type ℓ} → Result Asn1.Error A → Result Error A
lift (ok a) = ok a
lift (err e) = err (wrapped e)
