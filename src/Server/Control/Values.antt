-- ===== src/Server/Control/Values.antt =====
-- server/control.go and server/handler.go: what a control structure carries and what an attribute
-- holds. `truncated` is Go's conversion of a float64 to an int64.
use go_iec.Base.{
  ℕ, zero, suc, ◌-◌, ◌%◌, ◌^◌, Bool, true, false, not, ◌&&◌, ◌||◌, Option, List, [], leb, ltb, ◌==◌,
  ◌≡◌, refl, if◌then◌else◌, pos,
}
use go_iec.Mms.{
  Value, Values, absent, none_value, array, structure, boolean, bit_string, integer, unsigned,
  float32, float64, octet_string, visible_string, generalized_time, binary_time, mms_string,
  utc_time, data_access_error, nil, next,
}
use go_iec.Mms.BitStrings.{bit}
use go_iec.Mms.Time.{time, zero_time, time_quality_flags}
use go_iec.Model.Flags.{bit_length}
use go_iec.Server.SettingGroups.{int64, bool_of}
use go_iec.Server.Reporting.Writes.{bytes_of}
use go_iec.Server.Control.{ControlCtx}

-- `Type`
abbrev pub type_of : Value → ℕ
type_of absent = 0
type_of none_value = 0
type_of (array vs) = 1
type_of (structure vs) = 2
type_of (boolean b) = 3
type_of (bit_string bytes n) = 4
type_of (integer n) = 5
type_of (unsigned n) = 6
type_of (float32 x) = 7
type_of (float64 x) = 8
type_of (octet_string bytes) = 9
type_of (visible_string bytes) = 10
type_of (generalized_time bytes) = 11
type_of (binary_time bytes) = 12
type_of (mms_string bytes) = 13
type_of (utc_time bytes) = 14
type_of (data_access_error n) = 15

abbrev pub is_nil : Value → Bool
is_nil absent = true
is_nil _ = false

-- `Index`
abbrev nth : Values → ℕ → Value
nth nil i = absent
nth (next v vs) zero = v
nth (next v vs) (suc i) = nth vs i

abbrev pub is_structure : Value → Bool
is_structure (structure vs) = true
is_structure _ = false

abbrev no_command : List ℕ → Option ℕ → List ℕ → ControlCtx
no_command ref conn peer = record {
  ref = ref;
  value = absent;
  origin = 0;
  or_ident = [];
  ctl_num = 0;
  test = false;
  interlock = false;
  synchro = false;
  select = false;
  t = zero_time;
  t_quality = 0;
  conn = conn;
  peer = peer;
}

-- { ctlVal, origin { orCat, orIdent }, ctlNum, T, Test, Check }
abbrev with_origin : (ℕ → ℕ) → Value → ControlCtx → ControlCtx
with_origin truncated (structure vs) ctx = record ctx {
  origin = int64 truncated (nth vs 0) % 2 ^ 8;
  or_ident = bytes_of (nth vs 1);
}
with_origin truncated _ ctx = ctx

unfoldable pub decode_oper : (ℕ → ℕ) → List ℕ → Value → Option ℕ → List ℕ → ControlCtx
decode_oper truncated ref (structure vs) conn peer =
    let ctx : ControlCtx = record (no_command ref conn peer) {
      value = nth vs 0;
      ctl_num = int64 truncated (nth vs 2) % 2 ^ 8;
      t = time (nth vs 3);
      t_quality = time_quality_flags (nth vs 3);
      test = bool_of (nth vs 4);
      synchro = bit (nth vs 5) (pos 0);
      interlock = bit (nth vs 5) (pos 1);
    } in
    with_origin truncated (nth vs 1) ctx
decode_oper truncated ref _ conn peer = no_command ref conn peer

with_origin-ref :
    (truncated : ℕ → ℕ) (v : Value) (ctx : ControlCtx)
    → ((with_origin truncated v ctx).ref ≡ ctx.ref)
      × ((with_origin truncated v ctx).conn ≡ ctx.conn)
with_origin-ref truncated (structure vs) ctx = (refl, refl)
with_origin-ref truncated _ ctx = (refl, refl)

-- The object and the connection are those of the write, whatever it carries.
pub decode_oper-ref :
    (truncated : ℕ → ℕ) (ref : List ℕ) (v : Value) (conn : Option ℕ) (peer : List ℕ)
    → ((decode_oper truncated ref v conn peer).ref ≡ ref)
      × ((decode_oper truncated ref v conn peer).conn ≡ conn)
unfolding decode_oper
decode_oper-ref truncated ref (structure vs) conn peer = with_origin-ref truncated (nth vs 1) _
decode_oper-ref truncated ref _ conn peer = (refl, refl)

-- The bTypes that bound an integer.
pub data BType : Type 0 where
  int8 int16 int32 int8u int16u int32u other_btype : BType

-- `DataAttribute`: the value is absent where it is nil, `leaf` is `len(da.Children) == 0`.
pub record DataAttribute : Type 0 where
  pub kind : ℕ
  pub btype : BType
  pub leaf : Bool
  pub value : Value

-- Whether 64 bits, as an int64, are within - 2 ^ w and 2 ^ w - 1.
abbrev pub within : ℕ → ℕ → Bool
within w n = ltb n (2 ^ w) || leb (2 ^ 64 - 2 ^ w) n

-- `intRange` at an int64.
abbrev signed_fits : BType → ℕ → Bool
signed_fits int8 n = within 7 n
signed_fits int16 n = within 15 n
signed_fits int32 n = within 31 n
signed_fits int8u n = ltb n (2 ^ 8)
signed_fits int16u n = ltb n (2 ^ 16)
signed_fits int32u n = ltb n (2 ^ 32)
signed_fits other_btype n = true

-- `intRange` at a uint64: the lower bound does not count.
abbrev unsigned_fits : BType → ℕ → Bool
unsigned_fits int8 n = ltb n (2 ^ 7)
unsigned_fits int16 n = ltb n (2 ^ 15)
unsigned_fits int32 n = ltb n (2 ^ 31)
unsigned_fits int8u n = ltb n (2 ^ 8)
unsigned_fits int16u n = ltb n (2 ^ 16)
unsigned_fits int32u n = ltb n (2 ^ 32)
unsigned_fits other_btype n = true

abbrev content_fits : DataAttribute → Value → Bool
content_fits da (bit_string bytes n) = is_nil da.value || n == bit_length da.value
content_fits da (integer n) = signed_fits da.btype n
content_fits da (unsigned n) = unsigned_fits da.btype n
content_fits da _ = true

-- `valueFits`
unfoldable pub value_fits : DataAttribute → Value → Bool
value_fits da v =
    let want = if is_nil da.value then da.kind else type_of da.value in
    not (is_nil v) && (want == 0 || type_of v == want && content_fits da v)
