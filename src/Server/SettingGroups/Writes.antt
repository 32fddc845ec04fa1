-- ===== src/Server/SettingGroups/Writes.antt =====
-- server/handler.go: the writes of the attributes of an SGCB and of SE settings.
use go_iec.Base.{
  ℕ, ◌-◌, ◌^◌, Bool, true, false, not, ◌&&◌, ◌||◌, Option, none, some, List, [], ◌∷◌, leb, ◌==◌,
  if◌then◌else◌, get_or, set,
}
use go_iec.Mms.{
  Value, absent, none_value, array, structure, boolean, bit_string, integer, unsigned, float32,
  float64, octet_string, visible_string, generalized_time, binary_time, mms_string, utc_time,
  data_access_error,
}
use go_iec.Server.SettingGroups.{
  Setting, SgManager, SgcbAttribute, act_sg_attr, edit_sg_attr, cnf_edit_attr, other_attr, Sgcb,
  BType, int8, int16, int32, int8u, int16u, int32u, other_type, new_setting, editing, success,
  check_write, on_sgcb_write, replaced,
}

-- `Type`, as its constant.
unfoldable pub type_of : Value → ℕ
type_of absent = 0
type_of none_value = 0
type_of (array vs) = 1
type_of (structure vs) = 2
type_of (boolean b) = 3
type_of (bit_string bs n) = 4
type_of (integer n) = 5
type_of (unsigned n) = 6
type_of (float32 x) = 7
type_of (float64 x) = 8
type_of (octet_string bs) = 9
type_of (visible_string bs) = 10
type_of (generalized_time bs) = 11
type_of (binary_time bs) = 12
type_of (mms_string bs) = 13
type_of (utc_time bs) = 14
type_of (data_access_error n) = 15

unfoldable pub bit_len : Value → ℕ
bit_len (bit_string bs n) = n
bit_len _ = 0

-- `intRange`, a range from `- lo` to `hi`.
unfoldable pub int_range : BType → Option (ℕ × ℕ)
int_range int8 = some (2 ^ 7, 2 ^ 7 - 1)
int_range int16 = some (2 ^ 15, 2 ^ 15 - 1)
int_range int32 = some (2 ^ 31, 2 ^ 31 - 1)
int_range int8u = some (0, 2 ^ 8 - 1)
int_range int16u = some (0, 2 ^ 16 - 1)
int_range int32u = some (0, 2 ^ 32 - 1)
int_range other_type = none

abbrev in_range : Option (ℕ × ℕ) → Value → Bool
in_range none v = true
in_range (some (lo, hi)) (integer n) = leb n hi || leb (2 ^ 64 - lo) n
in_range (some (lo, hi)) (unsigned n) = leb n hi
in_range (some (lo, hi)) _ = true

abbrev pub is_nil : Value → Bool
is_nil absent = true
is_nil _ = false

-- `valueFits`, `old` being the value of the attribute.
unfoldable pub value_fits : ℕ → BType → Value → Value → Bool
value_fits kind b_type old v =
    let want = if is_nil old then kind else type_of old in
    not (is_nil v)
    && (want == 0
        || type_of v == want
          && (if want == 4
              then is_nil old || bit_len v == bit_len old
              else in_range (int_range b_type) v))

-- The value of an attribute that is written, and the SGCB with another one.
abbrev pub shown : SgcbAttribute → Sgcb → Value
shown act_sg_attr b = b.act_sg_value
shown edit_sg_attr b = b.edit_sg_value
shown cnf_edit_attr b = b.cnf_edit_value
shown other_attr b = absent

abbrev pub store : SgcbAttribute → Value → Sgcb → Sgcb
store act_sg_attr v b = record b { act_sg_value = v }
store edit_sg_attr v b = record b { edit_sg_value = v }
store cnf_edit_attr v b = record b { cnf_edit_value = v }
store other_attr v b = b

-- The write handler of the application may refuse with a code.
abbrev pub write_one : Option ℕ → SgManager → SgManager → ℕ × SgManager
write_one (some code) m m' = (code, m)
write_one none m m' = (success, m')

-- A write of an SGCB's attribute: `checkWrite`, the store by `writeOne`, and `onSGCBWrite`.
-- The answer is a code.
unfoldable pub write_sgcb :
    (ℕ → ℕ) → Value → Option ℕ → SgcbAttribute → Value → SgManager → ℕ × SgManager
write_sgcb truncated now refusal attr v m =
    let code = check_write truncated attr v m in
    if not (code == success)
    then (code, m)
    else if not (value_fits 0 other_type (shown attr m.sgcb) v)
    then (7, m)
    else write_one refusal m
        (on_sgcb_write truncated now attr v (record m { sgcb = store attr v m.sgcb }))

abbrev pub write_setting : Value → Setting → Setting
write_setting v s = record s { se = replaced s.se v }

-- No setting.
abbrev pub missing : Setting
missing = new_setting 0 ([], absent, none, 0, other_type)

-- A write of the SE attribute of the i-th setting: `writePermitted` and `writeOne`, where the server
-- made FC SE writable. A setting with no such attribute gives object-access-unsupported, 9.
unfoldable pub write_se : Option ℕ → ℕ → Value → SgManager → ℕ × SgManager
write_se refusal i v m =
    let s = get_or m.settings i missing in
    elim s.se [
      | none ↦ (9, m)
      | some old ↦
          if not (editing m)
          then (2, m)
          else if not (value_fits s.kind s.b_type old v)
          then (7, m)
          else write_one refusal m (record m { settings = set m.settings i (write_setting v s) })
    ]

-- What the clients of a device ask, one request after the other.
pub data Request : Type 0 where
  write_attribute : Value → Option ℕ → SgcbAttribute → Value → Request
  write_value : Option ℕ → ℕ → Value → Request

unfoldable pub serve : (ℕ → ℕ) → Request → SgManager → ℕ × SgManager
serve truncated (write_attribute now refusal attr v) m = write_sgcb truncated now refusal attr v m
serve truncated (write_value refusal i v) m = write_se refusal i v m

unfoldable pub serve_all : (ℕ → ℕ) → List Request → SgManager → SgManager
serve_all truncated [] m = m
serve_all truncated (r ∷ rs) m = serve_all truncated rs (serve truncated r m).1
