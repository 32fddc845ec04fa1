-- ===== src/Server/SettingGroups.antt =====
-- server/settinggroup.go: the setting groups of a logical device (Writes: how
-- server/handler.go reaches them). A `uint8` is below 2 ^ 8, an `int64` its 64 bits. The pairs of attributes that
-- the code finds in the data model are an argument; a copy of a value is the value.
pub mod Writes
pub mod Build
pub mod Start
pub mod Valid
pub mod Served
pub mod Editing
mod Tests
use go_iec.Base.{
  ℕ, ◌-◌, ◌%◌, ◌^◌, Bool, true, false, not, ◌&&◌, ◌||◌, Option, none, some, List, [], ◌∷◌, map, ltb,
  leb, ◌==◌, if◌then◌else◌, get_or, set, replicate, equal_bytes, ℤ, pos, negsuc,
}
use go_iec.Mms.{
  Value, absent, none_value, array, structure, boolean, bit_string, integer, unsigned, float32,
  float64, octet_string, visible_string, generalized_time, binary_time, mms_string, utc_time,
  data_access_error,
}

-- A sized bType of SCL, or another.
pub data BType : Type 0 where
  int8 int16 int32 int8u int16u int32u other_type : BType

-- `sg`, `se` and `groups` are the values; `kind` and `b_type` are those of the SE attribute.
pub record Setting : Type 0 where
  pub sg : Value
  pub se : Option Value
  pub ref : List ℕ
  pub groups : List Value
  pub kind : ℕ
  pub b_type : BType

-- The values of the attributes that `buildSGCB` makes.
pub record Sgcb : Type 0 where
  pub num_of_sg_value : Value
  pub act_sg_value : Value
  pub edit_sg_value : Value
  pub cnf_edit_value : Value
  pub l_act_tm : Value
  pub resv_tms_value : Option Value

pub record SgManager : Type 0 where
  pub sgcb : Sgcb
  pub num_of_sg : ℕ
  pub act_sg : ℕ
  pub edit_sg : ℕ
  pub settings : List Setting

-- The attribute of an SGCB that a client writes.
pub data SgcbAttribute : Type 0 where
  act_sg_attr edit_sg_attr cnf_edit_attr other_attr : SgcbAttribute

-- `buildSGCB`; `resvTms` is an int.
unfoldable pub build_sgcb : ℕ → ℤ → Value → Sgcb
build_sgcb num_of_sg resv_tms l_act_tm = record {
  num_of_sg_value = unsigned num_of_sg;
  act_sg_value = unsigned 1;
  edit_sg_value = unsigned 0;
  cnf_edit_value = boolean false;
  l_act_tm = l_act_tm;
  resv_tms_value = elim resv_tms [
    | pos n ↦ if ltb 0 n then some (unsigned (n % 2 ^ 32)) else none
    | negsuc n ↦ none
  ];
}

abbrev pub new_setting : ℕ → List ℕ × Value × Option Value × ℕ × BType → Setting
new_setting num_of_sg (ref, sg, se, kind, b_type) = record {
  sg = sg;
  se = se;
  ref = ref;
  groups = replicate num_of_sg sg;
  kind = kind;
  b_type = b_type;
}

abbrev pub empty : List Setting → Bool
empty [] = true
empty (s ∷ settings) = false

abbrev pub new_manager :
    List (List ℕ × Value × Option Value × ℕ × BType) → ℕ → ℤ → Value → SgManager
new_manager pairs n resv_tms now = record {
  sgcb = build_sgcb n resv_tms now;
  num_of_sg = n;
  act_sg = 1;
  edit_sg = 0;
  settings = map (new_setting n) pairs;
}

-- `newSGManager`, which returns nil for a device with no node LLN0, and for one with no settings
-- that declares no groups.
unfoldable pub new_sg_manager :
    List (List ℕ × Value × Option Value × ℕ × BType)
    → Bool
    → ℕ
    → ℤ
    → Value
    → Bool
    → Option SgManager
new_sg_manager pairs has_lln0 num_of_sg resv_tms now declared =
    let n = if num_of_sg == 0 then 1 else num_of_sg in
    if empty (map (new_setting n) pairs) && not declared
    then none
    else if not has_lln0
    then none
    else some (new_manager pairs n resv_tms now)

-- `byRef` keeps the last setting of a reference.
unfoldable pub has_ref : List ℕ → List Setting → Bool
has_ref ref [] = false
has_ref ref (s ∷ settings) = equal_bytes s.ref ref || has_ref ref settings

unfoldable pub seed_value : List ℕ → Value → ℕ → List Setting → List Setting
seed_value ref v i [] = []
seed_value ref v i (s ∷ settings) =
    let rest = seed_value ref v i settings in
    if equal_bytes s.ref ref && not (has_ref ref settings)
    then record s { groups = set s.groups i v } ∷ settings
    else s ∷ rest

unfoldable pub seed_values : ℕ → List (List ℕ × Value) → List Setting → List Setting
seed_values i [] settings = settings
seed_values i ((ref, v) ∷ values) settings = seed_values i values (seed_value ref v i settings)

-- A group's number is an int.
unfoldable pub seed_group : ℤ × List (List ℕ × Value) → SgManager → SgManager
seed_group (negsuc n, values) m = m
seed_group (pos n, values) m =
    if n == 0 || ltb m.num_of_sg n
    then m
    else record m { settings = seed_values (n - 1) values m.settings }

unfoldable pub seed_groups : List (ℤ × List (List ℕ × Value)) → SgManager → SgManager
seed_groups [] m = m
seed_groups (g ∷ groups) m = seed_groups groups (seed_group g m)

-- `Int64`; `truncated` is Go's conversion of a float64, given by its bits, to an int64.
unfoldable pub int64 : (ℕ → ℕ) → Value → ℕ
int64 truncated (boolean b) = if b then 1 else 0
int64 truncated (integer n) = n
int64 truncated (unsigned n) = n
int64 truncated (float32 x) = truncated x
int64 truncated (float64 x) = truncated x
int64 truncated _ = 0

unfoldable pub bool_of : Value → Bool
bool_of (boolean b) = b
bool_of _ = false

unfoldable pub editing : SgManager → Bool
editing m = leb 1 m.edit_sg && leb m.edit_sg m.num_of_sg

abbrev pub success : ℕ
success = 0xff

-- `g < lo || g > num` on int64s.
abbrev pub outside : ℕ → ℕ → ℕ → Bool
outside lo num g = leb (2 ^ 63) g || ltb g lo || ltb num g

unfoldable pub check_write : (ℕ → ℕ) → SgcbAttribute → Value → SgManager → ℕ
check_write truncated act_sg_attr v m =
    if outside 1 m.num_of_sg (int64 truncated v) then 11 else success
check_write truncated edit_sg_attr v m =
    if outside 0 m.num_of_sg (int64 truncated v) then 11 else success
check_write truncated cnf_edit_attr v m = if bool_of v && not (editing m) then 2 else success
check_write truncated other_attr v m = 3

abbrev pub group : ℕ → Setting → Value
group g s = get_or s.groups (g - 1) absent

abbrev pub held : Option Value → Value → Value
held none v = v
held (some w) v = w

abbrev pub replaced : Option Value → Value → Option Value
replaced none v = none
replaced (some w) v = some v

abbrev pub stored : Option Value → ℕ → List Value → List Value
stored none i groups = groups
stored (some v) i groups = set groups i v

abbrev pub show_active : ℕ → Setting → Setting
show_active g s = record s { sg = group g s }

abbrev pub load : ℕ → Setting → Setting
load g s = record s { se = replaced s.se (group g s) }

abbrev pub confirm : ℕ → ℕ → Setting → Setting
confirm edit act s = record s {
  groups = stored s.se (edit - 1) s.groups;
  sg = if edit == act then held s.se s.sg else s.sg;
}

-- `onSGCBWrite`; `now` is the time the clock gives.
unfoldable pub on_sgcb_write : (ℕ → ℕ) → Value → SgcbAttribute → Value → SgManager → SgManager
on_sgcb_write truncated now act_sg_attr v m =
    let g = int64 truncated v % 2 ^ 8 in
    if leb 1 g && leb g m.num_of_sg
    then record m {
      act_sg = g;
      sgcb = record m.sgcb { act_sg_value = unsigned g; l_act_tm = now };
      settings = map (show_active g) m.settings;
    }
    else m
on_sgcb_write truncated now edit_sg_attr v m =
    let g = int64 truncated v % 2 ^ 8 in
    record m {
      edit_sg = g;
      sgcb = record m.sgcb { edit_sg_value = unsigned g };
      settings = if leb 1 g && leb g m.num_of_sg then map (load g) m.settings else m.settings;
    }
on_sgcb_write truncated now cnf_edit_attr v m =
    if bool_of v && editing m
    then record m {
      edit_sg = 0;
      sgcb = record m.sgcb { edit_sg_value = unsigned 0; cnf_edit_value = boolean false };
      settings = map (confirm m.edit_sg m.act_sg) m.settings;
    }
    else m
on_sgcb_write truncated now other_attr v m = m
