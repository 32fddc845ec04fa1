-- ===== src/Server/SettingGroups/Tests.antt =====
-- server/settinggroup.go: the theorems at a device with two settings and three groups.
use go_iec.Base.{
  ℕ, ◌≡◌, ◌≢◌, refl, true, false, Option, none, some, List, [], ◌∷◌, map, arith, pos, equal_bytes,
  ◌^◌,
}
use go_iec.Mms.{Value, absent, boolean, unsigned, integer}
use go_iec.Server.SettingGroups.{
  SgManager, BType, int32, other_type, act_sg_attr, edit_sg_attr, cnf_edit_attr, other_attr, group,
  held, build_sgcb, new_sg_manager, new_manager, has_ref, seed_value, seed_values, seed_group,
  seed_groups, int64, bool_of, editing, check_write, on_sgcb_write, success,
}
use go_iec.Server.SettingGroups.Writes.{
  type_of, int_range, value_fits, write_sgcb, write_se, Request, write_attribute, write_value,
  serve, serve_all,
}
use go_iec.Server.SettingGroups.Build.{SettingControl, Made, build_device, build_device-act_sg}
use go_iec.Server.SettingGroups.Valid.{IsValid}
use go_iec.Server.SettingGroups.Served.{IsServed, serve_all-IsServed}
use go_iec.Server.SettingGroups.Start.{build_device-serve_all}
use go_iec.Server.SettingGroups.Editing.{confirm-select, confirm-others}

abbrev truncated : ℕ → ℕ
truncated x = 0

abbrev now : Value
now = absent

abbrev pickup : List ℕ
pickup = 80 ∷ []

abbrev delay : List ℕ
delay = 68 ∷ []

-- The second setting has no SE attribute.
abbrev pairs : List (List ℕ × Value × Option Value × ℕ × BType)
pairs =
    (pickup, integer 10, some (integer 10), 5, int32) ∷ (delay, integer 7, none, 0, other_type) ∷ []

abbrev device : SgManager
device = new_manager pairs 3 (pos 0) now

-- A client edits group 2, and a value that is out of the range of an INT32 is refused.
abbrev edit : List Request
edit =
    write_attribute now none edit_sg_attr (unsigned 2)
    ∷ write_value none 0 (integer 55)
    ∷ write_value none 0 (integer (2 ^ 31))
    ∷ []

abbrev edited : SgManager
edited = serve_all truncated edit device

new_device : new_sg_manager pairs true 3 (pos 0) now false ≡ some device
unfolding new_sg_manager
new_device = refl

is_edited : (map (λ s. s.se) edited.settings ≡ some (integer 55) ∷ none ∷ []) × (edited.edit_sg ≡ 2)
unfolding serve_all serve write_sgcb write_se check_write on_sgcb_write value_fits type_of int_range
    bool_of int64 editing build_sgcb
is_edited = (refl, refl)

-- A value of the configuration for group 3.
seeded :
    map (group 3) (seed_groups ((pos 3, (pickup, integer 30) ∷ []) ∷ []) device).settings
    ≡ integer 30 ∷ integer 7 ∷ []
unfolding seed_groups seed_group seed_values seed_value has_ref equal_bytes
seeded = refl

-- Group 4 does not exist, and there is no edit to confirm.
refused :
    ((write_sgcb truncated now none act_sg_attr (unsigned 4) device).0 ≡ 11)
    × ((write_sgcb truncated now none cnf_edit_attr (boolean true) device).0 ≡ 2)
    × ((write_sgcb truncated now none other_attr (unsigned 1) device).0 ≡ 3)
    × ((write_se none 0 (integer 1) device).0 ≡ 2)
unfolding write_sgcb write_se check_write value_fits int64 bool_of editing
refused = (refl, refl, refl, refl)

edited_open : editing edited ≡ true
unfolding serve_all serve write_sgcb write_se check_write on_sgcb_write value_fits type_of int_range
    bool_of int64 editing build_sgcb
edited_open = refl

edited-IsServed : IsServed edited
unfolding build_sgcb
edited-IsServed =
    serve_all-IsServed truncated edit device
      (omega arith, omega arith, (1, refl), refl, refl, (refl, (refl, tt)))

not_first : 1 ≢ edited.edit_sg
not_first = λ e. (let two : edited.edit_sg ≡ 2 = is_edited.1 in omega arith)

confirm-select_example :
    (m1 : SgManager) × (m2 : SgManager) × (write_sgcb truncated now none cnf_edit_attr
        (boolean true)
        edited
      ≡ (success, m1))
    × (write_sgcb truncated now none act_sg_attr (unsigned edited.edit_sg) m1 ≡ (success, m2))
    × (m2.act_sg ≡ edited.edit_sg)
    × (m2.edit_sg ≡ 0)
    × (map (λ s. s.sg) m2.settings ≡ map (λ s. held s.se (group edited.edit_sg s)) edited.settings)
confirm-select_example = confirm-select truncated now edited edited-IsServed edited_open

confirm-others_example :
    (m1 : SgManager) × (write_sgcb truncated now none cnf_edit_attr (boolean true) edited
      ≡ (success, m1))
    × (map (group 1) m1.settings ≡ map (group 1) edited.settings)
    × (edited.edit_sg ≢ edited.act_sg
        → map (λ s. s.sg) m1.settings ≡ map (λ s. s.sg) edited.settings)
confirm-others_example =
    confirm-others truncated now edited 1 edited-IsServed edited_open (omega arith) not_first

-- The SCL declares three groups, the second one active.
abbrev control : SettingControl
control = record { num_of_sgs = 3; declared_act_sg = pos 2; resv_tms = pos 0 }

-- The SGCB shows group 1, and a client that selects it changes the active values.
build_device-act_sg_example :
    Made
      (λ m. (m.act_sg ≡ 2) × (m.sgcb.act_sg_value ≡ unsigned 1))
      (build_device pairs true 0 (some control) [] now)
build_device-act_sg_example = build_device-act_sg pairs true 0 control [] now 2 refl (omega arith)

-- The device that is made of it.
abbrev declared_device : SgManager
declared_device = record device { act_sg = 2 }

builds : build_device pairs true 0 (some control) [] now ≡ some declared_device
unfolding build_device new_sg_manager build_sgcb seed_groups
builds = refl

three_groups : (serve_all truncated edit declared_device).num_of_sg ≡ 3
unfolding serve_all serve write_sgcb write_se check_write on_sgcb_write value_fits type_of int_range
    bool_of int64 editing build_sgcb
three_groups = refl

build_device-serve_all_example :
    let (code, after) =
      write_sgcb truncated now none act_sg_attr
        (unsigned 3)
        (serve_all truncated edit declared_device) in
    IsServed (serve_all truncated edit declared_device)
    × (code ≡ success)
    × IsValid (serve_all truncated edit after)
build_device-serve_all_example =
    build_device-serve_all truncated pairs true 0 (some control) [] now now declared_device edit
      edit 3 (omega arith) builds (omega arith) (omega (arith, three_groups))
