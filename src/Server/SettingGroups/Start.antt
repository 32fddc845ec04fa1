-- ===== src/Server/SettingGroups/Start.antt =====
-- server/server.go and server/settinggroup.go: a device's setting groups from buildSettingGroups on.
use go_iec.Base.{
  ℕ, ◌-◌, ◌^◌, ◌≤◌, ◌<◌, ◌≡◌, refl, ◌∙◌, Bool, not, ◌&&◌, ◌||◌, Option, none, some, List, [], ◌∷◌,
  map, ltb, ◌==◌, if◌then◌else◌, if-cases, length, length-set, length-replicate, All, ℤ, pos,
  negsuc, equal_bytes, arith,
}
use go_iec.Mms.{Value, unsigned}
use go_iec.Server.SettingGroups.{
  Setting, SgManager, BType, act_sg_attr, show_active, new_sg_manager, new_manager, new_setting,
  build_sgcb, empty, has_ref, seed_value, seed_values, seed_group, seed_groups, success,
}
use go_iec.Server.SettingGroups.Writes.{write_sgcb, Request, serve_all}
use go_iec.Server.SettingGroups.Build.{
  SettingControl, groups_of, activated, declared_active, prepare, build_device, Made,
}
use go_iec.Server.SettingGroups.Valid.{IsValid, IsFull, All-map, serve_all-IsValid}
use go_iec.Server.SettingGroups.Served.{IsServed, serve_all-IsServed}
use go_iec.Server.SettingGroups.Editing.{selected, write_select}
use mathlib.Core.Path.{subst}

abbrev Counts : ℕ → Setting → Type 0
Counts n s = length s.groups ≡ n

seed_value-Counts :
    (n : ℕ) (ref : List ℕ) (v : Value) (i : ℕ) (settings : List Setting)
    → All (Counts n) settings
    → All (Counts n) (seed_value ref v i settings)
unfolding seed_value
seed_value-Counts n ref v i [] all = tt
seed_value-Counts n ref v i (s ∷ settings) (full, all) =
    if-cases (All (Counts n)) (equal_bytes s.ref ref && not (has_ref ref settings)) _ _
      (λ _. (length-set s.groups i v ∙ full, all))
      (λ _. (full, seed_value-Counts n ref v i settings all))

seed_values-Counts :
    (n i : ℕ) (values : List (List ℕ × Value)) (settings : List Setting)
    → All (Counts n) settings
    → All (Counts n) (seed_values i values settings)
unfolding seed_values
seed_values-Counts n i [] settings all = all
seed_values-Counts n i ((ref, v) ∷ values) settings all =
    seed_values-Counts n i values _ (seed_value-Counts n ref v i settings all)

seed_group-IsServed :
    (g : ℤ × List (List ℕ × Value)) (m : SgManager) → IsServed m → IsServed (seed_group g m)
unfolding seed_group
seed_group-IsServed (negsuc n, values) m served = served
seed_group-IsServed (pos n, values) m served =
    let (small, edit, act, e2, e3, all) = served in
    if-cases IsServed (n == 0 || ltb m.num_of_sg n) _ _ (λ _. served)
      (λ _.
        (small, edit, act, e2, e3, seed_values-Counts m.num_of_sg (n - 1) values m.settings all))

seed_groups-IsServed :
    (groups : List (ℤ × List (List ℕ × Value))) (m : SgManager)
    → IsServed m
    → IsServed (seed_groups groups m)
unfolding seed_groups
seed_groups-IsServed [] m served = served
seed_groups-IsServed (g ∷ groups) m served =
    seed_groups-IsServed groups (seed_group g m) (seed_group-IsServed g m served)

declared_active-IsServed :
    (declared : Option SettingControl) (m : SgManager)
    → IsServed m
    → IsServed (declared_active declared m)
declared_active-IsServed none m served = served
declared_active-IsServed (some c) m served = activated-IsServed c.declared_act_sg m served
  where
    activated-IsServed : (a : ℤ) (m : SgManager) → IsServed m → IsServed (activated a m)
    activated-IsServed (pos a) m served =
        if-cases IsServed (ltb 0 a) _ _ (λ _. served) (λ _. served)
    activated-IsServed (negsuc a) m served = served

prepare-IsServed :
    (declared : Option SettingControl) (groups : List (ℤ × List (List ℕ × Value)))
    (o : Option SgManager)
    → Made IsServed o
    → Made IsServed (prepare declared groups o)
prepare-IsServed declared groups none made = tt
prepare-IsServed declared groups (some m) made =
    declared_active-IsServed declared (seed_groups groups m) (seed_groups-IsServed groups m made)

new_settings-Counts :
    (n : ℕ) (pairs : List (List ℕ × Value × Option Value × ℕ × BType))
    → All (Counts n) (map (new_setting n) pairs)
new_settings-Counts n [] = tt
new_settings-Counts n ((ref, sg, se, kind, b_type) ∷ pairs) =
    (length-replicate n sg, new_settings-Counts n pairs)

new_sg_manager-IsServed :
    (pairs : List (List ℕ × Value × Option Value × ℕ × BType)) (has_lln0 : Bool) (num : ℕ)
    (resv_tms : ℤ) (now : Value) (declared : Bool)
    → num < 2 ^ 8
    → Made IsServed (new_sg_manager pairs has_lln0 num resv_tms now declared)
unfolding new_sg_manager build_sgcb
new_sg_manager-IsServed pairs has_lln0 num resv_tms now declared h =
    let n = if num == 0 then 1 else num in
    let small : n < 2 ^ 8 = ground arith in
    let fresh : IsServed (new_manager pairs n resv_tms now) =
      (small, omega arith, (1, refl), refl, refl, new_settings-Counts n pairs) in
    if-cases (Made IsServed) (empty (map (new_setting n) pairs) && not declared) _ _ (λ _. tt)
      (λ _. if-cases (Made IsServed) (not has_lln0) _ _ (λ _. tt) (λ _. fresh))

groups_of-small :
    (declared : Option SettingControl) (n : ℕ) → n < 2 ^ 8 → groups_of declared n < 2 ^ 8
groups_of-small none n h = h
groups_of-small (some c) n h = omega arith

build_device-IsServed :
    (pairs : List (List ℕ × Value × Option Value × ℕ × BType)) (has_lln0 : Bool) (n : ℕ)
    (declared : Option SettingControl) (groups : List (ℤ × List (List ℕ × Value))) (now : Value)
    → n < 2 ^ 8
    → Made IsServed (build_device pairs has_lln0 n declared groups now)
unfolding build_device
build_device-IsServed pairs has_lln0 n declared groups now h =
    if-cases (Made IsServed) (groups_of declared n == 0) _ _ (λ _. tt)
      (λ _. prepare-IsServed declared groups _ (
        new_sg_manager-IsServed pairs has_lln0 (groups_of declared n) _ now _
          (groups_of-small declared n h)))

selected-IsValid :
    (g : ℕ) (now : Value) (m : SgManager)
    → IsServed m
    → 1 ≤ g
    → g ≤ m.num_of_sg
    → IsValid (selected g now m)
selected-IsValid g now m (small, edit, act, e2, e3, all) low high =
    let settings =
      All-map (Counts m.num_of_sg) (IsFull m.num_of_sg g) (show_active g) (λ s f. (f, refl))
        m.settings all in
    (small, low, high, edit, refl, e2, e3, settings)

made_one :
    (P : SgManager → Type 0) (o : Option SgManager) (m : SgManager) → Made P o → o ≡ some m → P m
made_one P o m made h = subst (Made P) h made

-- The manager that `buildSettingGroups` makes of a device, whatever groups and values are declared, and
-- after any requests `rs` of clients: the edited group is one of the groups or 0, the SGCB shows it and
-- no edit to confirm, and each setting has a value for each group. A select of an existing group g that
-- the application does not refuse is then accepted, and from there on, after any requests `rs'`, the
-- active group is one of the groups too, the SGCB shows it, and every SG attribute has the value of its
-- setting in it.
pub build_device-serve_all :
    (truncated : ℕ → ℕ) (pairs : List (List ℕ × Value × Option Value × ℕ × BType)) (has_lln0 : Bool)
    (n : ℕ) (declared : Option SettingControl) (groups : List (ℤ × List (List ℕ × Value)))
    (now now' : Value) (m : SgManager) (rs rs' : List Request) (g : ℕ)
    → n < 2 ^ 8
    → build_device pairs has_lln0 n declared groups now ≡ some m
    → 1 ≤ g
    → g ≤ (serve_all truncated rs m).num_of_sg
    → let (code, after) =
        write_sgcb truncated now' none act_sg_attr (unsigned g) (serve_all truncated rs m) in
      IsServed (serve_all truncated rs m)
      × (code ≡ success)
      × IsValid (serve_all truncated rs' after)
build_device-serve_all truncated pairs has_lln0 n declared groups now now' m rs rs' g h made low
      high =
    let before = serve_all truncated rs m in
    let start =
      made_one IsServed _ m (build_device-IsServed pairs has_lln0 n declared groups now h) made in
    let served = serve_all-IsServed truncated rs m start in
    let select = write_select truncated now' g before served low high in
    let valid = selected-IsValid g now' before served low high in
    rw select (served, refl, serve_all-IsValid truncated rs' (selected g now' before) valid)
