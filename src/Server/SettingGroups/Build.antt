-- ===== src/Server/SettingGroups/Build.antt =====
-- server/server.go: the manager of setting groups of one device, as `buildSettingGroups` makes it.
use go_iec.Base.{
  ℕ, ◌%◌, ◌^◌, ◌<◌, ◌≡◌, refl, Bool, true, false, not, ◌&&◌, Option, none, some, List, [], ◌∷◌, map,
  ltb, ◌==◌, if◌then◌else◌, if-cases, ◌||◌, ap, ◌∙◌, ℤ, pos, negsuc, arith,
}
use go_iec.Mms.{Value, unsigned}
use go_iec.Server.SettingGroups.{
  SgManager, BType, new_sg_manager, new_setting, build_sgcb, empty, seed_groups, seed_group,
}

-- The `SettingControl` of a device, each an int of the SCL; NumOfSGs is positive.
pub record SettingControl : Type 0 where
  pub num_of_sgs : ℕ
  pub declared_act_sg : ℤ
  pub resv_tms : ℤ

abbrev is_declared : Option SettingControl → Bool
is_declared none = false
is_declared (some c) = true

-- The number of groups, a uint8; `num_of_sg` is the default of the server.
abbrev pub groups_of : Option SettingControl → ℕ → ℕ
groups_of none num_of_sg = num_of_sg
groups_of (some c) num_of_sg = c.num_of_sgs % 2 ^ 8

abbrev reservation : Option SettingControl → ℤ
reservation none = pos 0
reservation (some c) = c.resv_tms

abbrev pub activated : ℤ → SgManager → SgManager
activated (pos a) m = if ltb 0 a then record m { act_sg = a % 2 ^ 8 } else m
activated (negsuc a) m = m

abbrev pub declared_active : Option SettingControl → SgManager → SgManager
declared_active none m = m
declared_active (some c) m = activated c.declared_act_sg m

abbrev pub prepare :
    Option SettingControl → List (ℤ × List (List ℕ × Value)) → Option SgManager → Option SgManager
prepare declared groups none = none
prepare declared groups (some m) = some (declared_active declared (seed_groups groups m))

-- The body of the loop, for a device with the pairs of attributes `pairs`.
unfoldable pub build_device :
    List (List ℕ × Value × Option Value × ℕ × BType)
    → Bool
    → ℕ
    → Option SettingControl
    → List (ℤ × List (List ℕ × Value))
    → Value
    → Option SgManager
build_device pairs has_lln0 num_of_sg declared groups now =
    let n = groups_of declared num_of_sg in
    if n == 0
    then none
    else prepare declared groups
        (new_sg_manager pairs has_lln0 n (reservation declared) now (is_declared declared))

-- What holds of the manager, if there is one.
abbrev pub Made : (SgManager → Type 0) → Option SgManager → Type 0
Made P none = Unit {0}
Made P (some m) = P m

abbrev Fresh : SgManager → Type 0
Fresh m = m.sgcb.act_sg_value ≡ unsigned 1

seed_group-sgcb : (g : ℤ × List (List ℕ × Value)) (m : SgManager) → (seed_group g m).sgcb ≡ m.sgcb
unfolding seed_group
seed_group-sgcb (negsuc n, values) m = refl
seed_group-sgcb (pos n, values) m =
    if-cases {A = SgManager} (λ r. r.sgcb ≡ m.sgcb) (n == 0 || ltb m.num_of_sg n) _ _ (λ _. refl)
      (λ _. refl)

seed_groups-sgcb :
    (groups : List (ℤ × List (List ℕ × Value))) (m : SgManager)
    → (seed_groups groups m).sgcb ≡ m.sgcb
unfolding seed_groups
seed_groups-sgcb [] m = refl
seed_groups-sgcb (g ∷ groups) m = seed_groups-sgcb groups (seed_group g m) ∙ seed_group-sgcb g m

new_sg_manager-Fresh :
    (pairs : List (List ℕ × Value × Option Value × ℕ × BType)) (has_lln0 : Bool) (n : ℕ)
    (resv_tms : ℤ) (now : Value) (declared : Bool)
    → Made Fresh (new_sg_manager pairs has_lln0 n resv_tms now declared)
unfolding new_sg_manager build_sgcb
new_sg_manager-Fresh pairs has_lln0 n resv_tms now declared =
    let settings = map (new_setting (if n == 0 then 1 else n)) pairs in
    if-cases (Made Fresh) (empty settings && not declared) _ _ (λ _. tt)
      (λ _. if-cases (Made Fresh) (not has_lln0) _ _ (λ _. tt) (λ _. refl))

prepare-Made :
    (c : SettingControl) (groups : List (ℤ × List (List ℕ × Value))) (o : Option SgManager) (a : ℕ)
    → c.declared_act_sg ≡ pos a
    → 0 < a
    → Made Fresh o
    → Made (λ m. (m.act_sg ≡ a % 2 ^ 8) × Fresh m) (prepare (some c) groups o)
prepare-Made c groups none a e h made = tt
prepare-Made c groups (some m) a e h made =
    let positive : ltb 0 a ≡ true = ground arith in
    rw (e, positive) (refl, ap (λ b. b.act_sg_value) (seed_groups-sgcb groups m) ∙ made)

-- The manager of a device whose SCL declares a positive active group has that group, as a uint8, as
-- its active one, while the SGCB that it serves shows group 1.
pub build_device-act_sg :
    (pairs : List (List ℕ × Value × Option Value × ℕ × BType)) (has_lln0 : Bool) (n : ℕ)
    (c : SettingControl) (groups : List (ℤ × List (List ℕ × Value))) (now : Value) (a : ℕ)
    → c.declared_act_sg ≡ pos a
    → 0 < a
    → Made
        (λ m. (m.act_sg ≡ a % 2 ^ 8) × (m.sgcb.act_sg_value ≡ unsigned 1))
        (build_device pairs has_lln0 n (some c) groups now)
unfolding build_device
build_device-act_sg pairs has_lln0 n c groups now a e h =
    let count = c.num_of_sgs % 2 ^ 8 in
    if-cases (Made (λ m. (m.act_sg ≡ a % 2 ^ 8) × (m.sgcb.act_sg_value ≡ unsigned 1))) (count == 0)
      _ _ (λ _. tt)
      (λ _.
        prepare-Made c groups _ a e h
          (new_sg_manager-Fresh pairs has_lln0 count c.resv_tms now true))
