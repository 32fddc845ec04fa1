-- ===== src/Server/SettingGroups/Editing.antt =====
-- server/settinggroup.go: an edit of a setting group, from EditSG to the selection of the group.
use go_iec.Base.{
  ℕ, ◌-◌, ◌%◌, ◌^◌, ◌≤◌, ◌≡◌, ◌≢◌, refl, ◌∙◌, true, false, Option, none, some, List, [], ◌∷◌, map,
  ◌==◌, get_or, get_or-set_self, get_or-set_ne, length, All, arith,
}
use go_iec.Mms.{Value, absent, boolean, unsigned}
use go_iec.Server.SettingGroups.{
  Setting, SgManager, act_sg_attr, cnf_edit_attr, group, show_active, confirm, held, stored,
  check_write, on_sgcb_write, int64, bool_of, editing, success, other_type,
}
use go_iec.Server.SettingGroups.Writes.{value_fits, type_of, write_sgcb, int_range}
use go_iec.Server.SettingGroups.Valid.{is_editing, All-map}
use go_iec.Server.SettingGroups.Served.{IsServed, confirm-length}

-- What a confirmation leaves, and what a selection of group g.
abbrev confirmed : SgManager → SgManager
confirmed m = record m {
  edit_sg = 0;
  sgcb = record m.sgcb { edit_sg_value = unsigned 0; cnf_edit_value = boolean false };
  settings = map (confirm m.edit_sg m.act_sg) m.settings;
}

abbrev pub selected : ℕ → Value → SgManager → SgManager
selected g now m = record m {
  act_sg = g;
  sgcb = record m.sgcb { act_sg_value = unsigned g; l_act_tm = now };
  settings = map (show_active g) m.settings;
}

fits_bool : (v : Value) → v ≡ boolean false → value_fits 0 other_type v (boolean true) ≡ true
unfolding value_fits type_of int_range
fits_bool v e = rw e refl

fits_number : (v : Value) (n g : ℕ) → v ≡ unsigned n → value_fits 0 other_type v (unsigned g) ≡ true
unfolding value_fits type_of int_range
fits_number v n g e = rw e refl

module _ (truncated : ℕ → ℕ) (now : Value) where
  write_confirm :
      (m : SgManager)
      → IsServed m
      → editing m ≡ true
      → write_sgcb truncated now none cnf_edit_attr (boolean true) m ≡ (success, confirmed m)
  unfolding write_sgcb check_write on_sgcb_write bool_of editing
  write_confirm m (small, edit, act, e2, e3, all) h =
      rw (h, fits_bool m.sgcb.cnf_edit_value e3) refl

  pub write_select :
      (g : ℕ) (m : SgManager)
      → IsServed m
      → 1 ≤ g
      → g ≤ m.num_of_sg
      → write_sgcb truncated now none act_sg_attr (unsigned g) m ≡ (success, selected g now m)
  unfolding write_sgcb check_write on_sgcb_write int64
  write_select g m (small, edit, (n, e1), e2, e3, all) low high =
      let fits = fits_number m.sgcb.act_sg_value n g e1 in
      let same : g % 2 ^ 8 ≡ g = omega arith in rw (fits, same) (ground arith)

-- A map of the mapped elements, where they all have P.
map-All :
    {A B C : Type 0} (P : A → Type 0) (f : B → C) (g : A → B) (h : A → C)
    → ((x : A) → P x → f (g x) ≡ h x)
    → (xs : List A) → All P xs
    → map f (map g xs) ≡ map h xs
map-All P f g h e [] all = refl
map-All P f g h e (x ∷ xs) all = rw (e x all.0, map-All P f g h e xs all.1) refl

group-stored :
    (se : Option Value) (edit i : ℕ) (groups : List Value)
    → 1 ≤ edit
    → 1 ≤ i
    → i ≢ edit
    → get_or (stored se (edit - 1) groups) (i - 1) absent ≡ get_or groups (i - 1) absent
group-stored none edit i groups h1 h2 ne = refl
group-stored (some v) edit i groups h1 h2 ne =
    let other : edit - 1 ≢ i - 1 = λ f. ne (omega arith) in
    get_or-set_ne groups (edit - 1) (i - 1) v absent other

edited-stored :
    (se : Option Value) (edit : ℕ) (groups : List Value)
    → 1 ≤ edit
    → edit ≤ length groups
    → get_or (stored se (edit - 1) groups) (edit - 1) absent
      ≡ held se (get_or groups (edit - 1) absent)
edited-stored none edit groups h1 h2 = refl
edited-stored (some v) edit groups h1 h2 = get_or-set_self groups (edit - 1) v absent (omega arith)

sg-confirm : (edit act : ℕ) (s : Setting) → edit ≢ act → (confirm edit act s).sg ≡ s.sg
sg-confirm edit act s ne = let b : (edit == act) ≡ false = ground arith in rw b refl

confirmed-IsServed : (m : SgManager) → IsServed m → editing m ≡ true → IsServed (confirmed m)
confirmed-IsServed m (small, edit, act, e2, e3, all) h =
    let P : Setting → Type 0 = λ s. length s.groups ≡ m.num_of_sg in
    let settings =
      All-map P P (confirm m.edit_sg m.act_sg)
        (λ s f. confirm-length m.num_of_sg m.edit_sg m.act_sg s f) m.settings all in
    (small, omega arith, act, refl, refl, settings)

module _ (truncated : ℕ → ℕ) (now : Value) where
  -- While a group is edited, in a manager with the bounds that a device keeps from its start on (the
  -- edited group is one of the groups, the SGCB shows it, a number as the active group and no edit to
  -- confirm, and each setting has a value for each group), and if the application refuses nothing:
  -- confirming the edit and then selecting the group that was edited are both admitted, and they make it
  -- the active group, end the edit, and show as the active value of each setting the value of its SE
  -- attribute, or the value that the group has where there is no such attribute.
  pub confirm-select :
      (m : SgManager)
      → IsServed m
      → editing m ≡ true
      → (m1 : SgManager) × (m2 : SgManager) × (write_sgcb truncated now none cnf_edit_attr
            (boolean true)
            m
          ≡ (success, m1))
        × (write_sgcb truncated now none act_sg_attr (unsigned m.edit_sg) m1 ≡ (success, m2))
        × (m2.act_sg ≡ m.edit_sg)
        × (m2.edit_sg ≡ 0)
        × (map (λ s. s.sg) m2.settings ≡ map (λ s. held s.se (group m.edit_sg s)) m.settings)
  confirm-select m served h =
      let (low, high) = is_editing m h in
      let (_, _, _, _, _, all) = served in
      let served' = confirmed-IsServed m served h in
      let (_, _, _, _, _, all') = served' in
      let P : Setting → Type 0 = λ s. length s.groups ≡ m.num_of_sg in
      let g = m.edit_sg in
      let new = (confirmed m).settings in
      let shows : map (λ s. s.sg) (map (show_active g) new) ≡ map (group g) new =
        map-All P (λ s. s.sg) (show_active g) (group g) (λ s f. refl) new all' in
      let stores : map (group g) new ≡ map (λ s. held s.se (group g s)) m.settings =
        map-All P (group g) (confirm g m.act_sg) (λ s. held s.se (group g s))
          (λ s f. edited-stored s.se g s.groups low (omega arith)) m.settings all in
      (
        confirmed m,
        selected m.edit_sg now (confirmed m),
        write_confirm truncated now m served h,
        write_select truncated now m.edit_sg (confirmed m) served' low high,
        refl,
        refl,
        shows ∙ stores,
      )

  -- While a group is edited, in a manager with the bounds that a device keeps from its start on (the
  -- edited group is one of the groups, the SGCB shows it, a number as the active group and no edit to
  -- confirm, and each setting has a value for each group), and if the application refuses nothing:
  -- confirming the edit is admitted, and it keeps the value of each setting in every other group, and
  -- the active values if the group that is edited is not the active one.
  pub confirm-others :
      (m : SgManager) (i : ℕ)
      → IsServed m
      → editing m ≡ true
      → 1 ≤ i
      → i ≢ m.edit_sg
      → (m1 : SgManager) × (write_sgcb truncated now none cnf_edit_attr (boolean true) m
          ≡ (success, m1))
        × (map (group i) m1.settings ≡ map (group i) m.settings)
        × (m.edit_sg ≢ m.act_sg → map (λ s. s.sg) m1.settings ≡ map (λ s. s.sg) m.settings)
  confirm-others m i served h low_i ne =
      let (low, high) = is_editing m h in
      let (_, _, _, _, _, all) = served in
      let P : Setting → Type 0 = λ s. length s.groups ≡ m.num_of_sg in
      (
        confirmed m,
        write_confirm truncated now m served h,
        map-All P (group i) (confirm m.edit_sg m.act_sg) (group i)
            (λ s f. group-stored s.se m.edit_sg i s.groups low low_i ne) m.settings all,
        λ other.
            map-All P (λ s. s.sg) (confirm m.edit_sg m.act_sg) (λ s. s.sg)
              (λ s f. sg-confirm m.edit_sg m.act_sg s other) m.settings all,
      )
