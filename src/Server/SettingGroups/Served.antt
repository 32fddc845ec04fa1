-- ===== src/Server/SettingGroups/Served.antt =====
-- server/settinggroup.go: what holds of a manager of setting groups before a client has selected one.
use go_iec.Base.{
  ℕ, ◌-◌, ◌%◌, ◌^◌, ◌≤◌, ◌<◌, ◌≡◌, refl, ◌∙◌, true, false, not, ◌&&◌, Option, none, some, List, [],
  ◌∷◌, leb, ◌==◌, if-cases, get_or, length, All, arith,
}
use go_iec.Mms.{Value, boolean, unsigned}
use go_iec.Server.SettingGroups.{
  Setting, SgManager, SgcbAttribute, act_sg_attr, edit_sg_attr, cnf_edit_attr, other_attr,
  show_active, load, confirm, check_write, on_sgcb_write, int64, bool_of, editing, success,
  other_type,
}
use go_iec.Server.SettingGroups.Writes.{
  value_fits, shown, store, write_sgcb, write_se, write_setting, missing, write_one, Request,
  write_attribute, write_value, serve, serve_all,
}
use go_iec.Server.SettingGroups.Valid.{
  All-map, All-update, elim-cases, length-stored, is_false, within,
}

-- The edited group is one of the groups or 0 and the SGCB shows it, an active group of some number, and
-- never an edit to confirm; a setting has a value for each group.
abbrev pub IsServed : SgManager → Type 0
IsServed m =
    (m.num_of_sg < 2 ^ 8)
    × (m.edit_sg ≤ m.num_of_sg)
    × ((n : ℕ) × (m.sgcb.act_sg_value ≡ unsigned n))
    × (m.sgcb.edit_sg_value ≡ unsigned m.edit_sg)
    × (m.sgcb.cnf_edit_value ≡ boolean false)
    × All (λ s. length s.groups ≡ m.num_of_sg) m.settings

write_one-IsServed :
    (refusal : Option ℕ) (m m' : SgManager)
    → IsServed m
    → IsServed m'
    → IsServed (write_one refusal m m').1
write_one-IsServed none m m' served served' = served'
write_one-IsServed (some code) m m' served served' = served

pub confirm-length :
    (num edit act : ℕ) (s : Setting)
    → length s.groups ≡ num
    → length (confirm edit act s).groups ≡ num
confirm-length num edit act s full = length-stored s.se (edit - 1) s.groups ∙ full

module _ (truncated : ℕ → ℕ) (now : Value) where
  IsServed-act_sg :
      (v : Value) (m : SgManager)
      → IsServed m
      → check_write truncated act_sg_attr v m ≡ success
      → IsServed (
          on_sgcb_write truncated now act_sg_attr v
            (record m { sgcb = store act_sg_attr v m.sgcb }))
  unfolding check_write on_sgcb_write
  IsServed-act_sg v m (small, edit, act, e2, e3, all) h =
      let (low, high) = within 1 m.num_of_sg (int64 truncated v) h in
      let g = int64 truncated v % 2 ^ 8 in
      let same : g ≡ int64 truncated v = omega arith in
      let guard : (leb 1 g && leb g m.num_of_sg) ≡ true = ground arith in
      let P : Setting → Type 0 = λ s. length s.groups ≡ m.num_of_sg in
      rw guard
        (small, edit, (g, refl), e2, e3, All-map P P (show_active g) (λ s f. f) m.settings all)

  IsServed-edit_sg :
      (v : Value) (m : SgManager)
      → IsServed m
      → check_write truncated edit_sg_attr v m ≡ success
      → IsServed (
          on_sgcb_write truncated now edit_sg_attr v
            (record m { sgcb = store edit_sg_attr v m.sgcb }))
  unfolding check_write on_sgcb_write
  IsServed-edit_sg v m (small, edit, act, e2, e3, all) h =
      let (low, high) = within 0 m.num_of_sg (int64 truncated v) h in
      let g = int64 truncated v % 2 ^ 8 in
      let P : Setting → Type 0 = λ s. length s.groups ≡ m.num_of_sg in
      let settings =
        if-cases (All P) (leb 1 g && leb g m.num_of_sg) _ _
          (λ _. All-map P P (load g) (λ s f. f) m.settings all) (λ _. all) in
      (small, omega arith, act, refl, e3, settings)

  IsServed-cnf_edit :
      (v : Value) (m : SgManager)
      → IsServed m
      → check_write truncated cnf_edit_attr v m ≡ success
      → value_fits 0 other_type m.sgcb.cnf_edit_value v ≡ true
      → IsServed (
          on_sgcb_write truncated now cnf_edit_attr v
            (record m { sgcb = store cnf_edit_attr v m.sgcb }))
  unfolding check_write on_sgcb_write bool_of editing
  IsServed-cnf_edit v m (small, edit, act, e2, e3, all) h fits =
      if-cases IsServed (bool_of v && editing m) _ _
        (λ b.
          let P : Setting → Type 0 = λ s. length s.groups ≡ m.num_of_sg in
          let settings =
            All-map P P (confirm m.edit_sg m.act_sg)
              (λ s f. confirm-length m.num_of_sg m.edit_sg m.act_sg s f) m.settings all in
          (small, omega arith, act, refl, refl, settings))
        (λ b.
          let no : bool_of v ≡ false = ground arith in
          (small, edit, act, e2, is_false v (rw e3 at fits) no, all))

  accepted-IsServed :
      (attr : SgcbAttribute) (v : Value) (m : SgManager)
      → IsServed m
      → check_write truncated attr v m ≡ success
      → value_fits 0 other_type (shown attr m.sgcb) v ≡ true
      → IsServed (on_sgcb_write truncated now attr v (record m { sgcb = store attr v m.sgcb }))
  unfolding check_write
  accepted-IsServed act_sg_attr v m served h fits = IsServed-act_sg v m served h
  accepted-IsServed edit_sg_attr v m served h fits = IsServed-edit_sg v m served h
  accepted-IsServed cnf_edit_attr v m served h fits = IsServed-cnf_edit v m served h fits
  accepted-IsServed other_attr v m served h fits = absurd (omega arith)

  write_sgcb-IsServed :
      (refusal : Option ℕ) (attr : SgcbAttribute) (v : Value) (m : SgManager)
      → IsServed m
      → IsServed (write_sgcb truncated now refusal attr v m).1
  unfolding write_sgcb
  write_sgcb-IsServed refusal attr v m served =
      let P : ℕ × SgManager → Type 0 = λ r. IsServed r.1 in
      if-cases P (not (check_write truncated attr v m == success)) _ _ (λ _. served)
        (λ b.
          if-cases P (not (value_fits 0 other_type (shown attr m.sgcb) v)) _ _ (λ _. served)
            (λ c.
              write_one-IsServed refusal m _ served
                (accepted-IsServed attr v m served (ground arith) (ground arith))))

write_se-IsServed :
    (refusal : Option ℕ) (i : ℕ) (v : Value) (m : SgManager)
    → IsServed m
    → IsServed (write_se refusal i v m).1
unfolding write_se
write_se-IsServed refusal i v m served =
    let P : ℕ × SgManager → Type 0 = λ r. IsServed r.1 in
    let Q : Setting → Type 0 = λ s. length s.groups ≡ m.num_of_sg in
    let s = get_or m.settings i missing in
    let (small, edit, act, e2, e3, all) = served in
    let changed = All-update Q (write_setting v) (λ s f. f) m.settings i missing all in
    elim-cases P s.se _ _ served (λ old.
      if-cases P (not (editing m)) _ _ (λ _. served)
        (λ _.
          if-cases P (not (value_fits s.kind s.b_type old v)) _ _ (λ _. served)
            (λ _. write_one-IsServed refusal m _ served (small, edit, act, e2, e3, changed))))

pub serve_all-IsServed :
    (truncated : ℕ → ℕ) (rs : List Request) (m : SgManager)
    → IsServed m
    → IsServed (serve_all truncated rs m)
unfolding serve_all serve
serve_all-IsServed truncated [] m served = served
serve_all-IsServed truncated (write_attribute now refusal attr v ∷ rs) m served =
    serve_all-IsServed truncated rs _ (write_sgcb-IsServed truncated now refusal attr v m served)
serve_all-IsServed truncated (write_value refusal i v ∷ rs) m served =
    serve_all-IsServed truncated rs _ (write_se-IsServed refusal i v m served)
