-- ===== src/Server/SettingGroups/Valid.antt =====
-- server/settinggroup.go: what every request of a client keeps of the setting groups.
use go_iec.Base.{
  ℕ, ◌-◌, ◌%◌, ◌^◌, ◌≤◌, ◌<◌, ◌≡◌, ◌≢◌, refl, sym, ◌∙◌, ap, inl, inr, Bool, true, false, not, ◌&&◌,
  Option, none, some, List, [], ◌∷◌, map, leb, ◌==◌, if◌then◌else◌, if-cases, Bool-cases, get_or,
  set, get_or-set_self, get_or-set_ne, length-set, length, length-replicate, ℤ, All, arith, zero,
  suc,
}
use go_iec.Mms.{Value, absent, boolean, unsigned}
use go_iec.Server.SettingGroups.{
  Setting, SgManager, SgcbAttribute, act_sg_attr, edit_sg_attr, cnf_edit_attr, other_attr, group,
  show_active, load, confirm, held, stored, check_write, on_sgcb_write, int64, bool_of, editing,
  success, other_type, outside, new_sg_manager, new_manager, new_setting, build_sgcb, empty, BType,
}
use go_iec.Server.SettingGroups.Writes.{
  value_fits, shown, store, type_of, write_sgcb, write_se, write_setting, missing, write_one,
  Request, write_attribute, write_value, serve, serve_all,
}

-- A setting has a value for each group, and its SG attribute has that of the active one.
abbrev pub IsFull : ℕ → ℕ → Setting → Type 0
IsFull num act s = (length s.groups ≡ num) × (s.sg ≡ group act s)

-- The active group exists, the one that is edited too if there is one; the SGCB shows both, and
-- never an edit to confirm; the settings are full.
abbrev pub IsValid : SgManager → Type 0
IsValid m =
    (m.num_of_sg < 2 ^ 8)
    × (1 ≤ m.act_sg)
    × (m.act_sg ≤ m.num_of_sg)
    × (m.edit_sg ≤ m.num_of_sg)
    × (m.sgcb.act_sg_value ≡ unsigned m.act_sg)
    × (m.sgcb.edit_sg_value ≡ unsigned m.edit_sg)
    × (m.sgcb.cnf_edit_value ≡ boolean false)
    × All (IsFull m.num_of_sg m.act_sg) m.settings

module _ {A : Type 0} where
  pub All-map :
      {B : Type 0} (P : A → Type 0) (Q : B → Type 0) (f : A → B)
      → ((x : A) → P x → Q (f x))
      → (xs : List A) → All P xs
      → All Q (map f xs)
  All-map P Q f h [] all = tt
  All-map P Q f h (x ∷ xs) all = (h x all.0, All-map P Q f h xs all.1)

  pub All-update :
      (P : A → Type 0) (f : A → A)
      → ((x : A) → P x → P (f x))
      → (xs : List A) (i : ℕ) (d : A) → All P xs
      → All P (set xs i (f (get_or xs i d)))
  All-update P f h [] i d all = tt
  All-update P f h (x ∷ xs) zero d all = (h x all.0, all.1)
  All-update P f h (x ∷ xs) (suc i) d all = (all.0, All-update P f h xs i d all.1)

module _ {A B : Type 0} where
  pub elim-cases :
      (P : B → Type 0) (o : Option A) (x : B) (f : A → B)
      → P x
      → ((a : A) → P (f a))
      → P (elim o [ none ↦ x | some a ↦ f a ])
  elim-cases P none x f h k = h
  elim-cases P (some a) x f h k = k a

confirm-stored :
    (edit act : ℕ) (se : Option Value) (sg : Value) (groups : List Value)
    → 1 ≤ edit
    → edit ≤ length groups
    → 1 ≤ act
    → sg ≡ get_or groups (act - 1) absent
    → (if edit == act then held se sg else sg)
      ≡ get_or (stored se (edit - 1) groups) (act - 1) absent
confirm-stored edit act none sg groups h1 h2 h3 e = elim (Bool-cases (edit == act)) [
  | inl b ↦ rw b e
  | inr b ↦ rw b e
]
confirm-stored edit act (some v) sg groups h1 h2 h3 e = elim (Bool-cases (edit == act)) [
  | inl b ↦
      let same : act ≡ edit = ground arith in
      rw (b, same) (sym (get_or-set_self groups (edit - 1) v absent (omega arith)))
  | inr b ↦
      let other : edit - 1 ≢ act - 1 = λ f. (ground arith) in
      rw b (e ∙ sym (get_or-set_ne groups (edit - 1) (act - 1) v absent other))
]

pub length-stored :
    (se : Option Value) (i : ℕ) (groups : List Value) → length (stored se i groups) ≡ length groups
length-stored none i groups = refl
length-stored (some v) i groups = length-set groups i v

confirm-IsFull :
    (num edit act : ℕ) (s : Setting)
    → 1 ≤ edit
    → edit ≤ num
    → 1 ≤ act
    → IsFull num act s
    → IsFull num act (confirm edit act s)
confirm-IsFull num edit act s h1 h2 h3 (full, live) = (
  length-stored s.se (edit - 1) s.groups ∙ full,
  confirm-stored edit act s.se s.sg s.groups h1 (omega arith) h3 live,
)

-- A group number that the check admits.
pub within :
    (lo num x : ℕ) → (if outside lo num x then 11 else success) ≡ success → (lo ≤ x) × (x ≤ num)
within lo num x h = ground arith

pub is_editing : (m : SgManager) → editing m ≡ true → (1 ≤ m.edit_sg) × (m.edit_sg ≤ m.num_of_sg)
unfolding editing
is_editing m h = ground arith

-- A value of the type of CnfEdit that is not true is false.
pub is_false :
    (v : Value)
    → value_fits 0 other_type (boolean false) v ≡ true
    → bool_of v ≡ false
    → v ≡ boolean false
unfolding value_fits type_of bool_of
is_false (boolean b) h k = ap boolean k
is_false _ h k = cc

write_one-IsValid :
    (refusal : Option ℕ) (m m' : SgManager)
    → IsValid m
    → IsValid m'
    → IsValid (write_one refusal m m').1
write_one-IsValid none m m' valid valid' = valid'
write_one-IsValid (some code) m m' valid valid' = valid

module _ (truncated : ℕ → ℕ) (now : Value) where
  on_act_sg :
      (v : Value) (m : SgManager)
      → IsValid m
      → check_write truncated act_sg_attr v m ≡ success
      → IsValid (
          on_sgcb_write truncated now act_sg_attr v
            (record m { sgcb = store act_sg_attr v m.sgcb }))
  unfolding check_write on_sgcb_write
  on_act_sg v m (small, h1, h2, h3, e1, e2, e3, all) h =
      let (low, high) = within 1 m.num_of_sg (int64 truncated v) h in
      let same : int64 truncated v % 2 ^ 8 ≡ int64 truncated v = omega arith in
      let guard : (leb 1 (int64 truncated v % 2 ^ 8) && leb (int64 truncated v % 2 ^ 8) m.num_of_sg)
          ≡ true =
        ground arith in
      let settings =
        All-map (IsFull m.num_of_sg m.act_sg) (IsFull m.num_of_sg (int64 truncated v % 2 ^ 8))
          (show_active (int64 truncated v % 2 ^ 8)) (λ s f. (f.0, refl)) m.settings all in
      rw guard (small, (omega arith), (omega arith), h3, refl, e2, e3, settings)

  on_edit_sg :
      (v : Value) (m : SgManager)
      → IsValid m
      → check_write truncated edit_sg_attr v m ≡ success
      → IsValid (
          on_sgcb_write truncated now edit_sg_attr v
            (record m { sgcb = store edit_sg_attr v m.sgcb }))
  unfolding check_write on_sgcb_write
  on_edit_sg v m (small, h1, h2, h3, e1, e2, e3, all) h =
      let (low, high) = within 0 m.num_of_sg (int64 truncated v) h in
      let P = All (IsFull m.num_of_sg m.act_sg) in
      let loaded =
        All-map (IsFull m.num_of_sg m.act_sg) (IsFull m.num_of_sg m.act_sg)
          (load (int64 truncated v % 2 ^ 8)) (λ s f. f) m.settings all in
      let settings =
        if-cases P
          (leb 1 (int64 truncated v % 2 ^ 8) && leb (int64 truncated v % 2 ^ 8) m.num_of_sg) _ _
          (λ _. loaded) (λ _. all) in
      (small, h1, h2, omega arith, e1, refl, e3, settings)

  on_cnf_edit :
      (v : Value) (m : SgManager)
      → IsValid m
      → check_write truncated cnf_edit_attr v m ≡ success
      → value_fits 0 other_type m.sgcb.cnf_edit_value v ≡ true
      → IsValid (
          on_sgcb_write truncated now cnf_edit_attr v
            (record m { sgcb = store cnf_edit_attr v m.sgcb }))
  unfolding check_write on_sgcb_write bool_of editing
  on_cnf_edit v m (small, h1, h2, h3, e1, e2, e3, all) h fits =
      if-cases IsValid (bool_of v && editing m) _ _
        (λ b.
          let open_now : editing m ≡ true = ground arith in
          let (low, high) = is_editing m open_now in
          let settings =
            All-map (IsFull m.num_of_sg m.act_sg) (IsFull m.num_of_sg m.act_sg)
              (confirm m.edit_sg m.act_sg)
              (λ s f. confirm-IsFull m.num_of_sg m.edit_sg m.act_sg s low high h1 f) m.settings
              all in
          (small, h1, h2, omega arith, e1, refl, refl, settings))
        (λ b.
          let no : bool_of v ≡ false = ground arith in
          (small, h1, h2, h3, e1, e2, is_false v (rw e3 at fits) no, all))

  accepted :
      (attr : SgcbAttribute) (v : Value) (m : SgManager)
      → IsValid m
      → check_write truncated attr v m ≡ success
      → value_fits 0 other_type (shown attr m.sgcb) v ≡ true
      → IsValid (on_sgcb_write truncated now attr v (record m { sgcb = store attr v m.sgcb }))
  unfolding check_write
  accepted act_sg_attr v m valid h fits = on_act_sg v m valid h
  accepted edit_sg_attr v m valid h fits = on_edit_sg v m valid h
  accepted cnf_edit_attr v m valid h fits = on_cnf_edit v m valid h fits
  accepted other_attr v m valid h fits = absurd (omega arith)

  write_sgcb-IsValid :
      (refusal : Option ℕ) (attr : SgcbAttribute) (v : Value) (m : SgManager)
      → IsValid m
      → IsValid (write_sgcb truncated now refusal attr v m).1
  unfolding write_sgcb
  write_sgcb-IsValid refusal attr v m valid =
      let P : ℕ × SgManager → Type 0 = λ r. IsValid r.1 in
      if-cases P (not (check_write truncated attr v m == success)) _ _ (λ _. valid)
        (λ b.
          if-cases P (not (value_fits 0 other_type (shown attr m.sgcb) v)) _ _ (λ _. valid)
            (λ c.
              write_one-IsValid refusal m _ valid
                (accepted attr v m valid (ground arith) (ground arith))))

write_setting-IsValid :
    (i : ℕ) (v : Value) (m : SgManager)
    → IsValid m
    → IsValid
        (record m { settings = set m.settings i (write_setting v (get_or m.settings i missing)) })
write_setting-IsValid i v m (small, h1, h2, h3, e1, e2, e3, all) =
    let settings =
      All-update (IsFull m.num_of_sg m.act_sg) (write_setting v) (λ s f. f) m.settings i missing
        all in
    (small, h1, h2, h3, e1, e2, e3, settings)

write_se-IsValid :
    (refusal : Option ℕ) (i : ℕ) (v : Value) (m : SgManager)
    → IsValid m
    → IsValid (write_se refusal i v m).1
unfolding write_se
write_se-IsValid refusal i v m valid =
    let P : ℕ × SgManager → Type 0 = λ r. IsValid r.1 in
    let s = get_or m.settings i missing in
    elim-cases P s.se _ _ valid (λ old.
      if-cases P (not (editing m)) _ _ (λ _. valid)
        (λ _.
          if-cases P (not (value_fits s.kind s.b_type old v)) _ _ (λ _. valid)
            (λ _. write_one-IsValid refusal m _ valid (write_setting-IsValid i v m valid))))

pub serve_all-IsValid :
    (truncated : ℕ → ℕ) (rs : List Request) (m : SgManager)
    → IsValid m
    → IsValid (serve_all truncated rs m)
unfolding serve_all serve
serve_all-IsValid truncated [] m valid = valid
serve_all-IsValid truncated (write_attribute now refusal attr v ∷ rs) m valid =
    serve_all-IsValid truncated rs _ (write_sgcb-IsValid truncated now refusal attr v m valid)
serve_all-IsValid truncated (write_value refusal i v ∷ rs) m valid =
    serve_all-IsValid truncated rs _ (write_se-IsValid refusal i v m valid)

new_settings-IsFull :
    (n : ℕ) (pairs : List (List ℕ × Value × Option Value × ℕ × BType))
    → 1 ≤ n
    → All (IsFull n 1) (map (new_setting n) pairs)
new_settings-IsFull n [] h = tt
new_settings-IsFull zero (p ∷ pairs) h = absurd (omega arith)
new_settings-IsFull (suc n) ((ref, sg, se, kind, b_type) ∷ pairs) h =
    ((length-replicate (suc n) sg, refl), new_settings-IsFull (suc n) pairs h)

fresh-IsValid :
    (pairs : List (List ℕ × Value × Option Value × ℕ × BType)) (n : ℕ) (resv_tms : ℤ) (now : Value)
    → n < 2 ^ 8
    → IsValid (new_manager pairs (if n == 0 then 1 else n) resv_tms now)
unfolding build_sgcb
fresh-IsValid pairs n resv_tms now h =
    let some_group : 1 ≤ (if n == 0 then 1 else n) = ground arith in
    (
      ground arith,
      omega arith,
      some_group,
      omega arith,
      refl,
      refl,
      refl,
      new_settings-IsFull (if n == 0 then 1 else n) pairs some_group,
    )

impossible : (m : SgManager) → none ≡ some m → IsValid m
impossible m h = absurd (cc h)

the_one : (m m' : SgManager) → IsValid m' → some m' ≡ some m → IsValid m
the_one m m' valid h = let same : m' ≡ m = cc in rw (← same) valid

-- A new manager of setting groups, and what any requests of its clients make of it, is valid: the
-- active group is one of the groups, the edited one too or 0, the SGCB shows both and no edit to
-- confirm, and every SG attribute has the value of its setting in the active group.
new_sg_manager-serve_all :
    (truncated : ℕ → ℕ) (pairs : List (List ℕ × Value × Option Value × ℕ × BType)) (has_lln0 : Bool)
    (n : ℕ) (resv_tms : ℤ) (now : Value) (declared : Bool) (m : SgManager) (rs : List Request)
    → n < 2 ^ 8
    → new_sg_manager pairs has_lln0 n resv_tms now declared ≡ some m
    → IsValid (serve_all truncated rs m)
unfolding new_sg_manager
new_sg_manager-serve_all truncated pairs has_lln0 n resv_tms now declared m rs h e =
    let P : Option SgManager → Type 0 = λ o. (o ≡ some m → IsValid m) in
    let settings = map (new_setting (if n == 0 then 1 else n)) pairs in
    let fresh = fresh-IsValid pairs n resv_tms now h in
    let valid =
      if-cases P (empty settings && not declared) _ _ (λ _. impossible m)
        (λ _. if-cases P (not has_lln0) _ _ (λ _. impossible m) (λ _. the_one m _ fresh)) in
    serve_all-IsValid truncated rs m (valid e)
