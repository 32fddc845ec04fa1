-- ===== src/Server/Select.antt =====
-- server/select.go: the reservations of control objects (select before operate). A time and a
-- duration are nanoseconds, a connection is its identity, an object reference is its octets.
pub mod Exclusion
pub mod Origin
mod Tests
use go_iec.Base.{
  ℕ, ◌+◌, ◌*◌, ◌%◌, ◌^◌, Bool, true, false, not, ◌&&◌, ◌||◌, Option, none, some, List, [], ◌∷◌, ltb,
  ◌==◌, if◌then◌else◌,
}
use go_iec.Base.Maps.{lookup, insert, delete}

pub record Selection : Type 0 where
  pub conn : ℕ
  pub expiry : ℕ
  pub ctl_num : ℕ  -- uint8
  pub has_ctl_num : Bool

-- The attributes of a control object with FC CF that the code reads.
pub data CfName : Type 0 where
  sbo_timeout_cf oper_timeout_cf ctl_model_cf : CfName

-- `attribute` is `s.model.Attribute` with FC CF: the 64 bits of the attribute's value, if it has one.
pub record Server : Type 0 where
  pub attribute : List ℕ → CfName → Option ℕ
  pub selections : List (List ℕ × Selection)

-- A uint8; 255 accepts a command.
abbrev pub AddCause : Type 0
AddCause = ℕ

abbrev pub add_cause_none : AddCause
add_cause_none = 255

abbrev pub add_cause_object_not_selected : AddCause
add_cause_object_not_selected = 18

abbrev pub add_cause_inconsistent_parameters : AddCause
add_cause_inconsistent_parameters = 26

-- 30 s.
abbrev default_select_timeout : ℕ
default_select_timeout = 30 * 1000000000

-- An int64 in nanoseconds.
unfoldable pub cf_millis : Server → List ℕ → CfName → ℕ
cf_millis s ref name = elim (s.attribute ref name) [ some v ↦ v * 1000000 % 2 ^ 64 | none ↦ 0 ]

unfoldable pub sbo_timeout : Server → List ℕ → ℕ
sbo_timeout s ref =
    let d = cf_millis s ref sbo_timeout_cf in
    if ltb 0 d && ltb d (2 ^ 63) then d else default_select_timeout

pub oper_timeout : Server → List ℕ → ℕ
oper_timeout s ref = cf_millis s ref oper_timeout_cf

-- A reservation that another connection still holds.
abbrev pub held_by_other : Option Selection → ℕ → ℕ → Bool
held_by_other none conn now = false
held_by_other (some sel) conn now = not (sel.conn == conn) && ltb now sel.expiry

unfoldable pub reserve : List ℕ → ℕ → ℕ → Bool → ℕ → Server → Bool × Server
reserve ref conn ctl_num has_ctl_num now s =
    let sel : Selection = record {
      conn = conn;
      expiry = now + sbo_timeout s ref;
      ctl_num = ctl_num;
      has_ctl_num = has_ctl_num;
    } in
    if held_by_other (lookup ref s.selections) conn now
    then (false, s)
    else (true, record s { selections = insert ref sel s.selections })

-- CtlModel is a uint8; 2 is CtlSBONormal.
select_sbo : List ℕ → ℕ → ℕ → Server → List ℕ × Server
select_sbo ref conn now s =
    let other : Bool = elim (s.attribute ref ctl_model_cf) [
      | some v ↦ not (v % 2 ^ 8 == 2)
      | none ↦ false
    ] in
    let (ok, s') = reserve ref conn 0 false now s in
    if other then ([], s) else if ok then (ref, s') else ([], s')

unfoldable pub select_with_value : List ℕ → ℕ → ℕ → ℕ → Server → Bool × Server
select_with_value ref conn ctl_num now s = reserve ref conn ctl_num true now s

-- The control number that the select carried is not the one of the command.
abbrev inconsistent : Selection → ℕ → Bool
inconsistent sel ctl_num = sel.has_ctl_num && not (sel.ctl_num == ctl_num)

abbrev pub check_found : Option Selection → ℕ → ℕ → ℕ → AddCause
check_found none conn ctl_num now = add_cause_object_not_selected
check_found (some sel) conn ctl_num now =
    if not (sel.conn == conn) || not (ltb now sel.expiry)
    then add_cause_object_not_selected
    else if inconsistent sel ctl_num
    then add_cause_inconsistent_parameters
    else add_cause_none

unfoldable pub check_selection : List ℕ → ℕ → ℕ → ℕ → Server → AddCause
check_selection ref conn ctl_num now s = check_found (lookup ref s.selections) conn ctl_num now

abbrev cancel_found : Option Selection → ℕ → ℕ → ℕ → AddCause
cancel_found none conn ctl_num now = add_cause_none
cancel_found (some sel) conn ctl_num now =
    if not (ltb now sel.expiry)
    then add_cause_none
    else if not (sel.conn == conn)
    then add_cause_object_not_selected
    else if inconsistent sel ctl_num
    then add_cause_inconsistent_parameters
    else add_cause_none

pub check_cancel : List ℕ → ℕ → ℕ → ℕ → Server → AddCause
check_cancel ref conn ctl_num now s = cancel_found (lookup ref s.selections) conn ctl_num now

pub clear_selection : List ℕ → Server → Server
clear_selection ref s = record s { selections = delete ref s.selections }

-- The loop of `releaseSelections`.
unfoldable pub release : ℕ → List (List ℕ × Selection) → List (List ℕ × Selection)
release conn [] = []
release conn ((ref, sel) ∷ m) =
    let rest = release conn m in if sel.conn == conn then rest else (ref, sel) ∷ rest

unfoldable pub release_selections : ℕ → Server → Server
release_selections conn s = record s { selections = release conn s.selections }

-- CtlSBONormal or CtlSBOEnhanced.
unfoldable pub requires_selection : List ℕ → Server → Bool
requires_selection ref s = elim (s.attribute ref ctl_model_cf) [
  | some v ↦ v % 2 ^ 8 == 2 || v % 2 ^ 8 == 4
  | none ↦ false
]
