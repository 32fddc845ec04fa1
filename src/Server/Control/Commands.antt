-- ===== src/Server/Control/Commands.antt =====
-- server/control.go: what a control write needs, and the ends of the commands: refused, cancelled,
-- selected, operated.
use go_iec.Base.{
  ℕ, ◌%◌, ◌^◌, Bool, true, false, not, ◌&&◌, ◌||◌, Option, none, some, List, [], ◌∷◌, ◌++◌, length,
  ltb, ◌==◌, if◌then◌else◌, pos,
}
use go_iec.Base.Maps.{lookup, insert}
use go_iec.Asn1.Primitives.Floats.{Floats}
use go_iec.Mms.{Value, boolean, bit_string}
use go_iec.Mms.BitStrings.{set_bit}
use go_iec.Model.Flags.{has, zero_bits}
use go_iec.Server.Select.{
  Server, AddCause, add_cause_none, add_cause_inconsistent_parameters, ctl_model_cf, oper_timeout,
  select_with_value, check_cancel, clear_selection,
}
use go_iec.Server.Control.{Phase, oper, sbow, cancel, child, ControlCtx, holder}
use go_iec.Server.Control.Values.{is_nil, DataAttribute, value_fits}
use go_iec.Server.Control.Termination.{
  Command, Effect, sent_first, tracked, changed, Termination, last_appl_error_report, finish,
  supervise,
}

-- What a handler does: it may take the termination over, and may call the function it got for that
-- before it returns its cause.
pub record Verdict : Type 0 where
  pub cause : AddCause
  pub defers : Bool
  pub finished : List AddCause

-- What a command meets: `s.model.Device`, the attributes with FC CO, the handlers and the addresses of
-- the connections.
pub record World : Type 0 where
  pub floats : Floats
  pub truncated : ℕ → ℕ
  pub device : List ℕ → Bool
  pub attribute_co : List ℕ → Option DataAttribute
  pub handler : List ℕ → Option (ControlCtx → Verdict)
  pub peer : ℕ → List ℕ

-- The reservations, and the stVal attributes with FC ST by their references.
pub record Controls : Type 0 where
  pub server : Server
  pub st_vals : List (List ℕ × DataAttribute)

-- The answer, the termination that stays open or has been sent, and what was done, in order.
pub record Outcome : Type 0 where
  pub code : ℕ
  pub term : Option Termination
  pub effects : List Effect
  pub controls : Controls

-- `ctlModel`; CtlDirectNormal is 1.
unfoldable pub ctl_model : Server → List ℕ → ℕ × Bool
ctl_model s ref = elim (s.attribute ref ctl_model_cf) [
  | some v ↦ (v % 2 ^ 8, true)
  | none ↦ (1, false)
]

abbrev pub enhanced : ℕ → Bool
enhanced cm = cm == 3 || cm == 4

-- `Dbpos.Value`
unfoldable pub dbpos_value : ℕ → Value
dbpos_value d = set_bit (set_bit (zero_bits 2) (pos 0) (has d 1)) (pos 1) (has d 0)

abbrev as_status : Value → Value → Value
as_status (bit_string bytes n) (boolean b) =
    let position = dbpos_value (if b then 2 else 1) in if n == 2 then position else boolean b
as_status _ ctl_val = ctl_val

-- "stVal" and "ctlVal".
abbrev pub st_val : List ℕ
st_val = 115 ∷ 116 ∷ 86 ∷ 97 ∷ 108 ∷ []

abbrev pub ctl_val : List ℕ
ctl_val = 99 ∷ 116 ∷ 108 ∷ 86 ∷ 97 ∷ 108 ∷ []

abbrev pub set_status : List ℕ → Value → Option DataAttribute → Controls → List Effect × Controls
set_status ref v none cs = ([], cs)
set_status ref v (some da) cs =
    let nv = as_status da.value v in
    if da.leaf && not (is_nil v) && value_fits da nv
    then (
      changed ref da.value nv ∷ [],
      record cs { st_vals = insert ref (record da { value = nv }) cs.st_vals },
    )
    else ([], cs)

unfoldable pub apply_control : List ℕ → Value → Controls → List Effect × Controls
apply_control ref v cs =
    let st_ref = child ref st_val in set_status st_ref v (lookup st_ref cs.st_vals) cs

abbrev pub is_oper : Phase → Bool
is_oper oper = true
is_oper _ = false

abbrev pub is_sbow : Phase → Bool
is_sbow sbow = true
is_sbow _ = false

-- ServiceSelectWithValue, ServiceCancel and ServiceOperate.
abbrev pub service_of : Phase → ℕ
service_of sbow = 44
service_of cancel = 45
service_of _ = 46

-- The switch of `controlWrite`, `add_cause_none` if no case applies.
unfoldable pub refusal : Phase → ℕ → Bool → ControlCtx → AddCause
refusal phase cm declared ctx =
    if declared && cm == 0 || (is_sbow phase && declared && not (cm == 4))
    then 1
    else if ctx.test && declared && enhanced cm
    then 28
    else if ltb 64 (length ctx.or_ident)
    then add_cause_inconsistent_parameters
    else add_cause_none

abbrev pub done_with : ℕ → List Effect → Controls → Outcome
done_with code effects cs = record { code = code; term = none; effects = effects; controls = cs }

-- `sendLastApplError`
abbrev report_refusal : World → Command → AddCause → Option ℕ → List Effect
report_refusal w cmd cause none = []
report_refusal w cmd cause (some conn) = sent_first (last_appl_error_report w.floats cmd cause) ∷ []

-- `refuse`; AccessObjectAccessDenied is 3, and so is ServiceErrorAccessViolation.
unfoldable pub refuse : World → Command → List Effect → AddCause → Controls → Outcome
refuse w cmd effects cause cs =
    let refused = report_refusal w cmd cause cmd.ctx.conn ++ (tracked cmd.service 3 cause ∷ []) in
    done_with 3 (effects ++ refused) cs

abbrev pub accepted : Command → Effect
accepted cmd = tracked cmd.service 0 add_cause_none

unfoldable pub cancel_checked : World → Command → AddCause → Controls → Outcome
cancel_checked w cmd cause cs =
    let freed = record cs { server = clear_selection cmd.ctx.ref cs.server } in
    let refused = refuse w cmd [] cause cs in
    if cause == add_cause_none then done_with 0xff (accepted cmd ∷ []) freed else refused

unfoldable pub cancel_command : World → ℕ → Command → Controls → Outcome
cancel_command w now cmd cs =
    let ctx = cmd.ctx in
    cancel_checked w cmd (check_cancel ctx.ref (holder ctx.conn) ctx.ctl_num now cs.server) cs

-- The end of an accepted operate: its termination is watched if the handler took it, else sent.
abbrev pub conclude :
    World → Server → Command → Option Termination → Option Termination × List Effect
conclude w s cmd none = (none, [])
conclude w s cmd (some t) =
    let (t', effects) = finish w.floats cmd add_cause_none t in
    let supervised = supervise (oper_timeout s cmd.ctx.ref) t in
    if t.deferred
    then (some supervised, [])
    else (some t', effects ++ (tracked 47 0 add_cause_none ∷ []))

unfoldable pub select_taken : World → Command → List Effect → Bool → Server → Controls → Outcome
select_taken w cmd effects ok s cs =
    let refused = refuse w cmd effects 19 cs in
    if ok
    then done_with 0xff (effects ++ (accepted cmd ∷ [])) (record cs { server = s })
    else refused

unfoldable pub select_command : World → ℕ → Command → List Effect → Controls → Outcome
select_command w now cmd effects cs =
    let ctx = cmd.ctx in
    let (ok, s) = select_with_value ctx.ref (holder ctx.conn) ctx.ctl_num now cs.server in
    select_taken w cmd effects ok s cs

unfoldable pub operate_command :
    World → Command → Option Termination → List Effect → Controls → Outcome
operate_command w cmd term effects cs =
    let (changes, applied) = apply_control cmd.ctx.ref cmd.ctx.value cs in
    let (term', ends) = conclude w applied.server cmd term in
    record {
      code = 0xff;
      term = term';
      effects = effects ++ (changes ++ (accepted cmd ∷ ends));
      controls = record applied { server = clear_selection cmd.ctx.ref applied.server };
    }
