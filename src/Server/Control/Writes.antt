-- ===== src/Server/Control/Writes.antt =====
-- server/control.go: the write of a control structure.
use go_iec.Base.{
  ℕ, Bool, true, false, not, ◌&&◌, Option, none, some, List, [], ◌∷◌, ◌++◌, map, ◌==◌,
  if◌then◌else◌,
}
use go_iec.Mms.{Value}
use go_iec.Server.Select.{Server, AddCause, add_cause_none, check_selection, requires_selection}
use go_iec.Server.Control.{
  Phase, cancel, phase_name, split_control, control_ref, child, has_suffix, ControlCtx, holder,
}
use go_iec.Server.Control.Values.{is_structure, decode_oper, DataAttribute, value_fits}
use go_iec.Server.Control.Commands.{
  Controls, Outcome, Verdict, World, cancel_command, ctl_model, ctl_val, done_with, enhanced,
  is_oper, is_sbow, operate_command, refusal, refuse, select_command, service_of,
}
use go_iec.Server.Control.Termination.{
  Command, Effect, tracked, Termination, new_termination, discard, finishes, act_all,
}

-- What the handler says, and the termination after its calls.
abbrev pub ask : Option (ControlCtx → Verdict) → ControlCtx → Verdict
ask none ctx = record { cause = add_cause_none; defers = false; finished = [] }
ask (some h) ctx = h ctx

abbrev pub taken : World → Command → Verdict → Option Termination → Option Termination × List Effect
taken w cmd verdict none = (none, [])
taken w cmd verdict (some t) =
    let own = record t { deferred = verdict.defers } in
    let (t', effects) = act_all w.floats cmd (map finishes verdict.finished) own in
    if verdict.defers then (some t', effects) else (some own, [])

abbrev discarded : Option Termination → Option Termination
discarded none = none
discarded (some t) = some (discard t)

-- The rest of `controlWrite` from the call of the handler on.
unfoldable pub after_handler :
    World → ℕ → Command → AddCause → Option Termination → List Effect → Controls → Outcome
after_handler w now cmd cause term effects cs =
    let refused : Outcome = record (refuse w cmd effects cause cs) { term = discarded term } in
    let selected = select_command w now cmd effects cs in
    let operated = operate_command w cmd term effects cs in
    if not (cause == add_cause_none) then refused else if cmd.ctx.select then selected else operated

unfoldable pub execute : World → ℕ → Command → Option Termination → Controls → Outcome
execute w now cmd term cs =
    let verdict = ask (w.handler cmd.ctx.ref) cmd.ctx in
    let (term', effects) = taken w cmd verdict term in
    after_handler w now cmd verdict.cause term' effects cs

abbrev owed : Bool → Option ℕ → Option Termination
owed true (some conn) = some new_termination
owed _ _ = none

-- The check of the selection, of an operate on an object that requires one.
unfoldable pub selection_cause : ℕ → Phase → ControlCtx → Server → AddCause
selection_cause now phase ctx s =
    let cause = check_selection ctx.ref (holder ctx.conn) ctx.ctl_num now s in
    if is_oper phase && requires_selection ctx.ref s then cause else add_cause_none

unfoldable pub operate_selected :
    World → ℕ → Command → AddCause → Option Termination → Controls → Outcome
operate_selected w now cmd cause term cs =
    let refused = refuse w cmd [] cause cs in
    let executed = execute w now cmd term cs in
    if not (cause == add_cause_none) then refused else executed

unfoldable pub operate : World → ℕ → Phase → Command → Controls → Outcome
operate w now phase cmd cs =
    let (cm, declared) = ctl_model cs.server cmd.ctx.ref in
    operate_selected w now cmd (selection_cause now phase cmd.ctx cs.server)
      (owed (is_oper phase && (declared && enhanced cm)) cmd.ctx.conn) cs

abbrev pub by_phase : World → ℕ → Phase → Command → Controls → Outcome
by_phase w now cancel cmd cs = cancel_command w now cmd cs
by_phase w now phase cmd cs = operate w now phase cmd cs

-- ctlVal does not fit the model's attribute.
abbrev misfits : Phase → Value → Option DataAttribute → Bool
misfits cancel v da = false
misfits phase v none = false
misfits phase v (some da) = not (value_fits da v)

unfoldable pub judge : World → ℕ → Phase → Command → Bool → AddCause → Controls → Outcome
judge w now phase cmd misfit cause cs =
    let refused = refuse w cmd [] cause cs in
    let performed = by_phase w now phase cmd cs in
    if misfit
    then done_with 7 (tracked cmd.service 6 0 ∷ []) cs
    else if not (cause == add_cause_none)
    then refused
    else performed

unfoldable pub perform : World → ℕ → Phase → Command → Controls → Outcome
perform w now phase cmd cs =
    let ctx = cmd.ctx in
    let (cm, declared) = ctl_model cs.server ctx.ref in
    let da = w.attribute_co (child (child ctx.ref (phase_name phase)) ctl_val) in
    judge w now phase cmd (misfits phase ctx.value da) (refusal phase cm declared ctx) cs

abbrev pub peer_of : World → Option ℕ → List ℕ
peer_of w none = []
peer_of w (some conn) = w.peer conn

-- The command that a structure written to a phase of a control asks for.
unfoldable pub command_of : World → List ℕ → List ℕ → Phase → Value → Option ℕ → Command
command_of w domain base phase v conn =
    let ref = control_ref domain base in
    let ctx = decode_oper w.truncated ref v conn (peer_of w conn) in
    record {
      domain = domain;
      ctl_item = base ++ (36 ∷ phase_name phase);
      service = service_of phase;
      ctx = record ctx { select = is_sbow phase };
      written = v;
    }

abbrev is_found : Option DataAttribute → Bool
is_found none = false
is_found (some da) = true

unfoldable pub reach : World → ℕ → Phase → Command → Bool → Bool → Bool → Controls → Outcome
reach w now phase cmd device whole found cs =
    let performed = perform w now phase cmd cs in
    if not device
    then done_with 10 [] cs
    else if not whole
    then done_with 7 [] cs
    else if found
    then performed
    else done_with 10 [] cs

unfoldable pub on_control :
    World → ℕ → List ℕ → List ℕ → List ℕ → Phase → Value → Option ℕ → Controls → Outcome
on_control w now domain item base phase v conn cs =
    reach w now phase (command_of w domain base phase v conn) (w.device domain)
      (has_suffix item (36 ∷ phase_name phase) && is_structure v)
      (is_found (w.attribute_co (child (control_ref domain base) (phase_name phase)))) cs

-- `controlWrite`, none for an item that is no control.
abbrev handled :
    World
    → ℕ
    → List ℕ
    → List ℕ
    → Option (List ℕ × Phase)
    → Value
    → Option ℕ
    → Controls
    → Option Outcome
handled w now domain item none v conn cs = none
handled w now domain item (some (base, phase)) v conn cs =
    some (on_control w now domain item base phase v conn cs)

unfoldable pub control_write :
    World → ℕ → List ℕ → List ℕ → Value → Option ℕ → Controls → Option Outcome
control_write w now domain item v conn cs = handled w now domain item (split_control item) v conn cs
