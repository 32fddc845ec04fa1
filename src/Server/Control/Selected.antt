-- ===== src/Server/Control/Selected.antt =====
-- server/control.go: select before operate.
use go_iec.Base.{
  ℕ, ◌+◌, ◌<◌, ◌≡◌, ◌≢◌, refl, Bool, true, false, not, Option, none, some, List, ◌==◌, if-cases,
  Bool-cases, ==_iff, inl, inr, arith,
}
use go_iec.Base.Maps.{lookup}
use go_iec.Mms.{Value}
use go_iec.Server.Select.{
  Server, AddCause, add_cause_none, add_cause_object_not_selected, sbo_timeout, select_with_value,
  reserve, check_selection, requires_selection,
}
use go_iec.Server.Select.Exclusion.{reserve-exclusive, clear_selection-selections}
use go_iec.Server.Control.{oper, sbow, split_control, control_ref, holder}
use go_iec.Server.Control.Values.{decode_oper-ref}
use go_iec.Server.Control.Termination.{Command, Effect, Termination}
use go_iec.Server.Control.Commands.{
  World, Controls, Outcome, refuse, select_taken, select_command, operate_command, apply_control,
}
use go_iec.Server.Control.Writes.{
  peer_of, after_handler, execute, selection_cause, operate_selected, operate, judge, perform,
  reach, command_of, on_control, control_write,
}
use go_iec.Server.Control.Safety.{control_write-split}
use mathlib.Core.Path.{subst}

-- Of an outcome that is accepted: the check found nothing, and nothing is reserved any more.
Granted : List ℕ → AddCause → Outcome → Type 0
Granted ref cause o =
    o.code ≡ 0xff → (cause ≡ add_cause_none) × (lookup ref o.controls.server.selections ≡ none)

fails-Granted :
    (ref : List ℕ) (cause : AddCause) (o : Outcome) → o.code ≢ 0xff → Granted ref cause o
unfolding Granted
fails-Granted ref cause o ne = λ h. absurd (ne h)

module _ (w : World) (now : ℕ) (cmd : Command) (cs : Controls) where
  operate_command-Granted :
      (term : Option Termination) (effects : List Effect)
      → Granted cmd.ctx.ref add_cause_none (operate_command w cmd term effects cs)
  unfolding Granted operate_command
  operate_command-Granted term effects =
      let ref = cmd.ctx.ref in
      λ h. (refl, clear_selection-selections (apply_control ref cmd.ctx.value cs).1.server ref)

  after_handler-Granted :
      (cause : AddCause) (term : Option Termination) (effects : List Effect)
      → cmd.ctx.select ≡ false
      → Granted cmd.ctx.ref add_cause_none (after_handler w now cmd cause term effects cs)
  unfolding after_handler refuse
  after_handler-Granted cause term effects operates =
      let P = Granted cmd.ctx.ref add_cause_none in
      if-cases P (not (cause == add_cause_none)) _ _
        (λ e. fails-Granted cmd.ctx.ref add_cause_none _ (λ h. omega (arith, h)))
        (λ e.
          if-cases P cmd.ctx.select _ _ (λ f. absurd (cc (operates, f)))
            (λ f. operate_command-Granted term effects))

  operate_selected-Granted :
      (cause : AddCause) (term : Option Termination)
      → cmd.ctx.select ≡ false
      → Granted cmd.ctx.ref cause (operate_selected w now cmd cause term cs)
  unfolding operate_selected execute Granted refuse
  operate_selected-Granted cause term operates = elim (Bool-cases (cause == add_cause_none)) [
    | inl e ↦
        rw e (λ h. ((==_iff cause add_cause_none).0 e, (after_handler-Granted _ _ _ operates h).1))
    | inr e ↦ rw e (λ h. absurd (omega (arith, h)))
  ]

  judge-Granted :
      (misfit : Bool) (cause : AddCause)
      → cmd.ctx.select ≡ false
      → Granted cmd.ctx.ref
          (selection_cause now oper cmd.ctx cs.server)
          (judge w now oper cmd misfit cause cs)
  unfolding judge operate refuse
  judge-Granted true cause operates = fails-Granted _ _ _ (λ h. omega (arith, h))
  judge-Granted false cause operates =
      let P = Granted cmd.ctx.ref (selection_cause now oper cmd.ctx cs.server) in
      if-cases P (not (cause == add_cause_none)) _ _
        (λ e. fails-Granted cmd.ctx.ref _ _ (λ h. omega (arith, h)))
        (λ e. operate_selected-Granted _ _ operates)

  reach-Granted :
      (device whole found : Bool)
      → cmd.ctx.select ≡ false
      → Granted cmd.ctx.ref
          (selection_cause now oper cmd.ctx cs.server)
          (reach w now oper cmd device whole found cs)
  unfolding reach perform
  reach-Granted false whole found operates = fails-Granted _ _ _ (λ h. omega (arith, h))
  reach-Granted true false found operates = fails-Granted _ _ _ (λ h. omega (arith, h))
  reach-Granted true true false operates = fails-Granted _ _ _ (λ h. omega (arith, h))
  reach-Granted true true true operates = judge-Granted _ _ operates

-- An operate that is accepted on an object with select before operate comes from the connection that
-- holds the object, with a reservation that has not expired and whose control number, if the select
-- carried one, is the operate's; and it ends the reservation.
pub control_write-oper :
    (w : World) (now : ℕ) (domain item base : List ℕ) (v : Value) (conn : Option ℕ) (cs : Controls)
    (o : Outcome)
    → split_control item ≡ some (base, oper)
    → control_write w now domain item v conn cs ≡ some o
    → o.code ≡ 0xff
    → requires_selection (control_ref domain base) cs.server ≡ true
    → (check_selection
          (control_ref domain base)
          (holder conn)
          (command_of w domain base oper v conn).ctx.ctl_num
          now
          cs.server
        ≡ add_cause_none)
      × (lookup (control_ref domain base) o.controls.server.selections ≡ none)
unfolding on_control selection_cause command_of Granted
control_write-oper w now domain item base v conn cs o split h accepted requires =
    let cmd = command_of w domain base oper v conn in
    let (same_ref, same_conn) =
      decode_oper-ref w.truncated (control_ref domain base) v conn (peer_of w conn) in
    let P : Outcome → Type 0 = Granted cmd.ctx.ref (selection_cause now oper cmd.ctx cs.server) in
    let (passed, freed) =
      subst P (control_write-split w now domain item base oper v conn cs o split h)
        (reach-Granted w now cmd cs _ _ _ refl) accepted in
    (rw (same_ref, same_conn, requires) at passed, rw same_ref at freed)

-- Of an outcome that is accepted: what `reserve` leaves of the reservations, and no other change.
Reserved : Command → ℕ → Controls → Outcome → Type 0
Reserved cmd now cs o =
    o.code ≡ 0xff
    → (o.controls.st_vals ≡ cs.st_vals)
      × (reserve cmd.ctx.ref (holder cmd.ctx.conn) cmd.ctx.ctl_num true now cs.server
          ≡ (true, o.controls.server))

fails-Reserved :
    (cmd : Command) (now : ℕ) (cs : Controls) (o : Outcome) → o.code ≢ 0xff → Reserved cmd now cs o
unfolding Reserved
fails-Reserved cmd now cs o ne = λ h. absurd (ne h)

module _ (w : World) (now : ℕ) (cmd : Command) (cs : Controls) where
  select_taken-Reserved :
      (effects : List Effect) (ok : Bool) (s : Server)
      → reserve cmd.ctx.ref (holder cmd.ctx.conn) cmd.ctx.ctl_num true now cs.server ≡ (ok, s)
      → Reserved cmd now cs (select_taken w cmd effects ok s cs)
  unfolding select_taken Reserved refuse
  select_taken-Reserved effects true s e = λ h. (refl, e)
  select_taken-Reserved effects false s e = λ h. absurd (omega (arith, h))

  after_handler-Reserved :
      (cause : AddCause) (term : Option Termination) (effects : List Effect)
      → cmd.ctx.select ≡ true
      → Reserved cmd now cs (after_handler w now cmd cause term effects cs)
  unfolding after_handler refuse select_command select_with_value
  after_handler-Reserved cause term effects selects =
      if-cases (Reserved cmd now cs) (not (cause == add_cause_none)) _ _
        (λ e. fails-Reserved cmd now cs _ (λ h. omega (arith, h)))
        (λ e.
          if-cases (Reserved cmd now cs) cmd.ctx.select _ _
            (λ f. select_taken-Reserved effects _ _ refl) (λ f. absurd (cc (selects, f))))

  operate_selected-Reserved :
      (cause : AddCause) (term : Option Termination)
      → cmd.ctx.select ≡ true
      → Reserved cmd now cs (operate_selected w now cmd cause term cs)
  unfolding operate_selected execute refuse
  operate_selected-Reserved cause term selects =
      if-cases (Reserved cmd now cs) (not (cause == add_cause_none)) _ _
        (λ e. fails-Reserved cmd now cs _ (λ h. omega (arith, h)))
        (λ e. after_handler-Reserved _ _ _ selects)

  judge-Reserved :
      (misfit : Bool) (cause : AddCause)
      → cmd.ctx.select ≡ true
      → Reserved cmd now cs (judge w now sbow cmd misfit cause cs)
  unfolding judge operate refuse
  judge-Reserved true cause selects = fails-Reserved cmd now cs _ (λ h. omega (arith, h))
  judge-Reserved false cause selects =
      if-cases (Reserved cmd now cs) (not (cause == add_cause_none)) _ _
        (λ e. fails-Reserved cmd now cs _ (λ h. omega (arith, h)))
        (λ e. operate_selected-Reserved _ _ selects)

  reach-Reserved :
      (device whole found : Bool)
      → cmd.ctx.select ≡ true
      → Reserved cmd now cs (reach w now sbow cmd device whole found cs)
  unfolding reach perform
  reach-Reserved false whole found s = fails-Reserved cmd now cs _ (λ h. omega (arith, h))
  reach-Reserved true false found s = fails-Reserved cmd now cs _ (λ h. omega (arith, h))
  reach-Reserved true true false s = fails-Reserved cmd now cs _ (λ h. omega (arith, h))
  reach-Reserved true true true s = judge-Reserved _ _ s

-- A select with value that is accepted changes no stVal. Until the reservation expires, the connection
-- passes the check of an operate with the same control number, and another connection does not, with
-- whatever number.
pub control_write-sbow :
    (w : World) (now t m other : ℕ) (domain item base : List ℕ) (v : Value) (conn : Option ℕ)
    (cs : Controls) (o : Outcome)
    → split_control item ≡ some (base, sbow)
    → control_write w now domain item v conn cs ≡ some o
    → o.code ≡ 0xff
    → t < now + sbo_timeout cs.server (control_ref domain base)
    → other ≢ holder conn
    → (o.controls.st_vals ≡ cs.st_vals)
      × (check_selection
            (control_ref domain base)
            (holder conn)
            (command_of w domain base sbow v conn).ctx.ctl_num
            t
            o.controls.server
          ≡ add_cause_none)
      × (check_selection (control_ref domain base) other m t o.controls.server
          ≡ add_cause_object_not_selected)
unfolding on_control command_of Reserved
control_write-sbow w now t m other domain item base v conn cs o split h accepted live ne =
    let cmd = command_of w domain base sbow v conn in
    let ref = control_ref domain base in
    let (same_ref, same_conn) = decode_oper-ref w.truncated ref v conn (peer_of w conn) in
    let (kept, reserves) =
      subst (Reserved cmd now cs)
        (control_write-split w now domain item base sbow v conn cs o split h)
        (reach-Reserved w now cmd cs _ _ _ refl) accepted in
    let reserves' = rw (same_ref, same_conn) at reserves in
    let num = cmd.ctx.ctl_num in
    let own =
      reserve-exclusive cs.server o.controls.server ref (holder conn) other num num now t true true
        reserves' live ne in
    let others =
      reserve-exclusive cs.server o.controls.server ref (holder conn) other num m now t true true
        reserves' live ne in
    (kept, ground (arith, own.0), others.3)
