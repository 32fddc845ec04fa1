-- ===== src/Server/Control/Safety.antt =====
-- server/control.go: what a command may change, and on what condition.
use go_iec.Base.{
  ℕ, ◌≡◌, ◌≢◌, refl, Bool, true, false, not, Option, some, List, [], ◌==◌, if-cases, Option-cases,
  inl, inr,
}
use go_iec.Mms.{Value}
use go_iec.Server.Select.{Server, AddCause, add_cause_none}
use go_iec.Server.Control.{Phase, cancel, split_control}
use go_iec.Server.Control.Termination.{Command, Effect, Termination}
use go_iec.Server.Control.Commands.{
  World, Controls, Outcome, refuse, cancel_checked, cancel_command, select_taken, select_command,
  operate_command,
}
use go_iec.Server.Control.Writes.{
  after_handler, execute, operate_selected, operate, by_phase, judge, perform, reach, on_control,
  control_write,
}
use mathlib.Core.Path.{subst}
use mathlib.Core.Option.{some-injective}

-- A write whose item splits is the command on that control.
pub control_write-split :
    (w : World) (now : ℕ) (domain item base : List ℕ) (phase : Phase) (v : Value) (conn : Option ℕ)
    (cs : Controls) (o : Outcome)
    → split_control item ≡ some (base, phase)
    → control_write w now domain item v conn cs ≡ some o
    → on_control w now domain item base phase v conn cs ≡ o
unfolding control_write
control_write-split w now domain item base phase v conn cs o split h =
    some-injective _ _ (rw split at h)

-- What holds of every command that `controlWrite` handles.
control_write-of :
    (P : Outcome → Type 0) (w : World) (now : ℕ) (domain item : List ℕ) (v : Value)
    (conn : Option ℕ) (cs : Controls) (o : Outcome)
    → control_write w now domain item v conn cs ≡ some o
    → ((base : List ℕ) (phase : Phase) → P (on_control w now domain item base phase v conn cs))
    → P o
unfolding control_write
control_write-of P w now domain item v conn cs o h each = elim (Option-cases (split_control item)) [
  | inl e ↦ absurd (cc (rw e at h))
  | inr ((base, phase), e) ↦ subst P (some-injective _ _ (rw e at h)) (each base phase)
]

-- An outcome that leaves everything as it was, unless the command is accepted.
Kept : Controls → Outcome → Type 0
Kept cs o = o.code ≢ 0xff → o.controls ≡ cs

accepted-Kept : (cs : Controls) (o : Outcome) → o.code ≡ 0xff → Kept cs o
unfolding Kept
accepted-Kept cs o h = λ ne. absurd (ne h)

unchanged-Kept : (cs : Controls) (o : Outcome) → o.controls ≡ cs → Kept cs o
unfolding Kept
unchanged-Kept cs o h = λ ne. h

module _ (w : World) (now : ℕ) where
  refuse-Kept :
      (cmd : Command) (effects : List Effect) (cause : AddCause) (cs : Controls)
      → Kept cs (refuse w cmd effects cause cs)
  unfolding refuse
  refuse-Kept cmd effects cause cs = unchanged-Kept cs _ refl

  cancel_checked-Kept :
      (cmd : Command) (cause : AddCause) (cs : Controls) → Kept cs (cancel_checked w cmd cause cs)
  unfolding cancel_checked
  cancel_checked-Kept cmd cause cs =
      if-cases (Kept cs) (cause == add_cause_none) _ _ (λ e. accepted-Kept cs _ refl)
        (λ e. refuse-Kept cmd [] cause cs)

  select_taken-Kept :
      (cmd : Command) (effects : List Effect) (ok : Bool) (s : Server) (cs : Controls)
      → Kept cs (select_taken w cmd effects ok s cs)
  unfolding select_taken
  select_taken-Kept cmd effects true s cs = accepted-Kept cs _ refl
  select_taken-Kept cmd effects false s cs = refuse-Kept cmd effects 19 cs

  after_handler-Kept :
      (cmd : Command) (cause : AddCause) (term : Option Termination) (effects : List Effect)
      (cs : Controls)
      → Kept cs (after_handler w now cmd cause term effects cs)
  unfolding after_handler operate_command select_command refuse
  after_handler-Kept cmd cause term effects cs =
      if-cases (Kept cs) (not (cause == add_cause_none)) _ _ (λ e. unchanged-Kept cs _ refl)
        (λ e.
          if-cases (Kept cs) cmd.ctx.select _ _ (λ f. select_taken-Kept cmd effects _ _ cs)
            (λ f. accepted-Kept cs _ refl))

  operate_selected-Kept :
      (cmd : Command) (cause : AddCause) (term : Option Termination) (cs : Controls)
      → Kept cs (operate_selected w now cmd cause term cs)
  unfolding operate_selected execute
  operate_selected-Kept cmd cause term cs =
      if-cases (Kept cs) (not (cause == add_cause_none)) _ _ (λ e. refuse-Kept cmd [] cause cs)
        (λ e. after_handler-Kept cmd _ _ _ cs)

  by_phase-Kept :
      (phase : Phase) (cmd : Command) (cs : Controls) → Kept cs (by_phase w now phase cmd cs)
  unfolding operate cancel_command
  by_phase-Kept cancel cmd cs = cancel_checked-Kept cmd _ cs
  by_phase-Kept phase cmd cs = operate_selected-Kept cmd _ _ cs

  judge-Kept :
      (phase : Phase) (cmd : Command) (misfit : Bool) (cause : AddCause) (cs : Controls)
      → Kept cs (judge w now phase cmd misfit cause cs)
  unfolding judge
  judge-Kept phase cmd true cause cs = unchanged-Kept cs _ refl
  judge-Kept phase cmd false cause cs =
      if-cases (Kept cs) (not (cause == add_cause_none)) _ _ (λ e. refuse-Kept cmd [] cause cs)
        (λ e. by_phase-Kept phase cmd cs)

  reach-Kept :
      (phase : Phase) (cmd : Command) (device whole found : Bool) (cs : Controls)
      → Kept cs (reach w now phase cmd device whole found cs)
  unfolding reach perform
  reach-Kept phase cmd false whole found cs = unchanged-Kept cs _ refl
  reach-Kept phase cmd true false found cs = unchanged-Kept cs _ refl
  reach-Kept phase cmd true true true cs = judge-Kept phase cmd _ _ cs
  reach-Kept phase cmd true true false cs = unchanged-Kept cs _ refl

-- A control write that is not answered with success, for whatever reason, changes no stVal and no
-- reservation.
pub control_write-refused :
    (w : World) (now : ℕ) (domain item : List ℕ) (v : Value) (conn : Option ℕ) (cs : Controls)
    (o : Outcome)
    → control_write w now domain item v conn cs ≡ some o
    → o.code ≢ 0xff
    → o.controls ≡ cs
unfolding Kept on_control
control_write-refused w now domain item v conn cs o h =
    control_write-of (Kept cs) w now domain item v conn cs o h
      (λ base phase. reach-Kept w now phase _ _ _ _ cs)
