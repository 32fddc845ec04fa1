-- ===== src/Server/Control/Bypass.antt =====
-- server/control.go: a structure written to the SBO of a control.
use go_iec.Base.{
  ℕ, ◌≡◌, refl, sym, ap, ◌∙◌, Bool, true, false, not, Option, none, some, List, ◌==◌, if◌then◌else◌,
  arith,
}
use go_iec.Base.Maps.{lookup}
use go_iec.Mms.{Value}
use go_iec.Server.Select.{Selection, AddCause, add_cause_none}
use go_iec.Server.Control.{sbo, split_control, child}
use go_iec.Server.Control.Values.{DataAttribute}
use go_iec.Server.Control.Termination.{Command, Effect, Termination}
use go_iec.Server.Control.Commands.{
  World, Controls, Outcome, refuse, set_status, apply_control, st_val, operate_command, ctl_model,
}
use go_iec.Server.Control.Writes.{
  after_handler, execute, selection_cause, operate_selected, operate, judge, perform, reach,
  command_of, on_control, control_write,
}
use go_iec.Server.Control.Safety.{control_write-split}

-- The controls with other reservations.
abbrev others : List (List ℕ × Selection) → Controls → Controls
others m cs = record cs { server = record cs.server { selections = m } }

-- The answer and the process image.
abbrev seen : Outcome → ℕ × List (List ℕ × DataAttribute)
seen o = (o.code, o.controls.st_vals)

seen-if :
    (b : Bool) (x y x' y' : Outcome)
    → seen x ≡ seen x'
    → seen y ≡ seen y'
    → seen (if b then x else y) ≡ seen (if b then x' else y')
seen-if true x y x' y' h k = h
seen-if false x y x' y' h k = k

seen-else :
    (b : Bool) (x y x' y' : Outcome)
    → b ≡ false
    → seen y ≡ seen y'
    → seen (if b then x else y) ≡ seen (if b then x' else y')
seen-else true x y x' y' e k = absurd (cc e)
seen-else false x y x' y' e k = k

module _ (w : World) (now : ℕ) (cmd : Command) (cs : Controls) (m : List (List ℕ × Selection)) where
  set_status-others :
      (ref : List ℕ) (v : Value) (da : Option DataAttribute)
      → (set_status ref v da (others m cs)).1.st_vals ≡ (set_status ref v da cs).1.st_vals
  set_status-others ref v none = refl
  set_status-others ref v (some da) = ground arith

  after_handler-others :
      (cause : AddCause) (term : Option Termination) (effects : List Effect)
      → cmd.ctx.select ≡ false
      → seen (after_handler w now cmd cause term effects (others m cs))
        ≡ seen (after_handler w now cmd cause term effects cs)
  unfolding after_handler refuse operate_command apply_control
  after_handler-others cause term effects operates =
      seen-if (not (cause == add_cause_none)) _ _ _ _ refl (
        seen-else cmd.ctx.select _ _ _ _ operates (
          ap (λ (vals : List (List ℕ × DataAttribute)). (0xff, vals))
            (set_status-others (child cmd.ctx.ref st_val) cmd.ctx.value
              (lookup (child cmd.ctx.ref st_val) cs.st_vals))))

  judge-others :
      (misfit : Bool) (cause : AddCause)
      → cmd.ctx.select ≡ false
      → seen (judge w now sbo cmd misfit cause (others m cs))
        ≡ seen (judge w now sbo cmd misfit cause cs)
  unfolding judge operate operate_selected selection_cause execute refuse
  judge-others true cause operates = refl
  judge-others false cause operates =
      seen-if (not (cause == add_cause_none)) _ _ _ _ refl (after_handler-others _ _ _ operates)

  reach-others :
      (device whole found : Bool)
      → cmd.ctx.select ≡ false
      → seen (reach w now sbo cmd device whole found (others m cs))
        ≡ seen (reach w now sbo cmd device whole found cs)
  unfolding reach perform ctl_model
  reach-others false whole found operates = refl
  reach-others true false found operates = refl
  reach-others true true false operates = refl
  reach-others true true true operates = judge-others _ _ operates

-- What a structure written to SBO is answered, and what it leaves of the process image, is the same
-- whatever objects are reserved and for whom: no selection is asked for.
pub control_write-sbo :
    (w : World) (now : ℕ) (domain item base : List ℕ) (v : Value) (conn : Option ℕ) (cs : Controls)
    (m : List (List ℕ × Selection)) (o o' : Outcome)
    → split_control item ≡ some (base, sbo)
    → control_write w now domain item v conn cs ≡ some o
    → control_write w now domain item v conn
        (record cs { server = record cs.server { selections = m } })
      ≡ some o'
    → (o'.code ≡ o.code) × (o'.controls.st_vals ≡ o.controls.st_vals)
unfolding on_control command_of
control_write-sbo w now domain item base v conn cs m o o' split h h' =
    let same =
      sym
        (ap seen (control_write-split w now domain item base sbo v conn (others m cs) o' split h'))
      ∙ reach-others w now (command_of w domain base sbo v conn) cs m _ _ _ refl
      ∙ ap seen (control_write-split w now domain item base sbo v conn cs o split h) in
    (
      ap (λ (r : ℕ × List (List ℕ × DataAttribute)). r.0) same,
      ap (λ (r : ℕ × List (List ℕ × DataAttribute)). r.1) same,
    )
