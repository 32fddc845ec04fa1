-- ===== src/Server/Control/Tests.antt =====
-- server/control.go: the theorems at a control of an object with select before operate.
use go_iec.Base.{
  ℕ, ◌≤◌, ◌≡◌, ◌⊎◌, refl, true, false, Option, none, some, List, [], ◌∷◌, ◌++◌, equal_bytes, arith,
}
use go_iec.Base.Maps.{lookup}
use go_iec.Asn1.Primitives.Floats.{Floats}
use go_iec.Mms.{Value, absent, structure, boolean, unsigned, octet_string, integer, nil, next}
use go_iec.Server.SettingGroups.{int64, bool_of}
use go_iec.Server.Reporting.Writes.{bytes_of}
use go_iec.Server.Select.{
  Selection, CfName, sbo_timeout_cf, oper_timeout_cf, ctl_model_cf, add_cause_none,
  add_cause_object_not_selected, cf_millis, sbo_timeout, check_selection, select_with_value,
  reserve, requires_selection,
}
use go_iec.Server.Control.{
  Phase, oper, sbow, sbo, phase_name, split, join, last_phase, split_control, control_ref, holder,
}
use go_iec.Server.Control.Values.{decode_oper, value_fits, other_btype}
use go_iec.Server.Control.Termination.{Termination, finishes, times_out, act_all}
use go_iec.Server.Control.Commands.{
  World, Controls, Outcome, ctl_model, refusal, refuse, select_taken, select_command,
  operate_command, apply_control,
}
use go_iec.Server.Control.Writes.{
  after_handler, execute, selection_cause, operate_selected, operate, judge, perform, reach,
  command_of, on_control, control_write,
}
use go_iec.Server.Control.Safety.{control_write-refused}
use go_iec.Server.Control.Selected.{control_write-oper, control_write-sbow}
use go_iec.Server.Control.Counting.{terminations}
use go_iec.Server.Control.Ends.{control_write-terminates}
use go_iec.Server.Control.Bypass.{control_write-sbo}

-- The object "A/X.P".
abbrev domain : List ℕ
domain = 65 ∷ []

abbrev base : List ℕ
base = 88 ∷ 36 ∷ 67 ∷ 79 ∷ 36 ∷ 80 ∷ []

abbrev object : List ℕ
object = 65 ∷ 47 ∷ 88 ∷ 46 ∷ 80 ∷ []

abbrev item : Phase → List ℕ
item phase = base ++ (36 ∷ phase_name phase)

split_oper : split_control (item oper) ≡ some (base, oper)
unfolding split_control split last_phase join phase_name equal_bytes
split_oper = refl

split_sbow : split_control (item sbow) ≡ some (base, sbow)
unfolding split_control split last_phase join phase_name equal_bytes
split_sbow = refl

split_sbo : split_control (item sbo) ≡ some (base, sbo)
unfolding split_control split last_phase join phase_name equal_bytes
split_sbo = refl

object_ref : control_ref domain base ≡ object
unfolding control_ref split join
object_ref = refl

abbrev same_bits : Floats
same_bits = record { widen = λ b. b; narrow = λ x. x; narrow-widen = λ b h k. refl }

-- ctlVal has no model of its own; the handler, if there is one, defers and finishes with cause 6.
abbrev world : World
world = record {
  floats = same_bits;
  truncated = λ x. x;
  device = λ name. true;
  attribute_co =
      λ ref. some (record { kind = 0; btype = other_btype; leaf = false; value = absent });
  handler =
      λ ref. some (λ ctx. record { cause = add_cause_none; defers = true; finished = 6 ∷ [] });
  peer = λ conn. [];
}

-- SBO with enhanced security.
abbrev attributes : List ℕ → CfName → Option ℕ
attributes ref sbo_timeout_cf = none
attributes ref oper_timeout_cf = none
attributes ref ctl_model_cf = some 4

abbrev held_by : ℕ → List (List ℕ × Selection)
held_by conn = (object, record { conn = conn; expiry = 100; ctl_num = 4; has_ctl_num = true }) ∷ []

abbrev idle : Controls
idle = record { server = record { attribute = attributes; selections = [] }; st_vals = [] }

abbrev selected : ℕ → Controls
selected conn = record idle {
  server = record { attribute = attributes; selections = held_by conn };
}

abbrev command : Value
command = structure (
    next (boolean true) (
      next (structure (next (integer 3) (next (octet_string (1 ∷ [])) nil)))
        (next (unsigned 4) nil)))

abbrev answer : Phase → Controls → Outcome
answer phase cs = on_control world 7 domain (item phase) base phase command (some 1) cs

answered_oper :
    (cs : Controls)
    → control_write world 7 domain (item oper) command (some 1) cs ≡ some (answer oper cs)
unfolding control_write
answered_oper cs = rw split_oper refl

answered_sbow :
    (cs : Controls)
    → control_write world 7 domain (item sbow) command (some 1) cs ≡ some (answer sbow cs)
unfolding control_write
answered_sbow cs = rw split_sbow refl

answered_sbo :
    (cs : Controls)
    → control_write world 7 domain (item sbo) command (some 1) cs ≡ some (answer sbo cs)
unfolding control_write
answered_sbo cs = rw split_sbo refl

operates : (answer oper (selected 2)).code ≡ 0xff
unfolding on_control reach perform judge operate operate_selected selection_cause execute
    after_handler operate_command refuse command_of decode_oper control_ref split join phase_name
    equal_bytes ctl_model refusal requires_selection check_selection lookup int64 value_fits
    bytes_of bool_of apply_control
operates = refl

refuses : (answer oper (selected 3)).code ≡ 3
unfolding on_control reach perform judge operate operate_selected selection_cause execute
    after_handler operate_command refuse command_of decode_oper control_ref split join phase_name
    equal_bytes ctl_model refusal requires_selection check_selection lookup int64 value_fits
    bytes_of bool_of apply_control
refuses = refl

reserves : (answer sbow idle).code ≡ 0xff
unfolding on_control reach perform judge operate operate_selected selection_cause execute
    after_handler select_command select_taken select_with_value reserve refuse command_of
    decode_oper control_ref split join phase_name equal_bytes ctl_model refusal requires_selection
    check_selection lookup int64 value_fits bytes_of bool_of
reserves = refl

-- A structure written to SBO is accepted of a connection that has selected nothing.
bypasses : (answer sbo idle).code ≡ 0xff
unfolding on_control reach perform judge operate operate_selected selection_cause execute
    after_handler operate_command refuse command_of decode_oper control_ref split join phase_name
    equal_bytes ctl_model refusal requires_selection check_selection lookup int64 value_fits
    bytes_of bool_of apply_control
bypasses = refl

requires : requires_selection (control_ref domain base) (selected 2).server ≡ true
unfolding requires_selection
requires = refl

has_model : ctl_model (selected 2).server (control_ref domain base) ≡ (4, true)
unfolding ctl_model
has_model = refl

default_timeout : sbo_timeout idle.server (control_ref domain base) ≡ 30000000000
unfolding sbo_timeout cf_millis
default_timeout = refl

control_write-refused_example : (answer oper (selected 3)).controls ≡ selected 3
control_write-refused_example =
    control_write-refused world 7 domain (item oper) command (some 1) (selected 3)
      (answer oper (selected 3)) (answered_oper (selected 3)) (λ e. omega (arith, e, refuses))

control_write-oper_example :
    (check_selection
        (control_ref domain base)
        (holder (some 1))
        (command_of world domain base oper command (some 1)).ctx.ctl_num
        7
        (selected 2).server
      ≡ add_cause_none)
    × (lookup (control_ref domain base) (answer oper (selected 2)).controls.server.selections
        ≡ none)
control_write-oper_example =
    control_write-oper world 7 domain (item oper) base command (some 1) (selected 2)
      (answer oper (selected 2)) split_oper (answered_oper (selected 2)) operates requires

control_write-sbow_example :
    ((answer sbow idle).controls.st_vals ≡ idle.st_vals)
    × (check_selection
          (control_ref domain base)
          (holder (some 1))
          (command_of world domain base sbow command (some 1)).ctx.ctl_num
          8
          (answer sbow idle).controls.server
        ≡ add_cause_none)
    × (check_selection (control_ref domain base) 3 5 8 (answer sbow idle).controls.server
        ≡ add_cause_object_not_selected)
control_write-sbow_example =
    control_write-sbow world 7 8 5 3 domain (item sbow) base command (some 1) idle
      (answer sbow idle) split_sbow (answered_sbow idle) reserves (omega (arith, default_timeout))
      (λ e. omega (arith, e))

control_write-terminates_example :
    (t : Termination) × ((answer oper (selected 2)).term ≡ some t)
    × ((t.deferred ≡ true) ⊎ (terminations (answer oper (selected 2)).effects ≡ 1))
    × (terminations (
          (answer oper (selected 2)).effects
          ++ (act_all world.floats
              (command_of world domain base oper command (some 1))
              (times_out ∷ [])
              t).1)
        ≤ 1)
    × (terminations (
          (answer oper (selected 2)).effects
          ++ (act_all world.floats
              (command_of world domain base oper command (some 1))
              ((times_out ∷ []) ++ (finishes 3 ∷ []))
              t).1)
        ≡ 1)
control_write-terminates_example =
    control_write-terminates world 7 1 4 domain (item oper) base command (selected 2)
      (answer oper (selected 2)) (times_out ∷ []) 3 split_oper (answered_oper (selected 2)) operates
      has_model refl

control_write-sbo_example :
    ((answer sbo idle).code ≡ (answer sbo (selected 3)).code)
    × ((answer sbo idle).controls.st_vals ≡ (answer sbo (selected 3)).controls.st_vals)
control_write-sbo_example =
    control_write-sbo world 7 domain (item sbo) base command (some 1) (selected 3) []
      (answer sbo (selected 3)) (answer sbo idle) split_sbo (answered_sbo (selected 3))
      (answered_sbo idle)
