-- ===== src/Server/Control/Termination.antt =====
-- server/control.go: the messages about a command, and the CommandTermination of an operate.
use go_iec.Base.{
  ℕ, ◌+◌, ◌-◌, ◌^◌, Bool, true, false, ◌||◌, Option, none, some, List, [], ◌∷◌, ◌++◌, ltb, leb,
  ◌==◌, if◌then◌else◌,
}
use go_iec.Asn1.{Tag, context_primitive, context_constructed}
use go_iec.Asn1.Element.{Element, prim, cons}
use go_iec.Asn1.Primitives.Floats.{Floats}
use go_iec.Mms.{Value, structure, integer, unsigned, octet_string, visible_string, nil, next}
use go_iec.Mms.Codec.{data_element}
use go_iec.Server.Select.{AddCause, add_cause_none}
use go_iec.Server.Control.{ControlCtx}

-- `asn1.TagSequence` and `asn1.TagVisibleString`.
abbrev tag_sequence : Tag
tag_sequence = record { class = 0; constructed = true; number = 16 }

abbrev tag_visible_string : Tag
tag_visible_string = record { class = 0; constructed = false; number = 26 }

-- A command on a control structure: `service` is its ServiceType, `written` the structure.
pub record Command : Type 0 where
  pub domain : List ℕ
  pub ctl_item : List ℕ
  pub service : ℕ
  pub ctx : ControlCtx
  pub written : Value

-- What a command makes the server do: `SendUnconfirmedFirst`, `SendUnconfirmed`, `trackControl` with
-- its service, error and cause, at once or by `trackAsync`, and `changes.record`.
pub data Effect : Type 0 where
  sent_first sent : Element → Effect
  tracked tracked_async : ℕ → ℕ → AddCause → Effect
  changed : List ℕ → Value → Value → Effect

-- `NewInt8` of a uint8 converted to an int8.
abbrev new_int8 : ℕ → Value
new_int8 n = integer (if ltb n 128 then n else 2 ^ 64 - 256 + n)

abbrev two : Value → Value → Value
two v w = structure (next v (next w nil))

unfoldable pub last_appl_error_value : Command → AddCause → Value
last_appl_error_value cmd cause = structure (
    next (visible_string (cmd.domain ++ (47 ∷ cmd.ctl_item))) (
      next (integer 0) (
        next (two (new_int8 cmd.ctx.origin) (octet_string cmd.ctx.or_ident))
          (next (unsigned cmd.ctx.ctl_num) (next (new_int8 cause) nil)))))

-- The VMD-specific name "LastApplError", and a name in a domain, as listOfVariable holds them.
abbrev last_appl_error : Element
last_appl_error =
    prim (context_primitive 0)
      (76 ∷ 97 ∷ 115 ∷ 116 ∷ 65 ∷ 112 ∷ 112 ∷ 108 ∷ 69 ∷ 114 ∷ 114 ∷ 111 ∷ 114 ∷ [])

abbrev domain_specific_name : List ℕ → List ℕ → Element
domain_specific_name domain item =
    cons (context_constructed 1)
      (some (prim tag_visible_string domain) ∷ some (prim tag_visible_string item) ∷ [])

abbrev variable : Element → Option Element
variable name = some (cons tag_sequence (some (cons (context_constructed 0) (some name ∷ [])) ∷ []))

abbrev information_report : List (Option Element) → List (Option Element) → Element
information_report variables values = cons (context_constructed 0) (
    some (cons (context_constructed 0) variables) ∷ some (cons (context_constructed 0) values) ∷ [])

module _ (floats : Floats) where
  abbrev pub last_appl_error_report : Command → AddCause → Element
  last_appl_error_report cmd cause =
      information_report (variable last_appl_error ∷ [])
        (data_element floats (last_appl_error_value cmd cause) ∷ [])

  unfoldable pub command_termination_report : Command → Element
  command_termination_report cmd =
      information_report (variable (domain_specific_name cmd.domain cmd.ctl_item) ∷ [])
        (data_element floats cmd.written ∷ [])

  unfoldable pub command_termination_negative_report : Command → AddCause → Element
  command_termination_negative_report cmd cause =
      information_report
        (variable last_appl_error ∷ variable (domain_specific_name cmd.domain cmd.ctl_item) ∷ [])
        (data_element floats (last_appl_error_value cmd cause)
          ∷ data_element floats cmd.written
          ∷ [])

  -- `send`
  abbrev pub termination_report : Command → AddCause → Element
  termination_report cmd cause =
      let positive = command_termination_report cmd in
      let negative = command_termination_negative_report cmd cause in
      if cause == add_cause_none then positive else negative

-- `done` is that of `once`, `timer` the duration of the timer that runs.
pub record Termination : Type 0 where
  pub done : Bool
  pub deferred : Bool
  pub timer : Option ℕ

abbrev pub new_termination : Termination
new_termination = record { done = false; deferred = false; timer = none }

-- ServiceErrorFailedDueToServerConstraint is 12.
abbrev termination_error : AddCause → ℕ
termination_error cause = if cause == add_cause_none then 0 else 12

-- ServiceCommandTermination is 47.
unfoldable pub finish : Floats → Command → AddCause → Termination → Termination × List Effect
finish floats cmd cause t =
    let tracking =
      if t.deferred then tracked_async 47 (termination_error cause) cause ∷ [] else [] in
    if t.done then (t, []) else (
      record t { done = true; timer = none },
      sent (termination_report floats cmd cause) ∷ tracking,
    )

unfoldable pub discard : Termination → Termination
discard t = record t { done = true }

-- The duration is the 64 bits of an int64.
unfoldable pub supervise : ℕ → Termination → Termination
supervise d t = if d == 0 || leb (2 ^ 63) d then t else record t { timer = some d }

-- The timer fires; AddCauseTimeLimitOver is 16.
abbrev pub time_out : Floats → Command → Termination → Option ℕ → Termination × List Effect
time_out floats cmd t none = (t, [])
time_out floats cmd t (some d) = finish floats cmd 16 (record t { timer = none })

-- What may come after the answer: a call of the function that `DeferTermination` returned, the timer.
pub data Call : Type 0 where
  finishes : AddCause → Call
  times_out : Call

unfoldable pub act : Floats → Command → Call → Termination → Termination × List Effect
act floats cmd (finishes cause) t = finish floats cmd cause t
act floats cmd times_out t = time_out floats cmd t t.timer

unfoldable pub act_all : Floats → Command → List Call → Termination → Termination × List Effect
act_all floats cmd [] t = (t, [])
act_all floats cmd (call ∷ calls) t =
    let (t', effects) = act floats cmd call t in
    let (last, more) = act_all floats cmd calls t' in (last, effects ++ more)
