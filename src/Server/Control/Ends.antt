-- ===== src/Server/Control/Ends.antt =====
-- server/control.go: the CommandTermination of an operate with enhanced security.
use go_iec.Base.{
  ℕ, ◌≤◌, ◌≡◌, ◌⊎◌, refl, ap, ◌≢◌, Bool, true, false, not, Option, none, some, List, [], ◌∷◌, ◌++◌,
  map, ◌==◌, ◌||◌, ◌^◌, leb, append-nil, append_assoc, ◌∙◌, if-cases, inl, inr, arith,
}
use go_iec.Base.Maps.{lookup}
use go_iec.Asn1.Primitives.Floats.{Floats}
use go_iec.Mms.{Value}
use go_iec.Server.Select.{Server, AddCause, add_cause_none, oper_timeout}
use go_iec.Server.Control.{oper, split_control, control_ref, child}
use go_iec.Server.Control.Values.{DataAttribute, decode_oper-ref}
use go_iec.Server.Control.Termination.{
  Command, Effect, tracked, Termination, new_termination, finish, supervise, Call, finishes,
  act_all,
}
use go_iec.Server.Control.Commands.{
  Verdict, World, Controls, Outcome, ctl_model, enhanced, refuse, accepted, set_status,
  apply_control, conclude, operate_command, st_val,
}
use go_iec.Server.Control.Writes.{
  peer_of, ask, selection_cause, taken, after_handler, execute, operate_selected, operate, judge,
  perform, reach, command_of, on_control, control_write,
}
use go_iec.Server.Control.Safety.{control_write-split}
use go_iec.Server.Control.Counting.{
  terminations, terminations-append, sent_of, sent_of-le, sent_of-done, finish-Counted,
  act_all-Counted, total, finish-done, act_all-done, Counted,
}
use mathlib.Core.Path.{subst}

supervise-keeps :
    (d : ℕ) (t : Termination)
    → ((supervise d t).done ≡ t.done) × ((supervise d t).deferred ≡ t.deferred)
unfolding supervise
supervise-keeps d t =
    if-cases (λ (r : Termination). (r.done ≡ t.done) × (r.deferred ≡ t.deferred))
      (d == 0 || leb (2 ^ 63) d) t (record t { timer = some d }) (λ e. (refl, refl))
      (λ e. (refl, refl))

set_status-terminations :
    (ref : List ℕ) (v : Value) (da : Option DataAttribute) (cs : Controls)
    → terminations (set_status ref v da cs).0 ≡ 0
unfolding terminations
set_status-terminations ref v none cs = refl
set_status-terminations ref v (some da) cs = ground arith

-- A termination that has been sent as often as `once` says, and that is in the handler's hands or done.
Settled : Option Termination → List Effect → Type 0
Settled term effects =
    (t : Termination) × (term ≡ some t)
    × (terminations effects ≡ sent_of t)
    × ((t.deferred ≡ true) ⊎ (t.done ≡ true))

supervise-Settled :
    (d : ℕ) (t : Termination) (before : List Effect)
    → t.deferred ≡ true
    → terminations before ≡ sent_of t
    → Settled (some (supervise d t)) (before ++ [])
unfolding Settled
supervise-Settled d t before e h =
    let (done, deferred) = supervise-keeps d t in
    (supervise d t, refl, rw (append-nil before, done) h, inl (deferred ∙ e))

finish-Settled :
    (floats : Floats) (cmd : Command) (t : Termination) (before rest : List Effect)
    → terminations before ≡ sent_of t
    → terminations rest ≡ 0
    → Settled
        (some (finish floats cmd add_cause_none t).0)
        (before ++ ((finish floats cmd add_cause_none t).1 ++ rest))
unfolding Settled Counted
finish-Settled floats cmd t before rest h none_else =
    let (t', ends) = finish floats cmd add_cause_none t in
    let counts : terminations (before ++ (ends ++ rest)) ≡ sent_of t' = omega (
      arith,
      h,
      none_else,
      finish-Counted floats cmd add_cause_none t,
      terminations-append before (ends ++ rest),
      terminations-append ends rest,
    ) in
    (t', refl, counts, inr (finish-done floats cmd add_cause_none t))

conclude-Settled :
    (w : World) (s : Server) (cmd : Command) (t : Termination) (before : List Effect)
    → terminations before ≡ sent_of t
    → Settled (conclude w s cmd (some t)).0 (before ++ (conclude w s cmd (some t)).1)
unfolding terminations
conclude-Settled w s cmd t before h =
    if-cases (λ (r : Option Termination × List Effect). Settled r.0 (before ++ r.1)) t.deferred _ _
      (λ e. supervise-Settled (oper_timeout s cmd.ctx.ref) t before e h)
      (λ e. finish-Settled w.floats cmd t before (tracked 47 0 add_cause_none ∷ []) h refl)

-- Of an outcome that is accepted: it is settled.
Ended : Outcome → Type 0
Ended o = o.code ≡ 0xff → Settled o.term o.effects

fails-Ended : (o : Outcome) → o.code ≢ 0xff → Ended o
unfolding Ended
fails-Ended o ne = λ h. absurd (ne h)

module _ (w : World) (now : ℕ) (cmd : Command) (cs : Controls) where
  operate_command-Ended :
      (t : Termination) (effects : List Effect)
      → terminations effects ≡ sent_of t
      → Ended (operate_command w cmd (some t) effects cs)
  unfolding Ended operate_command terminations apply_control
  operate_command-Ended t effects h =
      let (changes, applied) = apply_control cmd.ctx.ref cmd.ctx.value cs in
      let before = effects ++ (changes ++ (accepted cmd ∷ [])) in
      let unmarked : terminations (changes ++ (accepted cmd ∷ [])) ≡ 0 = omega (
        arith,
        terminations-append changes (accepted cmd ∷ []),
        set_status-terminations (child cmd.ctx.ref st_val) cmd.ctx.value
            (lookup (child cmd.ctx.ref st_val) cs.st_vals) cs,
      ) in
      let settled = conclude-Settled w applied.server cmd t before (
        omega (arith, h, unmarked, terminations-append effects (changes ++ (accepted cmd ∷ [])))) in
      λ e.
        subst (λ effects. Settled (conclude w applied.server cmd (some t)).0 effects)
          (append_assoc effects (changes ++ (accepted cmd ∷ [])) _
            ∙ ap (λ (more : List Effect). effects ++ more)
                (append_assoc changes (accepted cmd ∷ []) _))
          settled

  after_handler-Ended :
      (cause : AddCause) (term : Option Termination) (t : Termination) (effects : List Effect)
      → cmd.ctx.select ≡ false
      → term ≡ some t
      → terminations effects ≡ sent_of t
      → Ended (after_handler w now cmd cause term effects cs)
  unfolding after_handler refuse
  after_handler-Ended cause term t effects operates e h =
      if-cases Ended (not (cause == add_cause_none)) _ _
        (λ f. fails-Ended _ (λ k. omega (arith, k)))
        (λ f.
          if-cases Ended cmd.ctx.select _ _ (λ g. absurd (cc (operates, g)))
            (λ g. rw e (operate_command-Ended t effects h)))

  -- The calls that the handler makes before it returns.
  taken-counted :
      (verdict : Verdict)
      → (t : Termination) × ((taken w cmd verdict (some new_termination)).0 ≡ some t)
        × (terminations (taken w cmd verdict (some new_termination)).1 ≡ sent_of t)
  unfolding terminations Counted
  taken-counted verdict =
      let own : Termination = record new_termination { deferred = verdict.defers } in
      let calls = map finishes verdict.finished in
      let counted = act_all-Counted w.floats cmd calls own in
      if-cases
        (λ (r : Option Termination × List Effect).
          (t : Termination) × (r.0 ≡ some t) × (terminations r.1 ≡ sent_of t))
        verdict.defers _ _ (λ e. ((act_all w.floats cmd calls own).0, refl, omega (arith, counted)))
        (λ e. (own, refl, refl))

  execute-Ended : cmd.ctx.select ≡ false → Ended (execute w now cmd (some new_termination) cs)
  unfolding execute
  execute-Ended operates =
      let (t, e, h) = taken-counted (ask (w.handler cmd.ctx.ref) cmd.ctx) in
      after_handler-Ended _ _ t _ operates e h

  operate_selected-Ended :
      (cause : AddCause)
      → cmd.ctx.select ≡ false
      → Ended (operate_selected w now cmd cause (some new_termination) cs)
  unfolding operate_selected refuse
  operate_selected-Ended cause operates =
      if-cases Ended (not (cause == add_cause_none)) _ _
        (λ e. fails-Ended _ (λ k. omega (arith, k))) (λ e. execute-Ended operates)

  judge-Ended :
      (n cm : ℕ) (misfit : Bool) (cause : AddCause)
      → cmd.ctx.select ≡ false
      → cmd.ctx.conn ≡ some n
      → ctl_model cs.server cmd.ctx.ref ≡ (cm, true)
      → enhanced cm ≡ true
      → Ended (judge w now oper cmd misfit cause cs)
  unfolding judge operate refuse
  judge-Ended n cm true cause operates conn declared strong = fails-Ended _ (λ k. omega (arith, k))
  judge-Ended n cm false cause operates conn declared strong =
      if-cases Ended (not (cause == add_cause_none)) _ _
        (λ e. fails-Ended _ (λ k. omega (arith, k)))
        (λ e.
          subst
            (λ term.
              Ended
                (operate_selected w now cmd (selection_cause now oper cmd.ctx cs.server) term cs))
            (rw (declared, strong, conn) refl) (operate_selected-Ended _ operates))

  reach-Ended :
      (n cm : ℕ) (device whole found : Bool)
      → cmd.ctx.select ≡ false
      → cmd.ctx.conn ≡ some n
      → ctl_model cs.server cmd.ctx.ref ≡ (cm, true)
      → enhanced cm ≡ true
      → Ended (reach w now oper cmd device whole found cs)
  unfolding reach perform
  reach-Ended n cm false whole found o c d s = fails-Ended _ (λ k. omega (arith, k))
  reach-Ended n cm true false found o c d s = fails-Ended _ (λ k. omega (arith, k))
  reach-Ended n cm true true false o c d s = fails-Ended _ (λ k. omega (arith, k))
  reach-Ended n cm true true true o c d s = judge-Ended n cm _ _ o c d s

-- An operate that is accepted of a connection on an object with enhanced security has a termination.
-- Whatever calls and timeouts follow, at most one CommandTermination is sent in all, and exactly one once
-- the handler's function is called. It is sent before the answer unless the handler deferred it.
pub control_write-terminates :
    (w : World) (now n cm : ℕ) (domain item base : List ℕ) (v : Value) (cs : Controls) (o : Outcome)
    (calls : List Call) (cause : AddCause)
    → split_control item ≡ some (base, oper)
    → control_write w now domain item v (some n) cs ≡ some o
    → o.code ≡ 0xff
    → ctl_model cs.server (control_ref domain base) ≡ (cm, true)
    → enhanced cm ≡ true
    → (t : Termination) × (o.term ≡ some t)
      × ((t.deferred ≡ true) ⊎ (terminations o.effects ≡ 1))
      × (terminations
            (o.effects ++ (act_all w.floats (command_of w domain base oper v (some n)) calls t).1)
          ≤ 1)
      × (terminations (
            o.effects
            ++ (act_all w.floats
                (command_of w domain base oper v (some n))
                (calls ++ (finishes cause ∷ []))
                t).1)
          ≡ 1)
unfolding on_control command_of Ended Settled
control_write-terminates w now n cm domain item base v cs o calls cause split h accepts declared
      strong =
    let cmd = command_of w domain base oper v (some n) in
    let ref = control_ref domain base in
    let (same_ref, same_conn) = decode_oper-ref w.truncated ref v (some n) (peer_of w (some n)) in
    let reached =
      reach-Ended w now cmd cs n cm _ _ _ refl same_conn (rw same_ref declared) strong in
    let (t, is, count, ends) =
      subst Ended (control_write-split w now domain item base oper v (some n) cs o split h) reached
        accepts in
    let finished = calls ++ (finishes cause ∷ []) in
    (
      t,
      is,
      elim ends [ inl d ↦ inl d | inr d ↦ inr (count ∙ rw d refl) ],
      omega (
        arith,
        total w.floats cmd calls t o.effects count,
        sent_of-le (act_all w.floats cmd calls t).0,
      ),
      total w.floats cmd finished t o.effects count
          ∙ sent_of-done (act_all w.floats cmd finished t).0
              (act_all-done w.floats cmd calls cause t),
    )
