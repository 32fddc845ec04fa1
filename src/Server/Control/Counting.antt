-- ===== src/Server/Control/Counting.antt =====
-- server/control.go: how often a CommandTermination is sent.
use go_iec.Base.{
  ℕ, suc, ◌+◌, ◌≤◌, ◌≡◌, refl, true, Option, none, some, List, [], ◌∷◌, ◌++◌, if◌then◌else◌,
  Bool-cases, inl, inr, arith,
}
use go_iec.Asn1.Primitives.Floats.{Floats}
use go_iec.Server.Select.{AddCause}
use go_iec.Server.Control.Termination.{
  Command, Effect, sent_first, sent, tracked, tracked_async, changed, Termination, finish, Call,
  finishes, times_out, time_out, act, act_all,
}

-- How many CommandTerminations there are among the effects.
unfoldable pub terminations : List Effect → ℕ
terminations [] = 0
terminations (sent e ∷ effects) = suc (terminations effects)
terminations (sent_first e ∷ effects) = terminations effects
terminations (tracked s e c ∷ effects) = terminations effects
terminations (tracked_async s e c ∷ effects) = terminations effects
terminations (changed r v w ∷ effects) = terminations effects

pub terminations-append :
    (xs ys : List Effect) → terminations (xs ++ ys) ≡ terminations xs + terminations ys
unfolding terminations
terminations-append [] ys = omega arith
terminations-append (sent e ∷ xs) ys = omega (arith, terminations-append xs ys)
terminations-append (sent_first e ∷ xs) ys = terminations-append xs ys
terminations-append (tracked s e c ∷ xs) ys = terminations-append xs ys
terminations-append (tracked_async s e c ∷ xs) ys = terminations-append xs ys
terminations-append (changed r v w ∷ xs) ys = terminations-append xs ys

abbrev pub sent_of : Termination → ℕ
sent_of t = if t.done then 1 else 0

pub sent_of-le : (t : Termination) → sent_of t ≤ 1
sent_of-le t = ground arith

pub sent_of-done : (t : Termination) → t.done ≡ true → sent_of t ≡ 1
sent_of-done t e = rw e refl

-- What is sent is what `once` counts.
unfoldable pub Counted : Termination → Termination × List Effect → Type 0
Counted t r = terminations r.1 + sent_of t ≡ sent_of r.0

pub finish-Counted :
    (floats : Floats) (cmd : Command) (cause : AddCause) (t : Termination)
    → Counted t (finish floats cmd cause t)
unfolding finish Counted terminations
finish-Counted floats cmd cause t = elim (Bool-cases t.done) [
  | inl e ↦ rw e (omega arith)
  | inr e ↦ elim (Bool-cases t.deferred) [
    | inl f ↦ rw (e, f) (omega arith)
    | inr f ↦ rw (e, f) (omega arith)
  ]
]

time_out-Counted :
    (floats : Floats) (cmd : Command) (t : Termination) (timer : Option ℕ)
    → Counted t (time_out floats cmd t timer)
unfolding Counted terminations
time_out-Counted floats cmd t none = omega arith
time_out-Counted floats cmd t (some d) = finish-Counted floats cmd 16 (record t { timer = none })

act-Counted :
    (floats : Floats) (cmd : Command) (call : Call) (t : Termination)
    → Counted t (act floats cmd call t)
unfolding act
act-Counted floats cmd (finishes cause) t = finish-Counted floats cmd cause t
act-Counted floats cmd times_out t = time_out-Counted floats cmd t t.timer

pub act_all-Counted :
    (floats : Floats) (cmd : Command) (calls : List Call) (t : Termination)
    → Counted t (act_all floats cmd calls t)
unfolding act_all Counted terminations
act_all-Counted floats cmd [] t = omega arith
act_all-Counted floats cmd (call ∷ calls) t =
    let (t', effects) = act floats cmd call t in
    omega (
      arith,
      act-Counted floats cmd call t,
      act_all-Counted floats cmd calls t',
      terminations-append effects (act_all floats cmd calls t').1,
    )

-- With what had been sent before.
pub total :
    (floats : Floats) (cmd : Command) (calls : List Call) (t : Termination) (before : List Effect)
    → terminations before ≡ sent_of t
    → terminations (before ++ (act_all floats cmd calls t).1)
      ≡ sent_of (act_all floats cmd calls t).0
unfolding Counted
total floats cmd calls t before h = omega (
  arith,
  h,
  act_all-Counted floats cmd calls t,
  terminations-append before (act_all floats cmd calls t).1,
)

pub finish-done :
    (floats : Floats) (cmd : Command) (cause : AddCause) (t : Termination)
    → (finish floats cmd cause t).0.done ≡ true
unfolding finish
finish-done floats cmd cause t = elim (Bool-cases t.done) [ inl e ↦ rw e refl | inr e ↦ rw e refl ]

-- A finish ends it, whatever came before.
pub act_all-done :
    (floats : Floats) (cmd : Command) (calls : List Call) (cause : AddCause) (t : Termination)
    → (act_all floats cmd (calls ++ (finishes cause ∷ [])) t).0.done ≡ true
unfolding act_all act
act_all-done floats cmd [] cause t = finish-done floats cmd cause t
act_all-done floats cmd (call ∷ calls) cause t = act_all-done floats cmd calls cause _
