-- ===== src/Server/Reporting/Sending/Frame.antt =====
-- server/reporting.go: what events leave alone of a block, and the bounds of its buffer.
use go_iec.Base.{
  ℕ, ◌≡◌, refl, sym, ◌∙◌, ap, not, ◌&&◌, Option, none, some, List, [], ◌∷◌, length, length-drop,
  drop, ◌==◌, if◌then◌else◌, if-cases, arith,
}
use go_iec.Mms.{Value}
use go_iec.Server.Reporting.{DsMember, Environment, Part, ReportEntry, Rcb, merge}
use go_iec.Server.Reporting.Sending.{
  transmit, transmit_buffered, commit, emit, emit_some, flush, flush_pending, event, event_some,
  overlap_pending, add_pending, report_all, on_update_block, on_window,
}
use go_iec.Server.Reporting.Sending.Buffer.{Core, IsBuffered, core-transmit, core-transmit_entries}
use go_iec.Server.Reporting.Sending.Delivery.{steady, steady-commit, commit-IsBuffered}

abbrev pub frame : Rcb → Core
frame rs = (steady rs).0

frame-commit : (now : Value) (parts : List Part) (rs : Rcb) → frame (commit now parts rs) ≡ frame rs
frame-commit now parts rs = ap (λ t. t.0) (steady-commit now parts rs)

blank : Core → Core
blank c = record c { buffer = []; next = 0; entry_counter = 0 }

pub frame-transmit_buffered :
    (env : Environment) (rs : Rcb) → frame (transmit_buffered env rs) ≡ frame rs
unfolding transmit_buffered blank
frame-transmit_buffered env rs = ap blank (core-transmit_entries env (drop rs.next rs.buffer) rs)

pub transmit_buffered-IsBuffered :
    (env : Environment) (rs : Rcb) → IsBuffered rs → IsBuffered (transmit_buffered env rs)
unfolding transmit_buffered
transmit_buffered-IsBuffered env rs (h, k) =
    let same = core-transmit_entries env (drop rs.next rs.buffer) rs in
    let next = ap (λ (c : Core). c.next) same in
    let size = ap (λ (c : Core). length c.buffer) same in
    let cap = ap (λ (c : Core). c.max_buffer) same in
    let left = length-drop rs.next rs.buffer in (omega arith, omega arith)

frame-transmit :
    (env : Environment) (e : ReportEntry) (rs : Rcb) → frame (transmit env e rs) ≡ frame rs
unfolding blank
frame-transmit env e rs = ap blank (core-transmit env e rs)

pub frame-emit :
    (env : Environment) (now : Value) (parts : List Part) (rs : Rcb)
    → frame (emit env now parts rs) ≡ frame rs
unfolding emit
frame-emit env now parts rs =
    let F = λ (r : Rcb). frame r ≡ frame rs in
    if-cases F (not rs.buffered) _ _
      (λ _. if-cases F rs.enabled _ _ (λ _. frame-transmit env _ rs) (λ _. refl))
      (λ _.
        if-cases F rs.enabled _ _
          (λ _. frame-transmit_buffered env (commit now parts rs) ∙ frame-commit now parts rs)
          (λ _. frame-commit now parts rs))

transmit-IsBuffered :
    (env : Environment) (e : ReportEntry) (rs : Rcb)
    → IsBuffered rs
    → IsBuffered (transmit env e rs)
transmit-IsBuffered env e rs (h, k) =
    let same = core-transmit env e rs in
    let next = ap (λ (c : Core). c.next) same in
    let size = ap (λ (c : Core). length c.buffer) same in
    let cap = ap (λ (c : Core). c.max_buffer) same in (omega arith, omega arith)

pub emit-IsBuffered :
    (env : Environment) (now : Value) (parts : List Part) (rs : Rcb)
    → IsBuffered rs
    → IsBuffered (emit env now parts rs)
unfolding emit
emit-IsBuffered env now parts rs h =
    let committed = commit-IsBuffered now parts rs h in
    if-cases IsBuffered (not rs.buffered) _ _
      (λ _. if-cases IsBuffered rs.enabled _ _ (λ _. transmit-IsBuffered env _ rs h) (λ _. h))
      (λ _.
        if-cases IsBuffered rs.enabled _ _
          (λ _. transmit_buffered-IsBuffered env (commit now parts rs) committed) (λ _. committed))

-- A step that leaves the frame alone but for the pending members, and the buffer within its bounds.
abbrev pub Steps : Rcb → Option (ℕ × List Part) → Rcb → Type 0
Steps rs pending r =
    (frame r ≡ record (frame rs) { pending = pending }) × (IsBuffered rs → IsBuffered r)

emit_some-Steps :
    (env : Environment) (now : Value) (parts : List Part) (rs : Rcb)
    → Steps rs rs.pending (emit_some env now parts rs)
emit_some-Steps env now [] rs = (refl, λ h. h)
emit_some-Steps env now (p ∷ parts) rs =
    (frame-emit env now (p ∷ parts) rs, emit-IsBuffered env now (p ∷ parts) rs)

flush-Steps :
    (env : Environment) (now : Value) (o : Option (ℕ × List Part)) (rs : Rcb)
    → rs.pending ≡ o
    → Steps rs none (flush env now o rs)
flush-Steps env now none rs h =
    (ap (λ (o : Option (ℕ × List Part)). record (frame rs) { pending = o }) h, λ k. k)
flush-Steps env now (some (window, parts)) rs h =
    emit_some-Steps env now parts (record rs { pending = none })

pub flush_pending-Steps :
    (env : Environment) (now : Value) (rs : Rcb) → Steps rs none (flush_pending env now rs)
unfolding flush_pending
flush_pending-Steps env now rs = flush-Steps env now rs.pending rs refl

pub report_all-Steps :
    (env : Environment) (now : Value) (reason : ℕ) (rs : Rcb)
    → Steps rs none (report_all env now reason rs)
unfolding report_all
report_all-Steps env now reason rs =
    let (a, b) = flush_pending-Steps env now rs in
    let (c, d) = emit_some-Steps env now _ (flush_pending env now rs) in (c ∙ a, λ h. d (b h))

-- The same, with the members that are pending behind the step.
own-Steps : (rs r : Rcb) (p : Option (ℕ × List Part)) → Steps rs p r → Steps rs r.pending r
own-Steps rs r p (h, k) =
    let same = sym (ap (λ (c : Core). c.pending) h) in
    (h ∙ ap (λ (o : Option (ℕ × List Part)). record (frame rs) { pending = o }) same, k)

add_pending-Steps :
    (es : List Part) (o p : Option (ℕ × List Part)) (rs r : Rcb)
    → Steps rs p r
    → Steps rs (add_pending es o r).pending (add_pending es o r)
add_pending-Steps es none p rs r (h, k) =
    (ap (λ (c : Core). record c { pending = some (r.fresh, merge [] es) }) h, k)
add_pending-Steps es (some (window, parts)) p rs r (h, k) =
    (ap (λ (c : Core). record c { pending = some (window, merge parts es) }) h, k)

event-Steps :
    (env : Environment) (now : Value) (es : List Part) (rs : Rcb)
    → Steps rs (event env now es rs).pending (event env now es rs)
unfolding event
event-Steps env now es rs =
    let S = λ (r : Rcb). Steps rs r.pending r in
    let emitted : Steps rs rs.pending (emit env now es rs) =
      (frame-emit env now es rs, emit-IsBuffered env now es rs) in
    if-cases S _ _ _ (λ _. own-Steps rs (emit env now es rs) rs.pending emitted)
      (λ _.
        if-cases
          (λ (r : Rcb). Steps rs (add_pending es r.pending r).pending (add_pending es r.pending r))
          (overlap_pending rs.pending es) _ _
          (λ _.
            let r = flush_pending env now rs in
            add_pending-Steps es r.pending none rs r (flush_pending-Steps env now rs))
          (λ _. add_pending-Steps es rs.pending rs.pending rs rs (refl, λ h. h)))

pub on_update_block-Steps :
    (env : Environment) (now : Value) (raised : DsMember → ℕ) (rs : Rcb)
    → let r = on_update_block env now raised rs in Steps rs r.pending r
unfolding on_update_block
on_update_block-Steps env now raised rs =
    if-cases (λ (r : Rcb). Steps rs r.pending r) (not rs.buffered && not rs.enabled) _ _
      (λ _. (refl, λ h. h)) (λ _. some_event _)
  where
    some_event : (es : List Part) → let r = event_some env now es rs in Steps rs r.pending r
    some_event [] = (refl, λ h. h)
    some_event (p ∷ ps) = event-Steps env now (p ∷ ps) rs

pub on_window-Steps :
    (env : Environment) (now : Value) (window : ℕ) (rs : Rcb)
    → let r = on_window env now window rs in Steps rs r.pending r
unfolding on_window
on_window-Steps env now window rs = go rs.pending
  where
    go :
        (o : Option (ℕ × List Part))
        → let r : Rcb = elim o [
          | none ↦ rs
          | some (open_window, parts) ↦
              if open_window == window then flush_pending env now rs else rs
        ] in
          Steps rs r.pending r
    go none = (refl, λ h. h)
    go (some (w, parts)) =
        if-cases (λ (r : Rcb). Steps rs r.pending r) (w == window) _ _
          (λ _. own-Steps rs (flush_pending env now rs) none (flush_pending-Steps env now rs))
          (λ _. (refl, λ h. h))
