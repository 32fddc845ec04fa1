-- ===== src/Server/Reporting/Writes/Resync.antt =====
-- server/reporting.go: what a client gets when it enables a buffered block.
use go_iec.Base.{
  ℕ, ◌+◌, ◌-◌, ◌≡◌, refl, sym, ◌||◌, ltb, length, ◌∙◌, ap, inl, inr, Bool, true, false, Bool-cases,
  Option, none, some, List, ◌++◌, drop, if◌then◌else◌, if-cases,
}
use go_iec.Mms.{Value}
use go_iec.Server.Reporting.{
  Environment, Conn, Part, ReportEntry, Report, Rcb, is_zero_entry_id, buffer_index,
}
use go_iec.Server.Reporting.Sending.{set_sq_num, transmit_buffered, transmit_entries}
use go_iec.Server.Reporting.Sending.Buffer.{unsent}
use go_iec.Server.Reporting.Sending.Delivered.{
  Printed, printed, deliveries, deliveries-printed, history, AllSent, transmit_entries-deliveries,
}
use go_iec.Server.Reporting.Sending.Delivery.{
  emit_all, entries_of, IsIdle, Steady, missing, emit_all-unsent,
}
use mathlib.Core.Path.{subst}
use go_iec.Server.Reporting.Holding.{take_block, sync_resv, same_conn}
use go_iec.Server.Reporting.Writes.{
  open_block, resync, resync_at, after_index, enable, start_integrity,
}

-- What opening a block for a connection leaves alone, and the connection.
abbrev Position : Type 0
Position =
    Option Conn × List ReportEntry × ℕ × Option (List ℕ) × Bool × List Report × List Bool × Printed

abbrev position : Rcb → Option Conn → Position
position rs conn =
    (conn, rs.buffer, rs.next, rs.resync_id, rs.buf_overflow, rs.sent, rs.sends, printed rs)

position-open_block :
    (conn : Conn) (rs : Rcb)
    → position (open_block conn rs) (open_block conn rs).conn ≡ position rs (some conn)
unfolding open_block set_sq_num take_block sync_resv
position-open_block conn rs =
    let P = λ (r : Rcb).
      position (record (set_sq_num 0 r) { intg_stop = none }) r.conn ≡ position rs (some conn) in
    if-cases P (same_conn rs.owner conn) _ _ (λ _. refl) (λ _. refl)

sq_num-open_block : (conn : Conn) (rs : Rcb) → rs.buffered ≡ true → (open_block conn rs).sq_num ≡ 0
unfolding open_block set_sq_num take_block sync_resv
sq_num-open_block conn rs b =
    let P = λ (r : Rcb). (record (set_sq_num 0 r) { intg_stop = none }).sq_num ≡ 0 in
    if-cases P (same_conn rs.owner conn) _ _ (λ _. rw b refl) (λ _. rw b refl)

-- The entries that are due when the block is enabled: those not yet sent, or those that a resync
-- point asks for.
abbrev pub behind : Option ℕ → List ReportEntry → List ReportEntry
behind none buffer = buffer
behind (some i) buffer = drop (i + 1) buffer

abbrev pub due : Option (List ℕ) → ℕ → List ReportEntry → List ReportEntry
due none next buffer = drop next buffer
due (some id) next buffer =
    if is_zero_entry_id id then buffer else behind (buffer_index buffer id) buffer

-- Whether the block has lost entries, or the resync point.
abbrev has_lost : Option ℕ → Bool → Bool
has_lost none overflow = true
has_lost (some i) overflow = overflow

abbrev pub lost_flag : Option (List ℕ) → List ReportEntry → Bool → Bool
lost_flag none buffer overflow = overflow
lost_flag (some id) buffer overflow =
    if is_zero_entry_id id then overflow else has_lost (buffer_index buffer id) overflow

-- What `resync` comes to.
abbrev Resumes : Rcb → List ReportEntry → Bool → Rcb → Type 0
Resumes rs entries overflow r =
    (unsent r ≡ entries)
    × (r.buf_overflow ≡ overflow)
    × (r.sent ≡ rs.sent)
    × (r.conn ≡ rs.conn)
    × (r.sends ≡ rs.sends)
    × (r.sq_num ≡ rs.sq_num)
    × (printed r ≡ printed rs)

after_index-Resumes :
    (o : Option ℕ) (rs : Rcb)
    → Resumes rs (behind o rs.buffer) (has_lost o rs.buf_overflow) (after_index o rs)
after_index-Resumes none rs = (refl, refl, refl, refl, refl, refl, refl)
after_index-Resumes (some i) rs = (refl, refl, refl, refl, refl, refl, refl)

resync_at-Resumes :
    (o : Option (List ℕ)) (rs : Rcb)
    → Resumes rs (due o rs.next rs.buffer) (lost_flag o rs.buffer rs.buf_overflow) (resync_at o rs)
resync_at-Resumes none rs = (refl, refl, refl, refl, refl, refl, refl)
resync_at-Resumes (some id) rs = elim (Bool-cases (is_zero_entry_id id)) [
  | inl b ↦ rw b (refl, refl, refl, refl, refl, refl, refl)
  | inr b ↦ rw b (after_index-Resumes (buffer_index rs.buffer id) (record rs { resync_id = none }))
]

start_integrity-sent : (env : Environment) (rs : Rcb) → (start_integrity env rs).sent ≡ rs.sent
unfolding start_integrity
start_integrity-sent env rs =
    if-cases {A = Rcb} (λ r. r.sent ≡ rs.sent) _ _ _ (λ _. refl) (λ _. refl)

if_true : (b : Bool) (x y : Rcb) → b ≡ true → (if b then x else y) ≡ x
if_true true x y h = refl
if_true false x y h = cc

-- The block as it is when the transmission starts.
abbrev ready : Conn → Rcb → Rcb
ready conn rs = resync (open_block conn rs)

ready-Resumes :
    (conn : Conn) (rs : Rcb)
    → rs.buffered ≡ true
    → (unsent (ready conn rs) ≡ due rs.resync_id rs.next rs.buffer)
      × ((ready conn rs).buf_overflow ≡ lost_flag rs.resync_id rs.buffer rs.buf_overflow)
      × ((ready conn rs).sent ≡ rs.sent)
      × ((ready conn rs).conn ≡ some conn)
      × ((ready conn rs).sends ≡ rs.sends)
      × ((ready conn rs).sq_num ≡ 0)
      × (printed (ready conn rs) ≡ printed rs)
unfolding resync
ready-Resumes conn rs buffered =
    let o = open_block conn rs in
    let same = position-open_block conn rs in
    let (a, b, c, d, e, f, g) = resync_at-Resumes o.resync_id o in
    (
      a ∙ ap (λ (p : Position). due p.3 p.2 p.1) same,
      b ∙ ap (λ (p : Position). lost_flag p.3 p.1 p.4) same,
      c ∙ ap (λ (p : Position). p.5) same,
      d ∙ ap (λ (p : Position). p.0) same,
      e ∙ ap (λ (p : Position). p.6) same,
      f ∙ sq_num-open_block conn rs buffered,
      g ∙ ap (λ (p : Position). p.7) same,
    )

module _ (env : Environment) (conn : Conn) where
  enable-sent :
      (rs : Rcb)
      → rs.buffered ≡ true
      → (enable env conn rs).sent
        ≡ (transmit_entries env (unsent (ready conn rs)) (ready conn rs)).sent
  unfolding enable transmit_buffered
  enable-sent rs b =
      start_integrity-sent env _ ∙ ap (λ (r : Rcb). r.sent) (if_true rs.buffered _ _ b)

  -- If no send fails, a client that enables a buffered block is sent the entries that are due, each
  -- once and in order, as reports with all their PDUs, numbered from 0 on: with no resync point the
  -- entries that were not sent yet, with the point 0 the whole buffer, with the EntryID of an entry the
  -- entries behind it, and with one that the buffer no longer holds all of it. The first report, and
  -- no other, has the flag that the block has lost entries or the point.
  pub enable-due :
      (rs : Rcb)
      → rs.buffered ≡ true
      → AllSent rs.sends
      → history (enable env conn rs).sent
        ≡ history rs.sent
          ++ deliveries env conn rs 0
              (lost_flag rs.resync_id rs.buffer rs.buf_overflow)
              (due rs.resync_id rs.next rs.buffer)
  enable-due rs b all =
      let r = ready conn rs in
      let entries = due rs.resync_id rs.next rs.buffer in
      let (a, o, c, d, e, f, g) = ready-Resumes conn rs b in
      let still : r.buffered ≡ true = ap (λ (p : Printed). p.2) g ∙ b in
      ap history (enable-sent rs b)
      ∙ transmit_entries-deliveries env conn (unsent r) r d still (subst AllSent (sym e) all)
      ∙ ap
          (λ (t : List Report).
            history t ++ deliveries env conn r r.sq_num r.buf_overflow (unsent r))
          c
      ∙ ap (λ (l : List Report). history rs.sent ++ l)
          (deliveries-printed env conn r rs r.sq_num r.buf_overflow (unsent r) g
            ∙ ap (λ (n : ℕ). deliveries env conn rs n r.buf_overflow (unsent r)) f
            ∙ ap (λ (flag : Bool). deliveries env conn rs 0 flag (unsent r)) o
            ∙ ap
                (λ (l : List ReportEntry).
                  deliveries env conn rs 0 (lost_flag rs.resync_id rs.buffer rs.buf_overflow) l)
                a)

  -- If no send fails: a client that enables a buffered block that nobody had enabled while events came,
  -- whose buffer keeps its bounds (no more entries than the depth, and the next one to send among them or
  -- behind them) and that holds no resync point, is sent all the entries that waited and those of the
  -- events, each once and in order, as reports with all their PDUs, numbered from 0 on; only the oldest of
  -- them that the buffer has no room for are missing, and the first report, and no other, has the flag
  -- that some are, or that the block had lost entries before.
  pub enable-emit_all :
      (events : List (Value × List Part)) (rs : Rcb)
      → IsIdle rs
      → rs.resync_id ≡ none
      → AllSent rs.sends
      → let n = length rs.buffer + length events - rs.max_buffer - rs.next in
        history (enable env conn (emit_all env events rs)).sent
        ≡ history rs.sent
          ++ deliveries env conn rs 0
              (rs.buf_overflow || ltb 0 n)
              (drop n (unsent rs ++ entries_of rs.seed rs.entry_counter events))
  enable-emit_all events rs idle h all =
      let a = emit_all env events rs in
      let (waits, lost, (buffered, _, _), same) = emit_all-unsent env events rs idle in
      let no_point : a.resync_id ≡ none = ap (λ (t : Steady). t.0.resync_id) same ∙ h in
      let before : history a.sent ≡ history rs.sent = ap (λ (t : Steady). history t.1) same in
      let ok = subst AllSent (sym (ap (λ (t : Steady). t.2) same)) all in
      let print : printed a ≡ printed rs = ap (λ (t : Steady). t.3) same in
      let flag : lost_flag a.resync_id a.buffer a.buf_overflow ≡ a.buf_overflow =
        ap (λ (o : Option (List ℕ)). lost_flag o a.buffer a.buf_overflow) no_point in
      let point : due a.resync_id a.next a.buffer ≡ unsent a =
        ap (λ (o : Option (List ℕ)). due o a.next a.buffer) no_point in
      enable-due a buffered ok
      ∙ ap
          (λ (l : List Report).
            l
            ++ deliveries env conn a 0 (lost_flag a.resync_id a.buffer a.buf_overflow)
                (due a.resync_id a.next a.buffer))
          before
      ∙ ap (λ (l : List Report). history rs.sent ++ l)
          (deliveries-printed env conn a rs 0 _ _ print
            ∙ ap (λ (o : Bool). deliveries env conn rs 0 o (due a.resync_id a.next a.buffer))
                (flag ∙ lost)
            ∙ ap
                (λ (l : List ReportEntry).
                  deliveries env conn rs 0 (rs.buf_overflow || ltb 0 (missing (length events) rs))
                    l)
                (point ∙ waits))
