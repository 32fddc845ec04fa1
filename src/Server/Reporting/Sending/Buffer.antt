-- ===== src/Server/Reporting/Sending/Buffer.antt =====
-- server/reporting.go: what transmissions leave alone, and what the buffer discards.
use go_iec.Base.{
  ℕ, zero, suc, ◌+◌, ◌-◌, ◌≤◌, ◌<◌, ◌≡◌, refl, sym, ◌∙◌, ap, Bool, true, ◌||◌, Option, none, some,
  List, [], ◌∷◌, length, length-drop, drop, drop-drop, ltb, if◌then◌else◌, if-cases, arith,
}
use go_iec.Server.Reporting.{Environment, Conn, Part, ReportEntry, Rcb}
use go_iec.Server.Reporting.Sending.{transmit, send_to, set_sq_num, transmit_entries, discard}
use mathlib.Core.Path.{subst}

-- The fields of a block that sending a report leaves alone.
pub record Core : Type 0 where
  pub buffered : Bool
  pub max_buffer : ℕ
  pub enabled : Bool
  pub conn : Option Conn
  pub owner : Option Conn
  pub resv_ip : Option (List ℕ)
  pub resv_cfg : Bool
  pub resv_timer : Option ℕ
  pub intg_stop : Option ℕ
  pub pending : Option (ℕ × List Part)
  pub buffer : List ReportEntry
  pub next : ℕ
  pub resync_id : Option (List ℕ)
  pub entry_counter : ℕ
  pub seed : ℕ

abbrev pub core : Rcb → Core
core rs = record {
  buffered = rs.buffered;
  max_buffer = rs.max_buffer;
  enabled = rs.enabled;
  conn = rs.conn;
  owner = rs.owner;
  resv_ip = rs.resv_ip;
  resv_cfg = rs.resv_cfg;
  resv_timer = rs.resv_timer;
  intg_stop = rs.intg_stop;
  pending = rs.pending;
  buffer = rs.buffer;
  next = rs.next;
  resync_id = rs.resync_id;
  entry_counter = rs.entry_counter;
  seed = rs.seed;
}

core-send_to :
    (env : Environment) (o : Option Conn) (e : ReportEntry) (rs : Rcb)
    → core (send_to env o e rs) ≡ core rs
unfolding set_sq_num
core-send_to env none e rs = refl
core-send_to env (some conn) e rs = refl

pub core-transmit :
    (env : Environment) (e : ReportEntry) (rs : Rcb) → core (transmit env e rs) ≡ core rs
unfolding transmit
core-transmit env e rs = core-send_to env rs.conn e rs

pub core-transmit_entries :
    (env : Environment) (es : List ReportEntry) (rs : Rcb)
    → core (transmit_entries env es rs) ≡ record (core rs) { next = rs.next + length es }
unfolding transmit_entries
core-transmit_entries env [] rs = ap (λ (n : ℕ). record (core rs) { next = n }) (omega arith)
core-transmit_entries env (e ∷ es) rs =
    let after = transmit env e rs in
    let same = core-transmit env e rs in
    let moved : core (record after { next = after.next + 1 })
        ≡ record (core rs) { next = rs.next + 1 } =
      ap (λ (c : Core). record c { next = c.next + 1 }) same in
    core-transmit_entries env es (record after { next = after.next + 1 })
    ∙ ap (λ (c : Core). record c { next = c.next + length es }) moved
    ∙ ap (λ (n : ℕ). record (core rs) { next = n }) (omega arith)

-- What is still to be sent.
abbrev pub unsent : Rcb → List ReportEntry
unsent rs = drop rs.next rs.buffer

-- The bounds of the buffer.
abbrev pub IsBuffered : Rcb → Type 0
IsBuffered rs = (rs.next ≤ length rs.buffer) × (length rs.buffer ≤ rs.max_buffer)

-- What discarding the k oldest entries comes to.
abbrev Without : ℕ → Rcb → Rcb → Type 0
Without k rs after =
    (after.buffer ≡ drop k rs.buffer)
    × (after.next ≡ rs.next - k)
    × (after.max_buffer ≡ rs.max_buffer)
    × (after.buf_overflow ≡ (rs.buf_overflow || ltb rs.next k))

-- One round of `discard`.
abbrev shorten : Rcb → Rcb
shorten rs =
    if ltb 0 rs.next
    then record rs { buffer = drop 1 rs.buffer; next = rs.next - 1 }
    else record rs { buffer = drop 1 rs.buffer; buf_overflow = true }

shorten-Without : (rs : Rcb) → Without 1 rs (shorten rs)
shorten-Without rs =
    if-cases (Without 1 rs) (ltb 0 rs.next) _ _ (λ b. (refl, refl, refl, ground (arith, b)))
      (λ b. (refl, ground (arith, b), refl, ground (arith, b)))

Without-trans : (k : ℕ) (a b c : Rcb) → Without 1 a b → Without k b c → Without (1 + k) a c
Without-trans k a b c (buffer, next, most, overflow) (buffer', next', most', overflow') = (
  buffer' ∙ ap (λ (t : List ReportEntry). drop k t) buffer ∙ drop-drop 1 k a.buffer,
  omega arith,
  most' ∙ most,
  ground (arith, overflow, overflow', next),
)

none-Without : (k : ℕ) (rs : Rcb) → k ≡ 0 → Without k rs rs
none-Without k rs h = rw h (refl, omega arith, refl, ground arith)

-- Given as many rounds as there are entries, `discard` takes away exactly the oldest that are too many.
pub discard-Without :
    (fuel : ℕ) (rs : Rcb)
    → length rs.buffer ≤ fuel
    → Without (length rs.buffer - rs.max_buffer) rs (discard fuel rs)
unfolding discard
discard-Without zero rs h = none-Without _ rs (omega arith)
discard-Without (suc fuel) rs h =
    let k = length rs.buffer - rs.max_buffer in
    if-cases (Without k rs) (ltb rs.max_buffer (length rs.buffer)) _ _
      (λ b.
        let first = shorten-Without rs in
        let (buffer, _, most, _) = first in
        let shorter : length (shorten rs).buffer ≡ length rs.buffer - 1 =
          ap length buffer ∙ length-drop 1 rs.buffer in
        let over : rs.max_buffer < length rs.buffer = ground (arith, b) in
        let count : 1 + (length (shorten rs).buffer - (shorten rs).max_buffer) ≡ k =
          omega (arith, shorter, most, over) in
        let rest = discard-Without fuel (shorten rs) (omega (arith, shorter, h, over)) in
        subst (λ n. Without n rs (discard fuel (shorten rs))) count
          (Without-trans _ rs (shorten rs) (discard fuel (shorten rs)) first rest))
      (λ b. none-Without k rs (ground (arith, b)))

-- What is still to be sent, of an entry at the end of the buffer or before it.
pub unsent-Without :
    (k : ℕ) (rs after : Rcb) → Without k rs after → unsent after ≡ drop (k - rs.next) (unsent rs)
unsent-Without k rs after (buffer, next, _, _) =
    let same : k + (rs.next - k) ≡ rs.next + (k - rs.next) = omega arith in
    rw (buffer, next, drop-drop k (rs.next - k) rs.buffer, same)
      (sym (drop-drop rs.next (k - rs.next) rs.buffer))

-- As many rounds as there are entries are enough.
pub discard-IsBuffered :
    (fuel : ℕ) (rs : Rcb)
    → rs.next ≤ length rs.buffer
    → length rs.buffer ≤ fuel
    → IsBuffered (discard fuel rs) × ((discard fuel rs).max_buffer ≡ rs.max_buffer)
discard-IsBuffered fuel rs h k =
    let (buffer, next, most, _) = discard-Without fuel rs k in
    let size = ap length buffer ∙ length-drop (length rs.buffer - rs.max_buffer) rs.buffer in
    ((omega (arith, h, next, size, most), omega (arith, size, most)), most)
