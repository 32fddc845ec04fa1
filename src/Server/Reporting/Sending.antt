-- ===== src/Server/Reporting/Sending.antt =====
-- server/reporting.go: what becomes of events: entries, the window of BufTm, the buffer, reports.
pub mod Buffer
pub mod Delivered
pub mod Delivery
pub mod Frame
pub mod Windows
use go_iec.Base.{
  ℕ, zero, suc, ◌+◌, ◌-◌, ◌*◌, ◌%◌, ◌^◌, Bool, true, false, not, ◌&&◌, ◌||◌, Option, none, some,
  List, [], ◌∷◌, ◌++◌, length, drop, ltb, leb, ◌==◌, if◌then◌else◌, bit_and, bit_or, equal_bytes,
}
use go_iec.Asn1.Element.{Element}
use go_iec.Mms.{Value, absent, unsigned, boolean, octet_string}
use go_iec.Model.Flags.{has, trg_ops_from_value}
use go_iec.Server.SettingGroups.{int64}
use go_iec.Server.Reporting.{
  DsMember, Environment, Conn, Part, ReportEntry, Attributes, Report, Rcb, set_attr, entry_id_of,
  merge, overlaps,
}
use go_iec.Server.Reporting.Pdus.{members_of, report_pdus}

-- `setSqNumLocked`; `n` is a uint32.
unfoldable pub set_sq_num : ℕ → Rcb → Rcb
set_sq_num n rs =
    let number = if rs.buffered then n % 2 ^ 16 else n % 2 ^ 8 in
    record rs {
      sq_num = number;
      attributes = record rs.attributes {
        sq_num_attr = set_attr rs.attributes.sq_num_attr (unsigned number);
      };
    }

-- The calls of SendUnconfirmed for some PDUs: how many are sent, whether none fails, and the outcomes
-- that are left.
unfoldable pub send_all : List Element → List Bool → ℕ × Bool × List Bool
send_all [] sends = (0, true, sends)
send_all (pdu ∷ pdus) [] = let (n, ok, rest) = send_all pdus [] in (suc n, ok, rest)
send_all (pdu ∷ pdus) (outcome ∷ sends) =
    let (n, ok, rest) = send_all pdus sends in
    if outcome then (suc n, ok, rest) else (0, false, sends)

abbrev send_report : Environment → Conn → ReportEntry → Rcb → Rcb
send_report env conn e rs =
    let numbered = set_sq_num ((rs.sq_num + 1) % 2 ^ 32) rs in
    let pdus =
      report_pdus env (record numbered { buf_overflow = false }) e rs.sq_num rs.buf_overflow
        conn.max_pdu in
    let (n, ok, rest) = send_all pdus rs.sends in
    record numbered {
      buf_overflow = not ok && rs.buffered;
      sends = rest;
      sent =
          record {
            to = conn;
            entry = e;
            seq = rs.sq_num;
            overflow = rs.buf_overflow;
            pdus = pdus;
            delivered = n;
          }
          ∷ rs.sent;
    }

abbrev pub send_to : Environment → Option Conn → ReportEntry → Rcb → Rcb
send_to env none e rs = rs
send_to env (some conn) e rs = send_report env conn e rs

-- `transmitLocked`
unfoldable pub transmit : Environment → ReportEntry → Rcb → Rcb
transmit env e rs = send_to env rs.conn e rs

-- The loop of `transmitBufferedLocked` over the entries from `next` on.
unfoldable pub transmit_entries : Environment → List ReportEntry → Rcb → Rcb
transmit_entries env [] rs = rs
transmit_entries env (e ∷ entries) rs =
    let after = transmit env e rs in
    transmit_entries env entries (record after { next = after.next + 1 })

unfoldable pub transmit_buffered : Environment → Rcb → Rcb
transmit_buffered env rs = transmit_entries env (drop rs.next rs.buffer) rs

-- The loop of `emitLocked` that discards the oldest entries; each round takes one.
unfoldable pub discard : ℕ → Rcb → Rcb
discard zero rs = rs
discard (suc fuel) rs =
    let shorter =
      if ltb 0 rs.next
      then record rs { buffer = drop 1 rs.buffer; next = rs.next - 1 }
      else record rs { buffer = drop 1 rs.buffer; buf_overflow = true } in
    let rest = discard fuel shorter in if ltb rs.max_buffer (length rs.buffer) then rest else rs

-- The part of `emitLocked` for a buffered block, up to the transmission.
unfoldable pub commit : Value → List Part → Rcb → Rcb
commit now parts rs =
    let counter = (rs.entry_counter + 1) % 2 ^ 64 in
    let e : ReportEntry = record { id = entry_id_of rs.seed counter; time = now; parts = parts } in
    let kept =
      discard (length rs.buffer + 1)
        (record rs { entry_counter = counter; buffer = rs.buffer ++ (e ∷ []) }) in
    record kept {
      attributes = record kept.attributes {
        entry_id = set_attr kept.attributes.entry_id (octet_string e.id);
        timeof_entry = set_attr kept.attributes.timeof_entry now;
      };
    }

-- `emitLocked`; `now` is the time as NewBinaryTime makes it.
unfoldable pub emit : Environment → Value → List Part → Rcb → Rcb
emit env now parts rs =
    let committed = commit now parts rs in
    if not rs.buffered
    then (if rs.enabled
        then transmit env (record { id = []; time = now; parts = parts }) rs
        else rs)
    else if rs.enabled
    then transmit_buffered env committed
    else committed

abbrev pub emit_some : Environment → Value → List Part → Rcb → Rcb
emit_some env now [] rs = rs
emit_some env now (p ∷ parts) rs = emit env now (p ∷ parts) rs

abbrev pub flush : Environment → Value → Option (ℕ × List Part) → Rcb → Rcb
flush env now none rs = rs
flush env now (some (window, parts)) rs = emit_some env now parts (record rs { pending = none })

-- `flushPendingLocked`
unfoldable pub flush_pending : Environment → Value → Rcb → Rcb
flush_pending env now rs = flush env now rs.pending rs

-- The callback of the timer of a window.
unfoldable pub on_window : Environment → Value → ℕ → Rcb → Rcb
on_window env now window rs =
    let flushed = flush_pending env now rs in
    elim rs.pending [
      | none ↦ rs
      | some (open_window, parts) ↦ if open_window == window then flushed else rs
    ]

abbrev pub overlap_pending : Option (ℕ × List Part) → List Part → Bool
overlap_pending none es = false
overlap_pending (some (window, parts)) es = overlaps parts es

abbrev pub add_pending : List Part → Option (ℕ × List Part) → Rcb → Rcb
add_pending es none rs = record rs { pending = some (rs.fresh, merge [] es); fresh = rs.fresh + 1 }
add_pending es (some (window, parts)) rs = record rs { pending = some (window, merge parts es) }

-- BufTm in nanoseconds is an int64; it is positive for every UINT32 but 0.
abbrev buf_tm_of : Environment → Rcb → ℕ
buf_tm_of env rs = int64 env.truncated rs.attributes.buf_tm * 1000000 % 2 ^ 64

-- `eventLocked`
unfoldable pub event : Environment → Value → List Part → Rcb → Rcb
event env now es rs =
    let at_once = emit env now es rs in
    let ready = if overlap_pending rs.pending es then flush_pending env now rs else rs in
    if buf_tm_of env rs == 0 || leb (2 ^ 63) (buf_tm_of env rs)
    then at_once
    else add_pending es ready.pending ready

-- The member of the index i, if it has a value.
abbrev pub with_value : ℕ → ℕ → Value → List Part → List Part
with_value i reason absent parts = parts
with_value i reason v parts = record { index = i; value = v; reason = reason } ∷ parts

-- The members with a value that `wanted` gives a reason, from the index i on.
unfoldable pub collect_parts : Environment → (DsMember → ℕ) → ℕ → List DsMember → List Part
collect_parts env wanted i [] = []
collect_parts env wanted i (m ∷ members) =
    let rest = collect_parts env wanted (i + 1) members in
    if wanted m == 0 then rest else with_value i (wanted m) (env.item_value m) rest

-- `reportAllLocked`; a reason is not 0.
unfoldable pub report_all : Environment → Value → ℕ → Rcb → Rcb
report_all env now reason rs =
    let flushed = flush_pending env now rs in
    emit_some env now (collect_parts env (λ m. reason) 0 (members_of env flushed)) flushed

abbrev pub event_some : Environment → Value → List Part → Rcb → Rcb
event_some env now [] rs = rs
event_some env now (p ∷ parts) rs = event env now (p ∷ parts) rs

-- One block in the loop of `onUpdate`; `raised` is `memberReason` of the changes. The triggers are
-- the bits 1, 2 and 3.
unfoldable pub on_update_block : Environment → Value → (DsMember → ℕ) → Rcb → Rcb
on_update_block env now raised rs =
    let want = bit_and (trg_ops_from_value rs.attributes.trg_ops_attr) 0xe in
    let parts = collect_parts env (λ m. bit_and (raised m) want) 0 (members_of env rs) in
    let reported = event_some env now parts rs in
    if not rs.buffered && not rs.enabled then rs else reported

-- `onUpdate` for an update that changes something; the counter goes from block to block.
unfoldable on_update : Environment → Value → (DsMember → ℕ) → ℕ → List Rcb → ℕ × List Rcb
on_update env now raised counter [] = (counter, [])
on_update env now raised counter (rs ∷ reg) =
    let after = on_update_block env now raised (record rs { entry_counter = counter }) in
    let (last, rest) = on_update env now raised after.entry_counter reg in (last, after ∷ rest)
