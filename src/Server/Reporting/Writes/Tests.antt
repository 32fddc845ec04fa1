-- ===== src/Server/Reporting/Writes/Tests.antt =====
-- server/reporting.go: the theorems at a buffered block whose buffer holds two reports.
use go_iec.Base.{
  ◌+◌, ◌-◌, ◌||◌, ltb, drop, length, ◌≤◌, ◌≡◌, ◌⊎◌, inl, refl, Bool, true, false, none, some, List,
  [], ◌∷◌, ◌++◌, map, pos, equal_bytes, arith,
}
use go_iec.Mms.BitStrings.{bit, set_bit}
use go_iec.Server.SettingGroups.{int64}
use go_iec.Server.Reporting.Holding.{take_block, sync_resv}
use go_iec.Asn1.Primitives.Floats.{Floats}
use go_iec.Mms.{Value, absent, visible_string, boolean, integer}
use go_iec.Model.Flags.{
  trg_ops_value, opt_flds_value, reason_value, quality_value, trg_ops_from_value,
  opt_flds_from_value, reason_from_value, quality_from_value, flags-round_trip, flags_from_value,
  flags_value, set_flags, collect,
}
use go_iec.Server.Reporting.{
  DsMember, Environment, Conn, Part, Report, Rcb, is_zero_entry_id, buffer_index, entry_id_of,
  make_entry_id,
}
use go_iec.Server.Reporting.Pdus.{Segment, whole, part, pieces, report_pdus, fits_pdu}
use go_iec.Server.Reporting.Pdus.Segments.{members_in, IsNumbered, pieces-all}
use go_iec.Server.Reporting.Sending.{
  send_all, commit, discard, emit, transmit, transmit_entries, transmit_buffered, set_sq_num,
  on_update_block, on_window,
}
use go_iec.Server.Reporting.Sending.Buffer.{unsent}
use go_iec.Server.Reporting.Sending.Delivered.{deliveries, history, AllSent}
use go_iec.Server.Reporting.Sending.Delivery.{IsIdle, emit_all, entries_of, entry_at}
use go_iec.Server.Reporting.Sending.Windows.{IsOrdered, on_update_block-IsOrdered}
use go_iec.Server.Reporting.Writes.{
  RcbAttribute, rpt_ena, temporarily_unavailable, write_rcb, enable, open_block, resync,
  start_integrity, on_attribute,
}
use go_iec.Server.Reporting.Writes.Holder.{IsHeld}
use go_iec.Server.Reporting.Writes.Runs.{
  Occurrence, write, update, departs, act_all, reservation_ends,
}
use go_iec.Server.Reporting.Writes.Keeping.{act_all-Foreign}
use go_iec.Server.Reporting.Writes.Resync.{due, lost_flag, enable-due, enable-emit_all}
use go_iec.Server.Reporting.Writes.DataSet.{on_window-dat_set}
use go_iec.Server.Reporting.Blocks.{
  ReportControl, buffer_depth, build_rcb_object, new_rcb, act_all-new_rcb,
}

abbrev same_bits : Floats
same_bits = record { widen = λ b. b; narrow = λ x. x; narrow-widen = λ b h k. refl }

abbrev position : DsMember
position = record { domain = 76 ∷ []; item = 80 ∷ [] }

abbrev environment : Environment
environment = record {
  floats = same_bits;
  truncated = λ x. 0;
  string_of = λ v. [];
  resolve_data_set = λ ref. some (position ∷ position ∷ []);
  item_value = λ m. integer 7;
}

abbrev control : ReportControl
control = record {
  rpt_id = [];
  data_set = 68 ∷ [];
  is_buffered = true;
  conf_rev = 1;
  opt_flds = 0;
  trg_ops = 0;
  buf_time = 0;
  intg_pd = 0;
  max_queue_size = pos 2;
}

-- The depth of the buffer is 2.
abbrev block : Rcb
block = new_rcb (76 ∷ []) (78 ∷ []) (73 ∷ []) none (pos 0) 5 control

abbrev client : Conn
client = record { identity = 1; conn_ip = some (10 ∷ 0 ∷ 0 ∷ 1 ∷ []); max_pdu = 0 }

abbrev other : Conn
other = record { identity = 2; conn_ip = none; max_pdu = 0 }

abbrev first_part : Part
first_part = record { index = 0; value = integer 1; reason = 2 }

abbrev second_part : Part
second_part = record { index = 1; value = integer 2; reason = 2 }

abbrev events : List (Value × List Part)
events =
    (absent, first_part ∷ [])
    ∷ (absent, second_part ∷ [])
    ∷ (absent, first_part ∷ second_part ∷ [])
    ∷ []

no_failures : AllSent block.sends
unfolding new_rcb
no_failures = tt

-- Of three events the oldest is lost.
abbrev away : Rcb
away = emit_all environment events block

block-IsIdle : IsIdle block × (block.resync_id ≡ none)
unfolding new_rcb buffer_depth
block-IsIdle = ((refl, refl, (omega arith, omega arith)), refl)

-- The block is back at the events that it kept, and knows that it has lost one.
away_state :
    (map (λ e. e.parts) away.buffer ≡ (second_part ∷ []) ∷ (first_part ∷ second_part ∷ []) ∷ [])
    × (away.buf_overflow ≡ true)
    × (away.entry_counter ≡ 3)
unfolding emit_all emit commit discard new_rcb buffer_depth
away_state = (refl, refl, refl)

-- After an enable both are sent, the first with BufOvfl, and nothing is left.
back :
    let r = enable environment client away in
    (map (λ (t : Report). t.overflow) r.sent ≡ false ∷ true ∷ [])
    × (map (λ (t : Report). t.seq) r.sent ≡ 1 ∷ 0 ∷ [])
    × (r.next ≡ 2)
unfolding enable open_block resync start_integrity transmit_buffered transmit_entries transmit
    set_sq_num take_block sync_resv emit_all emit commit discard new_rcb buffer_depth
    build_rcb_object trg_ops_from_value flags_from_value collect bit trg_ops_value flags_value
    set_flags set_bit int64 send_all report_pdus pieces fits_pdu
back = (refl, refl, refl)

enable-emit_all_example :
    let n = length block.buffer + length events - block.max_buffer - block.next in
    history (enable environment client (emit_all environment events block)).sent
    ≡ history block.sent
      ++ deliveries environment client block 0
          (block.buf_overflow || ltb 0 n)
          (drop n (unsent block ++ entries_of block.seed block.entry_counter events))
enable-emit_all_example =
    enable-emit_all environment client events block block-IsIdle.0 block-IsIdle.1 no_failures

-- The client asks for what follows the older of the two entries.
abbrev asking : Rcb
asking = record block {
  buffer = entry_at 5 0 absent (first_part ∷ []) ∷ entry_at 5 1 absent (second_part ∷ []) ∷ [];
  next = 2;
  resync_id = some (entry_at 5 0 absent []).id;
}

asking-due :
    due asking.resync_id asking.next asking.buffer ≡ entry_at 5 1 absent (second_part ∷ []) ∷ []
unfolding entry_id_of make_entry_id buffer_index is_zero_entry_id equal_bytes
asking-due = refl

enable-due_example :
    history (enable environment client asking).sent
    ≡ history asking.sent
      ++ deliveries environment client asking 0
          (lost_flag asking.resync_id asking.buffer asking.buf_overflow)
          (due asking.resync_id asking.next asking.buffer)
enable-due_example = enable-due environment client asking block-IsIdle.0.0 no_failures

act_all-new_rcb_example : IsHeld (
    act_all environment
      ((write none rpt_ena (boolean true) client, absent)
        ∷ (update (λ m. 2), absent)
        ∷ (departs client, absent)
        ∷ [])
      (record (new_rcb (76 ∷ []) (78 ∷ []) (73 ∷ []) none (pos 0) 5 control) {
        sends = false ∷ [];
      }))
act_all-new_rcb_example =
    act_all-new_rcb environment
      ((write none rpt_ena (boolean true) client, absent)
        ∷ (update (λ m. 2), absent)
        ∷ (departs client, absent)
        ∷ [])
      (76 ∷ []) (78 ∷ []) (73 ∷ []) none (pos 0) 5 control (false ∷ [])

abbrev taken : Rcb
taken = record block { owner = some client }

-- Another client writes, and leaves, while the process changes.
abbrev others : List (Occurrence × Value)
others =
    (write none rpt_ena (boolean true) other, absent)
    ∷ (update (λ m. 2), absent)
    ∷ (departs other, absent)
    ∷ (reservation_ends 0, absent)
    ∷ []

unserved : taken.conn ≡ none
unfolding new_rcb
unserved = refl

act_all-Foreign_example :
    let r = act_all environment others taken in
    (r.owner ≡ some client)
    × (r.conn ≡ taken.conn)
    × (r.enabled ≡ taken.enabled)
    × (write_rcb environment absent none rpt_ena (boolean true) other r
        ≡ (temporarily_unavailable, r))
act_all-Foreign_example =
    act_all-Foreign environment client other others taken absent none rpt_ena (boolean true)
      (refl, inl unserved) ((λ e. omega arith), (tt, ((λ e. omega arith), (tt, tt))))
      (λ e. omega arith)

abbrev waiting : Rcb
waiting = record block { pending = some (0, first_part ∷ []) }

on_update_block-IsOrdered_example :
    IsOrdered (on_update_block environment absent (λ m. 2) waiting).pending
on_update_block-IsOrdered_example =
    on_update_block-IsOrdered environment absent (λ m. 2) waiting (omega arith, tt)

depth : 1 ≤ waiting.max_buffer
unfolding new_rcb buffer_depth
depth = omega arith

on_window-dat_set_example :
    (on_window environment absent 0 (
      on_attribute environment absent RcbAttribute.dat_set
        (visible_string [])
        client
        waiting)).buffer
    ≡ entry_at 5 0 absent (first_part ∷ []) ∷ []
unfolding new_rcb
on_window-dat_set_example =
    on_window-dat_set environment absent absent (visible_string []) client 0 first_part [] waiting
      block-IsIdle.0.0 block-IsIdle.0.1 depth refl

-- No more than one member fits.
abbrev narrow : List Part → Segment → Bool
narrow [] segment = true
narrow (p ∷ []) whole = false
narrow (p ∷ []) (part i more) = true
narrow (p ∷ q ∷ ps) segment = false

pieces-all_example :
    (members_in (pieces narrow (first_part ∷ second_part ∷ [])) ≡ first_part ∷ second_part ∷ [])
    × ((narrow (first_part ∷ second_part ∷ []) whole ≡ true)
          × (pieces narrow (first_part ∷ second_part ∷ [])
              ≡ (first_part ∷ second_part ∷ [], whole) ∷ [])
        ⊎ IsNumbered
            (λ i taken. narrow taken (part i true))
            0
            (pieces narrow (first_part ∷ second_part ∷ [])))
pieces-all_example = pieces-all narrow (first_part ∷ second_part ∷ [])

flags-round_trip_example :
    (trg_ops_from_value (trg_ops_value 0x26) ≡ 0x26)
    × (opt_flds_from_value (opt_flds_value 0x11e) ≡ 0x11e)
    × (reason_from_value (reason_value 2) ≡ 2)
    × (quality_from_value (quality_value 0x803) ≡ 0x803)
flags-round_trip_example =
    flags-round_trip 0x26 0x11e 2 0x803 (omega arith) (omega arith) (omega arith) (omega arith)
