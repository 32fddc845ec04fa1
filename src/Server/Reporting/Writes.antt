-- ===== src/Server/Reporting/Writes.antt =====
-- server/reporting.go: the writes of a block's attributes, and the end of an association.
pub mod Holder
pub mod Runs
pub mod Keeping
pub mod Resync
pub mod DataSet
mod Tests
use go_iec.Base.{
  ℕ, zero, suc, ◌+◌, ◌*◌, ◌%◌, ◌^◌, Bool, true, false, not, ◌&&◌, ◌||◌, Option, none, some, List,
  [], ◌∷◌, length, ltb, leb, ◌==◌, if◌then◌else◌, equal_bytes,
}
use go_iec.Mms.{Value, absent, unsigned, boolean, octet_string}
use go_iec.Model.Flags.{has, trg_ops_from_value}
use go_iec.Server.SettingGroups.{int64, bool_of, BType, other_type}
use go_iec.Server.SettingGroups.Writes.{value_fits}
use go_iec.Server.Reporting.{
  DsMember, Environment, Conn, Attributes, ReportEntry, Rcb, text, set_attr, is_zero_entry_id,
  buffer_index,
}
use go_iec.Server.Reporting.Pdus.{data_set_of}
use go_iec.Server.Reporting.Sending.{set_sq_num, transmit_buffered, flush_pending, report_all}
use go_iec.Server.Reporting.Holding.{
  is_some, same_conn, allowed, take_block, release, sync_resv, same_timer,
}

-- The attributes by their names; `unknown` is any other one.
pub data RcbAttribute : Type 0 where
  rpt_id rpt_ena resv dat_set conf_rev opt_flds buf_tm sq_num : RcbAttribute
  trg_ops intg_pd gi purge_buf owner entry_id timeof_entry resv_tms unknown : RcbAttribute

abbrev pub success : ℕ
success = 0xff

abbrev pub temporarily_unavailable : ℕ
temporarily_unavailable = 2

abbrev access_denied : ℕ
access_denied = 3

abbrev value_invalid : ℕ
value_invalid = 11

-- An int64 below 0.
abbrev pub negative : ℕ → Bool
negative n = leb (2 ^ 63) n

-- `Bytes`
unfoldable pub bytes_of : Value → List ℕ
bytes_of (Value.bit_string b n) = b
bytes_of (octet_string b) = b
bytes_of (Value.visible_string b) = b
bytes_of (Value.generalized_time b) = b
bytes_of (Value.binary_time b) = b
bytes_of (Value.mms_string b) = b
bytes_of (Value.utc_time b) = b
bytes_of _ = []

abbrev is_nothing : List ℕ → Bool
is_nothing [] = true
is_nothing (x ∷ xs) = false

-- `checkRCBWrite` behind the test of `allowed`.
unfoldable pub check_attribute : Environment → RcbAttribute → Value → Rcb → ℕ
check_attribute env conf_rev v rs = access_denied
check_attribute env sq_num v rs = access_denied
check_attribute env timeof_entry v rs = access_denied
check_attribute env owner v rs = access_denied
check_attribute env rpt_ena v rs =
    if not (bool_of v)
    then success
    else if rs.enabled
    then temporarily_unavailable
    else if not (is_some (env.resolve_data_set (data_set_of env rs)))
    then temporarily_unavailable
    else success
check_attribute env gi v rs =
    if bool_of v && not rs.enabled then temporarily_unavailable else success
check_attribute env resv v rs =
    if not (bool_of v) && rs.resv_cfg
    then access_denied
    else if not (bool_of v) && rs.enabled
    then temporarily_unavailable
    else success
check_attribute env resv_tms v rs =
    if rs.resv_cfg
    then access_denied
    else if negative (int64 env.truncated v)
    then value_invalid
    else if rs.enabled
    then temporarily_unavailable
    else success
check_attribute env dat_set v rs =
    let ref = text env.string_of v in
    if rs.enabled
    then temporarily_unavailable
    else if not (is_nothing ref) && not (is_some (env.resolve_data_set ref))
    then value_invalid
    else success
check_attribute env entry_id v rs =
    let id = bytes_of v in
    if rs.enabled
    then temporarily_unavailable
    else if not (length id == 8)
        || not (is_zero_entry_id id) && not (is_some (buffer_index rs.buffer id))
    then value_invalid
    else success
check_attribute env unknown v rs = success
check_attribute env rpt_id v rs = if rs.enabled then temporarily_unavailable else success
check_attribute env opt_flds v rs = if rs.enabled then temporarily_unavailable else success
check_attribute env buf_tm v rs = if rs.enabled then temporarily_unavailable else success
check_attribute env trg_ops v rs = if rs.enabled then temporarily_unavailable else success
check_attribute env intg_pd v rs = if rs.enabled then temporarily_unavailable else success
check_attribute env purge_buf v rs = if rs.enabled then temporarily_unavailable else success

-- `checkRCBWrite`, for a block that exists.
unfoldable pub check_rcb_write : Environment → RcbAttribute → Value → Conn → Rcb → ℕ
check_rcb_write env attr v conn rs =
    if not (allowed rs conn) then temporarily_unavailable else check_attribute env attr v rs

-- `purgeLocked`
unfoldable pub purge : Rcb → Rcb
purge rs = record rs { buffer = []; next = 0; buf_overflow = false; resync_id = none }

-- `bufferIndex` of the resync point: the entry after it, from the oldest if it has gone.
abbrev pub after_index : Option ℕ → Rcb → Rcb
after_index (some i) rs = record rs { next = i + 1 }
after_index none rs = record rs { next = 0; buf_overflow = true }

abbrev pub resync_at : Option (List ℕ) → Rcb → Rcb
resync_at none rs = rs
resync_at (some id) rs =
    if is_zero_entry_id id
    then record rs { resync_id = none; next = 0 }
    else after_index (buffer_index rs.buffer id) (record rs { resync_id = none })

-- The resync point, where `enableLocked` goes back to it.
unfoldable pub resync : Rcb → Rcb
resync rs = resync_at rs.resync_id rs

-- The integrity period in nanoseconds, an int64.
abbrev period : Environment → Rcb → ℕ
period env rs = int64 env.truncated rs.attributes.intg_pd * 1000000 % 2 ^ 64

unfoldable pub start_integrity : Environment → Rcb → Rcb
start_integrity env rs =
    let pd = period env rs in
    if (ltb 0 pd && not (negative pd)) && has (trg_ops_from_value rs.attributes.trg_ops_attr) 4
    then record rs { intg_stop = some rs.fresh; fresh = rs.fresh + 1 }
    else rs

-- `enableLocked` up to the transmission.
unfoldable pub open_block : Conn → Rcb → Rcb
open_block conn rs =
    let on = record rs { enabled = true; conn = some conn } in
    let taken = if same_conn rs.owner conn then on else take_block conn on in
    record (set_sq_num 0 taken) { intg_stop = none }

-- `enableLocked`
unfoldable pub enable : Environment → Conn → Rcb → Rcb
enable env conn rs =
    let ready = open_block conn rs in
    let resumed = if rs.buffered then transmit_buffered env (resync ready) else ready in
    start_integrity env resumed

-- `disableLocked`
unfoldable pub disable : Environment → Value → Rcb → Rcb
disable env now rs =
    let flushed = flush_pending env now rs in
    let off = record flushed { enabled = false; conn = none; intg_stop = none } in
    if rs.buffered then release env off else off

-- The uint32 that ConfRev counts on.
abbrev next_conf_rev : Environment → Value → Value
next_conf_rev env absent = absent
next_conf_rev env v = unsigned ((int64 env.truncated v % 2 ^ 32 + 1) % 2 ^ 32)

-- The effect of a write of one of the other attributes than Resv.
unfoldable pub on_attribute : Environment → Value → RcbAttribute → Value → Conn → Rcb → Rcb
on_attribute env now resv_tms v conn rs =
    if int64 env.truncated v == 0 then record rs { resv_timer = none } else rs
on_attribute env now rpt_ena v conn rs =
    if bool_of v then enable env conn rs else disable env now rs
on_attribute env now gi v conn rs =
    let asked = bool_of v && has (trg_ops_from_value rs.attributes.trg_ops_attr) 5 in
    let done = if asked then report_all env now (2 ^ 5) rs else rs in
    record done {
      attributes = record done.attributes { gi = set_attr done.attributes.gi (boolean false) };
    }
on_attribute env now purge_buf v conn rs =
    let done = if bool_of v then purge rs else rs in
    record done {
      attributes = record done.attributes {
        purge_buf = set_attr done.attributes.purge_buf (boolean false);
      };
    }
on_attribute env now entry_id v conn rs = record rs { resync_id = some (bytes_of v) }
on_attribute env now dat_set v conn rs = purge (record rs {
  attributes = record rs.attributes { conf_rev = next_conf_rev env rs.attributes.conf_rev };
})
on_attribute env now _ v conn rs = rs

-- `onRCBWrite`
unfoldable pub on_rcb_write : Environment → Value → RcbAttribute → Value → Conn → Rcb → Rcb
on_rcb_write env now resv v conn rs = if bool_of v then take_block conn rs else release env rs
on_rcb_write env now attr v conn rs =
    on_attribute env now attr v conn (if is_some rs.owner then rs else take_block conn rs)

-- One block in the loop of `disableConn`.
unfoldable pub leave : Environment → Value → Conn → Rcb → Rcb
leave env now conn rs =
    let off = if same_conn rs.conn conn then disable env now rs else rs in
    if same_conn off.owner conn then release env off else off

-- A tick of the ticker of `integrityLoop` that `stop` ends.
unfoldable pub on_integrity : Environment → Value → ℕ → Rcb → Rcb
on_integrity env now stop rs =
    if same_timer rs.intg_stop stop then report_all env now (2 ^ 4) rs else rs

-- The value of an attribute, and the block with another one.
abbrev pub shown : RcbAttribute → Attributes → Value
shown rpt_id a = a.rpt_id
shown rpt_ena a = a.rpt_ena
shown resv a = a.resv
shown dat_set a = a.dat_set
shown conf_rev a = a.conf_rev
shown opt_flds a = a.opt_flds
shown buf_tm a = a.buf_tm
shown sq_num a = a.sq_num_attr
shown trg_ops a = a.trg_ops_attr
shown intg_pd a = a.intg_pd
shown gi a = a.gi
shown purge_buf a = a.purge_buf
shown owner a = a.owner_attr
shown entry_id a = a.entry_id
shown timeof_entry a = a.timeof_entry
shown resv_tms a = a.resv_tms
shown unknown a = absent

abbrev pub store : RcbAttribute → Value → Attributes → Attributes
store rpt_id v a = record a { rpt_id = v }
store rpt_ena v a = record a { rpt_ena = v }
store resv v a = record a { resv = v }
store dat_set v a = record a { dat_set = v }
store conf_rev v a = record a { conf_rev = v }
store opt_flds v a = record a { opt_flds = v }
store buf_tm v a = record a { buf_tm = v }
store sq_num v a = record a { sq_num_attr = v }
store trg_ops v a = record a { trg_ops_attr = v }
store intg_pd v a = record a { intg_pd = v }
store gi v a = record a { gi = v }
store purge_buf v a = record a { purge_buf = v }
store owner v a = record a { owner_attr = v }
store entry_id v a = record a { entry_id = v }
store timeof_entry v a = record a { timeof_entry = v }
store resv_tms v a = record a { resv_tms = v }
store unknown v a = a

abbrev pub is_missing : Value → Bool
is_missing absent = true
is_missing _ = false

-- The write handler of the application may refuse with a code.
abbrev pub write_stored : Option ℕ → Rcb → Rcb → ℕ × Rcb
write_stored (some code) before after = (code, before)
write_stored none before after = (success, after)

-- A write of server/handler.go: `checkRCBWrite`, the store by `writeOne`, and `onRCBWrite`. A block
-- without the attribute gives object-access-unsupported, 9, and a value of another type 7.
unfoldable pub write_rcb :
    Environment → Value → Option ℕ → RcbAttribute → Value → Conn → Rcb → ℕ × Rcb
write_rcb env now refusal attr v conn rs =
    let code = check_rcb_write env attr v conn rs in
    let kept = shown attr rs.attributes in
    if not (code == success)
    then (code, rs)
    else if is_missing kept
    then (9, rs)
    else if not (value_fits 0 other_type kept v)
    then (7, rs)
    else write_stored refusal rs
        (on_rcb_write env now attr v conn (record rs { attributes = store attr v rs.attributes }))
