-- ===== src/Server/Reporting/Blocks.antt =====
-- server/rcb.go: the blocks that the data model's report controls become.
use go_iec.Base.{
  ℕ, ◌-◌, ◌^◌, refl, Bool, true, false, Option, none, some, List, [], ◌∷◌, ◌++◌, ltb, ◌==◌,
  if◌then◌else◌, replicate, bit_or, ℤ, pos, negsuc, arith,
}
use go_iec.Mms.{
  Value, absent, visible_string, boolean, unsigned, integer, octet_string, binary_time,
}
use go_iec.Model.Flags.{opt_flds_value, trg_ops_value}
use go_iec.Server.Reporting.{Environment, Attributes, Rcb, set_attr}
use go_iec.Server.Reporting.Holding.{sync_resv}
use go_iec.Server.Reporting.Writes.Holder.{IsHeld}
use go_iec.Server.Reporting.Writes.Runs.{Occurrence, act_all, act_all-IsHeld}

-- A report control of the data model. Numbers are uint32s but for the queue's, an int.
pub record ReportControl : Type 0 where
  pub rpt_id : List ℕ
  pub data_set : List ℕ
  pub is_buffered : Bool
  pub conf_rev : ℕ
  pub opt_flds : ℕ
  pub trg_ops : ℕ
  pub buf_time : ℕ
  pub intg_pd : ℕ
  pub max_queue_size : ℤ

-- `bufferDepth`
abbrev default_depth : ℤ → ℕ
default_depth (pos n) = if ltb 0 n then n else 256
default_depth (negsuc n) = 256

unfoldable pub buffer_depth : ℤ → ℤ → ℕ
buffer_depth (pos n) server_default = if ltb 0 n then n else default_depth server_default
buffer_depth (negsuc n) server_default = default_depth server_default

-- The reference of the data set, "LD/LN$DataSet", or nothing.
abbrev data_set_ref : List ℕ → List ℕ → List ℕ → List ℕ
data_set_ref ld ln [] = []
data_set_ref ld ln (x ∷ xs) = ld ++ (47 ∷ (ln ++ (36 ∷ x ∷ xs)))

-- The values of `buildRCBObject`. The defaults are OptFldsDefault and dchg, qchg and GI; a buffered
-- block has EntryID, TimeOfEntry and BufOvfl set. The time 1984-01-01 is six octets of 0.
unfoldable pub build_rcb_object : List ℕ → List ℕ → ReportControl → Attributes
build_rcb_object ld ln rc =
    let opt = if rc.opt_flds == 0 then 0x11e else rc.opt_flds in
    let trg = if rc.trg_ops == 0 then 0x26 else rc.trg_ops in
    let when_buffered : Value → Value = λ v. (if rc.is_buffered then v else absent) in
    record {
      rpt_id = visible_string rc.rpt_id;
      rpt_ena = boolean false;
      resv = if rc.is_buffered then absent else boolean false;
      dat_set = visible_string (data_set_ref ld ln rc.data_set);
      conf_rev = unsigned rc.conf_rev;
      opt_flds = opt_flds_value (if rc.is_buffered then bit_or opt 0xc4 else opt);
      buf_tm = unsigned rc.buf_time;
      sq_num_attr = unsigned 0;
      trg_ops_attr = trg_ops_value trg;
      intg_pd = unsigned rc.intg_pd;
      gi = boolean false;
      purge_buf = when_buffered (boolean false);
      owner_attr = when_buffered (octet_string []);
      entry_id = when_buffered (octet_string (replicate 8 0));
      timeof_entry = when_buffered (binary_time (replicate 6 0));
      resv_tms = when_buffered (integer 0);
    }

-- A block that the configuration reserves for an address.
abbrev reserve_for : Option (List ℕ) → Rcb → Rcb
reserve_for none rs = rs
reserve_for (some ip) rs = sync_resv (record rs {
  resv_ip = some ip;
  resv_cfg = true;
  attributes = record rs.attributes {
    resv_tms = set_attr rs.attributes.resv_tms (integer (2 ^ 64 - 1));
  };
})

-- An instance of a block in `materialiseRCBs`, of the node `ln` of `ld`, with the item `item` and an
-- address that it is reserved for.
unfoldable pub new_rcb : List ℕ → List ℕ → List ℕ → Option (List ℕ) → ℤ → ℕ → ReportControl → Rcb
new_rcb ld ln item reserved server_default seed rc = reserve_for reserved (record {
  domain = ld;
  item = item;
  buffered = rc.is_buffered;
  attributes = build_rcb_object ld ln rc;
  max_buffer = buffer_depth rc.max_queue_size server_default;
  enabled = false;
  conn = none;
  owner = none;
  resv_ip = none;
  resv_cfg = false;
  resv_timer = none;
  sq_num = 0;
  intg_stop = none;
  pending = none;
  buffer = [];
  next = 0;
  resync_id = none;
  buf_overflow = false;
  entry_counter = 0;
  seed = seed;
  fresh = 0;
  sends = [];
  sent = [];
})

reserve_for-IsHeld : (ip : Option (List ℕ)) (rs : Rcb) → IsHeld rs → IsHeld (reserve_for ip rs)
unfolding sync_resv
reserve_for-IsHeld none rs h = h
reserve_for-IsHeld (some ip) rs h = h

-- Whatever happens to a new block (writes by clients, updates, departures and timers, with any of its
-- reports failing to be sent), its buffer keeps its bounds: no more entries than the depth, and the
-- next one to send among them or behind them. While it is enabled it has a connection, and that is
-- its holder's; while it is not it has none.
pub act_all-new_rcb :
    (env : Environment) (os : List (Occurrence × Value)) (ld ln item : List ℕ)
    (reserved : Option (List ℕ)) (server_default : ℤ) (seed : ℕ) (rc : ReportControl)
    (sends : List Bool)
    → IsHeld (
        act_all env os
          (record (new_rcb ld ln item reserved server_default seed rc) { sends = sends }))
unfolding new_rcb
act_all-new_rcb env os ld ln item reserved server_default seed rc sends = act_all-IsHeld env os _ (
    go (new_rcb ld ln item reserved server_default seed rc)
      (reserve_for-IsHeld reserved _ (refl, (omega arith, omega arith))))
  where
    go : (rs : Rcb) → IsHeld rs → IsHeld (record rs { sends = sends })
    go rs h = h
