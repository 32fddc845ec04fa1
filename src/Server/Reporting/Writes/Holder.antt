-- ===== src/Server/Reporting/Writes/Holder.antt =====
-- server/reporting.go: who holds a block that is enabled, over anything that happens to it.
use go_iec.Base.{
  equal_bytes, ℕ, suc, ◌+◌, ◌^◌, ◌≤◌, ◌≡◌, refl, sym, ◌∙◌, ap, Bool, true, false, not, ◌&&◌, Option,
  none, some, List, [], ◌∷◌, length, ◌==◌, if◌then◌else◌, if-cases, arith,
}
use mathlib.Core.Path.{subst}
use go_iec.Mms.{Value}
use go_iec.Server.SettingGroups.{int64, bool_of, other_type}
use go_iec.Server.SettingGroups.Writes.{value_fits}
use go_iec.Server.Reporting.{
  Environment, Conn, Part, Rcb, is_zero_entry_id, buffer_index, ReportEntry,
}
use go_iec.Server.Reporting.Sending.{set_sq_num, transmit_buffered, flush_pending, report_all}
use go_iec.Server.Reporting.Sending.Buffer.{Core, IsBuffered}
use go_iec.Server.Reporting.Sending.Frame.{
  Steps, frame-transmit_buffered, transmit_buffered-IsBuffered, flush_pending-Steps,
  report_all-Steps,
}
use go_iec.Server.Reporting.Holding.{
  is_some, same_conn, allowed, allowed_for, take_block, release, sync_resv, on_resv_timer,
}
use go_iec.Server.Reporting.Writes.{
  RcbAttribute, success, store, check_attribute, check_rcb_write, on_attribute, on_rcb_write,
  write_stored, write_rcb, purge, resync, resync_at, after_index, start_integrity, open_block,
  enable, disable, leave, shown, is_missing,
}

-- The connection of a block that is enabled is its holder's; a block that is not has none.
abbrev Held : Bool → Option Conn → Option Conn → Type 0
Held true conn owner =
    (c : Conn) × (o : Conn) × (conn ≡ some c) × (owner ≡ some o) × (o.identity ≡ c.identity)
Held false conn owner = conn ≡ none

abbrev pub IsHeld : Rcb → Type 0
IsHeld rs = Held rs.enabled rs.conn rs.owner × IsBuffered rs

pub Steps-IsHeld : (rs r : Rcb) (p : Option (ℕ × List Part)) → Steps rs p r → IsHeld rs → IsHeld r
Steps-IsHeld rs r p (h, k) (held, bounds) =
    (subst (λ (c : Core). Held c.enabled c.conn c.owner) (sym h) held, k bounds)

take_block-IsHeld :
    (conn : Conn) (rs : Rcb) → allowed rs conn ≡ true → IsHeld rs → IsHeld (take_block conn rs)
unfolding take_block sync_resv allowed
take_block-IsHeld conn rs a (held, bounds) = (go rs.enabled rs.owner a held, bounds)
  where
    go :
        (b : Bool) (x : Option Conn)
        → allowed_for x rs.resv_ip conn ≡ true
        → Held b rs.conn x
        → Held b rs.conn (some conn)
    go true none a (c, o, e, f, g) = absurd (cc f)
    go true (some x) a (c, o, e, f, g) =
        let same : x ≡ o = cc in
        let holder : x.identity ≡ conn.identity = ground arith in
        (c, conn, e, refl, sym holder ∙ ap (λ (t : Conn). t.identity) same ∙ g)
    go false x a h = h

release-IsHeld :
    (env : Environment) (rs : Rcb) → rs.enabled ≡ false → IsHeld rs → IsHeld (release env rs)
unfolding release sync_resv
release-IsHeld env rs off (held, bounds) =
    if-cases IsHeld rs.resv_cfg _ _ (λ _. (go rs.enabled off held, bounds))
      (λ _. (go rs.enabled off held, bounds))
  where
    go : (b : Bool) → b ≡ false → Held b rs.conn rs.owner → Held b rs.conn none
    go true h k = absurd (cc h)
    go false h k = k

open_block-IsHeld :
    (conn : Conn) (rs : Rcb)
    → IsBuffered rs
    → ((open_block conn rs).enabled ≡ true) × IsHeld (open_block conn rs)
unfolding open_block set_sq_num take_block sync_resv
open_block-IsHeld conn rs bounds =
    let P = λ (t : Rcb).
      let r = record (set_sq_num 0 t) { intg_stop = none } in (r.enabled ≡ true) × IsHeld r in
    if-cases P (same_conn rs.owner conn) _ _
      (λ b. let (o, e, same) = holder rs.owner b in (refl, ((conn, o, refl, e, same), bounds)))
      (λ _. (refl, ((conn, conn, refl, refl, refl), bounds)))
  where
    holder :
        (x : Option Conn)
        → same_conn x conn ≡ true
        → (o : Conn) × (x ≡ some o) × (o.identity ≡ conn.identity)
    holder none h = absurd (cc h)
    holder (some o) h = (o, refl, ground arith)

buffer_index-bound :
    (buffer : List ReportEntry) (id : List ℕ) (i : ℕ)
    → buffer_index buffer id ≡ some i
    → i + 1 ≤ length buffer
unfolding buffer_index
buffer_index-bound [] id i h = absurd (cc h)
buffer_index-bound (e ∷ buffer) id i h =
    go (equal_bytes e.id id) (buffer_index buffer id) (buffer_index-bound buffer id) h
  where
    go :
        (b : Bool) (o : Option ℕ)
        → ((j : ℕ) → o ≡ some j → j + 1 ≤ length buffer)
        → (if b then some 0 else elim o [ some j ↦ some (suc j) | none ↦ none ]) ≡ some i
        → i + 1 ≤ suc (length buffer)
    go true o k h = let first : 0 ≡ i = cc in omega arith
    go false none k h = absurd (cc h)
    go false (some j) k h = let after : suc j ≡ i = cc in let below = k j refl in omega arith

after_index-IsHeld :
    (o : Option ℕ) (rs : Rcb)
    → ((i : ℕ) → o ≡ some i → i + 1 ≤ length rs.buffer)
    → IsHeld rs
    → IsHeld (after_index o rs)
after_index-IsHeld none rs h (held, bounds) = (held, (omega arith, bounds.1))
after_index-IsHeld (some i) rs h (held, bounds) = (held, (h i refl, bounds.1))

resync-IsHeld : (rs : Rcb) → IsHeld rs → IsHeld (resync rs)
unfolding resync
resync-IsHeld rs (held, bounds) = go rs.resync_id
  where
    go : (o : Option (List ℕ)) → IsHeld (resync_at o rs)
    go none = (held, bounds)
    go (some id) =
        if-cases IsHeld (is_zero_entry_id id) _ _ (λ _. (held, (omega arith, bounds.1)))
          (λ _.
            after_index-IsHeld (buffer_index rs.buffer id) (record rs { resync_id = none })
              (buffer_index-bound rs.buffer id) (held, bounds))

start_integrity-IsHeld :
    (env : Environment) (rs : Rcb) → IsHeld rs → IsHeld (start_integrity env rs)
unfolding start_integrity
start_integrity-IsHeld env rs h = if-cases IsHeld _ _ _ (λ _. h) (λ _. h)

resv_disabled :
    (b cfg enabled : Bool)
    → b ≡ false
    → (if not b && cfg then 3 else if not b && enabled then 2 else success) ≡ success
    → enabled ≡ false
resv_disabled b cfg enabled h k = ground arith

admitted :
    (b : Bool) (code : ℕ)
    → not ((if not b then 2 else code) == success) ≡ false
    → (b ≡ true) × (code ≡ success)
admitted b code h = ground arith

write_stored-IsHeld :
    (o : Option ℕ) (before after : Rcb)
    → IsHeld before
    → IsHeld after
    → IsHeld (write_stored o before after).1
write_stored-IsHeld none before after h k = k
write_stored-IsHeld (some code) before after h k = h

module _ (env : Environment) (now : Value) where
  enable-IsHeld : (conn : Conn) (rs : Rcb) → IsBuffered rs → IsHeld (enable env conn rs)
  unfolding enable
  enable-IsHeld conn rs bounds =
      let (on, held) = open_block-IsHeld conn rs bounds in
      let ready = resync (open_block conn rs) in
      let resumed = resync-IsHeld (open_block conn rs) held in
      let sent : IsHeld (transmit_buffered env ready) = (
        subst (λ (c : Core). Held c.enabled c.conn c.owner)
            (sym (frame-transmit_buffered env ready)) resumed.0,
        transmit_buffered-IsBuffered env ready resumed.1,
      ) in
      start_integrity-IsHeld env _ (if-cases IsHeld rs.buffered _ _ (λ _. sent) (λ _. held))

  disable-IsHeld : (rs : Rcb) → IsHeld rs → IsHeld (disable env now rs)
  unfolding disable
  disable-IsHeld rs valid =
      let (_, bounds) =
        Steps-IsHeld rs (flush_pending env now rs) none (flush_pending-Steps env now rs) valid in
      let off = record (flush_pending env now rs) {
        enabled = false;
        conn = none;
        intg_stop = none;
      } in
      let there : IsHeld off = (refl, bounds) in
      if-cases IsHeld rs.buffered _ _ (λ _. release-IsHeld env off refl there) (λ _. there)

  on_attribute-IsHeld :
      (attr : RcbAttribute) (v : Value) (conn : Conn) (rs : Rcb)
      → IsHeld rs
      → IsHeld (on_attribute env now attr v conn rs)
  unfolding on_attribute purge
  on_attribute-IsHeld RcbAttribute.resv_tms v conn rs h =
      if-cases IsHeld (int64 env.truncated v == 0) _ _ (λ _. h) (λ _. h)
  on_attribute-IsHeld RcbAttribute.rpt_ena v conn rs h =
      if-cases IsHeld (bool_of v) _ _ (λ _. enable-IsHeld conn rs h.1) (λ _. disable-IsHeld rs h)
  on_attribute-IsHeld RcbAttribute.gi v conn rs h =
      if-cases IsHeld _ _ _
        (λ _.
          Steps-IsHeld rs (report_all env now (2 ^ 5) rs) none (report_all-Steps env now (2 ^ 5) rs)
            h)
        (λ _. h)
  on_attribute-IsHeld RcbAttribute.purge_buf v conn rs h =
      if-cases IsHeld (bool_of v) _ _ (λ _. (h.0, (omega arith, omega arith))) (λ _. h)
  on_attribute-IsHeld RcbAttribute.entry_id v conn rs h = h
  on_attribute-IsHeld RcbAttribute.dat_set v conn rs h = (h.0, (omega arith, omega arith))
  on_attribute-IsHeld _ v conn rs h = h

  -- A write that the check of an attribute admits. Resv is given up only while the block is disabled.
  on_rcb_write-IsHeld :
      (attr : RcbAttribute) (v : Value) (conn : Conn) (rs : Rcb)
      → allowed rs conn ≡ true
      → check_attribute env attr v rs ≡ success
      → IsHeld rs
      → IsHeld
          (on_rcb_write env now attr v conn (record rs { attributes = store attr v rs.attributes }))
  unfolding on_rcb_write check_attribute allowed
  on_rcb_write-IsHeld RcbAttribute.resv v conn rs a c h =
      if-cases IsHeld (bool_of v) _ _
        (λ _.
          take_block-IsHeld conn
            (record rs { attributes = store RcbAttribute.resv v rs.attributes }) a h)
        (λ b.
          let off = resv_disabled (bool_of v) rs.resv_cfg rs.enabled b c in
          release-IsHeld env (record rs { attributes = store RcbAttribute.resv v rs.attributes })
            off h)
  on_rcb_write-IsHeld attr v conn rs a c h =
      let stored = record rs { attributes = store attr v rs.attributes } in
      on_attribute-IsHeld attr v conn _
        (if-cases IsHeld (is_some rs.owner) _ _ (λ _. h) (λ _. take_block-IsHeld conn stored a h))

  pub write_rcb-IsHeld :
      (refusal : Option ℕ) (attr : RcbAttribute) (v : Value) (conn : Conn) (rs : Rcb)
      → IsHeld rs
      → IsHeld (write_rcb env now refusal attr v conn rs).1
  unfolding write_rcb check_rcb_write
  write_rcb-IsHeld refusal attr v conn rs h =
      let P : ℕ × Rcb → Type 0 = λ r. IsHeld r.1 in
      let value = shown attr rs.attributes in
      let code = if not (allowed rs conn) then 2 else check_attribute env attr v rs in
      if-cases P (not (code == success)) _ _ (λ _. h)
        (λ b.
          if-cases P (is_missing value) _ _ (λ _. h)
            (λ _.
              if-cases P (not (value_fits 0 other_type value v)) _ _ (λ _. h)
                (λ _.
                  let (a, c) = admitted (allowed rs conn) (check_attribute env attr v rs) b in
                  write_stored-IsHeld refusal rs _ h (on_rcb_write-IsHeld attr v conn rs a c h))))

pub on_resv_timer-IsHeld : (t : ℕ) (rs : Rcb) → IsHeld rs → IsHeld (on_resv_timer t rs)
unfolding on_resv_timer sync_resv
on_resv_timer-IsHeld t rs h = if-cases IsHeld _ _ _ (λ _. h) (λ _. h)

release-disabled : (env : Environment) (rs : Rcb) → (release env rs).enabled ≡ rs.enabled
unfolding release sync_resv
release-disabled env rs =
    if-cases {A = Rcb} (λ r. r.enabled ≡ rs.enabled) rs.resv_cfg _ _ (λ _. refl) (λ _. refl)

disable-disabled :
    (env : Environment) (now : Value) (rs : Rcb) → (disable env now rs).enabled ≡ false
unfolding disable
disable-disabled env now rs =
    if-cases {A = Rcb} (λ r. r.enabled ≡ false) rs.buffered _ _ (λ _. release-disabled env _)
      (λ _. refl)

-- A holder that is not the connection of the block holds it disabled.
holds_disabled :
    (conn : Conn) (b : Bool) (x y : Option Conn)
    → Held b x y
    → same_conn x conn ≡ false
    → same_conn y conn ≡ true
    → b ≡ false
holds_disabled conn true x y (c, o, e, f, g) h k =
    let other : (c.identity == conn.identity) ≡ false = rw e at h in
    let same : (o.identity == conn.identity) ≡ true = rw f at k in absurd (ground arith)
holds_disabled conn false x y held h k = refl

pub leave-IsHeld :
    (env : Environment) (now : Value) (conn : Conn) (rs : Rcb)
    → IsHeld rs
    → IsHeld (leave env now conn rs)
unfolding leave
leave-IsHeld env now conn rs h =
    let off = if same_conn rs.conn conn then disable env now rs else rs in
    let Q = λ (r : Rcb). IsHeld r × (same_conn r.owner conn ≡ true → r.enabled ≡ false) in
    let (held, gone) =
      if-cases Q (same_conn rs.conn conn) _ _
        (λ _. (disable-IsHeld env now rs h, λ _. disable-disabled env now rs))
        (λ b. (h, holds_disabled conn rs.enabled rs.conn rs.owner h.0 b)) in
    if-cases IsHeld (same_conn off.owner conn) _ _ (λ b. release-IsHeld env off (gone b) held)
      (λ _. held)
