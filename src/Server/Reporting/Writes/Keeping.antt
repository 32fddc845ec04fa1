-- ===== src/Server/Reporting/Writes/Keeping.antt =====
-- server/reporting.go: a block that a client holds, while other clients come and go.
use go_iec.Base.{
  ℕ, ◌^◌, ◌≡◌, ◌≢◌, ◌⊎◌, ==_ne, refl, ◌∙◌, ap, inl, inr, Bool, true, false, not, ◌&&◌, Option, none,
  some, List, [], ◌∷◌, All, if-cases, if◌then◌else◌,
}
use go_iec.Mms.{Value}
use go_iec.Server.Reporting.{Environment, Conn, Part, Rcb}
use go_iec.Server.Reporting.Sending.{report_all, on_update_block, on_window}
use go_iec.Server.Reporting.Sending.Buffer.{Core}
use go_iec.Server.Reporting.Sending.Frame.{
  Steps, report_all-Steps, on_update_block-Steps, on_window-Steps,
}
use go_iec.Server.Reporting.Holding.{on_resv_timer, same_timer, same_conn, is_some, release}
use go_iec.Server.Reporting.Writes.{
  RcbAttribute, write_rcb, temporarily_unavailable, disable, leave, on_integrity,
}
use go_iec.Server.Reporting.Writes.Runs.{
  Occurrence, write, update, departs, window_ends, reservation_ends, integrity_tick, act, act_all,
  write_rcb-held,
}

-- A block that o holds, and that serves o if it serves anyone.
abbrev HeldBy : Conn → Rcb → Type 0
HeldBy o rs = (rs.owner ≡ some o) × ((rs.conn ≡ none) ⊎ (rs.conn ≡ some o))

-- What does not come from o.
abbrev Foreign : Conn → Occurrence × Value → Type 0
Foreign o (write refusal attr v conn, now) = o.identity ≢ conn.identity
Foreign o (departs conn, now) = o.identity ≢ conn.identity
Foreign o (_, now) = Unit {0}

-- The block has the same holder, serves the same client and is as enabled as before.
abbrev Same : Rcb → Rcb → Type 0
Same rs r = (r.owner ≡ rs.owner) × (r.conn ≡ rs.conn) × (r.enabled ≡ rs.enabled)

Steps-Same : (rs r : Rcb) {p : Option (ℕ × List Part)} → Steps rs p r → Same rs r
Steps-Same rs r (h, _) =
    (ap (λ (c : Core). c.owner) h, ap (λ (c : Core). c.conn) h, ap (λ (c : Core). c.enabled) h)

equal-Same : (rs r : Rcb) → r ≡ rs → Same rs r
equal-Same rs r h =
    (ap (λ (x : Rcb). x.owner) h, ap (λ (x : Rcb). x.conn) h, ap (λ (x : Rcb). x.enabled) h)

stranger : (o c : Conn) → o.identity ≢ c.identity → same_conn (some o) c ≡ false
stranger o c ne = ==_ne o.identity c.identity ne

not_served :
    (o c : Conn) (rs : Rcb) → HeldBy o rs → o.identity ≢ c.identity → same_conn rs.conn c ≡ false
not_served o c rs (_, inl e) ne = rw e refl
not_served o c rs (_, inr e) ne = rw e (stranger o c ne)

if_false : (b : Bool) (x y : Rcb) → b ≡ false → (if b then x else y) ≡ y
if_false true x y h = cc
if_false false x y h = refl

leave-stranger :
    (env : Environment) (now : Value) (c : Conn) (rs : Rcb)
    → same_conn rs.conn c ≡ false
    → same_conn rs.owner c ≡ false
    → leave env now c rs ≡ rs
unfolding leave
leave-stranger env now c rs served owned =
    let stays = if_false (same_conn rs.conn c) (disable env now rs) rs served in
    let off = if same_conn rs.conn c then disable env now rs else rs in
    ap (λ (r : Rcb). if same_conn r.owner c then release env r else r) stays
    ∙ if_false (same_conn rs.owner c) (release env rs) rs owned

owned-idle :
    (b : Bool) (owner : Option Conn) (o : Conn)
    → owner ≡ some o
    → (b && not (is_some owner)) ≡ false
owned-idle true (some c) o h = refl
owned-idle false owner o h = refl
owned-idle true none o h = cc

act-Same :
    (env : Environment) (o : Conn) (x : Occurrence × Value) (rs : Rcb)
    → HeldBy o rs
    → Foreign o x
    → Same rs (act env x rs)
unfolding act on_resv_timer on_integrity
act-Same env o (write refusal attr v conn, now) rs held ne = equal-Same rs _ (
    ap (λ (r : ℕ × Rcb). r.1) (write_rcb-held env now refusal attr v conn rs (inl (o, held.0, ne))))
act-Same env o (update raised, now) rs held f =
    Steps-Same rs (on_update_block env now raised rs) (on_update_block-Steps env now raised rs)
act-Same env o (departs conn, now) rs held ne =
    let served = not_served o conn rs held ne in
    let owned : same_conn rs.owner conn ≡ false = rw held.0 (stranger o conn ne) in
    equal-Same rs _ (leave-stranger env now conn rs served owned)
act-Same env o (window_ends window, now) rs held f =
    Steps-Same rs (on_window env now window rs) (on_window-Steps env now window rs)
act-Same env o (reservation_ends t, now) rs held f =
    equal-Same rs _ (if_false _ _ rs (owned-idle (same_timer rs.resv_timer t) rs.owner o held.0))
act-Same env o (integrity_tick stop, now) rs held f =
    if-cases (Same rs) (same_timer rs.intg_stop stop) _ _
      (λ _. Steps-Same rs (report_all env now (2 ^ 4) rs) (report_all-Steps env now (2 ^ 4) rs))
      (λ _. (refl, refl, refl))

act_all-Same :
    (env : Environment) (o : Conn) (os : List (Occurrence × Value)) (rs : Rcb)
    → HeldBy o rs
    → All (Foreign o) os
    → Same rs (act_all env os rs)
unfolding act_all
act_all-Same env o [] rs held all = (refl, refl, refl)
act_all-Same env o (x ∷ os) rs held (f, all) =
    let (owner, conn, enabled) = act-Same env o x rs held f in
    let still : HeldBy o (act env x rs) =
      (owner ∙ held.0, elim held.1 [ inl e ↦ inl (conn ∙ e) | inr e ↦ inr (conn ∙ e) ]) in
    let (owner', conn', enabled') = act_all-Same env o os (act env x rs) still all in
    (owner' ∙ owner, conn' ∙ conn, enabled' ∙ enabled)

-- A client that holds a block, and is the one that it serves if it serves anyone, keeps it while only
-- others act: whatever other connections write or leave, whatever updates, windows, integrity periods and
-- reservation timers bring, the block has the same holder, serves the same client and stays enabled or
-- disabled as it was; and any write of another connection is then refused as temporarily unavailable and
-- leaves the block as it is.
pub act_all-Foreign :
    (env : Environment) (o c : Conn) (os : List (Occurrence × Value)) (rs : Rcb) (now : Value)
    (refusal : Option ℕ) (attr : RcbAttribute) (v : Value)
    → HeldBy o rs
    → All (Foreign o) os
    → o.identity ≢ c.identity
    → let r = act_all env os rs in
      (r.owner ≡ some o)
      × (r.conn ≡ rs.conn)
      × (r.enabled ≡ rs.enabled)
      × (write_rcb env now refusal attr v c r ≡ (temporarily_unavailable, r))
act_all-Foreign env o c os rs now refusal attr v held all ne =
    let (owner, conn, enabled) = act_all-Same env o os rs held all in
    let owned = owner ∙ held.0 in
    (
      owned,
      conn,
      enabled,
      write_rcb-held env now refusal attr v c (act_all env os rs) (inl (o, owned, ne)),
    )
