-- ===== src/Server/Reporting/Writes/Runs.antt =====
-- server/reporting.go: a block over anything that happens to it.
use go_iec.Base.{
  ℕ, ◌^◌, ◌≡◌, ◌≢◌, ◌⊎◌, ==_ne, refl, inl, inr, false, Option, none, some, List, [], ◌∷◌, if-cases,
}
use go_iec.Mms.{Value}
use go_iec.Server.Reporting.{DsMember, Environment, Conn, Rcb}
use go_iec.Server.Reporting.Sending.{report_all, on_update_block, on_window}
use go_iec.Server.Reporting.Sending.Frame.{report_all-Steps, on_update_block-Steps, on_window-Steps}
use go_iec.Server.Reporting.Holding.{allowed, allowed_for, on_resv_timer, same_timer, same_ip}
use go_iec.Server.Reporting.Writes.{
  RcbAttribute, check_rcb_write, write_rcb, temporarily_unavailable, leave, on_integrity,
}
use go_iec.Server.Reporting.Writes.Holder.{
  IsHeld, Steps-IsHeld, write_rcb-IsHeld, leave-IsHeld, on_resv_timer-IsHeld,
}

-- What can happen to a block, with the time as it is then.
pub data Occurrence : Type 0 where
  write : Option ℕ → RcbAttribute → Value → Conn → Occurrence
  update : (DsMember → ℕ) → Occurrence
  departs : Conn → Occurrence
  window_ends reservation_ends integrity_tick : ℕ → Occurrence

unfoldable pub act : Environment → Occurrence × Value → Rcb → Rcb
act env (write refusal attr v conn, now) rs = (write_rcb env now refusal attr v conn rs).1
act env (update raised, now) rs = on_update_block env now raised rs
act env (departs conn, now) rs = leave env now conn rs
act env (window_ends window, now) rs = on_window env now window rs
act env (reservation_ends t, now) rs = on_resv_timer t rs
act env (integrity_tick stop, now) rs = on_integrity env now stop rs

unfoldable pub act_all : Environment → List (Occurrence × Value) → Rcb → Rcb
act_all env [] rs = rs
act_all env (o ∷ os) rs = act_all env os (act env o rs)

act-IsHeld :
    (env : Environment) (o : Occurrence × Value) (rs : Rcb) → IsHeld rs → IsHeld (act env o rs)
unfolding act on_integrity
act-IsHeld env (write refusal attr v conn, now) rs h =
    write_rcb-IsHeld env now refusal attr v conn rs h
act-IsHeld env (update raised, now) rs h =
    Steps-IsHeld rs (on_update_block env now raised rs) _ (on_update_block-Steps env now raised rs)
      h
act-IsHeld env (departs conn, now) rs h = leave-IsHeld env now conn rs h
act-IsHeld env (window_ends window, now) rs h =
    Steps-IsHeld rs (on_window env now window rs) _ (on_window-Steps env now window rs) h
act-IsHeld env (reservation_ends t, now) rs h = on_resv_timer-IsHeld t rs h
act-IsHeld env (integrity_tick stop, now) rs h =
    if-cases IsHeld (same_timer rs.intg_stop stop) _ _
      (λ _.
        Steps-IsHeld rs (report_all env now (2 ^ 4) rs) none (report_all-Steps env now (2 ^ 4) rs)
          h)
      (λ _. h)

-- Any sequence of occurrences.
pub act_all-IsHeld :
    (env : Environment) (os : List (Occurrence × Value)) (rs : Rcb)
    → IsHeld rs
    → IsHeld (act_all env os rs)
unfolding act_all
act_all-IsHeld env [] rs h = h
act_all-IsHeld env (o ∷ os) rs h = act_all-IsHeld env os (act env o rs) (act-IsHeld env o rs h)

-- A block that another connection holds, or that is held for another address while no connection
-- holds it, refuses every write and is left as it was.
pub write_rcb-held :
    (env : Environment) (now : Value) (refusal : Option ℕ) (attr : RcbAttribute) (v : Value)
    (conn : Conn) (rs : Rcb)
    → ((o : Conn) × (rs.owner ≡ some o) × (o.identity ≢ conn.identity))
      ⊎ ((ip : List ℕ) × (rs.owner ≡ none)
          × (rs.resv_ip ≡ some ip)
          × (same_ip conn.conn_ip ip ≡ false))
    → write_rcb env now refusal attr v conn rs ≡ (temporarily_unavailable, rs)
unfolding write_rcb check_rcb_write allowed
write_rcb-held env now refusal attr v conn rs h =
    let refused : allowed rs conn ≡ false = go rs.owner rs.resv_ip h in rw refused refl
  where
    go :
        (x : Option Conn) (y : Option (List ℕ))
        → ((o : Conn) × (x ≡ some o) × (o.identity ≢ conn.identity))
          ⊎ ((ip : List ℕ) × (x ≡ none) × (y ≡ some ip) × (same_ip conn.conn_ip ip ≡ false))
        → allowed_for x y conn ≡ false
    go x y (inl (o, e, other)) = rw e (==_ne o.identity conn.identity other)
    go x y (inr (ip, e, f, other)) = rw (e, f) other
