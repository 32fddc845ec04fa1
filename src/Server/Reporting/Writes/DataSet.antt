-- ===== src/Server/Reporting/Writes/DataSet.antt =====
-- server/reporting.go: a window of BufTm that is open while a client writes DatSet.
use go_iec.Base.{ℕ, ◌≤◌, ◌≡◌, refl, true, false, some, List, [], ◌∷◌, ltb, ◌==◌, ==_iff, arith}
use go_iec.Mms.{Value}
use go_iec.Server.Reporting.{Environment, Conn, Part, Rcb}
use go_iec.Server.Reporting.Sending.{discard, commit, emit, flush_pending, on_window}
use go_iec.Server.Reporting.Sending.Delivery.{entry_at}
use go_iec.Server.Reporting.Writes.{RcbAttribute, purge, on_attribute}

-- A commit to an empty buffer.
commit-empty :
    (now : Value) (parts : List Part) (rs : Rcb)
    → 1 ≤ rs.max_buffer
    → rs.buffer ≡ []
    → (commit now parts rs).buffer ≡ entry_at rs.seed rs.entry_counter now parts ∷ []
unfolding commit discard
commit-empty now parts rs h e =
    let fits : ltb rs.max_buffer 1 ≡ false = ground arith in rw (e, fits) refl

-- A block that is buffered and not enabled keeps the members that wait in the window of BufTm when a
-- client writes another data set, which purges the buffer: the end of the window makes an entry of
-- them, the only one in the buffer, although their indices are those of the old data set.
pub on_window-dat_set :
    (env : Environment) (before now : Value) (v : Value) (conn : Conn) (window : ℕ) (p : Part)
    (ps : List Part) (rs : Rcb)
    → rs.buffered ≡ true
    → rs.enabled ≡ false
    → 1 ≤ rs.max_buffer
    → rs.pending ≡ some (window, p ∷ ps)
    → (on_window env now window (on_attribute env before RcbAttribute.dat_set v conn rs)).buffer
      ≡ entry_at rs.seed rs.entry_counter now (p ∷ ps) ∷ []
unfolding on_window on_attribute purge flush_pending emit
on_window-dat_set env before now v conn window p ps rs b e h k =
    let same : (window == window) ≡ true = (==_iff window window).1 refl in
    rw (k, same, b, e) (commit-empty now (p ∷ ps) _ h refl)
