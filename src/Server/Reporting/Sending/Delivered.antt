-- ===== src/Server/Reporting/Sending/Delivered.antt =====
-- server/reporting.go: what a client gets of the entries of a buffered block, where no send fails.
use go_iec.Base.{
  ℕ, suc, ◌+◌, ◌%◌, ◌^◌, ◌≡◌, refl, sym, ◌∙◌, ap, Bool, true, false, Option, none, some, List, [],
  ◌∷◌, ◌++◌, All, append-nil, append_assoc, length, arith,
}
use go_iec.Asn1.Element.{Element}
use go_iec.Mms.{Value}
use go_iec.Server.Reporting.{Environment, Conn, ReportEntry, Report, Rcb}
use go_iec.Server.Reporting.Pdus.{report_pdus, rpt_id_of, report_values}
use go_iec.Server.Reporting.Sending.{transmit, send_to, send_all, set_sq_num, transmit_entries}
use go_iec.Server.Reporting.Sending.Buffer.{Core, core-transmit}
use mathlib.Core.Option.{some-injective}

-- What the PDUs of a report take from the block.
abbrev pub Printed : Type 0
Printed = List ℕ × List ℕ × Bool × Value × Value × Value × Value

abbrev pub printed : Rcb → Printed
printed rs = (
  rs.domain, rs.item, rs.buffered, rs.attributes.rpt_id, rs.attributes.dat_set,
  rs.attributes.conf_rev, rs.attributes.opt_flds,
)

-- The PDUs of a block with other such values.
abbrev reprinted : Environment → ReportEntry → ℕ → Bool → ℕ → Rcb → Printed → List Element
reprinted env e seq overflow max_pdu rs p =
    report_pdus env
      (record rs {
        domain = p.0;
        item = p.1;
        buffered = p.2;
        attributes = record rs.attributes {
          rpt_id = p.3;
          dat_set = p.4;
          conf_rev = p.5;
          opt_flds = p.6;
        };
      })
      e seq overflow max_pdu

report_pdus-printed :
    (env : Environment) (e : ReportEntry) (seq : ℕ) (overflow : Bool) (max_pdu : ℕ) (a b : Rcb)
    → printed a ≡ printed b
    → report_pdus env a e seq overflow max_pdu ≡ report_pdus env b e seq overflow max_pdu
unfolding report_pdus report_values rpt_id_of
report_pdus-printed env e seq overflow max_pdu a b h = ap (reprinted env e seq overflow max_pdu a) h

-- The number after `seq` of a block with a buffer, a uint16.
abbrev following : ℕ → ℕ
following seq = (seq + 1) % 2 ^ 16

abbrev report_of : Conn → ReportEntry → ℕ → Bool → List Element → ℕ → Report
report_of conn e seq overflow pdus n = record {
  to = conn;
  entry = e;
  seq = seq;
  overflow = overflow;
  pdus = pdus;
  delivered = n;
}

-- The reports of some entries, the oldest first, each sent to `conn` with all its PDUs: numbered from
-- `seq` on, and the first says whether entries were lost.
unfoldable pub deliveries : Environment → Conn → Rcb → ℕ → Bool → List ReportEntry → List Report
deliveries env conn rs seq overflow [] = []
deliveries env conn rs seq overflow (e ∷ entries) =
    let pdus = report_pdus env rs e seq overflow conn.max_pdu in
    report_of conn e seq overflow pdus (length pdus)
    ∷ deliveries env conn rs (following seq) false entries

pub deliveries-printed :
    (env : Environment) (conn : Conn) (a b : Rcb) (seq : ℕ) (overflow : Bool)
    (entries : List ReportEntry)
    → printed a ≡ printed b
    → deliveries env conn a seq overflow entries ≡ deliveries env conn b seq overflow entries
unfolding deliveries
deliveries-printed env conn a b seq overflow [] h = refl
deliveries-printed env conn a b seq overflow (e ∷ entries) h =
    rw
      (
        report_pdus-printed env e seq overflow conn.max_pdu a b h,
        deliveries-printed env conn a b (following seq) false entries h,
      )
      refl

-- The reports of a block, the oldest first.
unfoldable pub history : List Report → List Report
history [] = []
history (r ∷ reports) = history reports ++ (r ∷ [])

-- No send fails.
abbrev pub AllSent : List Bool → Type 0
AllSent sends = All (λ outcome. outcome ≡ true) sends

send_all-AllSent :
    (pdus : List Element) (sends : List Bool)
    → AllSent sends
    → ((send_all pdus sends).0 ≡ length pdus)
      × ((send_all pdus sends).1 ≡ true)
      × AllSent (send_all pdus sends).2
unfolding send_all
send_all-AllSent [] sends all = (refl, refl, all)
send_all-AllSent (pdu ∷ pdus) [] all =
    let (n, ok, rest) = send_all-AllSent pdus [] all in (ap suc n, ok, rest)
send_all-AllSent (pdu ∷ pdus) (outcome ∷ sends) (sent, all) =
    let (n, ok, rest) = send_all-AllSent pdus sends all in rw sent (ap suc n, ok, rest)

-- One report that is sent whole.
Delivers : Environment → Conn → ReportEntry → Rcb → Rcb → Type 0
Delivers env conn e rs after =
    (history after.sent
      ≡ history rs.sent ++ deliveries env conn rs rs.sq_num rs.buf_overflow (e ∷ []))
    × (after.sq_num ≡ following rs.sq_num)
    × (after.buf_overflow ≡ false)
    × AllSent after.sends
    × (printed after ≡ printed rs)

send_to-Delivers :
    (env : Environment) (o : Option Conn) (conn : Conn) (e : ReportEntry) (rs : Rcb)
    → o ≡ some conn
    → rs.buffered ≡ true
    → AllSent rs.sends
    → Delivers env conn e rs (send_to env o e rs)
unfolding Delivers set_sq_num history deliveries
send_to-Delivers env none conn e rs h b all = absurd (cc h)
send_to-Delivers env (some c) conn e rs h b all =
    let numbered : Rcb = record (set_sq_num ((rs.sq_num + 1) % 2 ^ 32) rs) {
      buf_overflow = false;
    } in
    let pdus = report_pdus env numbered e rs.sq_num rs.buf_overflow c.max_pdu in
    let (n, ok, rest) = send_all-AllSent pdus rs.sends all in
    let plain = report_pdus-printed env e rs.sq_num rs.buf_overflow c.max_pdu numbered rs refl in
    let whole : Conn → List Element → Report =
      λ k pdus. report_of k e rs.sq_num rs.buf_overflow pdus (length pdus) in
    let same : report_of c e rs.sq_num rs.buf_overflow pdus (send_all pdus rs.sends).0
        ≡ whole conn (report_pdus env rs e rs.sq_num rs.buf_overflow conn.max_pdu) =
      ap (λ (k : ℕ). report_of c e rs.sq_num rs.buf_overflow pdus k) n
      ∙ ap (λ (l : List Element). whole c l) plain
      ∙ ap (λ (k : Conn). whole k (report_pdus env rs e rs.sq_num rs.buf_overflow k.max_pdu))
          (some-injective c conn h) in
    (
      ap (λ (r : Report). history rs.sent ++ (r ∷ [])) same,
      rw b (omega arith),
      rw ok refl,
      rest,
      refl,
    )

transmit-Delivers :
    (env : Environment) (conn : Conn) (e : ReportEntry) (rs : Rcb)
    → rs.conn ≡ some conn
    → rs.buffered ≡ true
    → AllSent rs.sends
    → Delivers env conn e rs (transmit env e rs)
unfolding transmit
transmit-Delivers env conn e rs h b all = send_to-Delivers env rs.conn conn e rs h b all

-- All entries that are taken up are delivered.
pub transmit_entries-deliveries :
    (env : Environment) (conn : Conn) (entries : List ReportEntry) (rs : Rcb)
    → rs.conn ≡ some conn
    → rs.buffered ≡ true
    → AllSent rs.sends
    → history (transmit_entries env entries rs).sent
      ≡ history rs.sent ++ deliveries env conn rs rs.sq_num rs.buf_overflow entries
unfolding transmit_entries deliveries Delivers
transmit_entries-deliveries env conn [] rs h b all = sym (append-nil (history rs.sent))
transmit_entries-deliveries env conn (e ∷ entries) rs h b all =
    let after : Rcb = transmit env e rs in
    let moved : Rcb = record after { next = after.next + 1 } in
    let (now, number, clear, rest, same) = transmit-Delivers env conn e rs h b all in
    let frame = core-transmit env e rs in
    let more =
      transmit_entries-deliveries env conn entries moved (ap (λ (c : Core). c.conn) frame ∙ h)
        (ap (λ (c : Core). c.buffered) frame ∙ b) rest in
    let later : deliveries env conn moved after.sq_num after.buf_overflow entries
        ≡ deliveries env conn rs (following rs.sq_num) false entries =
      deliveries-printed env conn moved rs after.sq_num after.buf_overflow entries same
      ∙ ap (λ (n : ℕ). deliveries env conn rs n after.buf_overflow entries) number
      ∙ ap (λ (o : Bool). deliveries env conn rs (following rs.sq_num) o entries) clear in
    more
    ∙ ap (λ (l : List Report). history after.sent ++ l) later
    ∙ ap (λ (l : List Report). l ++ deliveries env conn rs (following rs.sq_num) false entries) now
    ∙ append_assoc (history rs.sent) (deliveries env conn rs rs.sq_num rs.buf_overflow (e ∷ [])) _
