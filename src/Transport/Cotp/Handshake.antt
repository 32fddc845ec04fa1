-- ===== src/Transport/Cotp/Handshake.antt =====
-- The CR/CC handshake: `Connect` of cotp.go and `Accept` of accept.go.
pub mod Parameters
pub mod Ends
pub mod Agreement
use go_iec.Base.{
  ℕ, zero, suc, ◌+◌, ◌-◌, ◌*◌, ◌/◌, ◌%◌, ◌^◌, Bool, true, false, not, ◌&&◌, ◌||◌, Option, none,
  some, List, [], ◌∷◌, ◌++◌, length, take, drop, get_or, ltb, leb, ◌==◌, if◌then◌else◌, Result, ok,
  err, ◌>>=◌,
}
use go_iec.Transport.{
  Error, Stream, refused, unexpected_type, short_cc, wrong_reference, selector_too_long,
  out_of_fuel,
}
use go_iec.Transport.Tpkt.{read_packet}
use go_iec.Transport.Cotp.{
  Conn, tpdu_cr, tpdu_cc, tpdu_dr, clamp_size_code, write_tpdu, parse_header,
}

abbrev pub param_tpdu_size : ℕ
param_tpdu_size = 0xc0

abbrev pub param_src_tsap : ℕ
param_src_tsap = 0xc1

abbrev pub param_dst_tsap : ℕ
param_dst_tsap = 0xc2

-- `MaxTSEL`
abbrev max_tsel : ℕ
max_tsel = 32

pub record Options : Type 0 where
  pub src_tsap : Option (List ℕ)
  pub dst_tsap : Option (List ℕ)
  pub tpdu_size_code : ℕ  -- uint8

abbrev pub default_tsap : List ℕ
default_tsap = 0x00 ∷ 0x01 ∷ []

abbrev octets_of : Option (List ℕ) → List ℕ
octets_of none = []
octets_of (some val) = val

abbrev or_default : Option (List ℕ) → Option (List ℕ)
or_default none = some default_tsap
or_default (some val) = some val

-- `append([]byte(nil), val...)`, which is nil for no octets.
abbrev pub copy_octets : List ℕ → Option (List ℕ)
copy_octets [] = none
copy_octets (b ∷ bs) = some (b ∷ bs)

pub write_param : ℕ → List ℕ → List ℕ
write_param code val = code ∷ length val % 256 ∷ val

-- `if c.srcTSAP != nil { writeParam(...) }`
pub write_given : ℕ → Option (List ℕ) → List ℕ
write_given code none = []
write_given code (some val) = write_param code val

-- A TPDU from what follows its length indicator.
pub with_indicator : List ℕ → List ℕ
with_indicator rest = length rest % 256 ∷ rest

pub cr_tpdu : ℕ → Conn → List ℕ
cr_tpdu code c = with_indicator (
    tpdu_cr
    ∷ 0
    ∷ 0
    ∷ c.src_ref / 256
    ∷ c.src_ref % 256
    ∷ 0
    ∷ (write_param param_tpdu_size (code ∷ [])
        ++ (write_param param_src_tsap (octets_of c.src_tsap)
            ++ write_param param_dst_tsap (octets_of c.dst_tsap))))

pub cc_tpdu : ℕ → Conn → List ℕ
cc_tpdu code c = with_indicator (
    tpdu_cc
    ∷ c.dst_ref / 256
    ∷ c.dst_ref % 256
    ∷ c.src_ref / 256
    ∷ c.src_ref % 256
    ∷ 0
    ∷ (write_param param_tpdu_size (code ∷ [])
        ++ (write_given param_src_tsap c.src_tsap ++ write_given param_dst_tsap c.dst_tsap)))

pub send_cr : ℕ → Conn → Result Error Conn
send_cr code c = write_tpdu (cr_tpdu code c) c

pub send_cc : ℕ → Conn → Result Error Conn
send_cc code c = write_tpdu (cc_tpdu code c) c

-- What `parseParams` makes of one parameter.
pub lower_size : ℕ → ℕ → List ℕ → ℕ → ℕ
lower_size code plen val max_tpdu =
    let v = get_or val 0 0 in
    if code == param_tpdu_size && plen == 1 && leb 7 v && leb v 11 && ltb (2 ^ v) max_tpdu
    then 2 ^ v
    else max_tpdu

-- The loop of `parseParams`, which changes the maximal TPDU size alone. The fuel is the number of
-- octets; each parameter takes two at least.
pub parse_params : ℕ → List ℕ → ℕ → ℕ
parse_params zero params max_tpdu = max_tpdu
parse_params (suc fuel) (code ∷ plen ∷ rest) max_tpdu =
    let next =
      parse_params fuel (drop plen rest) (lower_size code plen (take plen rest) max_tpdu) in
    if ltb (length rest) plen then max_tpdu else next
parse_params (suc fuel) _ max_tpdu = max_tpdu

pub on_cc : List ℕ → Conn → Result Error Conn
on_cc (d1 ∷ d0 ∷ s1 ∷ s0 ∷ class ∷ params) c =
    if not (d1 * 256 + d0 == c.src_ref)
    then err wrong_reference
    else ok (record c {
      dst_ref = s1 * 256 + s0;
      max_tpdu = parse_params (length params) params c.max_tpdu;
    })
on_cc _ c = err short_cc

pub recv_cc : Conn → Result Error Conn
recv_cc c = do
  (tpdu, s) ← read_packet c.rw
  (li, typ, body) ← parse_header tpdu
  if not (typ == tpdu_cc)
      then err (if typ == tpdu_dr then refused else unexpected_type)
      else on_cc body (record c { rw = s })

-- The connection that `Connect` starts from.
pub connecting : Options → Stream → ℕ × Conn
connecting opts s =
    let code = clamp_size_code (if opts.tpdu_size_code == 0 then 10 else opts.tpdu_size_code) in
    (
      code,
      record {
        rw = s;
        max_tpdu = 2 ^ code;
        src_ref = 1;
        dst_ref = 0;
        src_tsap = or_default opts.src_tsap;
        dst_tsap = or_default opts.dst_tsap;
        max_tsdu = 0;
      },
    )

pub connect : Options → Stream → Result Error Conn
connect opts s = do let start = connecting opts s; c ← send_cr start.0 start.1; recv_cc c

-- One parameter of a CR.
pub accept_param : ℕ → ℕ → List ℕ → ℕ × Conn → Result Error (ℕ × Conn)
accept_param code plen val (size_code, c) =
    let v = clamp_size_code (get_or val 0 0) in
    if code == param_tpdu_size && plen == 1
    then ok (v, record c { max_tpdu = 2 ^ v })
    else if (code == param_src_tsap || code == param_dst_tsap) && ltb max_tsel plen
    then err selector_too_long
    else if code == param_src_tsap
    then ok (size_code, record c { dst_tsap = copy_octets val })
    else if code == param_dst_tsap
    then ok (size_code, record c { src_tsap = copy_octets val })
    else ok (size_code, c)

-- The loop of `Accept` over the parameters.
pub accept_params : ℕ → List ℕ → ℕ × Conn → Result Error (ℕ × Conn)
accept_params zero params st = err out_of_fuel
accept_params (suc fuel) (code ∷ plen ∷ rest) st =
    let next = (do
      st' ← accept_param code plen (take plen rest) st
      accept_params fuel (drop plen rest) st') in
    if ltb (length rest) plen then ok st else next
accept_params (suc fuel) _ st = ok st

-- `c.dstRef`, if the CR is long enough to have a source reference.
pub peer_ref : List ℕ → ℕ
peer_ref body = if leb 4 (length body) then get_or body 2 0 * 256 + get_or body 3 0 else 0

pub accept : Stream → Result Error Conn
accept s = do
  (tpdu, s') ← read_packet s
  (li, typ, body) ← parse_header tpdu
  let c : Conn = record {
    rw = s';
    max_tpdu = 1024;
    src_ref = 1;
    dst_ref = peer_ref body;
    src_tsap = none;
    dst_tsap = none;
    max_tsdu = 0;
  }
  let params = drop 5 body
  if not (typ == tpdu_cr)
      then err unexpected_type
      else (do st ← accept_params (length params + 1) params (10, c); send_cc st.0 st.1)
