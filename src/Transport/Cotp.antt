-- ===== src/Transport/Cotp.antt =====
-- internal/osi/cotp: the class 0 connection, its data transfer (cotp.go) and, in the child Handshake,
-- its establishment. A nil slice is `none`.
pub mod Segments
pub mod Reassembly
pub mod Handshake
use go_iec.Base.{
  ℕ, zero, suc, ◌+◌, ◌-◌, ◌*◌, ◌^◌, bit_and, bit_or, Bool, true, false, not, ◌||◌, Option, List, [],
  ◌∷◌, ◌++◌, length, take, drop, ltb, leb, ◌==◌, if◌then◌else◌, min, max, Result, ok, err, ◌>>=◌,
}
use go_iec.Transport.{
  Error, Stream, eof, truncated_tpdu, bad_li, unexpected_type, short_dt, tsdu_too_long, er_received,
  out_of_fuel,
}
use go_iec.Transport.Tpkt.{write_packet, read_packet}

abbrev pub tpdu_cr : ℕ
tpdu_cr = 0xe0

abbrev pub tpdu_cc : ℕ
tpdu_cc = 0xd0

abbrev pub tpdu_dr : ℕ
tpdu_dr = 0x80

abbrev tpdu_dt : ℕ
tpdu_dt = 0xf0

abbrev tpdu_er : ℕ
tpdu_er = 0x70

-- The types that class 0 ignores: ED, AK, EA, RJ.
abbrev is_ignored : ℕ → Bool
is_ignored typ = typ == 0x10 || typ == 0x60 || typ == 0x20 || typ == 0x50

abbrev pub eot : ℕ
eot = 0x80

pub record Conn : Type 0 where
  pub rw : Stream
  pub max_tpdu : ℕ
  pub src_ref : ℕ  -- uint16
  pub dst_ref : ℕ  -- uint16
  pub src_tsap : Option (List ℕ)
  pub dst_tsap : Option (List ℕ)
  -- Zero stands for the default.
  pub max_tsdu : ℕ

-- `DefaultMaxTSDU`
abbrev default_max_tsdu : ℕ
default_max_tsdu = 128 * 2 ^ 10

-- `SetMaxTSDU`
set_max_tsdu : ℕ → Conn → Conn
set_max_tsdu n c = record c { max_tsdu = n }

abbrev pub limit : Conn → ℕ
limit c = if c.max_tsdu == 0 then default_max_tsdu else c.max_tsdu

pub clamp_size_code : ℕ → ℕ
clamp_size_code code = min (max code 7) 11

pub write_tpdu : List ℕ → Conn → Result Error Conn
write_tpdu tpdu c = do s ← write_packet tpdu c.rw; ok (record c { rw = s })

pub parse_header : List ℕ → Result Error (ℕ × ℕ × List ℕ)
parse_header (li ∷ typ ∷ rest) =
    if li == 0 || ltb (length rest + 2) (1 + li)
    then err bad_li
    else ok (li, bit_and typ 0xf0, take (li - 1) rest)
parse_header _ = err truncated_tpdu

-- One DT TPDU.
pub data_tpdu : ℕ → List ℕ → List ℕ
data_tpdu num chunk = 2 ∷ tpdu_dt ∷ num ∷ chunk

-- `maxTPDU - 3`, and 1021 where that is not positive.
pub max_data : Conn → ℕ
max_data c = if c.max_tpdu - 3 == 0 then 1024 - 3 else c.max_tpdu - 3

-- The loop of `Send`, over the octets from `off` on. It goes on until the last segment is sent.
pub send_loop : ℕ → ℕ → List ℕ → Conn → Result Error Conn
send_loop zero m tsdu c = err out_of_fuel
send_loop (suc fuel) m tsdu c =
    let last = leb (length tsdu) m in
    let num = if last then bit_or 0 eot else 0 in
    do
      c' ← write_tpdu (data_tpdu num (take m tsdu)) c
      elim last [ true ↦ ok c' | false ↦ send_loop fuel m (drop m tsdu) c' ]

-- Each round takes an octet at least.
pub send : List ℕ → Conn → Result Error Conn
send tsdu c = send_loop (length tsdu + 1) (max_data c) tsdu c

-- What `Receive` does with one TPDU: go on with `more` octets collected, or return.
pub data Received : Type 0 where
  collected complete : List ℕ → Received

pub on_data : ℕ → List ℕ → List ℕ → List ℕ → Result Error Received
on_data bound buf [] chunk = err short_dt
on_data bound buf (num ∷ body) chunk =
    if ltb bound (length buf + length chunk)
    then err tsdu_too_long
    else if not (bit_and num eot == 0)
    then ok (complete (buf ++ chunk))
    else ok (collected (buf ++ chunk))

pub on_tpdu : ℕ → List ℕ → List ℕ → Result Error Received
on_tpdu bound buf tpdu = do
  (li, typ, body) ← parse_header tpdu
  if typ == tpdu_dt
      then on_data bound buf body (drop (1 + li) tpdu)
      else if typ == tpdu_dr
      then err eof
      else if typ == tpdu_er
      then err er_received
      else if is_ignored typ
      then ok (collected buf)
      else err unexpected_type

-- The loop of `Receive`, with the octets collected so far.
pub receive_loop : ℕ → List ℕ → Conn → Result Error (List ℕ × Conn)
receive_loop zero buf c = err out_of_fuel
receive_loop (suc fuel) buf c = do
  (tpdu, s) ← read_packet c.rw
  next ← on_tpdu (limit c) buf tpdu
  elim next [
    | complete tsdu ↦ ok (tsdu, record c { rw = s })
    | collected buf' ↦ receive_loop fuel buf' (record c { rw = s })
  ]

-- Each round takes a header of four octets off the input.
pub receive : Conn → Result Error (List ℕ × Conn)
receive c = receive_loop (length c.rw.input + 1) [] c
