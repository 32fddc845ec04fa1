-- ===== src/Transport.antt =====
-- internal/osi: the byte stream under the OSI transport layer, as Go's io interfaces show it, and the
-- errors of the packages tpkt and cotp. The packages are Transport/Tpkt and Transport/Cotp.
pub mod Tpkt
pub mod Cotp
mod Tests
use go_iec.Base.{
  ℕ, zero, suc, ◌+◌, Bool, List, [], ◌++◌, length, take, drop, ltb, ◌==◌, if◌then◌else◌, Result, ok,
  err,
}

pub data Error : Type 0 where
  -- io.EOF, io.ErrUnexpectedEOF, and an error of a write.
  eof unexpected_eof write_failed : Error
  packet_too_large bad_length : Error
  truncated_tpdu bad_li refused unexpected_type short_cc wrong_reference : Error
  selector_too_long short_dt tsdu_too_long er_received : Error
  -- No error of the source: a loop of the model ran out of fuel.
  out_of_fuel : Error

-- An io.ReadWriteCloser: the octets still to come from the peer, those written so far, and how many
-- more writes succeed. A write that fails leaves nothing in `output`.
pub record Stream : Type 0 where
  pub input : List ℕ
  pub output : List ℕ
  pub accepts : ℕ

-- io.ReadFull of `n` octets.
unfoldable pub read_full : ℕ → Stream → Result Error (List ℕ × Stream)
read_full n s =
    if n == 0
    then ok ([], s)
    else if length s.input == 0
    then err eof
    else if ltb (length s.input) n
    then err unexpected_eof
    else ok (take n s.input, record s { input = drop n s.input })

write_at : ℕ → List ℕ → Stream → Result Error Stream
write_at zero bytes s = err write_failed
write_at (suc n) bytes s = ok (record s { output = s.output ++ bytes; accepts = n })

-- `w.Write`
unfoldable pub write : List ℕ → Stream → Result Error Stream
unfolding write_at
write bytes s = write_at s.accepts bytes s
