-- ===== src/Transport/Tpkt.antt =====
-- internal/osi/tpkt/tpkt.go: RFC 1006 frames.
use go_iec.Base.{
  ℕ, ◌+◌, ◌-◌, ◌*◌, ◌/◌, ◌%◌, ◌^◌, ◌≤◌, ◌≡◌, refl, ◌||◌, List, [], ◌∷◌, ◌++◌, length, get_or,
  length-append, take-length_append, drop-length_append, ltb, ◌==◌, if◌then◌else◌, Result, ok, err,
  ◌>>=◌, arith,
}
use go_iec.Transport.{
  Error, Stream, packet_too_large, bad_length, write_failed, read_full, write, write_at,
}

abbrev pub header_len : ℕ
header_len = 4

abbrev pub version : ℕ
version = 3

-- `MaxPacket`
abbrev max_packet : ℕ
max_packet = 0xffff

-- The frame of a payload, its length as an uint16 in big-endian order.
pub frame : List ℕ → List ℕ
frame payload =
    let total = header_len + length payload in
    version ∷ 0 ∷ total % 2 ^ 16 / 256 ∷ total % 2 ^ 16 % 256 ∷ payload

pub write_packet : List ℕ → Stream → Result Error Stream
write_packet payload s =
    if ltb max_packet (header_len + length payload)
    then err packet_too_large
    else write (frame payload) s

-- `binary.BigEndian.Uint16(hdr[2:])`
abbrev total_of : List ℕ → ℕ
total_of hdr = get_or hdr 2 0 * 256 + get_or hdr 3 0

pub read_packet : Stream → Result Error (List ℕ × Stream)
read_packet s = do
  (hdr, s') ← read_full header_len s
  let total = total_of hdr
  if ltb total header_len || ltb max_packet total
      then err bad_length
      else read_full (total - header_len) s'

pub length-frame : (p : List ℕ) → length (frame p) ≡ length p + 4
unfolding frame
length-frame p = omega arith

read_all :
    (bytes more out : List ℕ) (n : ℕ)
    → read_full (length bytes) (record { input = bytes ++ more; output = out; accepts = n })
      ≡ ok (bytes, record { input = more; output = out; accepts = n })
unfolding read_full
read_all [] more out n = refl
read_all (b ∷ bs) more out n =
    ground (arith, length-append bs more, take-length_append bs more, drop-length_append bs more)

-- `ReadPacket` reads back the payload of at most 65531 octets that `WritePacket` framed, and no octet
-- behind the frame.
pub read_packet-frame :
    (payload more out : List ℕ) (n : ℕ)
    → length payload ≤ 65531
    → read_packet (record { input = frame payload ++ more; output = out; accepts = n })
      ≡ ok (payload, record { input = more; output = out; accepts = n })
unfolding read_packet frame
read_packet-frame payload more out n h =
    let total = header_len + length payload in
    let sent : total % 2 ^ 16 / 256 * 256 + total % 2 ^ 16 % 256 ≡ total = omega arith in
    let rest : header_len + length payload - header_len ≡ length payload = omega arith in
    rw
      (
        read_all (version ∷ 0 ∷ total % 2 ^ 16 / 256 ∷ total % 2 ^ 16 % 256 ∷ []) (payload ++ more)
            out n,
        sent,
        rest,
        read_all payload more out n,
      )
      (ground arith)

-- `WritePacket` writes exactly one frame, or refuses a payload of more than 65531 octets, or fails
-- with the connection.
pub write_packet_cases :
    (payload : List ℕ) (s : Stream)
    → write_packet payload s ≡ (
        if ltb 65531 (length payload)
        then err packet_too_large
        else if s.accepts == 0
        then err write_failed
        else ok (record s { output = s.output ++ frame payload; accepts = s.accepts - 1 }))
unfolding write_packet write write_at
write_packet_cases payload s = ground arith
