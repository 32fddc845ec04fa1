-- ===== src/Transport/Tests.antt =====
-- internal/osi: the theorems at concrete inputs.
use go_iec.Base.{
  ℕ, ◌+◌, ◌≤◌, ◌≡◌, refl, List, [], ◌∷◌, ◌++◌, none, some, length, All, ltb, if◌then◌else◌, ok, err,
  arith,
}
use go_iec.Transport.{Stream, tsdu_too_long}
use go_iec.Transport.Cotp.{Conn, max_data, limit, send, receive}
use go_iec.Transport.Cotp.Segments.{wire}
use go_iec.Transport.Cotp.Reassembly.{with_input, receive-send}
use go_iec.Transport.Cotp.Handshake.{Options, connect, accept, default_tsap}
use go_iec.Transport.Cotp.Handshake.Ends.{IsOptions}
use go_iec.Transport.Cotp.Handshake.Agreement.{Agree, handshake}

abbrev stream : Stream
stream = record { input = []; output = 0xaa ∷ []; accepts = 9 }

abbrev message : List ℕ
message = 1 ∷ 2 ∷ 3 ∷ 4 ∷ 5 ∷ []

-- Both ends of an association, the sender with two octets of data to a TPDU.
abbrev sender : Conn
sender = record {
  rw = stream;
  max_tpdu = 5;
  src_ref = 1;
  dst_ref = 1;
  src_tsap = none;
  dst_tsap = none;
  max_tsdu = 0;
}

abbrev receiver : Conn
receiver = record sender { max_tsdu = 100 }

receive-send_example :
    (s : Stream) × (ps : List (List ℕ)) × (send message sender ≡ ok (record sender { rw = s }))
    × (s.output ≡ sender.rw.output ++ wire ps)
    × All (λ p. length p ≤ max_data sender + 3) ps
    × (receive (with_input receiver (wire ps ++ [])) ≡ (
        if ltb (limit receiver) 5 then err tsdu_too_long else ok (message, with_input receiver [])))
receive-send_example = receive-send sender receiver message [] (omega arith) (omega arith)

abbrev options : Options
options = record {
  src_tsap = some (0x00 ∷ 0x02 ∷ []);
  dst_tsap = some default_tsap;
  tpdu_size_code = 10;
}

abbrev options-IsOptions : IsOptions options (0x00 ∷ 0x02 ∷ []) default_tsap
options-IsOptions = record {
  src_given = refl;
  dst_given = refl;
  src_selector = record { given = omega arith; short = omega arith };
  dst_selector = record { given = omega arith; short = omega arith };
}

handshake_example :
    (cr : List ℕ) × (cc : List ℕ) × (cli : Conn) × (srv : Conn) × (connect options
        (record stream { input = cc ++ [] })
      ≡ ok cli)
    × (accept (record stream { input = cr ++ message }) ≡ ok srv)
    × (cli.rw.output ≡ stream.output ++ cr)
    × (srv.rw.output ≡ stream.output ++ cc)
    × (cli.rw.input ≡ [])
    × (srv.rw.input ≡ message)
    × Agree cli srv
handshake_example =
    handshake options (0x00 ∷ 0x02 ∷ []) default_tsap [] message stream stream options-IsOptions
      (omega arith) (omega arith)
