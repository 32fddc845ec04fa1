-- ===== src/Transport/Cotp/Handshake/Ends.antt =====
-- What each end of a handshake sends, and where it ends up on what the other end sends.
use go_iec.Base.{
  ℕ, suc, ◌+◌, ◌-◌, ◌^◌, ◌≤◌, ◌<◌, ◌≡◌, refl, ◌∙◌, ap, none, some, List, ◌∷◌, ◌++◌, length, drop,
  ok, arith,
}
use go_iec.Transport.{Stream}
use go_iec.Transport.Tpkt.{frame, read_packet-frame}
use go_iec.Transport.Cotp.{Conn, tpdu_cr, tpdu_cc, clamp_size_code, write_tpdu}
use go_iec.Transport.Cotp.Segments.{write_one}
use go_iec.Transport.Cotp.Handshake.{
  Options, write_given, with_indicator, cr_tpdu, cc_tpdu, send_cr, send_cc, on_cc, recv_cc,
  connecting, connect, peer_ref, accept,
}
use go_iec.Transport.Cotp.Handshake.Parameters.{
  IsSelector, params, length-params, parse_header-with_indicator, accept_params-all,
  parse_params-all,
}

-- What `Connect` is given: selectors of 1 to 32 octets, and a size code.
pub record IsOptions (opts : Options) (src dst : List ℕ) : Type 0 where
  pub src_given : opts.src_tsap ≡ some src
  pub dst_given : opts.dst_tsap ≡ some dst
  pub src_selector : IsSelector src
  pub dst_selector : IsSelector dst

pub code_range :
    (opts : Options) (s : Stream) → (7 ≤ (connecting opts s).0) × ((connecting opts s).0 ≤ 11)
unfolding connecting clamp_size_code
code_range opts s = ground arith

cr_params :
    (opts : Options) (src dst : List ℕ) (s : Stream)
    → IsOptions opts src dst
    → cr_tpdu (connecting opts s).0 (connecting opts s).1
      ≡ with_indicator (tpdu_cr ∷ 0 ∷ 0 ∷ 0 ∷ 1 ∷ 0 ∷ params (connecting opts s).0 src dst)
unfolding cr_tpdu params connecting
cr_params opts src dst s h = rw (h.src_given, h.dst_given)

cc_params :
    (k : ℕ) (src dst : List ℕ) (c : Conn)
    → c.src_ref ≡ 1
    → c.dst_ref ≡ 1
    → c.src_tsap ≡ some dst
    → c.dst_tsap ≡ some src
    → cc_tpdu k c ≡ with_indicator (tpdu_cc ∷ 0 ∷ 1 ∷ 0 ∷ 1 ∷ 0 ∷ params k dst src)
unfolding cc_tpdu params write_given
cc_params k src dst c a b e f = rw (a, b, e, f)

-- The octets of a CR and of a CC, behind the length indicator.
cr_rest : ℕ → List ℕ → List ℕ → List ℕ
cr_rest k src dst = 0 ∷ 0 ∷ 0 ∷ 1 ∷ 0 ∷ params k src dst

cc_rest : ℕ → List ℕ → List ℕ → List ℕ
cc_rest k src dst = 0 ∷ 1 ∷ 0 ∷ 1 ∷ 0 ∷ params k dst src

length-with_indicator : (rest : List ℕ) → length (with_indicator rest) ≡ length rest + 1
unfolding with_indicator
length-with_indicator rest = omega arith

drop_five : (k : ℕ) (src dst : List ℕ) → drop 5 (cr_rest k src dst) ≡ params k src dst
unfolding cr_rest
drop_five k src dst = refl

length-cr_rest :
    (k : ℕ) (src dst : List ℕ) → length (cr_rest k src dst) ≡ length src + length dst + 12
unfolding cr_rest
length-cr_rest k src dst = omega (arith, length-params k src dst)

length-cc_rest :
    (k : ℕ) (src dst : List ℕ) → length (cc_rest k src dst) ≡ length src + length dst + 12
unfolding cc_rest
length-cc_rest k src dst = omega (arith, length-params k dst src)

-- The connection of the called side, behind the CR and before the CC.
unfoldable pub accepted : Stream → List ℕ → ℕ → List ℕ → List ℕ → Conn
accepted s more k src dst = record {
  rw = record { input = more; output = s.output; accepts = s.accepts };
  max_tpdu = 2 ^ k;
  src_ref = 1;
  dst_ref = 1;
  src_tsap = some dst;
  dst_tsap = some src;
  max_tsdu = 0;
}

peer : (k : ℕ) (src dst : List ℕ) → peer_ref (cr_rest k src dst) ≡ 1
unfolding peer_ref cr_rest
peer k src dst = ground arith

accept-cr :
    (k : ℕ) (src dst more : List ℕ) (s : Stream)
    → 7 ≤ k
    → k ≤ 11
    → IsSelector src
    → IsSelector dst
    → accept (record {
      input = frame (with_indicator (tpdu_cr ∷ cr_rest k src dst)) ++ more;
      output = s.output;
      accepts = s.accepts;
    })
      ≡ send_cc k (accepted s more k src dst)
unfolding accept accepted
accept-cr k src dst more s hk hl hs hd =
    let size = length-params k src dst in
    let whole = length-cr_rest k src dst in
    let fuel : length (params k src dst) + 1 ≡ suc (suc (suc (suc (length src + length dst + 4)))) =
      omega arith in
    rw
      (
        read_packet-frame (with_indicator (tpdu_cr ∷ cr_rest k src dst)) more s.output s.accepts
            (omega (arith, length-with_indicator (tpdu_cr ∷ cr_rest k src dst))),
        parse_header-with_indicator tpdu_cr (cr_rest k src dst) (omega arith),
        peer k src dst,
        drop_five k src dst,
        fuel,
      )
      (rw (
        accept_params-all (length src + length dst + 4) k src dst
          (record {
            rw = record { input = more; output = s.output; accepts = s.accepts };
            max_tpdu = 1024;
            src_ref = 1;
            dst_ref = 1;
            src_tsap = none;
            dst_tsap = none;
            max_tsdu = 0;
          })
          hk hl hs hd))

-- The calling side, with the CR sent, on the CC of the called side.
recv_cc-cc :
    (k : ℕ) (src dst more : List ℕ) (c : Conn)
    → c.src_ref ≡ 1
    → c.max_tpdu ≡ 2 ^ k
    → IsSelector src
    → IsSelector dst
    → c.rw.input ≡ frame (with_indicator (tpdu_cc ∷ cc_rest k src dst)) ++ more
    → recv_cc c
      ≡ ok (record c {
        rw = record { input = more; output = c.rw.output; accepts = c.rw.accepts };
        dst_ref = 1;
        max_tpdu = 2 ^ k;
      })
unfolding recv_cc on_cc cc_rest
recv_cc-cc k src dst more c hr hm hs hd hi =
    let size = length-params k dst src in
    let fuel : length (params k dst src) ≡ suc (suc (suc (length src + length dst + 4))) =
      omega arith in
    rw (
      hi,
      read_packet-frame (with_indicator (tpdu_cc ∷ cc_rest k src dst)) more c.rw.output c.rw.accepts
          (omega (arith, length-with_indicator (tpdu_cc ∷ cc_rest k src dst))),
      parse_header-with_indicator tpdu_cc (cc_rest k src dst) (omega arith),
      hr,
      hm,
      fuel,
      parse_params-all (length src + length dst + 4) k dst src hd hs,
    )

pub cr_frame : ℕ → List ℕ → List ℕ → List ℕ
cr_frame k src dst = frame (with_indicator (tpdu_cr ∷ cr_rest k src dst))

pub cc_frame : ℕ → List ℕ → List ℕ → List ℕ
cc_frame k src dst = frame (with_indicator (tpdu_cc ∷ cc_rest k src dst))

pub accept_all :
    (k : ℕ) (src dst more : List ℕ) (s : Stream)
    → 7 ≤ k
    → k ≤ 11
    → IsSelector src
    → IsSelector dst
    → 0 < s.accepts
    → accept (record s { input = cr_frame k src dst ++ more })
      ≡ ok (record (accepted s more k src dst) {
        rw = record {
          input = more;
          output = s.output ++ cc_frame k src dst;
          accepts = s.accepts - 1;
        };
      })
unfolding cr_frame cc_frame accepted send_cc cc_rest
accept_all k src dst more s hk hl hs hd ha =
    let c = accepted s more k src dst in
    let bytes = cc_params k src dst c refl refl refl refl in
    let whole = length-cc_rest k src dst in
    accept-cr k src dst more s hk hl hs hd
    ∙ rw bytes (
        write_one (with_indicator (tpdu_cc ∷ cc_rest k src dst)) c
          (omega (arith, length-with_indicator (tpdu_cc ∷ cc_rest k src dst))) ha)

-- The calling connection with its CR sent.
unfoldable pub called : Options → List ℕ → List ℕ → Stream → Conn
called opts src dst s = record (connecting opts s).1 {
  rw = record {
    input = s.input;
    output = s.output ++ cr_frame (connecting opts s).0 src dst;
    accepts = s.accepts - 1;
  };
}

send_cr-called :
    (opts : Options) (src dst : List ℕ) (s : Stream)
    → IsOptions opts src dst
    → 0 < s.accepts
    → send_cr (connecting opts s).0 (connecting opts s).1 ≡ ok (called opts src dst s)
unfolding send_cr called cr_frame connecting cr_rest
send_cr-called opts src dst s h ha =
    let (k, start) = connecting opts s in
    let whole = length-cr_rest k src dst in
    ap (λ p. write_tpdu p start) (cr_params opts src dst s h)
    ∙ write_one (with_indicator (tpdu_cr ∷ cr_rest k src dst)) start
        (omega (
          arith,
          length-with_indicator (tpdu_cr ∷ cr_rest k src dst),
          h.src_selector,
          h.dst_selector,
        ))
        ha

pub connecting_terms :
    (opts : Options) (s : Stream)
    → ((connecting opts s).1.src_ref ≡ 1)
      × ((connecting opts s).1.max_tpdu ≡ 2 ^ (connecting opts s).0)
unfolding connecting
connecting_terms opts s = (refl, refl)

pub connecting_selectors :
    (opts : Options) (src dst : List ℕ) (s : Stream)
    → IsOptions opts src dst
    → ((connecting opts s).1.src_tsap ≡ some src) × ((connecting opts s).1.dst_tsap ≡ some dst)
unfolding connecting
connecting_selectors opts src dst s h = (rw h.src_given, rw h.dst_given)

pub connect_all :
    (opts : Options) (src dst more : List ℕ) (s : Stream)
    → IsOptions opts src dst
    → 0 < s.accepts
    → s.input ≡ cc_frame (connecting opts s).0 src dst ++ more
    → connect opts s
      ≡ ok (record (called opts src dst s) {
        rw = record {
          input = more;
          output = s.output ++ cr_frame (connecting opts s).0 src dst;
          accepts = s.accepts - 1;
        };
        dst_ref = 1;
        max_tpdu = 2 ^ (connecting opts s).0;
      })
unfolding connect cc_frame called
connect_all opts src dst more s h ha hi =
    let (ref, size) = connecting_terms opts s in
    rw (send_cr-called opts src dst s h ha) (
      recv_cc-cc (connecting opts s).0 src dst more (called opts src dst s) ref size h.src_selector
        h.dst_selector hi)
