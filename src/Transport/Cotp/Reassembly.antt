-- ===== src/Transport/Cotp/Reassembly.antt =====
-- `Receive` puts together again what `Send` writes.
use go_iec.Base.{
  ℕ, zero, suc, ◌+◌, ◌≤◌, ◌<◌, ◌≡◌, ◌∙◌, List, [], ◌∷◌, ◌++◌, append-nil, append_assoc, length,
  take, drop, All, length-append, length-take, length-drop, take-append-drop, ltb, if◌then◌else◌,
  inl, inr, ok, err, ◌>>=◌, arith,
}
use native.Mathlib.Nat.{zero-add}
use go_iec.Transport.{Stream, tsdu_too_long}
use go_iec.Transport.Tpkt.{frame, read_packet-frame}
use go_iec.Transport.Cotp.{
  Conn, eot, limit, data_tpdu, max_data, send, collected, complete, on_data, on_tpdu, parse_header,
  receive_loop, receive,
}
use go_iec.Transport.Cotp.Segments.{
  tpdus, wire, length-data_tpdu, tpdus_last, tpdus_more, le-cases, send_loop-wire, tpdus_bounds,
}

-- One round of `Receive`.
on_tpdu-data :
    (bound num : ℕ) (buf chunk : List ℕ)
    → on_tpdu bound buf (data_tpdu num chunk) ≡ on_data bound buf (num ∷ []) chunk
unfolding on_tpdu data_tpdu parse_header
on_tpdu-data bound num buf chunk = ground arith

-- A connection whose peer has sent `bytes`.
abbrev pub with_input : Conn → List ℕ → Conn
with_input d bytes = record d {
  rw = record { input = bytes; output = d.rw.output; accepts = d.rw.accepts };
}

receive_round :
    (fuel num : ℕ) (buf chunk more : List ℕ) (d : Conn)
    → length chunk ≤ 65528
    → receive_loop (suc fuel) buf (with_input d (frame (data_tpdu num chunk) ++ more)) ≡ (
        on_data (limit d) buf (num ∷ []) chunk >>= (λ next. elim next [
          | complete tsdu ↦ ok (tsdu, with_input d more)
          | collected buf' ↦ receive_loop fuel buf' (with_input d more)
        ]))
unfolding receive_loop
receive_round fuel num buf chunk more d h = rw (
  read_packet-frame (data_tpdu num chunk) more d.rw.output d.rw.accepts
      (omega (arith, length-data_tpdu num chunk)),
  on_tpdu-data (limit d) num buf chunk,
)

receive_last :
    (fuel : ℕ) (buf chunk more : List ℕ) (d : Conn)
    → length chunk ≤ 65528
    → receive_loop (suc fuel) buf (with_input d (frame (data_tpdu eot chunk) ++ more)) ≡ (
        if ltb (limit d) (length buf + length chunk)
        then err tsdu_too_long
        else ok (buf ++ chunk, with_input d more))
unfolding on_data
receive_last fuel buf chunk more d h = receive_round fuel eot buf chunk more d h ∙ ground arith

receive_more :
    (fuel : ℕ) (buf chunk more : List ℕ) (d : Conn)
    → length chunk ≤ 65528
    → receive_loop (suc fuel) buf (with_input d (frame (data_tpdu 0 chunk) ++ more)) ≡ (
        if ltb (limit d) (length buf + length chunk)
        then err tsdu_too_long
        else receive_loop fuel (buf ++ chunk) (with_input d more))
unfolding on_data
receive_more fuel buf chunk more d h = receive_round fuel 0 buf chunk more d h ∙ ground arith

receive_loop-wire :
    (fuel fuel' m : ℕ) (tsdu buf more : List ℕ) (d : Conn)
    → 0 < m
    → m ≤ 65528
    → length tsdu < fuel
    → fuel ≤ fuel'
    → receive_loop fuel' buf (with_input d (wire (tpdus fuel m tsdu) ++ more)) ≡ (
        if ltb (limit d) (length buf + length tsdu)
        then err tsdu_too_long
        else ok (buf ++ tsdu, with_input d more))
unfolding wire
receive_loop-wire zero fuel' m tsdu buf more d hm hf hl ha = elim hl [ ]
receive_loop-wire (suc fuel) zero m tsdu buf more d hm hf hl ha = absurd (omega arith)
receive_loop-wire (suc fuel) (suc fuel') m tsdu buf more d hm hf hl ha =
    elim (le-cases (length tsdu) m) [
      | inl short ↦
          rw (tpdus_last fuel m tsdu short, append-nil (frame (data_tpdu eot tsdu)))
            (receive_last fuel' buf tsdu more d (omega arith))
      | inr long ↦
          let chunk = take m tsdu in
          let rest = wire (tpdus fuel m (drop m tsdu)) in
          let cut = length-take m tsdu (omega arith) in
          let later = length-drop m tsdu in
          rw (tpdus_more fuel m tsdu long, append_assoc (frame (data_tpdu 0 chunk)) rest more)
            (receive_more fuel' buf chunk (rest ++ more) d (omega arith)
              ∙ rw
                  (receive_loop-wire fuel fuel' m (drop m tsdu) (buf ++ chunk) more d hm hf
                    (omega arith) (omega arith))
                  (rw
                    (
                      length-append buf chunk,
                      append_assoc buf chunk (drop m tsdu),
                      take-append-drop m tsdu,
                    )
                    (ground (arith, cut, later))))
    ]

max_data_bounds : (c : Conn) → c.max_tpdu ≤ 65531 → (0 < max_data c) × (max_data c ≤ 65528)
unfolding max_data
max_data_bounds c h = ground arith

-- With a TPDU size of at most 65531 and more writes that succeed than the TSDU has octets:
-- `Send` writes the TSDU as frames of TPDUs, each with at most the negotiated number of octets, and a
-- peer that reads those frames gets the TSDU back from `Receive` and reads nothing behind them; if the
-- TSDU is longer than the peer's limit, it gets the error for that.
pub receive-send :
    (c d : Conn) (tsdu more : List ℕ)
    → c.max_tpdu ≤ 65531
    → length tsdu < c.rw.accepts
    → (s : Stream) × (ps : List (List ℕ)) × (send tsdu c ≡ ok (record c { rw = s }))
      × (s.output ≡ c.rw.output ++ wire ps)
      × All (λ p. length p ≤ max_data c + 3) ps
      × (receive (with_input d (wire ps ++ more)) ≡ (
          if ltb (limit d) (length tsdu) then err tsdu_too_long else ok (tsdu, with_input d more)))
unfolding send receive
receive-send c d tsdu more hm ha =
    let (pos, fits) = max_data_bounds c hm in
    let fuel = length tsdu + 1 in
    let (s, sent, out, inp) =
      send_loop-wire fuel (max_data c) tsdu c pos fits (omega arith) (omega arith) in
    let ps = tpdus fuel (max_data c) tsdu in
    let (long, small) = tpdus_bounds fuel (max_data c) tsdu pos (omega arith) in
    (
      s,
      ps,
      sent,
      out,
      small,
      rw (zero-add (length tsdu)) at (
          receive_loop-wire fuel (length (wire ps ++ more) + 1) (max_data c) tsdu [] more d pos fits
            (omega arith) (omega (arith, length-append (wire ps) more))),
    )
