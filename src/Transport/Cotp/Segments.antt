-- ===== src/Transport/Cotp/Segments.antt =====
-- Data transfer: what `Send` writes, `Receive` puts together again.
use go_iec.Base.{
  ℕ, zero, suc, ◌+◌, ◌-◌, ◌≤◌, ◌<◌, ◌≡◌, refl, ◌∙◌, ap, true, false, List, [], ◌∷◌, ◌++◌,
  append-nil, append_assoc, length, le→ltb, ==_ne, take, drop, All, length-append, length-take,
  length-drop, leb, if◌then◌else◌, bind-ok, inl, inr, ◌⊎◌, ok, arith,
}
use go_iec.Transport.{Stream}
use go_iec.Transport.Tpkt.{frame, length-frame, write_packet_cases}
use go_iec.Transport.Cotp.{Conn, eot, write_tpdu, data_tpdu, send_loop}

-- The TPDUs of a TSDU, each with at most `m` octets of it.
pub tpdus : ℕ → ℕ → List ℕ → List (List ℕ)
tpdus zero m tsdu = []
tpdus (suc fuel) m tsdu =
    let rest = tpdus fuel m (drop m tsdu) in
    if leb (length tsdu) m then data_tpdu eot tsdu ∷ [] else data_tpdu 0 (take m tsdu) ∷ rest

-- The octets of TPDUs on the stream.
unfoldable pub wire : List (List ℕ) → List ℕ
wire [] = []
wire (p ∷ ps) = frame p ++ wire ps

take_all : (m : ℕ) (xs : List ℕ) → length xs ≤ m → take m xs ≡ xs
take_all zero [] h = refl
take_all zero (x ∷ xs) h = absurd (omega arith)
take_all (suc m) [] h = refl
take_all (suc m) (x ∷ xs) h = ap (λ t. x ∷ t) (take_all m xs (omega arith))

pub length-data_tpdu : (num : ℕ) (chunk : List ℕ) → length (data_tpdu num chunk) ≡ length chunk + 3
unfolding data_tpdu
length-data_tpdu num chunk = omega arith

-- One round of `Send`.
pub write_one :
    (p : List ℕ) (c : Conn)
    → length p ≤ 65531
    → 0 < c.rw.accepts
    → write_tpdu p c
      ≡ ok (record c {
        rw = record {
          input = c.rw.input;
          output = c.rw.output ++ frame p;
          accepts = c.rw.accepts - 1;
        };
      })
unfolding write_tpdu
write_one p c h k =
    rw (
      write_packet_cases p c.rw,
      le→ltb 65531 (length p) h,
      ==_ne c.rw.accepts 0 (λ e. omega arith),
    )

send_last :
    (fuel m : ℕ) (tsdu : List ℕ) (c : Conn)
    → length tsdu ≤ m
    → send_loop (suc fuel) m tsdu c ≡ write_tpdu (data_tpdu eot tsdu) c
unfolding send_loop
send_last fuel m tsdu c h =
    let e : leb (length tsdu) m ≡ true = ground arith in
    rw (e, take_all m tsdu h) (bind-ok (write_tpdu (data_tpdu eot tsdu) c))

send_more :
    (fuel m : ℕ) (tsdu : List ℕ) (c c' : Conn)
    → m < length tsdu
    → write_tpdu (data_tpdu 0 (take m tsdu)) c ≡ ok c'
    → send_loop (suc fuel) m tsdu c ≡ send_loop fuel m (drop m tsdu) c'
unfolding send_loop
send_more fuel m tsdu c c' h w = let e : leb (length tsdu) m ≡ false = ground arith in rw (e, w)

pub tpdus_last :
    (fuel m : ℕ) (tsdu : List ℕ)
    → length tsdu ≤ m
    → tpdus (suc fuel) m tsdu ≡ data_tpdu eot tsdu ∷ []
unfolding tpdus
tpdus_last fuel m tsdu h = ground arith

pub tpdus_more :
    (fuel m : ℕ) (tsdu : List ℕ)
    → m < length tsdu
    → tpdus (suc fuel) m tsdu ≡ data_tpdu 0 (take m tsdu) ∷ tpdus fuel m (drop m tsdu)
unfolding tpdus
tpdus_more fuel m tsdu h = ground arith

pub le-cases : (a b : ℕ) → (a ≤ b) ⊎ (b < a)
le-cases a b = omega arith

-- What `send_loop` has written, if every segment fits a frame and no write fails.
abbrev Sent : ℕ → ℕ → List ℕ → Conn → Type 0
Sent fuel m tsdu c =
    (s : Stream) × (send_loop fuel m tsdu c ≡ ok (record c { rw = s }))
    × (s.output ≡ c.rw.output ++ wire (tpdus fuel m tsdu))
    × (s.input ≡ c.rw.input)

pub send_loop-wire :
    (fuel m : ℕ) (tsdu : List ℕ) (c : Conn)
    → 0 < m
    → m ≤ 65528
    → length tsdu < fuel
    → fuel ≤ c.rw.accepts
    → Sent fuel m tsdu c
unfolding wire
send_loop-wire zero m tsdu c hm hf hl ha = elim hl [ ]
send_loop-wire (suc fuel) m tsdu c hm hf hl ha = elim (le-cases (length tsdu) m) [
  | inl short ↦ (
    record {
      input = c.rw.input;
      output = c.rw.output ++ frame (data_tpdu eot tsdu);
      accepts = c.rw.accepts - 1;
    },
    send_last fuel m tsdu c short
        ∙ write_one (data_tpdu eot tsdu) c (omega (arith, length-data_tpdu eot tsdu)) (omega arith),
    rw (tpdus_last fuel m tsdu short, append-nil (frame (data_tpdu eot tsdu))),
    refl,
  )
  | inr long ↦
      let p = data_tpdu 0 (take m tsdu) in
      let size = length-data_tpdu 0 (take m tsdu) in
      let cut = length-take m tsdu (omega arith) in
      let c' : Conn = record c {
        rw = record {
          input = c.rw.input;
          output = c.rw.output ++ frame p;
          accepts = c.rw.accepts - 1;
        };
      } in
      let (s, sent, out, inp) =
        send_loop-wire fuel m (drop m tsdu) c' hm hf (omega (arith, length-drop m tsdu))
          (omega arith) in
      (
        s,
        send_more fuel m tsdu c c' long (write_one p c (omega arith) (omega arith)) ∙ sent,
        out ∙ rw (tpdus_more fuel m tsdu long, append_assoc c.rw.output (frame p)),
        inp,
      )
]

-- The octets on the stream are more than those of the TSDU, and no TPDU is longer than it may be.
pub tpdus_bounds :
    (fuel m : ℕ) (tsdu : List ℕ)
    → 0 < m
    → length tsdu < fuel
    → (length tsdu ≤ length (wire (tpdus fuel m tsdu)))
      × All (λ p. length p ≤ m + 3) (tpdus fuel m tsdu)
unfolding wire
tpdus_bounds zero m tsdu hm hl = elim hl [ ]
tpdus_bounds (suc fuel) m tsdu hm hl = elim (le-cases (length tsdu) m) [
  | inl short ↦
      let p = data_tpdu eot tsdu in
      rw (tpdus_last fuel m tsdu short) (
        omega (arith, length-append (frame p) [], length-frame p, length-data_tpdu eot tsdu),
        (omega (arith, length-data_tpdu eot tsdu), tt),
      )
  | inr long ↦
      let chunk = take m tsdu in
      let p = data_tpdu 0 chunk in
      let rest = tpdus fuel m (drop m tsdu) in
      let cut = length-take m tsdu (omega arith) in
      let later = length-drop m tsdu in
      let (more, small) = tpdus_bounds fuel m (drop m tsdu) hm (omega arith) in
      rw (tpdus_more fuel m tsdu long) (
        omega
            (arith, length-append (frame p) (wire rest), length-frame p, length-data_tpdu 0 chunk),
        (omega (arith, length-data_tpdu 0 chunk), small),
      )
]
