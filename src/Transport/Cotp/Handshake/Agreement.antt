-- ===== src/Transport/Cotp/Handshake/Agreement.antt =====
-- Both ends of a handshake come to the same terms.
use go_iec.Base.{ℕ, ◌-◌, ◌^◌, ◌≤◌, ◌<◌, ◌≡◌, refl, sym, List, ◌++◌, ◌⊎◌, inl, inr, ok, arith}
use go_iec.Transport.{Stream}
use go_iec.Transport.Cotp.{Conn}
use go_iec.Transport.Cotp.Handshake.{Options, connecting, connect, accept}
use go_iec.Transport.Cotp.Handshake.Ends.{
  IsOptions, code_range, cr_frame, cc_frame, accepted, called, accept_all, connect_all,
  connecting_terms, connecting_selectors,
}

-- Two ends that agree: on the TPDU size, within the range of class 0, and on whose selectors and
-- references are whose.
pub record Agree (cli srv : Conn) : Type 0 where
  pub same_size : cli.max_tpdu ≡ srv.max_tpdu
  pub size_low : 128 ≤ cli.max_tpdu
  pub size_high : cli.max_tpdu ≤ 2048
  pub called_selector : srv.src_tsap ≡ cli.dst_tsap
  pub calling_selector : srv.dst_tsap ≡ cli.src_tsap
  pub calling_ref : srv.dst_ref ≡ cli.src_ref
  pub called_ref : cli.dst_ref ≡ srv.src_ref

size_range : (k : ℕ) → 7 ≤ k → k ≤ 11 → (128 ≤ 2 ^ k) × (2 ^ k ≤ 2048)
size_range k h l =
    let j : (k ≡ 7) ⊎ ((k ≡ 8) ⊎ ((k ≡ 9) ⊎ ((k ≡ 10) ⊎ (k ≡ 11)))) = omega arith in
    elim j [
      | inl e ↦ rw e (omega arith)
      | inr (inl e) ↦ rw e (omega arith)
      | inr (inr (inl e)) ↦ rw e (omega arith)
      | inr (inr (inr (inl e))) ↦ rw e (omega arith)
      | inr (inr (inr (inr e))) ↦ rw e (omega arith)
    ]

-- `Connect` and `Accept` on the two ends of a stream, with selectors of 1 to 32 octets and writes that
-- succeed: `cr` and `cc` are what each end sends the other, both ends return a connection, read nothing
-- behind the handshake, and agree.
pub handshake :
    (opts : Options) (src dst more more' : List ℕ) (client server : Stream)
    → IsOptions opts src dst
    → 0 < client.accepts
    → 0 < server.accepts
    → (cr : List ℕ) × (cc : List ℕ) × (cli : Conn) × (srv : Conn) × (connect opts
          (record client { input = cc ++ more })
        ≡ ok cli)
      × (accept (record server { input = cr ++ more' }) ≡ ok srv)
      × (cli.rw.output ≡ client.output ++ cr)
      × (srv.rw.output ≡ server.output ++ cc)
      × (cli.rw.input ≡ more)
      × (srv.rw.input ≡ more')
      × Agree cli srv
unfolding called accepted connecting
handshake opts src dst more more' client server h hc hs =
    let (k, _) = connecting opts client in
    let (low, high) = code_range opts client in
    let (small, large) = size_range k low high in
    let cr = cr_frame k src dst in
    let cc = cc_frame k src dst in
    let s : Stream = record client { input = cc ++ more } in
    let (ref, size) = connecting_terms opts s in
    let (own, other) = connecting_selectors opts src dst s h in
    let c = called opts src dst s in
    (
      cr,
      cc,
      record c {
        rw = record { input = more; output = client.output ++ cr; accepts = client.accepts - 1 };
        dst_ref = 1;
        max_tpdu = 2 ^ k;
      },
      record (accepted server more' k src dst) {
        rw = record { input = more'; output = server.output ++ cc; accepts = server.accepts - 1 };
      },
      connect_all opts src dst more s h hc refl,
      accept_all k src dst more' server low high h.src_selector h.dst_selector hs,
      refl,
      refl,
      refl,
      refl,
      record {
        same_size = refl;
        size_low = small;
        size_high = large;
        called_selector = sym other;
        calling_selector = sym own;
        calling_ref = sym ref;
        called_ref = refl;
      },
    )
