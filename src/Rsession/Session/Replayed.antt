-- ===== src/Rsession/Session/Replayed.antt =====
-- An SPDU that comes again from its sender.
use go_iec.Base.{
  ℤ, pos, ℕ, ◌*◌, ◌%◌, ◌^◌, ◌≤◌, ◌<◌, ◌≡◌, refl, ap, ◌∙◌, inl, inr, Bool, true, false, not, ◌||◌,
  Bool-cases, Option-cases, bit_and, bit_or, some, List, equal_bytes_refl, ltb, leb, ◌==◌, if-cases,
  ok, err, arith,
}
use go_iec.Base.Digits.{digit, digit_bound, digit-or, digit-one, digit-pow, bit_and-pow}
use go_iec.Base.Maps.{lookup, insert, lookup-insert}
use go_iec.Rsession.Replay.{
  ReplayWindow, new_window, accept, diff_bits, behind, one_shl, starts, is_ahead, seen_ahead,
}
use go_iec.Rsession.Spdu.{Crypto, Spdu}
use go_iec.Rsession.Spdu.Reading.{unmarshal}
use go_iec.Rsession.Session.{
  Config, Session, replayed_spdu, stream_key, windows, fresh, check_fresh, check_spdu, check,
}

-- The number `n` stands in the bitmap, and the sender was last heard at `now`.
record IsSeen (n now size : ℕ) (w : ReplayWindow) : Type 0 where
  at_last : w.last ≡ now
  has_begun : w.primed ≡ true
  age : behind (diff_bits n w.top) < size
  bit : digit (behind (diff_bits n w.top)) w.seen ≡ 1
  not_ahead : is_ahead (diff_bits n w.top) ≡ false

newest : (n : ℕ) → n < 2 ^ 32 → diff_bits n n ≡ 0
newest n h = omega arith

seen_newest :
    (n now size : ℕ) (w : ReplayWindow)
    → n < 2 ^ 32
    → 0 < size
    → digit 0 w.seen ≡ 1
    → w.top ≡ n
    → w.last ≡ now
    → w.primed ≡ true
    → IsSeen n now size w
seen_newest n now size w range some_size bit top last begun =
    let zero_diff : diff_bits n w.top ≡ 0 = rw top (newest n range) in
    record {
      at_last = last;
      has_begun = begun;
      age = rw zero_diff some_size;
      bit = rw zero_diff bit;
      not_ahead = rw zero_diff refl;
    }

digit-seen_ahead : (seen diff : ℕ) → digit 0 (seen_ahead seen diff) ≡ 1
digit-seen_ahead seen diff =
    if-cases (λ (x : ℕ). digit 0 x ≡ 1) (leb 64 diff) _ _ (λ e. digit-one 0)
      (λ e.
        rw (digit-or 0 (seen * 2 ^ diff % 2 ^ 64) 1, digit-one 0)
          (omega (arith, digit_bound 0 (seen * 2 ^ diff % 2 ^ 64))))

digit-one_shl : (seen off : ℕ) → off < 64 → digit off (bit_or seen (one_shl off)) ≡ 1
digit-one_shl seen off h =
    let inside : ltb off 64 ≡ true = ground arith in
    let self : (off == off) ≡ true = ground arith in
    rw (inside, digit-or off seen (2 ^ off), digit-pow off off, self)
      (omega (arith, digit_bound off seen))

accept-IsSeen :
    (w : ReplayWindow) (n now size : ℕ) (reset : ℤ)
    → n < 2 ^ 32
    → 0 < size
    → size ≤ 64
    → (accept w n now size reset).0 ≡ true
    → IsSeen n now size (accept w n now size reset).1
unfolding accept
accept-IsSeen w n now size reset range some_size few =
    let P = λ (p : Bool × ReplayWindow). p.0 ≡ true → IsSeen n now size p.1 in
    let diff = diff_bits n w.top in
    let off = behind diff in
    if-cases P (starts w.primed w.last now reset) _ _
      (λ e h. seen_newest n now size _ range some_size (digit-one 0) refl refl refl)
      (λ e.
        let begun : w.primed ≡ true = ground (arith, e) in
        if-cases P (is_ahead diff) _ _
          (λ f h.
            seen_newest n now size _ range some_size (digit-seen_ahead w.seen diff) refl refl begun)
          (λ f.
            if-cases P (leb size off || not (bit_and w.seen (one_shl off) == 0)) _ _ (λ g h. cc)
              (λ g h. record {
                at_last = refl;
                has_begun = begun;
                age = ground (arith, g);
                bit = digit-one_shl w.seen off (ground (arith, g));
                not_ahead = f;
              })))

-- The number is refused when it comes again and the sender may not start again.
accept_again :
    (w : ReplayWindow) (n now now' size : ℕ) (reset : ℤ)
    → IsSeen n now size w
    → size ≤ 64
    → starts true now now' reset ≡ false
    → accept w n now' size reset ≡ (false, w)
unfolding accept
accept_again w n now now' size reset seen few still =
    let off = behind (diff_bits n w.top) in
    let inside : ltb off 64 ≡ true = ground (arith, seen.age) in
    let tested : (bit_and w.seen (2 ^ off) == 0) ≡ false =
      bit_and-pow off w.seen ∙ ap (λ (d : ℕ). d == 0) seen.bit in
    let again : starts w.primed w.last now' reset ≡ false =
      rw (seen.has_begun, seen.at_last) still in
    let refused : (leb size off || not (bit_and w.seen (one_shl off) == 0)) ≡ true =
      rw (inside, tested) (ground arith) in
    rw (again, seen.not_ahead, refused)

-- A stream whose window has seen the number.
IsHeard : ℕ → List ℕ → Spdu → ℕ → Session → Type 0
IsHeard size from spdu now s =
    (w : ReplayWindow) × (lookup (stream_key from spdu) s.replay ≡ some w)
    × IsSeen spdu.number now size w

fresh-IsHeard :
    (size : ℕ) (from : List ℕ) (spdu : Spdu) (now : ℕ) (s : Session)
    → spdu.number < 2 ^ 32
    → 0 < size
    → size ≤ 64
    → (fresh size from spdu now s).0 ≡ true
    → IsHeard size from spdu now (fresh size from spdu now s).1
unfolding fresh IsHeard
fresh-IsHeard size from spdu now s range some_size few =
    let k = stream_key from spdu in
    elim (Option-cases (lookup k s.replay)) [
      | inl e ↦ rw e (heard new_window (windows now s.cfg.replay_reset s.replay))
      | inr (w, e) ↦ rw e (heard w s.replay)
    ]
  where
    heard :
        (w : ReplayWindow) (m : List (List ℕ × ReplayWindow))
        → (accept w spdu.number now size s.cfg.replay_reset).0 ≡ true
        → (w' : ReplayWindow) × (lookup
              (stream_key from spdu)
              (insert (stream_key from spdu) (accept w spdu.number now size s.cfg.replay_reset).1 m)
            ≡ some w')
          × IsSeen spdu.number now size w'
    heard w m h = (
      (accept w spdu.number now size s.cfg.replay_reset).1,
      rw (
        lookup-insert (stream_key from spdu) (stream_key from spdu) _ m,
        equal_bytes_refl (stream_key from spdu),
      ),
      accept-IsSeen w spdu.number now size s.cfg.replay_reset range some_size few h,
    )

fresh_again :
    (size : ℕ) (from : List ℕ) (spdu : Spdu) (now now' : ℕ) (s : Session)
    → IsHeard size from spdu now s
    → size ≤ 64
    → starts true now now' s.cfg.replay_reset ≡ false
    → (fresh size from spdu now' s).0 ≡ false
unfolding fresh IsHeard
fresh_again size from spdu now now' s (w, found, seen) few still =
    rw (found, accept_again w spdu.number now now' size s.cfg.replay_reset seen few still)

cfg-fresh :
    (size : ℕ) (from : List ℕ) (spdu : Spdu) (now : ℕ) (s : Session)
    → (fresh size from spdu now s).1.cfg ≡ s.cfg
unfolding fresh
cfg-fresh size from spdu now s = refl

check_fresh-ok :
    (size : ℕ) (from : List ℕ) (spdu : Spdu) (now : ℕ) (s : Session)
    → 0 < size
    → (fresh size from spdu now s).0 ≡ true
    → check_fresh (pos size) from spdu now s ≡ (ok spdu, (fresh size from spdu now s).1)
unfolding check_fresh
check_fresh-ok size from spdu now s some_size h =
    let positive : (size == 0) ≡ false = ground arith in rw (positive, h)

check_fresh-err :
    (size : ℕ) (from : List ℕ) (spdu : Spdu) (now : ℕ) (s : Session)
    → 0 < size
    → (fresh size from spdu now s).0 ≡ false
    → (check_fresh (pos size) from spdu now s).0 ≡ err replayed_spdu
unfolding check_fresh
check_fresh-err size from spdu now s some_size h =
    let positive : (size == 0) ≡ false = ground arith in rw (positive, h)

-- A fresh SPDU leaves a session that refuses it.
check_fresh_again :
    (size : ℕ) (from : List ℕ) (spdu : Spdu) (now now' : ℕ) (s : Session)
    → 0 < size
    → size ≤ 64
    → spdu.number < 2 ^ 32
    → starts true now now' s.cfg.replay_reset ≡ false
    → (check_fresh (pos size) from spdu now s).0 ≡ ok spdu
    → ((check_fresh (pos size) from spdu now s).1.cfg ≡ s.cfg)
      × ((check_fresh (pos size) from spdu now' (check_fresh (pos size) from spdu now s).1).0
          ≡ err replayed_spdu)
check_fresh_again size from spdu now now' s some_size few range still h =
    elim (Bool-cases (fresh size from spdu now s).0) [
      | inr e ↦ absurd (ground (arith, h, check_fresh-err size from spdu now s some_size e))
      | inl e ↦
          let s' = (fresh size from spdu now s).1 in
          let same = cfg-fresh size from spdu now s in
          rw (check_fresh-ok size from spdu now s some_size e) (
            same,
            check_fresh-err size from spdu now' s' some_size (
                fresh_again size from spdu now now' s'
                  (fresh-IsHeard size from spdu now s range some_size few e) few
                  (ap (λ (c : Config). starts true now now' c.replay_reset) same ∙ still)),
          )
    ]

check-secured :
    (crypto : Crypto) (b from : List ℕ) (now : ℕ) (s : Session) (spdu : Spdu) (size : ℕ)
    → unmarshal crypto b s.cfg.keys ≡ ok spdu
    → (spdu.key_id == 0) ≡ false
    → s.cfg.replay_window ≡ pos size
    → check crypto b from now s ≡ check_fresh (pos size) from spdu now s
unfolding check check_spdu
check-secured crypto b from now s spdu size e f window =
    ap (λ r. check_spdu r from now s) e
    ∙ if-cases (λ x. x ≡ check_fresh (pos size) from spdu now s) (spdu.key_id == 0) _ _ (λ g. cc)
        (λ g. ap (λ z. check_fresh z from spdu now s) window)

-- With a replay window of 1 to 64 numbers: if the datagram that a session takes directly after it has
-- accepted a secured SPDU from a sender has the same octets and the same sender, it is refused as a
-- replay, unless the time since is one at which `ReplayReset` starts the window afresh (`starts`).
pub check_again :
    (crypto : Crypto) (b from : List ℕ) (size now now' : ℕ) (s : Session) (spdu : Spdu)
    → s.cfg.replay_window ≡ pos size
    → 0 < size
    → size ≤ 64
    → unmarshal crypto b s.cfg.keys ≡ ok spdu
    → spdu.number < 2 ^ 32
    → (spdu.key_id == 0) ≡ false
    → (check crypto b from now s).0 ≡ ok spdu
    → starts true now now' s.cfg.replay_reset ≡ false
    → (check crypto b from now' (check crypto b from now s).1).0 ≡ err replayed_spdu
check_again crypto b from size now now' s spdu window some_size few e range f h still =
    let first = check-secured crypto b from now s spdu size e f window in
    let s' = (check_fresh (pos size) from spdu now s).1 in
    let (cfg, refused) =
      check_fresh_again size from spdu now now' s some_size few range still (rw first at h) in
    let second =
      check-secured crypto b from now' s' spdu size
        (ap (λ (c : Config). unmarshal crypto b c.keys) cfg ∙ e) f
        (ap (λ (c : Config). c.replay_window) cfg ∙ window) in
    rw (first, second) refused
