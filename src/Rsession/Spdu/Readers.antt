-- ===== src/Rsession/Spdu/Readers.antt =====
-- The reader of an SPDU stays within its octets, and a key is the one of its identifier.
use go_iec.Base.{
  ℕ, zero, suc, ◌≡◌, ◌⊎◌, inl, inr, refl, sym, ap, ◌∙◌, Bool, true, false, not, ◌&&◌, ◌||◌,
  Option-cases, Option, none, some, List, [], ◌∷◌, drop, drop-drop, ◌==◌, if◌then◌else◌, if-cases,
  Result, ok, err, arith,
}
use go_iec.Rsession.Keys.{Key, KeyStore, sec_none, sig_none, find}
use go_iec.Rsession.Spdu.{Spdu, Error, malformed, unknown_key, algorithm}
use go_iec.Rsession.Spdu.Reading.{
  Reader, split_at, read_bytes, u8, u16, u32, read_front, read_security, read_security_1,
  read_security_2,
}

-- The reader stands in `b`.
unfoldable pub At : List ℕ → Reader → Type 0
At b r = drop r.off b ≡ r.rest

abbrev back_of : Option (List ℕ × List ℕ) → List ℕ
back_of none = []
back_of (some (front, back)) = back

split_at-drop :
    (n : ℕ) (bs front back : List ℕ) → split_at n bs ≡ some (front, back) → drop n bs ≡ back
split_at-drop zero bs front back h = ap back_of h
split_at-drop (suc n) [] front back h = cc
split_at-drop (suc n) (b ∷ bs) front back h = elim (Option-cases (split_at n bs)) [
  | inl e ↦ absurd (ground (arith, e, h))
  | inr ((f, r), e) ↦
      let same : some (b ∷ f, r) ≡ some (front, back) = rw e at h in
      split_at-drop n bs f r e ∙ ap back_of same
]

pub read_bytes-At : (b : List ℕ) (n : ℕ) (r : Reader) → At b r → At b (read_bytes n r).1
unfolding At
read_bytes-At b n r h =
    if-cases (λ (p : List ℕ × Reader). At b p.1) r.short _ _ (λ e. h)
      (λ e. elim (Option-cases (split_at n r.rest)) [
        | inl f ↦ rw f h
        | inr ((front, back), f) ↦
            rw f (sym (drop-drop r.off n b) ∙ ap (drop n) h ∙ split_at-drop n r.rest front back f)
      ])

-- What holds of a result, if there is one.
abbrev pub Gives : {A : Type 0} → (A → Type 0) → Result Error A → Type 0
Gives P (ok a) = P a
Gives P (err e) = Unit {0}

pub unless :
    {A : Type 0} (P : A → Type 0) (b : Bool) (e : Error) (r : Result Error A)
    → Gives P r
    → Gives P (if b then err e else r)
unless P true e r h = tt
unless P false e r h = h

pub gives : {A : Type 0} (P : A → Type 0) (r : Result Error A) (a : A) → Gives P r → r ≡ ok a → P a
gives P r a h e = rw e at h

pub read_front-At : (b : List ℕ) → Gives (λ (p : Spdu × Reader). At b p.1) (read_front b)
unfolding read_front At
read_front-At b =
    let P = λ (p : Spdu × Reader). At b p.1 in
    let r0 : Reader = record { off = 0; rest = b; short = false } in
    let r1 = (u8 r0).1 in
    let r2 = (u8 r1).1 in
    let r3 = (u8 r2).1 in
    let r4 = (u8 r3).1 in
    let r5 = (u8 r4).1 in
    let r6 = (u8 r5).1 in
    let r7 = (u32 r6).1 in
    let r8 = (u32 r7).1 in
    let r9 = (u16 r8).1 in
    let r10 = (u32 r9).1 in
    let r11 = (u16 r10).1 in
    let at_si = read_bytes-At b 1 r2 (read_bytes-At b 1 r1 (read_bytes-At b 1 r0 refl)) in
    let at_header = read_bytes-At b 1 r5 (read_bytes-At b 1 r4 (read_bytes-At b 1 r3 at_si)) in
    let at_number = read_bytes-At b 4 r7 (read_bytes-At b 4 r6 at_header) in
    let at_end = read_bytes-At b 2 r10 (read_bytes-At b 4 r9 (read_bytes-At b 2 r8 at_number)) in
    unless P (not ((u8 r0).0 == 1) || not ((u8 r1).0 == 0x40)) malformed _
      (unless P (not ((u8 r4).0 == 0x80)) malformed _ (unless P r11.short malformed _ at_end))

-- The security information: the reader goes on in `b`, and a key is the one of its identifier.
pub record IsSecured (keys : Option KeyStore) (b : List ℕ) (id : ℕ) (key : Option Key) (r : Reader)
    : Type 0 where
  pub at : At b r
  pub held : ((id ≡ 0) × (key ≡ none)) ⊎ ((k : Key) × (key ≡ some k) × (find keys id ≡ some k))

unfoldable pub Secures : Option KeyStore → List ℕ → ℕ × Option Key × List ℕ × Reader → Type 0
Secures keys b (id, key, iv, r) = IsSecured keys b id key r

held-Gives :
    (P : ℕ × Option Key × List ℕ × Reader → Type 0) (o : Option Key)
    (f : Key → Result Error (ℕ × Option Key × List ℕ × Reader))
    → ((k : Key) → o ≡ some k → Gives P (f k))
    → Gives P (elim o [ none ↦ err unknown_key | some k ↦ f k ])
held-Gives P none f h = tt
held-Gives P (some k) f h = h k refl

read_security_1-IsSecured :
    (keys : Option KeyStore) (b : List ℕ) (r : Reader)
    → At b r
    → Gives (Secures keys b) (read_security_1 keys r)
unfolding read_security_1 Secures
read_security_1-IsSecured keys b r h =
    let P = Secures keys b in
    let r1 = (u8 r).1 in
    let r2 = (u8 r1).1 in
    let r3 = (u32 r2).1 in
    let id = (u32 r2).0 in
    let at_end = read_bytes-At b 4 r2 (read_bytes-At b 1 r1 (read_bytes-At b 1 r h)) in
    unless P r3.short malformed _ (
      if-cases (Gives P) (id == 0) _ _
        (λ e.
          unless P (not ((u8 r).0 == sec_none) || not ((u8 r1).0 == sig_none)) malformed _
            (record { at = at_end; held = inl (refl, refl) }))
        (λ e. held-Gives P (find keys id) _ (λ k found.
          unless P (not ((u8 r).0 == k.sec) || not ((u8 r1).0 == k.sig)) algorithm _
            (record { at = at_end; held = inr (k, refl, found) }))))

read_security_2-IsSecured :
    (keys : Option KeyStore) (b : List ℕ) (r : Reader)
    → At b r
    → Gives (Secures keys b) (read_security_2 keys r)
unfolding read_security_2 Secures
read_security_2-IsSecured keys b r h =
    let P = Secures keys b in
    let r1 = (u32 r).1 in
    let id = (u32 r).0 in
    let r2 = (u8 r1).1 in
    let iv_len = (u8 r1).0 in
    let r3 = (read_bytes iv_len r2).1 in
    let at_end = read_bytes-At b iv_len r2 (read_bytes-At b 1 r1 (read_bytes-At b 4 r h)) in
    unless P r3.short malformed _ (
      if-cases (Gives P) (id == 0) _ _ (λ e. record { at = at_end; held = inl (refl, refl) })
        (λ e. held-Gives P (find keys id) _ (λ k found.
          unless P (not (k.sec == sec_none) && not (iv_len == 12)) malformed _
            (record { at = at_end; held = inr (k, refl, found) }))))

pub read_security-IsSecured :
    (keys : Option KeyStore) (b : List ℕ) (version : ℕ) (r : Reader)
    → At b r
    → Gives (Secures keys b) (read_security keys version r)
unfolding read_security
read_security-IsSecured keys b version r h =
    let P = Secures keys b in
    if-cases (Gives P) (version == 1) _ _ (λ _. read_security_1-IsSecured keys b r h)
      (λ _.
        if-cases (Gives P) (version == 2) _ _ (λ _. read_security_2-IsSecured keys b r h) (λ _. tt))
