-- ===== src/Rsession/Spdu/Authentic.antt =====
-- What an SPDU that `Unmarshal` accepted was checked against.
use go_iec.Base.{
  ℕ, ◌+◌, ◌-◌, ◌≡◌, ◌⊎◌, inl, inr, refl, sym, ap, ◌∙◌, Bool, true, false, not, ◌||◌, Bool-cases,
  Result-cases, Option, none, some, List, [], ◌∷◌, ◌++◌, append_assoc, length, length-take, take,
  drop, take-append-drop, equal_bytes, equal_bytes→eq, ltb, ◌==◌, if◌then◌else◌, if-cases, Result,
  ok, err, ok-injective, guard-ok, ◌>>=◌, arith,
}
use go_iec.Rsession.Keys.{Key, KeyStore, sec_none, mac_len, find}
use go_iec.Rsession.Spdu.{
  Crypto, Spdu, Error, malformed, authentication, compute_mac, is_aes_key, cipher, panicked,
  tag_signature,
}
use go_iec.Rsession.Spdu.RoundTrip.{cut_back}
use go_iec.Rsession.Spdu.Reading.{
  Reader, u32, read_front, read_security, skip_padding, read_tag, read_payloads, verify, verify_any,
  unmarshal,
}
use go_iec.Rsession.Spdu.Readers.{
  At, Gives, unless, gives, read_bytes-At, read_front-At, Secures, read_security-IsSecured,
}

-- The trailer behind the padding ends as the trailer does.
skip_padding-suffix :
    (trailer rest : List ℕ)
    → skip_padding trailer ≡ ok rest
    → (padding : List ℕ) × (trailer ≡ padding ++ rest)
unfolding skip_padding
skip_padding-suffix [] rest h = ([], ok-injective h)
skip_padding-suffix (t ∷ []) rest h = ([], ok-injective h)
skip_padding-suffix (t ∷ n ∷ tail) rest h = elim (Bool-cases (t == 0xAF)) [
  | inl e ↦
      let padded : (if ltb (length tail) n then err malformed else ok (drop n tail)) ≡ ok rest =
        rw e at h in
      let (_, same) = guard-ok (ltb (length tail) n) malformed _ padded in
      (t ∷ n ∷ take n tail, rw (← ok-injective same, take-append-drop n tail))
  | inr e ↦ let same : ok (t ∷ n ∷ tail) ≡ ok rest = rw e at h in ([], ok-injective same)
]

read_tag-split :
    (rest tag : List ℕ)
    → read_tag rest ≡ ok tag
    → (remainder : List ℕ) × (rest ≡ tag_signature ∷ length tag ∷ (tag ++ remainder))
unfolding read_tag
read_tag-split [] tag h = cc
read_tag-split (t ∷ []) tag h = cc
read_tag-split (t ∷ n ∷ tail) tag h =
    let (e, h1) = guard-ok (not (t == tag_signature)) authentication _ h in
    let (f, h2) = guard-ok (ltb (length tail) n) malformed _ h1 in
    let same : take n tail ≡ tag = ok-injective h2 in
    let size : length tag ≡ n = rw (← same) (length-take n tail (ground (arith, f))) in
    let start : t ≡ tag_signature = ground (arith, e) in
    (drop n tail, rw (start, size, ← same, take-append-drop n tail))

-- A tag of the key's algorithm stands behind the octets `covered`, and is their authentication code.
pub record IsSigned (crypto : Crypto) (k : Key) (b head user : List ℕ) : Type 0 where
  pub padding : List ℕ
  pub remainder : List ℕ
  pub signs_key : (k.sec == sec_none) ≡ true
  pub octets :
      let covered = head ++ (user ++ padding) in
      b ≡ covered ++ (tag_signature ∷ mac_len k.sig ∷ (compute_mac crypto k covered ++ remainder))

-- A tag stands behind the user data, and the cipher opens both to `plain`.
pub record IsSealed (crypto : Crypto) (k : Key) (b head user plain : List ℕ) : Type 0 where
  pub iv : List ℕ
  pub padding : List ℕ
  pub tag : List ℕ
  pub remainder : List ℕ
  pub encrypts_key : (k.sec == sec_none) ≡ false
  pub octets : b ≡ (head ++ (user ++ padding)) ++ (tag_signature ∷ 16 ∷ (tag ++ remainder))
  pub opens : crypto.open_sealed k.material iv (user ++ tag) head ≡ some plain

abbrev Verified : Crypto → Key → List ℕ → List ℕ → List ℕ → List ℕ → Bool → Bool → Type 0
Verified crypto k b head user plain signed encrypted =
    (IsSigned crypto k b head user × (plain ≡ user) × (signed ≡ true) × (encrypted ≡ false))
    ⊎ (IsSealed crypto k b head user plain × (signed ≡ false) × (encrypted ≡ true))

past :
    {A : Type 0} (P : A → Type 0) (b : Bool) (e : Error) (r : Result Error A)
    → (b ≡ false → Gives P r)
    → Gives P (if b then err e else r)
past P true e r h = tt
past P false e r h = h refl

opened-Gives :
    (P : List ℕ × Bool × Bool → Type 0) (o : Option (List ℕ))
    → ((plain : List ℕ) → o ≡ some plain → P (plain, false, true))
    → Gives P (elim o [ none ↦ err authentication | some plain ↦ ok (plain, false, true) ])
opened-Gives P none h = tt
opened-Gives P (some plain) h = h plain refl

verify-Verified :
    (crypto : Crypto) (k : Key) (iv b head user trailer : List ℕ)
    → b ≡ head ++ (user ++ trailer)
    → Gives
        (λ (p : List ℕ × Bool × Bool). Verified crypto k b head user p.0 p.1 p.2)
        (verify crypto k iv b head user trailer)
unfolding verify
verify-Verified crypto k iv b head user trailer whole =
    let P = λ (p : List ℕ × Bool × Bool). Verified crypto k b head user p.0 p.1 p.2 in
    elim (Result-cases (skip_padding trailer)) [
      | inr (x, e) ↦ rw e tt
      | inl (rest, e) ↦ elim (Result-cases (read_tag rest)) [
        | inr (x, f) ↦ rw (e, f) tt
        | inl (tag, f) ↦
            let (padding, back) = skip_padding-suffix trailer rest e in
            let (remainder, split) = read_tag-split rest tag f in
            let covered = head ++ (user ++ padding) in
            let octets : b ≡ covered ++ rest = rw (
              whole,
              back,
              append_assoc head (user ++ padding) rest,
              append_assoc user padding rest,
            ) in
            let cut : take (length b - length rest) b ≡ covered =
              rw octets (cut_back covered rest) in
            let shape = octets ∙ ap (λ xs. covered ++ xs) split in
            rw (e, f)
              (if-cases (Gives P) (not (k.sec == sec_none)) _ _
                (λ g. past P (not (length tag == 16)) authentication _ (λ n.
                  unless P (not (is_aes_key k.material)) cipher _ (
                    unless P (not (length iv == 12)) panicked _ (
                      opened-Gives P (crypto.open_sealed k.material iv (user ++ tag) head)
                        (λ plain opens. inr (
                          record {
                            iv = iv;
                            padding = padding;
                            tag = tag;
                            remainder = remainder;
                            encrypts_key = ground (arith, g);
                            octets =
                                shape
                                ∙ ap (λ m. covered ++ (tag_signature ∷ m ∷ (tag ++ remainder)))
                                    (ground (arith, n));
                            opens = opens;
                          },
                          refl,
                          refl,
                        ))))))
                (λ g. past P (not (length tag == mac_len k.sig)) authentication _ (λ n.
                  past P
                    (not (equal_bytes tag (compute_mac crypto k (take (length b - length rest) b))))
                    authentication _
                    (λ m. inl (
                      record {
                        padding = padding;
                        remainder = remainder;
                        signs_key = ground (arith, g);
                        octets =
                            shape
                            ∙ ap (λ l. covered ++ (tag_signature ∷ l ∷ (tag ++ remainder)))
                                (ground (arith, n))
                            ∙ ap
                                (λ t. covered ++ (tag_signature ∷ mac_len k.sig ∷ (t ++ remainder)))
                                (equal_bytes→eq tag _ (ground (arith, m))
                                  ∙ ap (compute_mac crypto k) cut);
                      },
                      refl,
                      refl,
                      refl,
                    )))))
      ]
    ]

-- What `Unmarshal` checked `b` against to accept it as `s`.
abbrev pub Accepted : Crypto → Option KeyStore → List ℕ → Spdu → Type 0
Accepted crypto keys b s =
    ((s.key_id ≡ 0) × (s.signed ≡ false) × (s.encrypted ≡ false))
    ⊎ ((k : Key) × (head : List ℕ) × (user : List ℕ) × (plain : List ℕ) × (find keys s.key_id
          ≡ some k)
        × Verified crypto k b head user plain s.signed s.encrypted
        × (read_payloads (length plain + 1) plain ≡ ok s.payloads))

bind-Gives :
    {A B : Type 0} (Q : B → Type 0) (m : Result Error A) (f : A → Result Error B)
    → ((a : A) → m ≡ ok a → Gives Q (f a))
    → Gives Q (m >>= f)
bind-Gives Q (ok a) f h = h a refl
bind-Gives Q (err e) f h = tt

any-Accepted :
    (crypto : Crypto) (keys : Option KeyStore) (b head user trailer iv : List ℕ) (s : Spdu) (id : ℕ)
    (key : Option Key)
    → b ≡ head ++ (user ++ trailer)
    → ((id ≡ 0) × (key ≡ none)) ⊎ ((k : Key) × (key ≡ some k) × (find keys id ≡ some k))
    → Gives (Accepted crypto keys b) (do
      (plain, signed, encrypted) ← verify_any crypto key iv b head user trailer
      ps ← read_payloads (length plain + 1) plain
      ok (record s { key_id = id; payloads = ps; signed = signed; encrypted = encrypted }))
any-Accepted crypto keys b head user [] iv s id key whole (inl (zero_id, e)) = rw e (
    bind-Gives (Accepted crypto keys b) (read_payloads (length user + 1) user) _
      (λ ps h. inl (zero_id, refl, refl)))
any-Accepted crypto keys b head user (t ∷ trailer) iv s id key whole (inl (zero_id, e)) = rw e tt
any-Accepted crypto keys b head user trailer iv s id key whole (inr (k, e, held)) =
    let Q = Accepted crypto keys b in
    rw e (
      bind-Gives Q (verify crypto k iv b head user trailer) _ (λ p h.
        bind-Gives Q (read_payloads (length p.0 + 1) p.0) _ (λ ps read. inr (
          k,
          head,
          user,
          p.0,
          held,
          gives (λ (q : List ℕ × Bool × Bool). Verified crypto k b head user q.0 q.1 q.2) _ p
              (verify-Verified crypto k iv b head user trailer whole) h,
          read,
        ))))

At-whole :
    (b : List ℕ) (r : Reader) (n : ℕ)
    → At b r
    → b ≡ take r.off b ++ (take n r.rest ++ drop n r.rest)
unfolding At
At-whole b r n h =
    sym (take-append-drop r.off b)
    ∙ ap (λ (xs : List ℕ). take r.off b ++ xs) (h ∙ sym (take-append-drop n r.rest))

unmarshal-Gives :
    (crypto : Crypto) (keys : Option KeyStore) (b : List ℕ)
    → Gives (Accepted crypto keys b) (unmarshal crypto b keys)
unfolding unmarshal Secures
unmarshal-Gives crypto keys b =
    let Q = Accepted crypto keys b in
    bind-Gives Q (read_front b) _ (λ p e.
      let at = gives (λ (q : Spdu × Reader). At b q.1) _ p (read_front-At b) e in
      bind-Gives Q (read_security keys p.0.version p.1) _ (λ q f.
        let secured =
          gives (Secures keys b) _ q (read_security-IsSecured keys b p.0.version p.1 at) f in
        let r = (u32 q.3).1 in
        let n = (u32 q.3).0 in
        unless Q (r.short || ltb (length r.rest) n) malformed _ (
          any-Accepted crypto keys b (take r.off b) (take n r.rest) (drop n r.rest) q.2 p.0 q.0 q.1
            (At-whole b r n (read_bytes-At b 4 q.3 secured.at)) secured.held)))

-- An SPDU that `Unmarshal` accepts names no key, and is then neither signed nor encrypted; or it names
-- one that the store holds, and either it is signed, a tag in `b` being the authentication code under
-- that key of all the octets before it, among them the user data that its payloads were read from,
-- or it is encrypted, the cipher having opened under that key the user data with the tag behind it, and
-- with all the octets before it, to what its payloads were read from.
pub unmarshal-Accepted :
    (crypto : Crypto) (keys : Option KeyStore) (b : List ℕ) (s : Spdu)
    → unmarshal crypto b keys ≡ ok s
    → Accepted crypto keys b s
unmarshal-Accepted crypto keys b s h =
    gives (Accepted crypto keys b) _ s (unmarshal-Gives crypto keys b) h
