-- ===== src/Rsession/Spdu/RoundTrip.antt =====
-- `Unmarshal` reads back what `Marshal` wrote.
use go_iec.Base.{
  ℕ, zero, suc, ◌+◌, ◌-◌, ◌%◌, ◌^◌, ◌≤◌, ◌<◌, ◌≡◌, ◌⊎◌, inl, inr, refl, sym, ap, ◌∙◌, Bool, true,
  false, not, ◌&&◌, ◌||◌, Bool-cases, Option, none, some, List, [], ◌∷◌, ◌++◌, append_assoc,
  append-nil, length, length-append, length-take, length-drop, take, take_all, drop,
  take-length_append, drop-length_append, take-append-drop, All, equal_bytes, equal_bytes_refl, ltb,
  ◌==◌, if◌then◌else◌, ok, ◌>>=◌, arith,
}
use go_iec.Base.Words.{big_endian_16-octets}
use go_iec.Rsession.Keys.{Key, KeyStore, sec_none, mac_len, validate}
use go_iec.Rsession.Spdu.{
  Crypto, Payload, Spdu, append_payloads, user_len, header, protect, compute_mac, marshal,
  wire_version, encrypts, make_iv, check_key, is_aes_key, tag_signature,
}
use go_iec.Rsession.Spdu.Reading.{skip_padding, read_tag, read_payloads, verify, unmarshal}
use go_iec.Rsession.Spdu.Headers.{front, id_of, IsHeld, HasIv, user_part-header}

-- A payload within the ranges of its fields.
pub record IsPayload (p : Payload) : Type 0 where
  pub app_id_range : p.app_id < 2 ^ 16
  pub apdu_range : length p.apdu < 2 ^ 16

flag : (b : Bool) → not ((if b then 1 else 0) == 0) ≡ b
flag true = refl
flag false = refl

read_payloads-append_payloads :
    (ps : List Payload) (fuel : ℕ)
    → All IsPayload ps
    → length (append_payloads ps) < fuel
    → read_payloads fuel (append_payloads ps) ≡ ok ps
unfolding append_payloads read_payloads
read_payloads-append_payloads [] zero all h = absurd (omega arith)
read_payloads-append_payloads [] (suc fuel) all h = refl
read_payloads-append_payloads (p ∷ ps) zero all h = absurd (omega arith)
read_payloads-append_payloads (p ∷ ps) (suc fuel) (is, all) h =
    let n = length p.apdu in
    let rest = append_payloads ps in
    let count = length-append p.apdu rest in
    let small : n % 2 ^ 16 ≡ n = omega (arith, is.apdu_range) in
    let fits : ltb (length (p.apdu ++ rest)) n ≡ false = ground (arith, count) in
    rw
      (
        small,
        big_endian_16-octets p.app_id is.app_id_range,
        big_endian_16-octets n is.apdu_range,
        fits,
        take-length_append p.apdu rest,
        drop-length_append p.apdu rest,
        read_payloads-append_payloads ps fuel all (omega (arith, count)),
      )
      (ap (λ (b : Bool). ok (record p { simulation = b } ∷ ps)) (flag p.simulation))

user_len-append_payloads :
    (ps : List Payload) → All IsPayload ps → user_len ps ≡ ok (length (append_payloads ps))
unfolding user_len append_payloads
user_len-append_payloads [] all = refl
user_len-append_payloads (p ∷ ps) (is, all) =
    rw (user_len-append_payloads ps all)
      (ground (arith, is.apdu_range, length-append p.apdu (append_payloads ps)))

-- A key that can be used, or none.
abbrev IsUsable : Option Key → Type 0
IsUsable none = Unit {0}
IsUsable (some k) = validate k ≡ ok tt

check_key-ok :
    (key : Option Key) (version : ℕ)
    → IsUsable key
    → (version == 1 && encrypts key) ≡ false
    → check_key key version ≡ ok tt
check_key-ok none version h e = refl
check_key-ok (some k) version h e = rw (check_key, h, e)

make_iv-HasIv :
    (key : Option Key) (version : ℕ) (random : List ℕ)
    → length random ≡ 12
    → (version ≡ 1) ⊎ (version ≡ 2)
    → (version == 1 && encrypts key) ≡ false
    → (iv : List ℕ) × (make_iv key (some random) ≡ ok iv) × HasIv version key iv
make_iv-HasIv key version random size (inl one) e =
    let plain : encrypts key ≡ false = rw one at e in rw plain ([], refl, inl (one, refl))
make_iv-HasIv key version random size (inr two) e = elim (Bool-cases (encrypts key)) [
  | inl f ↦ rw f (random, refl, inr (two, size))
  | inr f ↦ rw f ([], refl, inr (two, refl))
]

is_aes_key-valid :
    (k : Key) → validate k ≡ ok tt → (k.sec == sec_none) ≡ false → is_aes_key k.material ≡ true
unfolding validate
is_aes_key-valid k h e = ground (arith, h, e)

mac_len_bound : (sig : ℕ) → mac_len sig ≤ 32
mac_len_bound sig = if_le (sig == 1 || sig == 6) 10 _ (omega arith) (
    if_le (sig == 2 || sig == 7) 16 _ (omega arith)
      (if_le (sig == 3 || sig == 8) 32 0 (omega arith) (omega arith)))
  where
    if_le : (b : Bool) (x y : ℕ) → x ≤ 32 → y ≤ 32 → (if b then x else y) ≤ 32
    if_le true x y h k = h
    if_le false x y h k = k

length-compute_mac :
    (crypto : Crypto) (k : Key) (b : List ℕ) → length (compute_mac crypto k b) ≡ mac_len k.sig
unfolding compute_mac
length-compute_mac crypto k b = elim (Bool-cases (k.sig == 6 || k.sig == 7 || k.sig == 8)) [
  | inl e ↦ rw e (
      length-take (mac_len k.sig) (crypto.hmac_sha3 k.material b)
        (omega (arith, mac_len_bound k.sig, crypto.length-hmac_sha3 k.material b)))
  | inr e ↦ rw e (
      length-take (mac_len k.sig) (crypto.hmac_sha256 k.material b)
        (omega (arith, mac_len_bound k.sig, crypto.length-hmac_sha256 k.material b)))
]

pub cut_back : (xs ys : List ℕ) → take (length (xs ++ ys) - length ys) (xs ++ ys) ≡ xs
cut_back xs ys =
    let e : length (xs ++ ys) - length ys ≡ length xs = omega (arith, length-append xs ys) in
    rw e (take-length_append xs ys)

verify-signed :
    (crypto : Crypto) (k : Key) (iv b head user mac : List ℕ)
    → (k.sec == sec_none) ≡ true
    → mac ≡ compute_mac crypto k (head ++ user)
    → b ≡ (head ++ user) ++ tag_signature ∷ length mac % 256 ∷ mac
    → verify crypto k iv b head user (tag_signature ∷ length mac % 256 ∷ mac)
      ≡ ok (user, true, false)
unfolding verify skip_padding read_tag
verify-signed crypto k iv b head user mac plain e f =
    let size : length mac ≡ mac_len k.sig = rw e (length-compute_mac crypto k (head ++ user)) in
    let small : length mac % 256 ≡ length mac = omega (arith, size, mac_len_bound k.sig) in
    let fits : ltb (length mac) (length mac) ≡ false = ground arith in
    let sized : (length mac == mac_len k.sig) ≡ true = ground (arith, size) in
    let covered : take (length b - length (tag_signature ∷ length mac % 256 ∷ mac)) b
        ≡ head ++ user =
      rw f (cut_back (head ++ user) (tag_signature ∷ length mac % 256 ∷ mac)) in
    let same : equal_bytes mac (compute_mac crypto k (head ++ user)) ≡ true =
      rw (← e) (equal_bytes_refl mac) in
    rw (small, fits, take_all mac (length mac) refl, plain, sized, covered, same)

verify-sealed :
    (crypto : Crypto) (k : Key) (iv b head user : List ℕ)
    → validate k ≡ ok tt
    → (k.sec == sec_none) ≡ false
    → length iv ≡ 12
    → verify crypto k iv b head
        (take (length user) (crypto.seal k.material iv user head))
        (tag_signature ∷ 16 ∷ drop (length user) (crypto.seal k.material iv user head))
      ≡ ok (user, false, true)
unfolding verify skip_padding read_tag
verify-sealed crypto k iv b head user valid sealed size =
    let text = crypto.seal k.material iv user head in
    let tag = drop (length user) text in
    let count = crypto.length-seal k.material iv user head in
    let tag_size : length tag ≡ 16 = omega (arith, length-drop (length user) text, count) in
    let whole : take (length user) text ++ tag ≡ text = take-append-drop (length user) text in
    let opens = crypto.open-seal k.material iv user head in
    rw (
      tag_size,
      take_all tag 16 tag_size,
      sealed,
      tag_size,
      is_aes_key-valid k valid sealed,
      size,
      whole,
      opens,
    )

abbrev signs : Option Key → Bool
signs none = false
signs (some k) = k.sec == sec_none

-- What the receiver takes an SPDU for.
abbrev pub received : Spdu → Option Key → ℕ → Spdu
received s key version = record (front s key version) {
  key_id = id_of key;
  payloads = s.payloads;
  signed = signs key;
  encrypted = encrypts key;
}

sealed_iv :
    (version : ℕ) (k : Key) (iv : List ℕ)
    → HasIv version (some k) iv
    → (version == 1 && encrypts (some k)) ≡ false
    → (k.sec == sec_none) ≡ false
    → length iv ≡ 12
sealed_iv version k iv (inl (one, _)) fine e = ground (arith, one, fine, e)
sealed_iv version k iv (inr (_, size)) fine e = ground (arith, size, e)

protect-signed :
    (crypto : Crypto) (k : Key) (iv head user : List ℕ)
    → (k.sec == sec_none) ≡ true
    → protect crypto (some k) iv head user
      ≡ ok (
          (head ++ user)
          ++ tag_signature
            ∷ length (compute_mac crypto k (head ++ user)) % 256
            ∷ compute_mac crypto k (head ++ user))
protect-signed crypto k iv head user e = rw e

protect-sealed :
    (crypto : Crypto) (k : Key) (iv head user : List ℕ)
    → validate k ≡ ok tt
    → (k.sec == sec_none) ≡ false
    → protect crypto (some k) iv head user
      ≡ ok (
          head
          ++ (take (length user) (crypto.seal k.material iv user head)
              ++ tag_signature ∷ 16 ∷ drop (length user) (crypto.seal k.material iv user head)))
protect-sealed crypto k iv head user valid e =
    let text = crypto.seal k.material iv user head in
    let n : length text - 16 ≡ length user =
      omega (arith, crypto.length-seal k.material iv user head) in
    rw (e, is_aes_key-valid k valid e, n)
      (ap ok (
        append_assoc head (take (length user) text) (tag_signature ∷ 16 ∷ drop (length user) text)))

unmarshal-protect :
    (crypto : Crypto) (keys : Option KeyStore) (s : Spdu) (key : Option Key) (version : ℕ)
    (iv : List ℕ)
    → IsHeld keys key
    → IsUsable key
    → s.number < 2 ^ 32
    → HasIv version key iv
    → (version == 1 && encrypts key) ≡ false
    → All IsPayload s.payloads
    → length (append_payloads s.payloads) < 2 ^ 32
    → (do
      b ←
          protect crypto key iv
            (header s key version iv (length (append_payloads s.payloads)))
            (append_payloads s.payloads)
      unmarshal crypto b keys)
      ≡ ok (received s key version)
unmarshal-protect crypto keys s none version iv held usable number has fine payloads range =
    let user = append_payloads s.payloads in
    let head = header s none version iv (length user) in
    let read = read_payloads-append_payloads s.payloads (length user + 1) payloads (omega arith) in
    ap (λ u. unmarshal crypto (head ++ u) keys) (sym (append-nil user))
    ∙ user_part-header crypto keys s none version iv (length user) user [] held number has refl
        range
    ∙ rw read
unmarshal-protect crypto keys s (some k) version iv held usable number has fine payloads range =
    let user = append_payloads s.payloads in
    let head = header s (some k) version iv (length user) in
    let read = read_payloads-append_payloads s.payloads (length user + 1) payloads (omega arith) in
    elim (Bool-cases (k.sec == sec_none)) [
      | inl e ↦
          let mac = compute_mac crypto k (head ++ user) in
          let trailer = tag_signature ∷ length mac % 256 ∷ mac in
          let b = (head ++ user) ++ trailer in
          ap (λ r. r >>= λ o. unmarshal crypto o keys) (protect-signed crypto k iv head user e)
          ∙ ap (λ o. unmarshal crypto o keys) (append_assoc head user trailer)
          ∙ user_part-header crypto keys s (some k) version iv (length user) user trailer held
              number has refl range
          ∙ rw (
            verify-signed crypto k iv (head ++ (user ++ trailer)) head user mac e refl
                (sym (append_assoc head user trailer)),
            read,
            e,
          )
      | inr e ↦
          let text = crypto.seal k.material iv user head in
          let count = crypto.length-seal k.material iv user head in
          let size : length (take (length user) text) ≡ length user =
            length-take (length user) text (omega (arith, count)) in
          let trailer = tag_signature ∷ 16 ∷ drop (length user) text in
          ap (λ r. r >>= λ o. unmarshal crypto o keys)
            (protect-sealed crypto k iv head user usable e)
          ∙ user_part-header crypto keys s (some k) version iv (length user)
              (take (length user) text) trailer held number has (sym size) range
          ∙ rw (
            verify-sealed crypto k iv (head ++ (take (length user) text ++ trailer)) head user
                usable e (sealed_iv version k iv has fine e),
            read,
            e,
          )
    ]

-- For a key the receiver holds, valid and with fields in range, or no key; of version 1, or 2, or 0 for
-- 2, and not 1 with a key that encrypts; with an SPDU number of 32 bits, payloads within 16 bits and
-- 2 ^ 32 octets of user data; and 12 random octets: `Marshal` succeeds, and what it wrote
-- `Unmarshal` verifies and reads back, with the fields of the key and signed or encrypted as it says.
pub unmarshal-marshal :
    (crypto : Crypto) (keys : Option KeyStore) (s : Spdu) (key : Option Key) (random : List ℕ)
    → IsHeld keys key
    → IsUsable key
    → (wire_version s ≡ 1) ⊎ (wire_version s ≡ 2)
    → (wire_version s == 1 && encrypts key) ≡ false
    → s.number < 2 ^ 32
    → All IsPayload s.payloads
    → length (append_payloads s.payloads) < 2 ^ 32
    → length random ≡ 12
    → (do b ← marshal crypto s key (some random); unmarshal crypto b keys)
      ≡ ok (received s key (wire_version s))
unfolding marshal
unmarshal-marshal crypto keys s key random held usable either fine number payloads range size =
    let v = wire_version s in
    let (iv, made, has) = make_iv-HasIv key v random size either fine in
    let known : (not (v == 1) && not (v == 2)) ≡ false = elim either [
      | inl one ↦ rw one
      | inr two ↦ rw two
    ] in
    rw (known, check_key-ok key v usable fine, made, user_len-append_payloads s.payloads payloads)
      (unmarshal-protect crypto keys s key v iv held usable number has fine payloads range)
