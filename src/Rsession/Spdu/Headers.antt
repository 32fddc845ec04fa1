-- ===== src/Rsession/Spdu/Headers.antt =====
-- The headers of an SPDU, as `Marshal` writes them and `Unmarshal` reads them.
use go_iec.Base.{
  ℕ, ◌+◌, ◌%◌, ◌^◌, ◌<◌, ◌≡◌, ◌⊎◌, inl, inr, refl, ap, ◌∙◌, true, false, not, ◌&&◌, Option, none,
  some, List, [], ◌∷◌, ◌++◌, append_assoc, length, length-append, take, take-length_append,
  drop-length_append, ltb, ◌==◌, if◌then◌else◌, Result, ok, ◌>>=◌, arith,
}
use go_iec.Base.Words.{
  octets_32, octets_16, big_endian_32, big_endian_32-octets, big_endian_16-octets,
}
use go_iec.Rsession.Keys.{Key, KeyStore, sec_none, find}
use go_iec.Rsession.Spdu.{Crypto, Spdu, Error, header, security, key_info, encrypts}
use go_iec.Rsession.Spdu.Reading.{
  Reader, split_at, read_front, read_security, read_security_1, read_security_2, read_payloads,
  verify_any, unmarshal,
}

split_at-append : (bs rest : List ℕ) → split_at (length bs) (bs ++ rest) ≡ some (bs, rest)
split_at-append [] rest = refl
split_at-append (b ∷ bs) rest = rw (split_at-append bs rest)

-- The identifier that an SPDU under a key carries, and the other fields of the key.
abbrev pub id_of : Option Key → ℕ
id_of none = 0
id_of (some k) = k.id

abbrev current_of : Option Key → ℕ
current_of none = 0
current_of (some k) = k.time_of_current_key

abbrev next_of : Option Key → ℕ
next_of none = 0
next_of (some k) = k.time_to_next_key

abbrev sec_of : Option Key → ℕ
sec_of none = 0
sec_of (some k) = k.sec

abbrev sig_of : Option Key → ℕ
sig_of none = 0
sig_of (some k) = k.sig

-- What the receiver takes from the headers.
abbrev pub front : Spdu → Option Key → ℕ → Spdu
front s key version = record {
  si = s.si;
  number = s.number;
  version = version;
  key_id = 0;
  time_of_current_key = current_of key;
  time_to_next_key = next_of key;
  payloads = [];
  signed = false;
  encrypted = false;
}

read_front-octets :
    (si x total number version current next : ℕ) (tail : List ℕ)
    → number < 2 ^ 32
    → version < 2 ^ 16
    → current < 2 ^ 32
    → next < 2 ^ 16
    → read_front (
        1 ∷ 0x40 ∷ si ∷ x ∷ 0x80 ∷ 10 ∷ octets_32 total
        ++ octets_32 number
        ++ octets_16 version
        ++ octets_32 current
        ++ octets_16 next
        ++ tail)
      ≡ ok (
        record {
          si = si;
          number = number;
          version = version;
          key_id = 0;
          time_of_current_key = current;
          time_to_next_key = next;
          payloads = [];
          signed = false;
          encrypted = false;
        },
        record { off = 22; rest = tail; short = false },
      )
unfolding read_front
read_front-octets si x total number version current next tail hn hv hc ht = rw (
  big_endian_32-octets number hn,
  big_endian_16-octets version hv,
  big_endian_32-octets current hc,
  big_endian_16-octets next ht,
)

-- A key that the receiver holds, or none.
abbrev pub IsHeld : Option KeyStore → Option Key → Type 0
IsHeld keys none = Unit {0}
IsHeld keys (some k) =
    (find keys k.id ≡ some k)
    × (0 < k.id)
    × (k.id < 2 ^ 32)
    × (k.time_of_current_key < 2 ^ 32)
    × (k.time_to_next_key < 2 ^ 16)

read_security_1-octets :
    (keys : Option KeyStore) (key : Option Key) (tail : List ℕ)
    → IsHeld keys key
    → read_security_1 keys (record {
      off = 22;
      rest = sec_of key ∷ sig_of key ∷ octets_32 (id_of key) ++ tail;
      short = false;
    })
      ≡ ok (id_of key, key, [], record { off = 28; rest = tail; short = false })
unfolding read_security_1 big_endian_32
read_security_1-octets keys none tail h = refl
read_security_1-octets keys (some k) tail (held, some_id, range, _, _) =
    let id : (k.id == 0) ≡ false = ground arith in
    let sec : (k.sec == k.sec) ≡ true = ground arith in
    let sig : (k.sig == k.sig) ≡ true = ground arith in
    rw (big_endian_32-octets k.id range, held, id, sec, sig, big_endian_32-octets k.id range)

read_security_2-octets :
    (keys : Option KeyStore) (key : Option Key) (iv tail : List ℕ)
    → IsHeld keys key
    → length iv ≡ (if encrypts key then 12 else 0)
    → read_security_2 keys (record {
      off = 22;
      rest = octets_32 (id_of key) ++ length iv % 256 ∷ iv ++ tail;
      short = false;
    })
      ≡ ok (id_of key, key, iv, record { off = 27 + length iv; rest = tail; short = false })
unfolding read_security_2 big_endian_32
read_security_2-octets keys none [] tail h size = refl
read_security_2-octets keys none (b ∷ bs) tail h size = absurd (omega arith)
read_security_2-octets keys (some k) iv tail (held, some_id, range, _, _) size =
    let small : length iv % 256 ≡ length iv = ground (arith, size) in
    let id : (k.id == 0) ≡ false = ground arith in
    let fits : (not (k.sec == sec_none) && not (length iv == 12)) ≡ false = ground (arith, size) in
    let moved : 22 + 4 + 1 + length iv ≡ 27 + length iv = omega arith in
    rw (
      big_endian_32-octets k.id range,
      small,
      split_at-append iv tail,
      held,
      id,
      small,
      split_at-append iv tail,
      fits,
      big_endian_32-octets k.id range,
      moved,
      small,
    )

-- `Unmarshal` once the headers are read: what is left is to verify and to split the user data.
abbrev user_part :
    Crypto → Spdu → Option Key → List ℕ → List ℕ → List ℕ → List ℕ → List ℕ → Result Error Spdu
user_part crypto s key iv b head user trailer = do
  (plain, signed, encrypted) ← verify_any crypto key iv b head user trailer
  ps ← read_payloads (length plain + 1) plain
  ok (record s { key_id = id_of key; payloads = ps; signed = signed; encrypted = encrypted })

unmarshal-user_part :
    (crypto : Crypto) (keys : Option KeyStore) (b : List ℕ) (s : Spdu) (r : Reader)
    (key : Option Key) (iv : List ℕ) (off n : ℕ) (user trailer : List ℕ)
    → read_front b ≡ ok (s, r)
    → read_security keys s.version r
      ≡ ok (
        id_of key,
        key,
        iv,
        record { off = off; rest = octets_32 (n % 2 ^ 32) ++ user ++ trailer; short = false },
      )
    → n ≡ length user
    → n < 2 ^ 32
    → unmarshal crypto b keys ≡ user_part crypto s key iv b (take (off + 4) b) user trailer
unfolding unmarshal
unmarshal-user_part crypto keys b s r key iv off n user trailer e f size range =
    let small : n % 2 ^ 32 ≡ n = omega arith in
    let fits : ltb (length (user ++ trailer)) (length user) ≡ false =
      ground (arith, length-append user trailer) in
    rw (
      e,
      f,
      small,
      big_endian_32-octets n range,
      size,
      fits,
      take-length_append user trailer,
      drop-length_append user trailer,
    )

-- The initialisation vector that a version and a key ask for.
abbrev pub HasIv : ℕ → Option Key → List ℕ → Type 0
HasIv version key iv =
    ((version ≡ 1) × (iv ≡ [])) ⊎ ((version ≡ 2) × (length iv ≡ (if encrypts key then 12 else 0)))

abbrev behind_front : Option Key → ℕ → List ℕ → ℕ → List ℕ → List ℕ
behind_front key version iv n tail =
    (key_info version (id_of key) (sec_of key) (sig_of key) iv ++ octets_32 (n % 2 ^ 32)) ++ tail

current_range :
    (keys : Option KeyStore) (key : Option Key) → IsHeld keys key → current_of key < 2 ^ 32
current_range keys none h = omega arith
current_range keys (some k) h = h.3

next_range : (keys : Option KeyStore) (key : Option Key) → IsHeld keys key → next_of key < 2 ^ 16
next_range keys none h = omega arith
next_range keys (some k) h = h.4

security-octets :
    (key : Option Key) (version : ℕ) (iv : List ℕ)
    → security key version iv
      ≡ octets_32 (current_of key)
        ++ octets_16 (next_of key)
        ++ key_info version (id_of key) (sec_of key) (sig_of key) iv
security-octets none version iv = refl
security-octets (some k) version iv = refl

read_front-header :
    (keys : Option KeyStore) (s : Spdu) (key : Option Key) (version : ℕ) (iv : List ℕ) (n : ℕ)
    (tail : List ℕ)
    → IsHeld keys key
    → s.number < 2 ^ 32
    → version < 3
    → read_front (header s key version iv n ++ tail)
      ≡ ok (
        front s key version,
        record { off = 22; rest = behind_front key version iv n tail; short = false },
      )
read_front-header keys s key version iv n tail held number small =
    rw (security-octets key version iv) (
      read_front-octets s.si _ _ s.number version (current_of key) (next_of key)
        (behind_front key version iv n tail) number (omega arith) (current_range keys key held)
        (next_range keys key held))

read_security-header_1 :
    (keys : Option KeyStore) (key : Option Key) (n : ℕ) (tail : List ℕ)
    → IsHeld keys key
    → read_security keys 1 (record { off = 22; rest = behind_front key 1 [] n tail; short = false })
      ≡ ok (
        id_of key,
        key,
        [],
        record { off = 28; rest = octets_32 (n % 2 ^ 32) ++ tail; short = false },
      )
unfolding read_security
read_security-header_1 keys key n tail held =
    read_security_1-octets keys key (octets_32 (n % 2 ^ 32) ++ tail) held

read_security-header_2 :
    (keys : Option KeyStore) (key : Option Key) (iv : List ℕ) (n : ℕ) (tail : List ℕ)
    → IsHeld keys key
    → length iv ≡ (if encrypts key then 12 else 0)
    → read_security keys 2 (record { off = 22; rest = behind_front key 2 iv n tail; short = false })
      ≡ ok (
        id_of key,
        key,
        iv,
        record { off = 27 + length iv; rest = octets_32 (n % 2 ^ 32) ++ tail; short = false },
      )
unfolding read_security
read_security-header_2 keys key iv n tail held size =
    rw (append_assoc iv (octets_32 (n % 2 ^ 32)) tail)
      (read_security_2-octets keys key iv (octets_32 (n % 2 ^ 32) ++ tail) held size)

length-header_1 : (s : Spdu) (key : Option Key) (n : ℕ) → 28 + 4 ≡ length (header s key 1 [] n)
length-header_1 s key n = rw (security-octets key 1 []) (omega arith)

length-header_2 :
    (s : Spdu) (key : Option Key) (iv : List ℕ) (n : ℕ)
    → 27 + length iv + 4 ≡ length (header s key 2 iv n)
length-header_2 s key iv n =
    rw (security-octets key 2 iv) (omega (arith, length-append iv (octets_32 (n % 2 ^ 32))))

cut : (n : ℕ) (xs ys : List ℕ) → n ≡ length xs → take n (xs ++ ys) ≡ xs
cut n xs ys e = rw e (take-length_append xs ys)

pub user_part-header :
    (crypto : Crypto) (keys : Option KeyStore) (s : Spdu) (key : Option Key) (version : ℕ)
    (iv : List ℕ) (n : ℕ) (user trailer : List ℕ)
    → IsHeld keys key
    → s.number < 2 ^ 32
    → HasIv version key iv
    → n ≡ length user
    → n < 2 ^ 32
    → unmarshal crypto (header s key version iv n ++ (user ++ trailer)) keys
      ≡ user_part crypto
          (front s key version)
          key
          iv
          (header s key version iv n ++ (user ++ trailer))
          (header s key version iv n)
          user
          trailer
user_part-header crypto keys s key version iv n user trailer held number (inl (e, f)) size range =
    let head = header s key 1 [] n in
    let b = head ++ (user ++ trailer) in
    rw (e, f)
      (unmarshal-user_part crypto keys b (front s key 1) _ key [] 28 n user trailer
          (read_front-header keys s key 1 [] n (user ++ trailer) held number (omega arith))
          (read_security-header_1 keys key n (user ++ trailer) held) size range
        ∙ ap (λ h. user_part crypto (front s key 1) key [] b h user trailer)
            (cut (28 + 4) head (user ++ trailer) (length-header_1 s key n)))
user_part-header crypto keys s key version iv n user trailer held number (inr (e, f)) size range =
    let head = header s key 2 iv n in
    let b = head ++ (user ++ trailer) in
    rw e (
      unmarshal-user_part crypto keys b (front s key 2) _ key iv (27 + length iv) n user trailer
        (read_front-header keys s key 2 iv n (user ++ trailer) held number (omega arith))
        (read_security-header_2 keys key iv n (user ++ trailer) held f) size range
      ∙ ap (λ h. user_part crypto (front s key 2) key iv b h user trailer)
          (cut (27 + length iv + 4) head (user ++ trailer) (length-header_2 s key iv n)))
