-- ===== src/Rsession/Spdu/Reading.antt =====
-- rsession/spdu.go: decoding and verifying an SPDU.
use go_iec.Base.{
  ℕ, zero, suc, ◌+◌, ◌-◌, Bool, true, false, not, ◌&&◌, ◌||◌, Option, none, some, List, [], ◌∷◌,
  ◌++◌, length, take, drop, equal_bytes, ltb, ◌==◌, if◌then◌else◌, Result, ok, err, ◌>>=◌,
}
use go_iec.Base.Words.{big_endian_32, big_endian_16}
use go_iec.Rsession.Keys.{Key, KeyStore, sec_none, sig_none, mac_len, find}
use go_iec.Rsession.Spdu.{
  Crypto, Payload, Spdu, Error, malformed, bad_version, unknown_key, algorithm, authentication,
  cipher, panicked, out_of_fuel, cltp_li, cltp_ud, tag_common, tag_signature, tag_padding,
  gcm_iv_len, gcm_tag_len, is_aes_key, compute_mac,
}

-- `reader`, with the octets behind `off`.
pub record Reader : Type 0 where
  pub off : ℕ
  pub rest : List ℕ
  pub short : Bool

-- The first `n` octets and the others, if there are so many.
abbrev pub split_at : ℕ → List ℕ → Option (List ℕ × List ℕ)
split_at zero bs = some ([], bs)
split_at (suc n) [] = none
split_at (suc n) (b ∷ bs) = elim (split_at n bs) [
  | none ↦ none
  | some (front, back) ↦ some (b ∷ front, back)
]

-- `bytes`, with no octets in place of nil.
abbrev pub read_bytes : ℕ → Reader → List ℕ × Reader
read_bytes n r = if r.short then ([], r) else elim (split_at n r.rest) [
  | none ↦ ([], record r { short = true })
  | some (front, back) ↦ (front, record r { off = r.off + n; rest = back })
]

abbrev word_8 : List ℕ → ℕ
word_8 (a ∷ _) = a
word_8 [] = 0

abbrev word_16 : List ℕ → ℕ
word_16 (a ∷ b ∷ _) = big_endian_16 a b
word_16 _ = 0

abbrev word_32 : List ℕ → ℕ
word_32 (a ∷ b ∷ c ∷ d ∷ _) = big_endian_32 a b c d
word_32 _ = 0

abbrev pub u8 : Reader → ℕ × Reader
u8 r = let (v, r') = read_bytes 1 r in (word_8 v, r')

abbrev pub u16 : Reader → ℕ × Reader
u16 r = let (v, r') = read_bytes 2 r in (word_16 v, r')

abbrev pub u32 : Reader → ℕ × Reader
u32 r = let (v, r') = read_bytes 4 r in (word_32 v, r')

-- The transport header and the common header. A field that is not there yet is 0.
unfoldable pub read_front : List ℕ → Result Error (Spdu × Reader)
read_front b =
    let (li, r1) = u8 (record { off = 0; rest = b; short = false }) in
    let (ud, r2) = u8 r1 in
    let (si, r3) = u8 r2 in
    let (_, r4) = u8 r3 in
    let (tag, r5) = u8 r4 in
    let (_, r6) = u8 r5 in
    let (_, r7) = u32 r6 in
    let (number, r8) = u32 r7 in
    let (version, r9) = u16 r8 in
    let (current, r10) = u32 r9 in
    let (next, r11) = u16 r10 in
    if not (li == cltp_li) || not (ud == cltp_ud)
    then err malformed
    else if not (tag == tag_common)
    then err malformed
    else if r11.short
    then err malformed
    else ok (
      record {
        si = si;
        number = number;
        version = version;
        key_id = 0;
        time_of_current_key = current;
        time_to_next_key = next;
        payloads = [];
        signed = false;
        encrypted = false;
      },
      r11,
    )

-- The identifier of the key, the key, the initialisation vector.
abbrev Secured : Type 0
Secured = ℕ × Option Key × List ℕ × Reader

unfoldable pub read_security_1 : Option KeyStore → Reader → Result Error Secured
read_security_1 keys r =
    let (sec, r1) = u8 r in
    let (sig, r2) = u8 r1 in
    let (id, r3) = u32 r2 in
    if r3.short
    then err malformed
    else if id == 0
    then (if not (sec == sec_none) || not (sig == sig_none)
        then err malformed
        else ok (0, none, [], r3))
    else elim (find keys id) [
      | none ↦ err unknown_key
      | some k ↦
          if not (sec == k.sec) || not (sig == k.sig)
          then err algorithm
          else ok (id, some k, [], r3)
    ]

unfoldable pub read_security_2 : Option KeyStore → Reader → Result Error Secured
read_security_2 keys r =
    let (id, r1) = u32 r in
    let (iv_len, r2) = u8 r1 in
    let (iv, r3) = read_bytes iv_len r2 in
    if r3.short
    then err malformed
    else if id == 0
    then ok (0, none, iv, r3)
    else elim (find keys id) [
      | none ↦ err unknown_key
      | some k ↦
          if not (k.sec == sec_none) && not (iv_len == gcm_iv_len)
          then err malformed
          else ok (id, some k, iv, r3)
    ]

unfoldable pub read_security : Option KeyStore → ℕ → Reader → Result Error Secured
read_security keys version r =
    if version == 1
    then read_security_1 keys r
    else if version == 2
    then read_security_2 keys r
    else err bad_version

-- The trailer behind the padding that may precede it.
unfoldable pub skip_padding : List ℕ → Result Error (List ℕ)
skip_padding (t ∷ n ∷ rest) =
    if t == tag_padding
    then (if ltb (length rest) n then err malformed else ok (drop n rest))
    else ok (t ∷ n ∷ rest)
skip_padding trailer = ok trailer

-- The tag of the trailer.
unfoldable pub read_tag : List ℕ → Result Error (List ℕ)
read_tag (t ∷ n ∷ rest) =
    if not (t == tag_signature)
    then err authentication
    else if ltb (length rest) n
    then err malformed
    else ok (take n rest)
read_tag _ = err authentication

-- The loop over the payload elements. An element takes six octets at least.
unfoldable pub read_payloads : ℕ → List ℕ → Result Error (List Payload)
read_payloads zero user = err out_of_fuel
read_payloads (suc fuel) [] = ok []
read_payloads (suc fuel) (t ∷ sim ∷ a ∷ b ∷ c ∷ d ∷ user) =
    let n = big_endian_16 c d in
    let rest = length user in
    let taken = if ltb rest n then rest else n in
    let later = read_payloads fuel (drop taken user) in
    if ltb rest n && not (n == rest + 2) then err malformed else do
      ps ← later
      ok (
          record {
            type = t;
            simulation = not (sim == 0);
            app_id = big_endian_16 a b;
            apdu = take taken user;
          }
          ∷ ps)
read_payloads (suc fuel) _ = err malformed

module _ (crypto : Crypto) where
  -- The user data, decrypted if the key encrypts, and whether it was signed and encrypted. `head` is
  -- what stands before it. `Open` panics on a vector that does not have 12 octets.
  unfoldable pub verify :
      Key → List ℕ → List ℕ → List ℕ → List ℕ → List ℕ → Result Error (List ℕ × Bool × Bool)
  verify k iv b head user trailer = do
    rest ← skip_padding trailer
    let sig_pos = length b - length rest
    tag ← read_tag rest
    let opened : Result Error (List ℕ × Bool × Bool) =
        if not (length tag == gcm_tag_len)
        then err authentication
        else if not (is_aes_key k.material)
        then err cipher
        else if not (length iv == gcm_iv_len)
        then err panicked
        else elim (crypto.open_sealed k.material iv (user ++ tag) head) [
          | none ↦ err authentication
          | some plain ↦ ok (plain, false, true)
        ]
    if not (k.sec == sec_none)
        then opened
        else if not (length tag == mac_len k.sig)
        then err authentication
        else if not (equal_bytes tag (compute_mac crypto k (take sig_pos b)))
        then err authentication
        else ok (user, true, false)

  abbrev pub verify_any :
      Option Key → List ℕ → List ℕ → List ℕ → List ℕ → List ℕ → Result Error (List ℕ × Bool × Bool)
  verify_any none iv b head user [] = ok (user, false, false)
  verify_any none iv b head user (t ∷ trailer) = err malformed
  verify_any (some k) iv b head user trailer = verify k iv b head user trailer

  -- `Unmarshal`
  unfoldable pub unmarshal : List ℕ → Option KeyStore → Result Error Spdu
  unmarshal b keys = do
    (s, r) ← read_front b
    (id, key, iv, r') ← read_security keys s.version r
    let (n, r'') = u32 r'
    if r''.short || ltb (length r''.rest) n then err malformed else do
      (user, signed, encrypted) ←
          verify_any key iv b (take r''.off b) (take n r''.rest) (drop n r''.rest)
      ps ← read_payloads (length user + 1) user
      ok (record s { key_id = id; payloads = ps; signed = signed; encrypted = encrypted })
