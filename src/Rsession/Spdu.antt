-- ===== src/Rsession/Spdu.antt =====
-- rsession/spdu.go: the SPDU and its encoding. Ciphers and hashes are the library's.
pub mod Reading
pub mod Headers
pub mod RoundTrip
pub mod Readers
pub mod Authentic
use go_iec.Base.{
  ℕ, ◌+◌, ◌-◌, ◌*◌, ◌/◌, ◌%◌, ◌^◌, ◌≡◌, Bool, true, false, not, ◌&&◌, ◌||◌, Option, none, some,
  List, [], ◌∷◌, ◌++◌, length, take, drop, ltb, ◌==◌, if◌then◌else◌, Result, ok, err, ◌>>=◌,
}
use go_iec.Base.Words.{octets_32, octets_16}
use go_iec.Rsession.Keys.{Key, KeyError, sec_none, sig_none, mac_len, validate}

-- What the code uses of the packages crypto: `hmac` with SHA-256 and SHA3-256 under a key, and AES-GCM
-- with key, initialisation vector and additional data. A hash has 32 octets, a sealed text 16 more
-- than the plain text, and `Open` takes `Seal` back.
pub record Crypto : Type 0 where
  pub hmac_sha256 : List ℕ → List ℕ → List ℕ
  pub hmac_sha3 : List ℕ → List ℕ → List ℕ
  pub seal : List ℕ → List ℕ → List ℕ → List ℕ → List ℕ
  pub open_sealed : List ℕ → List ℕ → List ℕ → List ℕ → Option (List ℕ)
  pub length-hmac_sha256 : (key bytes : List ℕ) → length (hmac_sha256 key bytes) ≡ 32
  pub length-hmac_sha3 : (key bytes : List ℕ) → length (hmac_sha3 key bytes) ≡ 32
  pub length-seal :
      (key iv plain extra : List ℕ) → length (seal key iv plain extra) ≡ length plain + 16
  pub open-seal :
      (key iv plain extra : List ℕ)
      → open_sealed key iv (seal key iv plain extra) extra ≡ some plain

pub record Payload : Type 0 where
  pub type : ℕ  -- uint8
  pub simulation : Bool
  pub app_id : ℕ  -- uint16
  pub apdu : List ℕ

pub record Spdu : Type 0 where
  pub si : ℕ  -- uint8
  pub number : ℕ  -- uint32
  pub version : ℕ  -- uint16
  pub key_id : ℕ  -- uint32
  pub time_of_current_key : ℕ  -- uint32
  pub time_to_next_key : ℕ  -- the bits of an int16
  pub payloads : List Payload
  pub signed : Bool
  pub encrypted : Bool

pub data Error : Type 0 where
  malformed bad_version unknown_key algorithm authentication version1_encrypt : Error
  no_random apdu_too_long cipher panicked out_of_fuel : Error
  key_error : KeyError → Error

abbrev pub cltp_li : ℕ
cltp_li = 0x01

abbrev pub cltp_ud : ℕ
cltp_ud = 0x40

abbrev pub tag_common : ℕ
tag_common = 0x80

abbrev common_len : ℕ
common_len = 10

abbrev pub tag_signature : ℕ
tag_signature = 0x85

abbrev pub tag_padding : ℕ
tag_padding = 0xAF

abbrev element_header : ℕ
element_header = 6

abbrev pub gcm_iv_len : ℕ
gcm_iv_len = 12

abbrev pub gcm_tag_len : ℕ
gcm_tag_len = 16

abbrev pub encrypts : Option Key → Bool
encrypts none = false
encrypts (some k) = not (k.sec == sec_none)

abbrev pub check_key : Option Key → ℕ → Result Error (Unit {0})
check_key none version = ok tt
check_key (some k) version = elim (validate k) [
  | err e ↦ err (key_error e)
  | ok _ ↦ if version == 1 && not (k.sec == sec_none) then err version1_encrypt else ok tt
]

-- The initialisation vector; `random` is what the source of randomness gives, if it does.
abbrev pub make_iv : Option Key → Option (List ℕ) → Result Error (List ℕ)
make_iv key random =
    if encrypts key then elim random [ none ↦ err no_random | some iv ↦ ok iv ] else ok []

-- The loop that adds up `userLen`.
unfoldable pub user_len : List Payload → Result Error ℕ
user_len [] = ok 0
user_len (p ∷ ps) =
    if ltb 0xFFFF (length p.apdu)
    then err apdu_too_long
    else (do n ← user_len ps; ok (element_header + length p.apdu + n))

unfoldable pub append_payloads : List Payload → List ℕ
append_payloads [] = []
append_payloads (p ∷ ps) =
    (p.type ∷ (if p.simulation then 1 else 0) ∷ octets_16 p.app_id)
    ++ octets_16 (length p.apdu % 2 ^ 16)
    ++ p.apdu
    ++ append_payloads ps

abbrev sec_info_len : ℕ → List ℕ → ℕ
sec_info_len version iv = if version == 2 then 11 + length iv else 12

abbrev trailer_len : Option Key → ℕ
trailer_len none = 0
trailer_len (some k) = if not (k.sec == sec_none) then 2 + gcm_tag_len else 2 + mac_len k.sig

abbrev pub key_info : ℕ → ℕ → ℕ → ℕ → List ℕ → List ℕ
key_info version id sec sig iv =
    if version == 1 then sec ∷ sig ∷ octets_32 id else octets_32 id ++ length iv % 256 ∷ iv

-- The time of the current key, the time to the next one, and the key.
abbrev pub security : Option Key → ℕ → List ℕ → List ℕ
security none version iv = octets_32 0 ++ octets_16 0 ++ key_info version 0 0 0 iv
security (some k) version iv =
    octets_32 k.time_of_current_key
    ++ octets_16 k.time_to_next_key
    ++ key_info version k.id k.sec k.sig iv

-- Everything before the payload elements.
abbrev pub header : Spdu → Option Key → ℕ → List ℕ → ℕ → List ℕ
header s key version iv n =
    let session_hdr_len = 2 + common_len + sec_info_len version iv in
    let total = 2 + 2 + session_hdr_len + 4 + n + trailer_len key in
    (cltp_li ∷ cltp_ud ∷ s.si ∷ session_hdr_len % 256 ∷ tag_common ∷ common_len ∷ [])
    ++ octets_32 ((total - 6 - 4) % 2 ^ 32)
    ++ octets_32 s.number
    ++ octets_16 version
    ++ security key version iv
    ++ octets_32 (n % 2 ^ 32)

-- `newGCM` fails on what is no length of an AES key.
abbrev pub is_aes_key : List ℕ → Bool
is_aes_key material = length material == 16 || length material == 24 || length material == 32

-- The version that goes out.
abbrev pub wire_version : Spdu → ℕ
wire_version s = if s.version == 0 then 2 else s.version

module _ (crypto : Crypto) where
  unfoldable pub compute_mac : Key → List ℕ → List ℕ
  compute_mac k bytes = take (mac_len k.sig) (
      if k.sig == 6 || k.sig == 7 || k.sig == 8
      then crypto.hmac_sha3 k.material bytes
      else crypto.hmac_sha256 k.material bytes)

  abbrev pub protect : Option Key → List ℕ → List ℕ → List ℕ → Result Error (List ℕ)
  protect none iv head user = ok (head ++ user)
  protect (some k) iv head user =
      if not (k.sec == sec_none)
      then (let sealed = crypto.seal k.material iv user head in
          let n = length sealed - gcm_tag_len in
          if is_aes_key k.material
          then ok (head ++ take n sealed ++ tag_signature ∷ gcm_tag_len ∷ drop n sealed)
          else err cipher)
      else (let mac = compute_mac k (head ++ user) in
          ok ((head ++ user) ++ tag_signature ∷ length mac % 256 ∷ mac))

  -- `Marshal`
  unfoldable pub marshal : Spdu → Option Key → Option (List ℕ) → Result Error (List ℕ)
  marshal s key random =
      let version = wire_version s in
      if not (version == 1) && not (version == 2) then err bad_version else do
        _ ← check_key key version
        iv ← make_iv key random
        n ← user_len s.payloads
        protect key iv (header s key version iv n) (append_payloads s.payloads)
