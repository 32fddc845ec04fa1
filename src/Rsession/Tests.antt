-- ===== src/Rsession/Tests.antt =====
-- rsession: the theorems at concrete inputs.
use go_iec.Base.{
  pos, ℕ, ◌+◌, ◌-◌, ◌%◌, ◌^◌, ◌<◌, ◌≡◌, ◌⊎◌, inr, refl, true, false, List, [], ◌∷◌, ◌++◌, Option,
  none, some, length, take, replicate, length-append, equal_bytes, ok, err, ◌>>=◌, ap, arith,
}
use go_iec.Base.Words.{big_endian_32, big_endian_16}
use go_iec.Base.Maps.{lookup, insert}
use go_iec.Rsession.Keys.{Key, KeyStore, validate, find, active_key}
use go_iec.Rsession.Keys.Store.{Action, adds, removes, activates, run, find-run}
use go_iec.Rsession.Replay.{new_window, accept}
use go_iec.Rsession.Replay.Memory.{no_memory, answers, remembered, answers-remembered}
use go_iec.Rsession.Spdu.{
  Crypto, Payload, Spdu, panicked, append_payloads, compute_mac, marshal, wire_version,
}
use go_iec.Rsession.Spdu.Reading.{
  read_front, read_security, read_security_1, read_security_2, skip_padding, read_tag,
  read_payloads, verify, unmarshal,
}
use go_iec.Rsession.Spdu.RoundTrip.{cut_back, received, unmarshal-marshal}
use go_iec.Rsession.Spdu.Authentic.{Accepted, unmarshal-Accepted}
use go_iec.Rsession.Session.{Session, opened, fresh, check, check_fresh, check_spdu, replayed_spdu}
use go_iec.Rsession.Session.Replayed.{check_again}

-- The numbers 5, 6, 8, 7 of one sender, then 5 and 8 again, a jump to 100, and 30.
abbrev arrivals : List (ℕ × ℕ)
arrivals = (5, 1) ∷ (6, 2) ∷ (8, 3) ∷ (7, 4) ∷ (5, 5) ∷ (8, 6) ∷ (100, 7) ∷ (30, 8) ∷ []

answers-remembered_example :
    answers new_window 64 (pos 10000000000) arrivals
    ≡ remembered no_memory 64 (pos 10000000000) arrivals
answers-remembered_example = answers-remembered 64 (pos 10000000000) arrivals (omega arith)

answered :
    answers new_window 64 (pos 10000000000) arrivals
    ≡ true ∷ true ∷ true ∷ true ∷ false ∷ false ∷ true ∷ false ∷ []
unfolding accept
answered = refl

abbrev total : List ℕ → ℕ
total [] = 0
total (b ∷ bs) = b + total bs

abbrev zeros : List ℕ
zeros = replicate 16 0

abbrev checksum : List ℕ → List ℕ → List ℕ
checksum key bytes = replicate 32 ((total key + total bytes) % 256)

-- A cipher that appends zeros and a checksum in place of a hash.
abbrev toy : Crypto
toy = record {
  hmac_sha256 = checksum;
  hmac_sha3 = checksum;
  seal = λ key iv plain extra. plain ++ zeros;
  open_sealed = λ key iv sealed extra. some (take (length sealed - length (zeros)) sealed);
  length-hmac_sha256 = λ key bytes. refl;
  length-hmac_sha3 = λ key bytes. refl;
  length-seal = λ key iv plain extra. length-append plain (zeros);
  open-seal = λ key iv plain extra. ap some (cut_back plain (zeros));
}

-- HMAC-SHA256-80.
abbrev signing : Key
signing = record {
  id = 7;
  material = replicate 16 3;
  sec = 0;
  sig = 1;
  time_of_current_key = 100;
  time_to_next_key = 65535;
}

-- AES-128-GCM.
abbrev sealing : Key
sealing = record {
  id = 9;
  material = replicate 16 5;
  sec = 1;
  sig = 0;
  time_of_current_key = 0;
  time_to_next_key = 0;
}

abbrev store : Option KeyStore
store = some (record { keys = (7 ∷ [], signing) ∷ (9 ∷ [], sealing) ∷ []; active = 7 })

abbrev goose_payload : Payload
goose_payload = record { type = 0x81; simulation = true; app_id = 0x1000; apdu = 0x61 ∷ 0x00 ∷ [] }

abbrev sent : Spdu
sent = record {
  si = 0xA1;
  number = 5;
  version = 0;
  key_id = 0;
  time_of_current_key = 0;
  time_to_next_key = 0;
  payloads = goose_payload ∷ [];
  signed = false;
  encrypted = false;
}

signing_found : find store 7 ≡ some signing
unfolding find lookup equal_bytes
signing_found = refl

sealing_found : find store 9 ≡ some sealing
unfolding find lookup equal_bytes
sealing_found = refl

sealing_valid : validate sealing ≡ ok tt
unfolding validate
sealing_valid = refl

few_octets : length (append_payloads sent.payloads) < 2 ^ 32
unfolding append_payloads
few_octets = omega arith

unmarshal-marshal_example :
    (do b ← marshal toy sent (some sealing) (some (replicate 12 1)); unmarshal toy b store)
    ≡ ok (received sent (some sealing) (wire_version sent))
unmarshal-marshal_example =
    unmarshal-marshal toy store sent (some sealing) (replicate 12 1)
      (sealing_found, omega arith, omega arith, omega arith, omega arith) sealing_valid (inr refl)
      refl (omega arith) (record { app_id_range = omega arith; apdu_range = omega arith }, tt)
      few_octets refl

-- The SPDU under the signing key.
abbrev octets : List ℕ
octets =
    0x01
    ∷ 0x40
    ∷ 0xA1
    ∷ 23
    ∷ 0x80
    ∷ 10
    ∷ 0
    ∷ 0
    ∷ 0
    ∷ 41
    ∷ 0
    ∷ 0
    ∷ 0
    ∷ 5
    ∷ 0
    ∷ 2
    ∷ 0
    ∷ 0
    ∷ 0
    ∷ 100
    ∷ 255
    ∷ 255
    ∷ 0
    ∷ 0
    ∷ 0
    ∷ 7
    ∷ 0
    ∷ 0
    ∷ 0
    ∷ 0
    ∷ 8
    ∷ 0x81
    ∷ 1
    ∷ 0x10
    ∷ 0x00
    ∷ 0
    ∷ 2
    ∷ 0x61
    ∷ 0x00
    ∷ 0x85
    ∷ 10
    ∷ replicate 10 73

-- What it is read as.
abbrev read : Spdu
read = received sent (some signing) 2

octets_read : unmarshal toy octets store ≡ ok read
unfolding unmarshal read_front read_security read_security_2 skip_padding read_tag read_payloads
    verify compute_mac find lookup equal_bytes big_endian_32 big_endian_16
octets_read = refl

unmarshal-Accepted_example : Accepted toy store octets read
unmarshal-Accepted_example = unmarshal-Accepted toy store octets read octets_read

abbrev session : Session
session =
    opened (record {
      keys = store;
      allow_unsecured = false;
      replay_window = pos 0;
      replay_reset = pos 0;
    })

abbrev sender : List ℕ
sender = 49 ∷ 48 ∷ []

fresh_once : (check toy octets sender 1000 session).0 ≡ ok read
unfolding check check_spdu check_fresh fresh accept unmarshal read_front read_security
    read_security_2 skip_padding read_tag read_payloads verify compute_mac find lookup insert
    equal_bytes big_endian_32 big_endian_16
fresh_once = refl

check_again_example :
    (check toy octets sender 2000 (check toy octets sender 1000 session).1).0 ≡ err replayed_spdu
check_again_example =
    check_again toy octets sender 64 1000 2000 session read refl (omega arith) (omega arith)
      octets_read (omega arith) refl fresh_once refl

-- The same octets from another port are fresh.
other_sender :
    (check toy octets (49 ∷ 49 ∷ []) 2000 (check toy octets sender 1000 session).1).0 ≡ ok read
unfolding check check_spdu check_fresh fresh accept unmarshal read_front read_security
    read_security_2 skip_padding read_tag read_payloads verify compute_mac find lookup insert
    equal_bytes big_endian_32 big_endian_16
other_sender = refl

-- An SPDU of version 1 that names a key which encrypts.
abbrev forged : List ℕ
forged =
    0x01 ∷ 0x40 ∷ 0xA1 ∷ 24 ∷ 0x80 ∷ 10 ∷ 0 ∷ 0 ∷ 0 ∷ 0 ∷ 0 ∷ 0 ∷ 0 ∷ 5 ∷ 0 ∷ 1 ∷ 0 ∷ 0 ∷ 0 ∷ 0 ∷ 0
    ∷ 0 ∷ 1 ∷ 0 ∷ 0 ∷ 0 ∷ 0 ∷ 9 ∷ 0 ∷ 0 ∷ 0 ∷ 0 ∷ 0x85 ∷ 16 ∷ zeros

forged_read : unmarshal toy forged store ≡ err panicked
unfolding unmarshal read_front read_security read_security_1 skip_padding read_tag read_payloads
    verify compute_mac find lookup equal_bytes big_endian_32 big_endian_16
forged_read = refl

abbrev calls : List Action
calls = activates 9 ∷ removes 7 ∷ adds sealing ∷ activates 7 ∷ adds signing ∷ []

find-run_example :
    ((id : ℕ) (k : Key) → find (some (run calls)) id ≡ some k → (k.id ≡ id) × (validate k ≡ ok tt))
    × ((((run calls).active ≡ 0) × (active_key (some (run calls)) ≡ none))
        ⊎ ((k : Key) × (active_key (some (run calls)) ≡ some k)))
find-run_example = find-run calls
