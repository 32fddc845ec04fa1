-- ===== src/Rsession/Session.antt =====
-- rsession/session.go: what a session does with a datagram. Sockets, goroutines and the queue of
-- frames are not modelled. A moment is nanoseconds, an address its text.
pub mod Replayed
use go_iec.Base.{
  ℤ, pos, negsuc, above, ℕ, suc, ◌+◌, ◌-◌, ◌*◌, ◌%◌, ◌^◌, Bool, true, false, not, ◌&&◌, ◌||◌,
  Option, none, some, List, [], ◌∷◌, length, ltb, leb, ◌==◌, if◌then◌else◌, Result, ok, err,
}
use go_iec.Base.Maps.{lookup, insert}
use go_iec.Rsession.Keys.{KeyStore}
use go_iec.Rsession.Replay.{ReplayWindow, new_window, accept}
use go_iec.Rsession.Spdu.{Crypto, Spdu, Error, unknown_key, authentication, algorithm, panicked}
use go_iec.Rsession.Spdu.Reading.{unmarshal}

pub record Config : Type 0 where
  pub keys : Option KeyStore
  pub allow_unsecured : Bool
  pub replay_window : ℤ
  pub replay_reset : ℤ

pub record Stats : Type 0 where
  pub malformed : ℕ
  pub unknown_key : ℕ
  pub unauthentic : ℕ
  pub unsecured : ℕ
  pub replayed : ℕ

pub record Session : Type 0 where
  pub cfg : Config
  pub replay : List (List ℕ × ReplayWindow)
  pub stats : Stats

pub data Rejection : Type 0 where
  refused : Error → Rejection
  unsecured_spdu replayed_spdu : Rejection

-- `maxStreams`
abbrev max_streams : ℕ
max_streams = 4096

-- The window and the reset time with their defaults, as `Open` sets them.
abbrev pub complete : Config → Config
complete cfg = record cfg {
  replay_window = window cfg.replay_window;
  replay_reset = reset cfg.replay_reset;
}
  where
    window : ℤ → ℤ
    window (pos n) = if n == 0 then pos 64 else if ltb 64 n then pos 64 else pos n
    window (negsuc n) = negsuc n

    reset : ℤ → ℤ
    reset (pos n) = if n == 0 then pos 10000000000 else pos n
    reset (negsuc n) = negsuc n

-- What `Open` starts with.
abbrev pub opened : Config → Session
opened cfg = record {
  cfg = complete cfg;
  replay = [];
  stats = record { malformed = 0; unknown_key = 0; unauthentic = 0; unsecured = 0; replayed = 0 };
}

-- The key of a stream: the session identifier, the key, the sender.
abbrev pub stream_key : List ℕ → Spdu → List ℕ
stream_key from spdu = spdu.si ∷ spdu.key_id ∷ from

-- The senders that were not silent for longer than the reset time.
unfoldable pub drop_silent : ℕ → ℤ → List (List ℕ × ReplayWindow) → List (List ℕ × ReplayWindow)
drop_silent now reset [] = []
drop_silent now reset ((k, old) ∷ rest) =
    let kept = drop_silent now reset rest in
    if above (now - old.last) reset then kept else (k, old) ∷ kept

abbrev pub windows : ℕ → ℤ → List (List ℕ × ReplayWindow) → List (List ℕ × ReplayWindow)
windows now reset m = if leb max_streams (length m) then drop_silent now reset m else m

-- `fresh`, with a window of `size` numbers.
unfoldable pub fresh : ℕ → List ℕ → Spdu → ℕ → Session → Bool × Session
fresh size from spdu now s =
    let k = stream_key from spdu in
    let reset = s.cfg.replay_reset in
    let (w, m) : ReplayWindow × List (List ℕ × ReplayWindow) = elim (lookup k s.replay) [
      | some w ↦ (w, s.replay)
      | none ↦ (new_window, windows now reset s.replay)
    ] in
    let (b, w') = accept w spdu.number now size reset in (b, record s { replay = insert k w' m })

abbrev count_refused : Error → Stats → Stats
count_refused unknown_key st = record st { unknown_key = suc st.unknown_key }
count_refused authentication st = record st { unauthentic = suc st.unauthentic }
count_refused algorithm st = record st { unauthentic = suc st.unauthentic }
count_refused panicked st = st
count_refused _ st = record st { malformed = suc st.malformed }

-- The replay check of a secured SPDU, in a window.
unfoldable pub check_fresh : ℤ → List ℕ → Spdu → ℕ → Session → Result Rejection Spdu × Session
check_fresh (negsuc n) from spdu now s = (ok spdu, s)
check_fresh (pos size) from spdu now s =
    let (b, s') = fresh size from spdu now s in
    if size == 0 then (ok spdu, s) else if b then (ok spdu, s') else (
      err replayed_spdu,
      record s' { stats = record s'.stats { replayed = suc s'.stats.replayed } },
    )

-- What `check` does with what `Unmarshal` returned.
unfoldable pub check_spdu :
    Result Error Spdu → List ℕ → ℕ → Session → Result Rejection Spdu × Session
check_spdu (err e) from now s = (err (refused e), record s { stats = count_refused e s.stats })
check_spdu (ok spdu) from now s =
    if spdu.key_id == 0
    then (if not s.cfg.allow_unsecured
        then (
          err unsecured_spdu,
          record s { stats = record s.stats { unsecured = suc s.stats.unsecured } },
        )
        else (ok spdu, s))
    else check_fresh s.cfg.replay_window from spdu now s

-- `check`, on the octets of a datagram.
unfoldable pub check : Crypto → List ℕ → List ℕ → ℕ → Session → Result Rejection Spdu × Session
check crypto b from now s = check_spdu (unmarshal crypto b s.cfg.keys) from now s
