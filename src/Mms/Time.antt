-- ===== src/Mms/Time.antt =====
-- mms/value.go: the times of a UtcTime and a TimeOfDay.
pub mod Accuracy
use go_iec.Base.{
  ℤ, pos, negsuc, ℕ, zero, suc, ◌+◌, ◌-◌, ◌*◌, ◌/◌, ◌%◌, ◌^◌, ◌≤◌, ◌<◌, ◌≡◌, refl, ap, ◌∙◌, ◌⊎◌,
  inl, inr, List, [], ◌∷◌, length, ltb, leb, ◌==◌, if◌then◌else◌, Bool, true, false, bit_or, arith,
}
use go_iec.Base.Words.{big_endian_32, big_endian_24, big_endian_32-octets, big_endian_24-octets}
use go_iec.Mms.{Value, utc_time, binary_time}

-- A `time.Time`: `Unix()` and `Nanosecond()`.
pub record Time : Type 0 where
  pub unix : ℤ
  pub nanosecond : ℕ

-- `time.Time{}`, the start of the year 1.
abbrev pub zero_time : Time
zero_time = record { unix = negsuc 62135596799; nanosecond = 0 }

-- The seconds and the nanoseconds that a UtcTime can hold.
abbrev clamp : Time → ℕ × ℕ
clamp t = elim t.unix [
  | negsuc k ↦ (0, 0)
  | pos secs ↦ if ltb (2 ^ 32 - 1) secs then (2 ^ 32 - 1, 999999999) else (secs, t.nanosecond)
]

abbrev pub fraction : ℕ → ℕ
fraction ns = ns * 2 ^ 24 / 1000000000 % 2 ^ 32

abbrev pub utc_octets : ℕ → ℕ → ℕ → List ℕ
utc_octets secs frac q =
    secs / 2 ^ 24 % 256
    ∷ secs / 2 ^ 16 % 256
    ∷ secs / 2 ^ 8 % 256
    ∷ secs % 256
    ∷ frac / 2 ^ 16 % 256
    ∷ frac / 2 ^ 8 % 256
    ∷ frac % 256
    ∷ q
    ∷ []

-- `NewUTCTime`
unfoldable pub new_utc_time : Time → ℕ → Value
new_utc_time t q = let (secs, ns) = clamp t in utc_time (utc_octets secs (fraction ns) q)

abbrev utc_moment : List ℕ → Time
utc_moment (a ∷ b ∷ c ∷ d ∷ e ∷ f ∷ g ∷ q ∷ []) = record {
  unix = pos (big_endian_32 a b c d);
  nanosecond = big_endian_24 e f g * 1000000000 / 2 ^ 24;
}
utc_moment _ = zero_time

-- 1984-01-01, in seconds from 1970.
abbrev epoch_1984 : ℕ
epoch_1984 = 441763200

abbrev day_moment : ℕ → ℕ → Time
day_moment days ms = record {
  unix = pos (epoch_1984 + days * 86400 + ms / 1000);
  nanosecond = ms % 1000 * 1000000;
}

abbrev binary_moment : List ℕ → Time
binary_moment (a ∷ b ∷ c ∷ d ∷ []) = day_moment 0 (big_endian_32 a b c d)
binary_moment (a ∷ b ∷ c ∷ d ∷ e ∷ f ∷ []) =
    day_moment (bit_or (e * 2 ^ 8) f) (big_endian_32 a b c d)
binary_moment _ = zero_time

-- `Time`
unfoldable pub time : Value → Time
time (utc_time b) = utc_moment b
time (binary_time b) = binary_moment b
time _ = zero_time

abbrev last_of_eight : List ℕ → ℕ
last_of_eight (a ∷ b ∷ c ∷ d ∷ e ∷ f ∷ g ∷ q ∷ []) = q
last_of_eight _ = 0

-- `TimeQualityFlags`
unfoldable pub time_quality_flags : Value → ℕ
time_quality_flags (utc_time b) = last_of_eight b
time_quality_flags _ = 0

-- The octets of a UtcTime hold its seconds and its fraction.
pub time-utc_octets :
    (secs frac q : ℕ)
    → secs < 2 ^ 32
    → frac < 2 ^ 24
    → time (utc_time (utc_octets secs frac q))
      ≡ record { unix = pos secs; nanosecond = frac * 1000000000 / 2 ^ 24 }
unfolding time
time-utc_octets secs frac q h k = rw (big_endian_32-octets secs h, big_endian_24-octets frac k)
