-- ===== src/Mms/Time/Accuracy.antt =====
-- What a time loses in the 24 bits of a UtcTime's fraction.
use go_iec.Base.{
  pos, ℕ, ◌+◌, ◌-◌, ◌*◌, ◌/◌, ◌%◌, ◌^◌, ◌≤◌, ◌<◌, ◌≡◌, inl, inr, zero-cases, ◌==◌, if◌then◌else◌,
  le→ltb, arith,
}
use go_iec.Mms.{utc_time}
use go_iec.Mms.Time.{new_utc_time, time, time_quality_flags, fraction, utc_octets, time-utc_octets}

new_utc_time_in_range :
    (secs ns q : ℕ)
    → secs < 2 ^ 32
    → new_utc_time (record { unix = pos secs; nanosecond = ns }) q
      ≡ utc_time (utc_octets secs (fraction ns) q)
unfolding new_utc_time
new_utc_time_in_range secs ns q h = rw (le→ltb (2 ^ 32 - 1) secs (omega arith))

fraction_bound : (ns : ℕ) → ns < 1000000000 → fraction ns < 2 ^ 24
fraction_bound ns h = omega arith

fraction_accurate :
    (ns : ℕ)
    → ns < 1000000000
    → (fraction ns * 1000000000 / 2 ^ 24 ≤ ns) × (ns ≤ fraction ns * 1000000000 / 2 ^ 24 + 60)
fraction_accurate ns h = (omega arith, omega arith)

-- From 1970 until 2106, a time with less than a second of nanoseconds: the time of its UtcTime is in
-- the same second, never later, and at most 60 ns earlier, and the quality is kept.
pub time-new_utc_time :
    (secs ns q : ℕ)
    → secs < 2 ^ 32
    → ns < 1000000000
    → (ns' : ℕ) × (time (new_utc_time (record { unix = pos secs; nanosecond = ns }) q)
        ≡ record { unix = pos secs; nanosecond = ns' })
      × (ns' ≤ ns)
      × (ns ≤ ns' + 60)
      × (time_quality_flags (new_utc_time (record { unix = pos secs; nanosecond = ns }) q) ≡ q)
unfolding time_quality_flags
time-new_utc_time secs ns q h k =
    let (low, high) = fraction_accurate ns k in
    let sent = new_utc_time_in_range secs ns q h in
    (
      fraction ns * 1000000000 / 2 ^ 24,
      rw (sent, time-utc_octets secs (fraction ns) q h (fraction_bound ns k)),
      low,
      high,
      rw sent,
    )

-- The fraction that goes out again for one that came in.
abbrev relayed : ℕ → ℕ
relayed frac = if frac % 2 ^ 15 == 0 then frac else frac - 1

whole :
    (frac : ℕ) → frac < 2 ^ 24 → frac % 2 ^ 15 ≡ 0 → fraction (frac * 1000000000 / 2 ^ 24) ≡ frac
whole frac h e = omega arith

partial :
    (frac : ℕ)
    → frac < 2 ^ 24
    → 0 < frac % 2 ^ 15
    → fraction (frac * 1000000000 / 2 ^ 24) ≡ frac - 1
partial frac h low = omega arith

fraction-relayed : (frac : ℕ) → frac < 2 ^ 24 → fraction (frac * 1000000000 / 2 ^ 24) ≡ relayed frac
fraction-relayed frac h = elim (zero-cases (frac % 2 ^ 15)) [
  | inl e ↦ ground (arith, e, whole frac h e)
  | inr low ↦ ground (arith, low, partial frac h low)
]

-- The time of a UtcTime, encoded again with a quality: the octets of the seconds stay, and the fraction
-- is one lower unless its low 15 bits are all 0, for seconds below 2 ^ 32 and a fraction below 2 ^ 24.
new_utc_time-time :
    (secs frac q : ℕ)
    → secs < 2 ^ 32
    → frac < 2 ^ 24
    → new_utc_time (time (utc_time (utc_octets secs frac q))) q
      ≡ utc_time (utc_octets secs (relayed frac) q)
new_utc_time-time secs frac q h k = rw (
  time-utc_octets secs frac q h k,
  new_utc_time_in_range secs (frac * 1000000000 / 2 ^ 24) q h,
  fraction-relayed frac k,
)
