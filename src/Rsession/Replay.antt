-- ===== src/Rsession/Replay.antt =====
-- rsession/replay.go: the window of SPDU numbers of one sender. A moment is nanoseconds.
pub mod Memory
use go_iec.Base.{
  ℤ, pos, negsuc, above, ℕ, ◌+◌, ◌-◌, ◌*◌, ◌%◌, ◌^◌, Bool, true, false, not, ◌&&◌, ◌||◌, bit_and,
  bit_or, ltb, leb, ◌==◌, if◌then◌else◌,
}

pub record ReplayWindow : Type 0 where
  pub top : ℕ  -- uint32
  pub seen : ℕ  -- uint64
  pub last : ℕ
  pub primed : Bool

-- `&replayWindow{}`
abbrev pub new_window : ReplayWindow
new_window = record { top = 0; seen = 0; last = 0; primed = false }

-- The bits of `n - w.top`, the int32 `diff`.
abbrev pub diff_bits : ℕ → ℕ → ℕ
diff_bits n top = (n + (2 ^ 32 - top)) % 2 ^ 32

-- `diff > 0`
abbrev pub is_ahead : ℕ → Bool
is_ahead diff = ltb 0 diff && ltb diff (2 ^ 31)

-- `-int64(diff)` of a `diff` that is not positive.
abbrev pub behind : ℕ → ℕ
behind diff = (2 ^ 32 - diff) % 2 ^ 32

-- `1 << off` of a uint64.
abbrev pub one_shl : ℕ → ℕ
one_shl off = if ltb off 64 then 2 ^ off else 0

abbrev pub seen_ahead : ℕ → ℕ → ℕ
seen_ahead seen diff = if leb 64 diff then 1 else bit_or (seen * 2 ^ diff % 2 ^ 64) 1

-- Nothing is accepted yet, or the sender may start again.
abbrev pub starts : Bool → ℕ → ℕ → ℤ → Bool
starts primed last now reset = not primed || (positive reset && above (now - last) reset)
  where
    positive : ℤ → Bool
    positive (pos k) = ltb 0 k
    positive (negsuc k) = false

unfoldable pub accept : ReplayWindow → ℕ → ℕ → ℕ → ℤ → Bool × ReplayWindow
accept w n now size reset =
    let diff = diff_bits n w.top in
    let off = behind diff in
    if starts w.primed w.last now reset
    then (true, record { top = n; seen = 1; last = now; primed = true })
    else if is_ahead diff
    then (true, record w { top = n; seen = seen_ahead w.seen diff; last = now })
    else if leb size off || not (bit_and w.seen (one_shl off) == 0)
    then (false, w)
    else (true, record w { seen = bit_or w.seen (one_shl off); last = now })
