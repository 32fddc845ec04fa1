-- ===== src/Rsession/Replay/Memory.antt =====
-- The bitmap of the window against a memory of every number that was accepted.
use go_iec.Base.{
  ℤ, ℕ, ◌+◌, ◌-◌, ◌*◌, ◌%◌, ◌^◌, ◌≤◌, ◌<◌, ◌≡◌, refl, ap, inl, inr, Bool, true, false, not, ◌&&◌,
  ◌||◌, Bool-cases, bit_and, bit_or, List, [], ◌∷◌, map, ltb, leb, ◌==◌, if◌then◌else◌, arith,
}
use go_iec.Base.Digits.{
  digit, digit_bound, digit-zero, digit-or, digit-shift, digit-mod, digit-one, digit-pow,
  bit_and-pow,
}
use go_iec.Rsession.Replay.{
  ReplayWindow, new_window, diff_bits, is_ahead, behind, one_shl, seen_ahead, starts, accept,
}

-- The ages of all the numbers accepted since the numbering began: how far each is behind the newest.
pub record Memory : Type 0 where
  pub top : ℕ
  pub ages : List ℕ
  pub last : ℕ
  pub primed : Bool

abbrev pub no_memory : Memory
no_memory = record { top = 0; ages = []; last = 0; primed = false }

abbrev member : ℕ → List ℕ → Bool
member i [] = false
member i (a ∷ rest) = i == a || member i rest

-- What a receiver does that forgets nothing.
unfoldable pub remember : Memory → ℕ → ℕ → ℕ → ℤ → Bool × Memory
remember m n now size reset =
    let diff = diff_bits n m.top in
    let off = behind diff in
    if starts m.primed m.last now reset
    then (true, record { top = n; ages = 0 ∷ []; last = now; primed = true })
    else if is_ahead diff
    then (true, record m { top = n; ages = 0 ∷ map (λ a. a + diff) m.ages; last = now })
    else if leb size off || member off m.ages
    then (false, m)
    else (true, record m { ages = off ∷ m.ages; last = now })

-- The bitmap holds the ages below 64.
abbrev Holds : ℕ → List ℕ → Type 0
Holds seen ages = (i : ℕ) → i < 64 → (digit i seen == 1) ≡ member i ages

abbrev pub window : ℕ → Memory → ReplayWindow
window seen m = record { top = m.top; seen = seen; last = m.last; primed = m.primed }

member-older :
    (d i : ℕ) (rest : List ℕ)
    → member i (map (λ a. a + d) rest) ≡ (not (ltb i d) && member (i - d) rest)
member-older d i [] = ground arith
member-older d i (a ∷ rest) = ground (arith, member-older d i rest)

bits_ahead :
    (seen d : ℕ) (rest : List ℕ)
    → Holds seen rest
    → 0 < d
    → Holds (seen_ahead seen d) (0 ∷ map (λ a. a + d) rest)
bits_ahead seen d rest h pos_d i k = elim (Bool-cases (leb 64 d)) [
  | inl far ↦ rw (far, digit-one i, member-older d i rest) (ground (arith, far))
  | inr near ↦
      rw
        (
          near,
          digit-or i (seen * 2 ^ d % 2 ^ 64) 1,
          digit-mod 64 i (seen * 2 ^ d) k,
          digit-shift d i seen,
          digit-one i,
          member-older d i rest,
        )
        (ground (arith, h (i - d), digit_bound (i - d) seen))
]

bits_old :
    (seen off : ℕ) (rest : List ℕ)
    → Holds seen rest
    → off < 64
    → Holds (bit_or seen (one_shl off)) (off ∷ rest)
bits_old seen off rest h near i k =
    let inside : ltb off 64 ≡ true = ground arith in
    rw (inside, digit-or i seen (2 ^ off), digit-pow off i)
      (ground (arith, h i k, digit_bound i seen))

-- The test of the bitmap is the test of the memory.
tested :
    (seen off size : ℕ) (rest : List ℕ)
    → Holds seen rest
    → size ≤ 64
    → (leb size off || not (bit_and seen (one_shl off) == 0)) ≡ (leb size off || member off rest)
tested seen off size rest h few = elim (Bool-cases (leb size off)) [
  | inl e ↦ rw e
  | inr e ↦
      let inside : ltb off 64 ≡ true = ground (arith, e) in
      rw (inside, bit_and-pow off seen, ← h off (ground (arith, e)))
        (ground (arith, digit_bound off seen))
]

-- One number: the same answer, and the bitmap still holds what is remembered.
accept-remember :
    (m : Memory) (seen n now size : ℕ) (reset : ℤ)
    → Holds seen m.ages
    → size ≤ 64
    → (seen' : ℕ) × (accept (window seen m) n now size reset
        ≡ ((remember m n now size reset).0, window seen' (remember m n now size reset).1))
      × Holds seen' (remember m n now size reset).1.ages
unfolding accept remember
accept-remember m seen n now size reset h few =
    let diff = diff_bits n m.top in
    let off = behind diff in
    elim (Bool-cases (starts m.primed m.last now reset)) [
      | inl e ↦ rw e (1, refl, λ i k. rw (digit-one i) (ground arith))
      | inr e ↦ elim (Bool-cases (is_ahead diff)) [
        | inl f ↦
            rw (e, f)
              (seen_ahead seen diff, refl, bits_ahead seen diff m.ages h (ground (arith, f)))
        | inr f ↦ elim (Bool-cases (leb size off || member off m.ages)) [
          | inl g ↦ rw (e, f, tested seen off size m.ages h few, g) (seen, refl, h)
          | inr g ↦
              rw (e, f, tested seen off size m.ages h few, g)
                (bit_or seen (one_shl off), refl, bits_old seen off m.ages h (ground (arith, g)))
        ]
      ]
    ]

-- The answers to numbers that come one after the other, each with its moment.
abbrev pub answers : ReplayWindow → ℕ → ℤ → List (ℕ × ℕ) → List Bool
answers w size reset [] = []
answers w size reset ((n, now) ∷ rest) =
    let (b, w') = accept w n now size reset in b ∷ answers w' size reset rest

abbrev pub remembered : Memory → ℕ → ℤ → List (ℕ × ℕ) → List Bool
remembered m size reset [] = []
remembered m size reset ((n, now) ∷ rest) =
    let (b, m') = remember m n now size reset in b ∷ remembered m' size reset rest

answers_from :
    (m : Memory) (seen size : ℕ) (reset : ℤ) (numbers : List (ℕ × ℕ))
    → Holds seen m.ages
    → size ≤ 64
    → answers (window seen m) size reset numbers ≡ remembered m size reset numbers
answers_from m seen size reset [] h few = refl
answers_from m seen size reset ((n, now) ∷ rest) h few =
    let (seen', e, h') = accept-remember m seen n now size reset h few in
    rw e (
      ap (λ bs. (remember m n now size reset).0 ∷ bs)
        (answers_from (remember m n now size reset).1 seen' size reset rest h' few))

-- With a window of at most 64 numbers, on every sequence of numbers and moments, the 64-bit window gives
-- the answers of a receiver that remembers every number it accepted since the numbering began and
-- refuses it: a number not ahead of the newest is accepted if its age is within the window and no
-- accepted number has it.
pub answers-remembered :
    (size : ℕ) (reset : ℤ) (numbers : List (ℕ × ℕ))
    → size ≤ 64
    → answers new_window size reset numbers ≡ remembered no_memory size reset numbers
answers-remembered size reset numbers few =
    answers_from no_memory 0 size reset numbers (λ i k. rw (digit-zero i)) few
