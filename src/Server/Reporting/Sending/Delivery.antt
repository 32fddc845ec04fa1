-- ===== src/Server/Reporting/Sending/Delivery.antt =====
-- server/reporting.go: the events of a buffered block that nobody has enabled.
use go_iec.Base.{
  ℕ, zero, suc, ◌+◌, ◌-◌, ◌%◌, min, Bool, ◌||◌, length-drop, drop-drop, ◌^◌, ◌≤◌, ◌≡◌, refl, sym,
  ◌∙◌, ap, true, false, List, [], ◌∷◌, ◌++◌, append-nil, append_assoc, length, length-append, drop,
  ltb, if-cases, arith,
}
use go_iec.Mms.{Value}
use go_iec.Server.Reporting.{Environment, Part, ReportEntry, Report, Rcb, entry_id_of}
use go_iec.Server.Reporting.Sending.{discard, commit, emit}
use go_iec.Server.Reporting.Sending.Buffer.{
  Core, core, unsent, discard-Without, unsent-Without, IsBuffered, discard-IsBuffered,
}
use go_iec.Server.Reporting.Sending.Delivered.{Printed, printed}

-- What commits leave alone.
abbrev pub Steady : Type 0
Steady = Core × List Report × List Bool × Printed

abbrev pub steady : Rcb → Steady
steady rs =
    (record (core rs) { buffer = []; next = 0; entry_counter = 0 }, rs.sent, rs.sends, printed rs)

steady-discard : (fuel : ℕ) (rs : Rcb) → steady (discard fuel rs) ≡ steady rs
unfolding discard
steady-discard zero rs = refl
steady-discard (suc fuel) rs =
    let S = λ (after : Rcb). steady after ≡ steady rs in
    if-cases S (ltb rs.max_buffer (length rs.buffer)) _ _
      (λ _.
        if-cases (λ (r : Rcb). steady (discard fuel r) ≡ steady rs) (ltb 0 rs.next) _ _
          (λ _. steady-discard fuel _) (λ _. steady-discard fuel _))
      (λ _. refl)

pub steady-commit :
    (now : Value) (parts : List Part) (rs : Rcb) → steady (commit now parts rs) ≡ steady rs
unfolding commit
steady-commit now parts rs = steady-discard (length rs.buffer + 1) _

-- The entry that a commit makes, and its counter.
abbrev next_counter : ℕ → ℕ
next_counter counter = (counter + 1) % 2 ^ 64

abbrev pub entry_at : ℕ → ℕ → Value → List Part → ReportEntry
entry_at seed counter now parts = record {
  id = entry_id_of seed (next_counter counter);
  time = now;
  parts = parts;
}

drop-append :
    {A : Type 0} (n : ℕ) (xs ys : List A) → n ≤ length xs → drop n (xs ++ ys) ≡ drop n xs ++ ys
drop-append zero xs ys h = refl
drop-append (suc n) [] ys h = absurd (omega arith)
drop-append (suc n) (x ∷ xs) ys h = drop-append n xs ys (omega arith)

-- How many of the entries that wait are discarded, of a buffer that would grow by `more`.
abbrev pub missing : ℕ → Rcb → ℕ
missing more rs = length rs.buffer + more - rs.max_buffer - rs.next

ltb-minus : (a b : ℕ) → ltb a b ≡ ltb 0 (b - a)
ltb-minus a b = ground arith

-- What waits after a commit, and whether the block has lost entries.
commit-unsent :
    (now : Value) (parts : List Part) (rs : Rcb)
    → IsBuffered rs
    → let after = commit now parts rs in
      (unsent after
        ≡ drop (missing 1 rs) (unsent rs ++ (entry_at rs.seed rs.entry_counter now parts ∷ [])))
      × (after.buf_overflow ≡ (rs.buf_overflow || ltb 0 (missing 1 rs)))
      × (length after.buffer ≡ min (length rs.buffer + 1) rs.max_buffer)
      × (after.next ≡ rs.next - (length rs.buffer + 1 - rs.max_buffer))
      × (after.max_buffer ≡ rs.max_buffer)
unfolding commit
commit-unsent now parts rs (next, size) =
    let e = entry_at rs.seed rs.entry_counter now parts in
    let longer = record rs {
      entry_counter = next_counter rs.entry_counter;
      buffer = rs.buffer ++ (e ∷ []);
    } in
    let more = length-append rs.buffer (e ∷ []) in
    let after = discard (length rs.buffer + 1) longer in
    let k = length longer.buffer - rs.max_buffer in
    let without = discard-Without (length rs.buffer + 1) longer (omega arith) in
    let (buffer, position, most, overflow) = without in
    let count : k - rs.next ≡ missing 1 rs = omega (arith, more) in
    let lengths = ap length buffer ∙ length-drop k longer.buffer in
    (
      unsent-Without k longer after without
          ∙ ap (λ n. drop n (drop rs.next (rs.buffer ++ (e ∷ [])))) count
          ∙ ap (λ (l : List ReportEntry). drop (missing 1 rs) l)
              (drop-append rs.next rs.buffer (e ∷ []) next),
      overflow ∙ ap (λ b. rs.buf_overflow || b) (ltb-minus rs.next k ∙ ap (λ n. ltb 0 n) count),
      omega (arith, lengths, more, size),
      omega (arith, position, more),
      most,
    )

pub commit-IsBuffered :
    (now : Value) (parts : List Part) (rs : Rcb) → IsBuffered rs → IsBuffered (commit now parts rs)
unfolding commit
commit-IsBuffered now parts rs (next, size) =
    let e = entry_at rs.seed rs.entry_counter now parts in
    let longer = record rs {
      entry_counter = next_counter rs.entry_counter;
      buffer = rs.buffer ++ (e ∷ []);
    } in
    let more = length-append rs.buffer (e ∷ []) in
    let (bounds, cap) =
      discard-IsBuffered (length rs.buffer + 1) longer (omega arith) (omega arith) in
    bounds

counter-discard : (fuel : ℕ) (rs : Rcb) → (discard fuel rs).entry_counter ≡ rs.entry_counter
unfolding discard
counter-discard zero rs = refl
counter-discard (suc fuel) rs =
    if-cases {A = Rcb} (λ after. after.entry_counter ≡ rs.entry_counter)
      (ltb rs.max_buffer (length rs.buffer)) _ _
      (λ _.
        if-cases (λ (r : Rcb). (discard fuel r).entry_counter ≡ rs.entry_counter) (ltb 0 rs.next) _
          _ (λ _. counter-discard fuel _) (λ _. counter-discard fuel _))
      (λ _. refl)

counter-commit :
    (now : Value) (parts : List Part) (rs : Rcb)
    → (commit now parts rs).entry_counter ≡ next_counter rs.entry_counter
unfolding commit
counter-commit now parts rs = counter-discard (length rs.buffer + 1) _

-- Events one after the other, and the entries that they become.
unfoldable pub emit_all : Environment → List (Value × List Part) → Rcb → Rcb
emit_all env [] rs = rs
emit_all env ((now, parts) ∷ events) rs = emit_all env events (emit env now parts rs)

unfoldable pub entries_of : ℕ → ℕ → List (Value × List Part) → List ReportEntry
entries_of seed counter [] = []
entries_of seed counter ((now, parts) ∷ events) =
    entry_at seed counter now parts ∷ entries_of seed (next_counter counter) events

abbrev pub IsIdle : Rcb → Type 0
IsIdle rs = (rs.buffered ≡ true) × (rs.enabled ≡ false) × IsBuffered rs

emit-idle :
    (env : Environment) (now : Value) (parts : List Part) (rs : Rcb)
    → rs.buffered ≡ true
    → rs.enabled ≡ false
    → emit env now parts rs ≡ commit now parts rs
unfolding emit
emit-idle env now parts rs b e = rw (b, e) refl

flag-twice : (o : Bool) (a b : ℕ) → ((o || ltb 0 a) || ltb 0 b) ≡ (o || ltb 0 (a + b))
flag-twice o a b = ground arith

-- Events while nobody has enabled the block: what waits then is what waited and the entries of the
-- events, without the oldest that do not fit, and the block knows whether there were any of those.
pub emit_all-unsent :
    (env : Environment) (events : List (Value × List Part)) (rs : Rcb)
    → IsIdle rs
    → let after = emit_all env events rs in
      (unsent after
        ≡ drop
            (missing (length events) rs)
            (unsent rs ++ entries_of rs.seed rs.entry_counter events))
      × (after.buf_overflow ≡ (rs.buf_overflow || ltb 0 (missing (length events) rs)))
      × IsIdle after
      × (steady after ≡ steady rs)
unfolding emit_all entries_of
emit_all-unsent env [] rs (b, e, bounds) =
    let (next, size) = bounds in
    let none_missing : missing 0 rs ≡ 0 = omega arith in
    (
      rw none_missing (sym (append-nil (unsent rs))),
      rw none_missing (ground arith),
      (b, e, bounds),
      refl,
    )
emit_all-unsent env ((now, parts) ∷ events) rs (b, e, bounds) =
    let a = commit now parts rs in
    let m = length events in
    let same = steady-commit now parts rs in
    let idle : IsIdle a = (
      ap (λ (t : Steady). t.0.buffered) same ∙ b,
      ap (λ (t : Steady). t.0.enabled) same ∙ e,
      commit-IsBuffered now parts rs bounds,
    ) in
    let (first, lost, size, position, most) = commit-unsent now parts rs bounds in
    let (rest, lost', idle', steadily) = emit_all-unsent env events a idle in
    let seed : a.seed ≡ rs.seed = ap (λ (t : Steady). t.0.seed) same in
    let new = entry_at rs.seed rs.entry_counter now parts in
    let later = entries_of rs.seed (next_counter rs.entry_counter) events in
    let same_later : entries_of a.seed a.entry_counter events ≡ later =
      rw (seed, counter-commit now parts rs) refl in
    let together : missing 1 rs + missing m a ≡ missing (suc m) rs =
      omega (arith, size, position, most, bounds.1) in
    let few : missing 1 rs ≤ length (unsent rs ++ (new ∷ [])) = omega (
      arith,
      length-append (unsent rs) (new ∷ []),
      length-drop rs.next rs.buffer,
      bounds.0,
      bounds.1,
    ) in
    rw (emit_all, emit-idle env now parts rs b e)
      (
        rest
            ∙ ap (λ (l : List ReportEntry). drop (missing m a) (unsent a ++ l)) same_later
            ∙ ap (λ (l : List ReportEntry). drop (missing m a) (l ++ later)) first
            ∙ ap (λ (l : List ReportEntry). drop (missing m a) l)
                (sym (drop-append (missing 1 rs) (unsent rs ++ (new ∷ [])) later few))
            ∙ drop-drop (missing 1 rs) (missing m a) ((unsent rs ++ (new ∷ [])) ++ later)
            ∙ ap (λ (l : List ReportEntry). drop (missing 1 rs + missing m a) l)
                (append_assoc (unsent rs) (new ∷ []) later)
            ∙ ap (λ n. drop n (unsent rs ++ (new ∷ later))) together,
        lost'
            ∙ ap (λ (o : Bool). o || ltb 0 (missing m a)) lost
            ∙ flag-twice rs.buf_overflow (missing 1 rs) (missing m a)
            ∙ ap (λ n. rs.buf_overflow || ltb 0 n) together,
        idle',
        steadily ∙ same,
      )
