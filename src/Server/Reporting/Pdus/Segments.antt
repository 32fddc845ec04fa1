-- ===== src/Server/Reporting/Pdus/Segments.antt =====
-- server/reporting.go: the segments of a report.
use go_iec.Base.{
  ℕ, zero, suc, ◌+◌, ◌≤◌, ◌≡◌, refl, sym, ◌∙◌, ap, ◌⊎◌, inl, inr, Bool, true, false, not, List, [],
  ◌∷◌, ◌++◌, append-nil, append_assoc, length, length-append, if-cases, arith,
}
use go_iec.Server.Reporting.{Part}
use go_iec.Server.Reporting.Pdus.{Segment, whole, part, is_empty, grow, segments, pieces}

-- All the members of some pieces.
unfoldable pub members_in : List (List Part × Segment) → List Part
members_in [] = []
members_in ((parts, segment) ∷ rest) = parts ++ members_in rest

abbrev is_done : List (List Part × Segment) → Bool
is_done [] = true
is_done (p ∷ ps) = false

-- Segments from the number i on, with more to follow on all but the last, each with a member at
-- least, which is its only one unless `fits` admits them.
unfoldable pub IsNumbered : (ℕ → List Part → Bool) → ℕ → List (List Part × Segment) → Type 0
IsNumbered fits i [] = Unit {0}
IsNumbered fits i ((parts, segment) ∷ rest) =
    (segment ≡ part i (not (is_done rest)))
    × (1 ≤ length parts)
    × ((length parts ≡ 1) ⊎ (fits i parts ≡ true))
    × IsNumbered fits (i + 1) rest

grow-all :
    (fits : List Part → Bool) (taken rest : List Part)
    → let (more, left) = grow fits taken rest in more ++ left ≡ taken ++ rest
unfolding grow
grow-all fits taken [] = refl
grow-all fits taken (p ∷ rest) =
    if-cases (λ (r : List Part × List Part). r.0 ++ r.1 ≡ taken ++ (p ∷ rest))
      (fits (taken ++ (p ∷ []))) _ _
      (λ _. grow-all fits (taken ++ (p ∷ [])) rest ∙ append_assoc taken (p ∷ []) rest) (λ _. refl)

grow-fits :
    (fits : List Part → Bool) (taken rest : List Part)
    → (length taken ≡ 1) ⊎ (fits taken ≡ true)
    → (length (grow fits taken rest).0 ≡ 1) ⊎ (fits (grow fits taken rest).0 ≡ true)
unfolding grow
grow-fits fits taken [] h = h
grow-fits fits taken (p ∷ rest) h =
    if-cases (λ (r : List Part × List Part). (length r.0 ≡ 1) ⊎ (fits r.0 ≡ true))
      (fits (taken ++ (p ∷ []))) _ _ (λ b. grow-fits fits (taken ++ (p ∷ [])) rest (inr b)) (λ _. h)

grow-length :
    (fits : List Part → Bool) (taken rest : List Part)
    → (length taken ≤ length (grow fits taken rest).0)
      × (length (grow fits taken rest).1 ≤ length rest)
unfolding grow
grow-length fits taken [] = (omega arith, omega arith)
grow-length fits taken (p ∷ rest) =
    if-cases
      (λ (r : List Part × List Part).
        (length taken ≤ length r.0) × (length r.1 ≤ suc (length rest)))
      (fits (taken ++ (p ∷ []))) _ _
      (λ b.
        let (more, less) = grow-length fits (taken ++ (p ∷ [])) rest in
        (omega (arith, length-append taken (p ∷ [])), omega arith))
      (λ _. (omega arith, omega arith))

segments-all :
    (fits : ℕ → List Part → Bool) (fuel i : ℕ) (parts : List Part)
    → length parts ≤ fuel
    → members_in (segments fits fuel i parts) ≡ parts
unfolding segments members_in
segments-all fits zero i [] h = refl
segments-all fits zero i (p ∷ parts) h = absurd (omega arith)
segments-all fits (suc fuel) i [] h = refl
segments-all fits (suc fuel) i (p ∷ parts) h =
    let (_, less) = grow-length (fits i) (p ∷ []) parts in
    let rest = segments-all fits fuel (i + 1) (grow (fits i) (p ∷ []) parts).1 (omega arith) in
    ap (λ (t : List Part). (grow (fits i) (p ∷ []) parts).0 ++ t) rest
    ∙ grow-all (fits i) (p ∷ []) parts

segments-done :
    (fits : ℕ → List Part → Bool) (fuel i : ℕ) (parts : List Part)
    → length parts ≤ fuel
    → is_done (segments fits fuel i parts) ≡ is_empty parts
unfolding segments
segments-done fits zero i [] h = refl
segments-done fits zero i (p ∷ parts) h = absurd (omega arith)
segments-done fits (suc fuel) i [] h = refl
segments-done fits (suc fuel) i (p ∷ parts) h = refl

segments-IsNumbered :
    (fits : ℕ → List Part → Bool) (fuel i : ℕ) (parts : List Part)
    → length parts ≤ fuel
    → IsNumbered fits i (segments fits fuel i parts)
unfolding segments IsNumbered
segments-IsNumbered fits zero i parts h = tt
segments-IsNumbered fits (suc fuel) i [] h = tt
segments-IsNumbered fits (suc fuel) i (p ∷ parts) h =
    let (more, less) = grow-length (fits i) (p ∷ []) parts in
    let left = (grow (fits i) (p ∷ []) parts).1 in
    let done = sym (segments-done fits fuel (i + 1) left (omega arith)) in
    (
      ap (λ (b : Bool). part i (not b)) done,
      more,
      grow-fits (fits i) (p ∷ []) parts (inl refl),
      segments-IsNumbered fits fuel (i + 1) left (omega arith),
    )

-- The pieces that an entry is sent in hold all its members, in their order: it is either one piece,
-- which fits, or segments that are numbered from 0 on, each of them with a member at least and, if it
-- has more than one, within the size, and with more to follow on all but the last.
pub pieces-all :
    (fits : List Part → Segment → Bool) (parts : List Part)
    → (members_in (pieces fits parts) ≡ parts)
      × ((fits parts whole ≡ true) × (pieces fits parts ≡ (parts, whole) ∷ [])
          ⊎ IsNumbered (λ i taken. fits taken (part i true)) 0 (pieces fits parts))
unfolding pieces members_in
pieces-all fits parts =
    let P = λ (ps : List (List Part × Segment)).
      (members_in ps ≡ parts)
      × ((fits parts whole ≡ true) × (ps ≡ (parts, whole) ∷ [])
          ⊎ IsNumbered (λ i taken. fits taken (part i true)) 0 ps) in
    if-cases P (fits parts whole) _ _ (λ b. (append-nil parts, inl (b, refl)))
      (λ _.
        let f : ℕ → List Part → Bool = λ i taken. fits taken (part i true) in
        (
          segments-all f (length parts) 0 parts (omega arith),
          inr (segments-IsNumbered f (length parts) 0 parts (omega arith)),
        ))
