-- ===== src/Server/Reporting/Sending/Windows.antt =====
-- server/reporting.go: the members of a report, in the order of the data set.
use go_iec.Base.{
  ℕ, suc, ◌+◌, ◌≤◌, ◌<◌, ◌≡◌, refl, sym, ap, inl, inr, Bool, true, false, not, ◌&&◌, ◌||◌,
  Bool-cases, Option, none, some, List, [], ◌∷◌, ltb, ◌==◌, if-cases, All, arith,
}
use mathlib.Core.Path.{subst}
use go_iec.Mms.{Value, absent}
use go_iec.Server.Reporting.{
  DsMember, Environment, Part, Rcb, insert_part, merge, contains, overlaps,
}
use go_iec.Server.Reporting.Pdus.{members_of}
use go_iec.Server.Reporting.Sending.{
  emit, flush_pending, event, event_some, overlap_pending, add_pending, collect_parts, with_value,
  on_update_block,
}
use go_iec.Server.Reporting.Sending.Buffer.{Core}
use go_iec.Server.Reporting.Sending.Frame.{Steps, frame-emit, emit-IsBuffered, flush_pending-Steps}

-- Strictly ascending indices, all above those of a lower bound.
abbrev Above : ℕ → List Part → Type 0
Above i [] = Unit {0}
Above i (p ∷ parts) = (i ≤ p.index) × Above (suc p.index) parts

abbrev IsAscending : List Part → Type 0
IsAscending parts = Above 0 parts

Above-weaken : (i j : ℕ) (parts : List Part) → j ≤ i → Above i parts → Above j parts
Above-weaken i j [] h a = tt
Above-weaken i j (p ∷ parts) h (k, rest) = (omega arith, rest)

or_false : (a b : Bool) → (a || b) ≡ false → (a ≡ false) × (b ≡ false)
or_false true b h = cc
or_false false b h = (refl, h)

Above-insert :
    (i : ℕ) (e : Part) (parts : List Part)
    → i ≤ e.index
    → contains e.index parts ≡ false
    → Above i parts
    → Above i (insert_part e parts)
unfolding insert_part contains
Above-insert i e [] h c a = (h, tt)
Above-insert i e (p ∷ parts) h c (k, rest) =
    let (other, missing) = or_false (e.index == p.index) (contains e.index parts) c in
    elim (Bool-cases (ltb e.index p.index)) [
      | inl b ↦ let less : suc e.index ≤ p.index = ground (arith, b) in rw b (h, (less, rest))
      | inr b ↦
          let more : suc p.index ≤ e.index = ground (arith, b, other) in
          rw b (k, Above-insert (suc p.index) e parts more missing rest)
    ]

-- Members that have no index in common.
Apart : List Part → List Part → Type 0
Apart parts es = All (λ e. contains e.index parts ≡ false) es

nil-Apart : (es : List Part) → Apart [] es
unfolding Apart contains
nil-Apart [] = tt
nil-Apart (e ∷ es) = (refl, nil-Apart es)

cons-Apart :
    (p : Part) (parts es : List Part)
    → contains p.index es ≡ false
    → Apart parts es
    → Apart (p ∷ parts) es
unfolding Apart contains
cons-Apart p parts [] h a = tt
cons-Apart p parts (e ∷ es) h (k, rest) =
    let (other, more) = or_false (p.index == e.index) (contains p.index es) h in
    (ground (arith, other, k), cons-Apart p parts es more rest)

overlaps-Apart : (parts es : List Part) → overlaps parts es ≡ false → Apart parts es
unfolding overlaps
overlaps-Apart [] es h = nil-Apart es
overlaps-Apart (p ∷ parts) es h =
    let (here, rest) = or_false (contains p.index es) (overlaps parts es) h in
    cons-Apart p parts es here (overlaps-Apart parts es rest)

-- Insertion of a member that is apart from the others keeps them apart.
contains-insert :
    (x : ℕ) (e : Part) (parts : List Part)
    → contains x (insert_part e parts) ≡ (x == e.index || contains x parts)
unfolding contains insert_part
contains-insert x e [] = refl
contains-insert x e (p ∷ parts) = elim (Bool-cases (ltb e.index p.index)) [
  | inl b ↦ rw b refl
  | inr b ↦ rw (b, contains-insert x e parts) (ground arith)
]

Apart-insert :
    (i : ℕ) (e : Part) (parts es : List Part)
    → e.index < i
    → Above i es
    → Apart parts es
    → Apart (insert_part e parts) es
unfolding Apart
Apart-insert i e parts [] h a apart = tt
Apart-insert i e parts (f ∷ es) h (k, rest) (c, apart) =
    let other : (f.index == e.index) ≡ false = ground arith in
    (
      rw (contains-insert f.index e parts, other, c) refl,
      Apart-insert (suc f.index) e parts es (omega arith) rest apart,
    )

Above-merge :
    (i : ℕ) (parts es : List Part)
    → Above 0 parts
    → Above i es
    → Apart parts es
    → Above 0 (merge parts es)
unfolding merge Apart
Above-merge i parts [] h k apart = h
Above-merge i parts (e ∷ es) h (k, rest) (c, apart) =
    Above-merge (suc e.index) (insert_part e parts) es (Above-insert 0 e parts (omega arith) c h)
      rest (Apart-insert (suc e.index) e parts es (omega arith) rest apart)

-- What waits in a window.
abbrev pub IsOrdered : Option (ℕ × List Part) → Type 0
IsOrdered none = Unit {0}
IsOrdered (some (window, parts)) = IsAscending parts

add_pending-IsOrdered :
    (es : List Part) (o : Option (ℕ × List Part)) (rs : Rcb)
    → IsAscending es
    → IsOrdered o
    → overlap_pending o es ≡ false
    → IsOrdered (add_pending es o rs).pending
add_pending-IsOrdered es none rs asc h b = Above-merge 0 [] es tt asc (nil-Apart es)
add_pending-IsOrdered es (some (window, parts)) rs asc h b =
    Above-merge 0 parts es h asc (overlaps-Apart parts es b)

-- A block whose pending members wait in order, as a step left them.
same_order :
    (rs r : Rcb) (o : Option (ℕ × List Part)) → Steps rs o r → IsOrdered o → IsOrdered r.pending
same_order rs r o (h, _) k = subst IsOrdered (sym (ap (λ (c : Core). c.pending) h)) k

event-IsOrdered :
    (env : Environment) (now : Value) (es : List Part) (rs : Rcb)
    → IsAscending es
    → IsOrdered rs.pending
    → IsOrdered (event env now es rs).pending
unfolding event
event-IsOrdered env now es rs asc h =
    let O = λ (r : Rcb). IsOrdered r.pending in
    if-cases O _ _ _
      (λ _.
        same_order rs (emit env now es rs) rs.pending
          (frame-emit env now es rs, emit-IsBuffered env now es rs) h)
      (λ _.
        if-cases (λ (r : Rcb). IsOrdered (add_pending es r.pending r).pending)
          (overlap_pending rs.pending es) _ _
          (λ _.
            let r = flush_pending env now rs in
            let empty = ap (λ (c : Core). c.pending) (flush_pending-Steps env now rs).0 in
            add_pending-IsOrdered es r.pending r asc (subst IsOrdered (sym empty) tt)
              (ap (λ (o : Option (ℕ × List Part)). overlap_pending o es) empty))
          (λ b. add_pending-IsOrdered es rs.pending rs asc h b))

with_value-Above :
    (i reason : ℕ) (v : Value) (parts : List Part)
    → Above (i + 1) parts
    → Above i (with_value i reason v parts)
with_value-Above i reason absent parts h = Above-weaken (i + 1) i parts (omega arith) h
with_value-Above i reason _ parts h =
    (omega arith, Above-weaken (i + 1) (suc i) parts (omega arith) h)

collect_parts-Above :
    (env : Environment) (wanted : DsMember → ℕ) (i : ℕ) (members : List DsMember)
    → Above i (collect_parts env wanted i members)
unfolding collect_parts
collect_parts-Above env wanted i [] = tt
collect_parts-Above env wanted i (m ∷ members) =
    let rest = collect_parts-Above env wanted (i + 1) members in
    if-cases (Above i) (wanted m == 0) _ _
      (λ _. Above-weaken (i + 1) i (collect_parts env wanted (i + 1) members) (omega arith) rest)
      (λ _. with_value-Above i (wanted m) (env.item_value m) _ rest)

-- Over any updates, the members that wait in the window of a block stay in the strictly ascending
-- order of the data set: none of them twice.
pub on_update_block-IsOrdered :
    (env : Environment) (now : Value) (raised : DsMember → ℕ) (rs : Rcb)
    → IsOrdered rs.pending
    → IsOrdered (on_update_block env now raised rs).pending
unfolding on_update_block
on_update_block-IsOrdered env now raised rs h =
    if-cases {A = Rcb} (λ r. IsOrdered r.pending) (not rs.buffered && not rs.enabled) _ _ (λ _. h)
      (λ _. go _ (collect_parts-Above env _ 0 (members_of env rs)))
  where
    go : (es : List Part) → IsAscending es → IsOrdered (event_some env now es rs).pending
    go [] asc = h
    go (p ∷ ps) asc = event-IsOrdered env now (p ∷ ps) rs asc h
