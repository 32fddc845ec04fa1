-- ===== src/Server/Select/Origin.antt =====
-- Where reservations come from, over any history of a server's reservations.
use go_iec.Base.{
  ℕ, ◌+◌, ◌<◌, ◌≡◌, refl, Bool, false, List, [], ◌∷◌, some, All, ◌==◌, ◌&&◌, not, inl, inr,
  Bool-cases, Option-cases, ==_iff, ltb, arith,
}
use go_iec.Base.Maps.{lookup, All-insert, All-delete, All-lookup}
use go_iec.Server.Select.{
  Selection, Server, add_cause_none, cf_millis, sbo_timeout, held_by_other, check_found, reserve,
  check_selection, clear_selection, release, release_selections,
}
use mathlib.Core.Path.{subst}
use mathlib.Core.List.{Memᴰ}
use mathlib.Core.List.Memᴰ.{head, tail}

-- What changes the reservations: a select, the end of a command, a connection that closes.
pub data Step : Type 0 where
  selects : List ℕ → ℕ → ℕ → Bool → ℕ → Step
  clears : List ℕ → Step
  closes : ℕ → Step

unfoldable pub apply : Step → Server → Server
apply (selects ref conn n has now) s = (reserve ref conn n has now s).1
apply (clears ref) s = clear_selection ref s
apply (closes conn) s = release_selections conn s

-- A history, the latest step first.
unfoldable pub run : List Step → Server → Server
run [] s = s
run (step ∷ history) s = apply step (run history s)

apply-attribute : (step : Step) (s : Server) → (apply step s).attribute ≡ s.attribute
unfolding apply reserve clear_selection release_selections
apply-attribute (selects ref conn n has now) s = ground arith
apply-attribute (clears ref) s = refl
apply-attribute (closes conn) s = refl

run-attribute : (history : List Step) (s : Server) → (run history s).attribute ≡ s.attribute
unfolding run
run-attribute [] s = refl
run-attribute (step ∷ history) s =
    rw (apply-attribute step (run history s)) (run-attribute history s)

-- A reservation that a select of the history made.
Made : Server → List Step → List ℕ × Selection → Type 0
Made s history (ref, sel) =
    (now : ℕ) × Memᴰ (selects ref sel.conn sel.ctl_num sel.has_ctl_num now) history
    × (sel.expiry ≡ now + sbo_timeout s ref)

Made-later :
    (s : Server) (step : Step) (history : List Step) (m : List (List ℕ × Selection))
    → All (Made s history) m
    → All (Made s (step ∷ history)) m
unfolding Made
Made-later s step history [] all = tt
Made-later s step history ((ref, sel) ∷ m) (made, all) =
    let (now, made_then, expiry) = made in
    ((now, tail made_then, expiry), Made-later s step history m all)

All-release :
    (P : List ℕ × Selection → Type 0) (conn : ℕ) (m : List (List ℕ × Selection))
    → All P m
    → All P (release conn m)
unfolding release
All-release P conn [] all = tt
All-release P conn ((ref, sel) ∷ m) (p, all) = elim (Bool-cases (sel.conn == conn)) [
  | inl e ↦ rw e (All-release P conn m all)
  | inr e ↦ rw e (p, All-release P conn m all)
]

timeout-same :
    (history : List Step) (s : Server) (ref : List ℕ)
    → sbo_timeout (run history s) ref ≡ sbo_timeout s ref
unfolding sbo_timeout cf_millis
timeout-same history s ref = rw (run-attribute history s)

reserve-All :
    (P : List ℕ × Selection → Type 0) (s : Server) (ref : List ℕ) (conn n now : ℕ) (has : Bool)
    → P (
      ref,
      record { conn = conn; expiry = now + sbo_timeout s ref; ctl_num = n; has_ctl_num = has },
    )
    → All P s.selections
    → All P (reserve ref conn n has now s).1.selections
unfolding reserve
reserve-All P s ref conn n now has p all =
    let before = s.selections in
    elim (Bool-cases (held_by_other (lookup ref before) conn now)) [
      | inl e ↦ subst (λ m. All P m) (rw e) all
      | inr e ↦ subst (λ m. All P m) (rw e) (All-insert P ref _ before p all)
    ]

run-Made :
    (history : List Step) (s : Server)
    → s.selections ≡ []
    → All (Made s history) (run history s).selections
unfolding run apply reserve clear_selection release_selections Made
run-Made [] s h = rw h tt
run-Made (selects ref conn n has now ∷ history) s h =
    let before = run history s in
    let step = selects ref conn n has now in
    let all = Made-later s step history before.selections (run-Made history s h) in
    reserve-All (Made s (step ∷ history)) before ref conn n now has
      (now, head refl, rw (timeout-same history s ref)) all
run-Made (clears ref ∷ history) s h =
    let before = run history s in
    All-delete (Made s (clears ref ∷ history)) ref before.selections
      (Made-later s (clears ref) history before.selections (run-Made history s h))
run-Made (closes conn ∷ history) s h =
    let before = run history s in
    All-release (Made s (closes conn ∷ history)) conn before.selections
      (Made-later s (closes conn) history before.selections (run-Made history s h))

-- What the check of a reservation asks of it.
found-none :
    (sel : Selection) (conn n t : ℕ)
    → check_found (some sel) conn n t ≡ add_cause_none
    → (sel.conn ≡ conn) × (t < sel.expiry) × ((sel.has_ctl_num && not (sel.ctl_num == n)) ≡ false)
found-none sel conn n t found = elim (Bool-cases (sel.conn == conn)) [
  | inl same ↦ elim (Bool-cases (ltb t sel.expiry)) [
    | inl live ↦ elim (Bool-cases (sel.has_ctl_num && not (sel.ctl_num == n))) [
      | inl other ↦ absurd (omega (arith, rw (same, live, other) at found))
      | inr agrees ↦ ((==_iff sel.conn conn).0 same, ground (arith, live), agrees)
    ]
    | inr over ↦ absurd (omega (arith, rw (same, over) at found))
  ]
  | inr e ↦ absurd (omega (arith, rw e at found))
]

-- On a server that began without reservations, whatever has happened: an operate that passes the check
-- comes from a connection that selected the object, with a select that has not expired and that named
-- the same control number, unless it named none.
pub check_selection-run :
    (history : List Step) (s : Server) (ref : List ℕ) (conn n t : ℕ)
    → s.selections ≡ []
    → check_selection ref conn n t (run history s) ≡ add_cause_none
    → (num : ℕ) × (has : Bool) × (now : ℕ) × Memᴰ (selects ref conn num has now) history
      × (t < now + sbo_timeout s ref)
      × ((has && not (num == n)) ≡ false)
unfolding check_selection Made
check_selection-run history s ref conn n t h ok =
    let m = (run history s).selections in
    elim (Option-cases (lookup ref m)) [
      | inl e ↦ absurd (omega (arith, rw e at ok))
      | inr (sel, e) ↦
          let (now, made, expiry) =
            All-lookup (Made s history) ref sel m (run-Made history s h) e in
          let found : check_found (some sel) conn n t ≡ add_cause_none = rw e at ok in
          let (same, live, agrees) = found-none sel conn n t found in
          (sel.ctl_num, sel.has_ctl_num, now, rw (← same) made, omega (arith, live, expiry), agrees)
    ]
