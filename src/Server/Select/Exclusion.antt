-- ===== src/Server/Select/Exclusion.antt =====
-- A control object belongs to one connection at a time.
use go_iec.Base.{
  ℕ, ◌+◌, ◌<◌, ◌≡◌, ◌≢◌, refl, Bool, true, false, not, ◌&&◌, List, [], ◌∷◌, none, some, ◌==◌,
  if◌then◌else◌, equal_bytes, equal_bytes_refl, Bool-cases, inl, inr, arith,
}
use go_iec.Base.Maps.{lookup, lookup-insert, lookup-delete}
use go_iec.Server.Select.{
  Selection, Server, add_cause_none, add_cause_object_not_selected,
  add_cause_inconsistent_parameters, sbo_timeout, held_by_other, reserve, check_found,
  check_selection, check_cancel, clear_selection, release, release_selections,
}

-- What a reservation that succeeds leaves for each object.
lookup-reserve :
    (s s' : Server) (ref ref' : List ℕ) (conn n now : ℕ) (has : Bool)
    → reserve ref conn n has now s ≡ (true, s')
    → lookup ref' s'.selections ≡ (
        if equal_bytes ref ref'
        then some (record {
          conn = conn;
          expiry = now + sbo_timeout s ref;
          ctl_num = n;
          has_ctl_num = has;
        })
        else lookup ref' s.selections)
unfolding reserve
lookup-reserve s s' ref ref' conn n now has h =
    let sel : Selection = record {
      conn = conn;
      expiry = now + sbo_timeout s ref;
      ctl_num = n;
      has_ctl_num = has;
    } in
    elim (Bool-cases (held_by_other (lookup ref s.selections) conn now)) [
      | inl e ↦ cc
      | inr e ↦ ground (arith, lookup-insert ref ref' sel s.selections)
    ]

-- Once a connection has reserved an object, until the reservation expires: its operate and its cancel
-- are accepted exactly with the control number of the select, if that carried one; another connection
-- cannot reserve the object, and its operate and its cancel are refused.
pub reserve-exclusive :
    (s s' : Server) (ref : List ℕ) (conn other n m now t : ℕ) (has has' : Bool)
    → reserve ref conn n has now s ≡ (true, s')
    → t < now + sbo_timeout s ref
    → other ≢ conn
    → (check_selection ref conn m t s'
        ≡ (if has && not (n == m) then add_cause_inconsistent_parameters else add_cause_none))
      × (check_cancel ref conn m t s' ≡ check_selection ref conn m t s')
      × (reserve ref other m has' t s' ≡ (false, s'))
      × (check_selection ref other m t s' ≡ add_cause_object_not_selected)
      × (check_cancel ref other m t s' ≡ add_cause_object_not_selected)
unfolding reserve check_selection check_cancel
reserve-exclusive s s' ref conn other n m now t has has' h lt ne =
    let found = lookup-reserve s s' ref ref conn n now has h in
    let refl_ref = equal_bytes_refl ref in rw (found, refl_ref) (ground arith)

-- What `clearSelection` leaves: no reservation of the object, and those of the others.
clear_selection-frees :
    (s : Server) (ref ref' : List ℕ) (conn n now : ℕ)
    → check_selection ref' conn n now (clear_selection ref s) ≡ (
        if equal_bytes ref ref'
        then add_cause_object_not_selected
        else check_selection ref' conn n now s)
unfolding check_selection clear_selection
clear_selection-frees s ref ref' conn n now =
    rw (lookup-delete ref ref' s.selections) (ground arith)

pub clear_selection-selections :
    (s : Server) (ref : List ℕ) → lookup ref (clear_selection ref s).selections ≡ none
unfolding clear_selection
clear_selection-selections s ref = rw (lookup-delete ref ref s.selections, equal_bytes_refl ref)

release-drops :
    (m : List (List ℕ × Selection)) (ref : List ℕ) (conn n now : ℕ)
    → check_found (lookup ref (release conn m)) conn n now ≡ add_cause_object_not_selected
unfolding release lookup
release-drops [] ref conn n now = refl
release-drops ((key, sel) ∷ m) ref conn n now = ground (arith, release-drops m ref conn n now)

release-keeps :
    (m : List (List ℕ × Selection)) (ref : List ℕ) (conn c n now : ℕ)
    → c ≢ conn
    → check_found (lookup ref m) c n now ≡ add_cause_none
    → check_found (lookup ref (release conn m)) c n now ≡ add_cause_none
unfolding release lookup
release-keeps [] ref conn c n now ne h = h
release-keeps ((key, sel) ∷ m) ref conn c n now ne h =
    ground (arith, release-keeps m ref conn c n now ne)

-- Where a connection may operate an object, it still may when another connection closes, and it may no
-- longer when it closes itself.
release_selections-keeps :
    (s : Server) (ref : List ℕ) (conn c n now : ℕ)
    → check_selection ref c n now s ≡ add_cause_none
    → check_selection ref c n now (release_selections conn s)
      ≡ (if c == conn then add_cause_object_not_selected else add_cause_none)
unfolding check_selection release_selections
release_selections-keeps s ref conn c n now h =
    ground (
      arith,
      release-drops s.selections ref conn n now,
      release-keeps s.selections ref conn c n now,
    )
