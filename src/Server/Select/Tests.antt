-- ===== src/Server/Select/Tests.antt =====
-- server/select.go: the theorems at a server with a reservation.
use go_iec.Base.{
  ℕ, ◌+◌, ◌<◌, ◌≡◌, refl, Bool, true, false, not, ◌&&◌, List, [], ◌∷◌, none, ◌==◌, equal_bytes,
  arith,
}
use go_iec.Base.Maps.{lookup, insert}
use go_iec.Server.Select.{
  Server, add_cause_none, add_cause_object_not_selected, add_cause_inconsistent_parameters,
  cf_millis, sbo_timeout, reserve, check_selection, check_cancel, release, release_selections,
}
use go_iec.Server.Select.Exclusion.{reserve-exclusive}
use go_iec.Server.Select.Origin.{Step, selects, closes, apply, run, check_selection-run}
use mathlib.Core.List.{Memᴰ}

abbrev empty : Server
empty = record { attribute = λ _ _. none; selections = [] }

abbrev breaker : List ℕ
breaker = 0x43 ∷ 0x42 ∷ []

abbrev reserved : Server
reserved = record empty {
  selections =
      (breaker, record { conn = 1; expiry = 7 + 30000000000; ctl_num = 4; has_ctl_num = true })
      ∷ [];
}

reserves : reserve breaker 1 4 true 7 empty ≡ (true, reserved)
unfolding reserve lookup insert sbo_timeout cf_millis
reserves = refl

default_timeout : sbo_timeout empty breaker ≡ 30000000000
unfolding sbo_timeout cf_millis
default_timeout = refl

reserve-exclusive_example :
    (check_selection breaker 1 5 8 reserved ≡ add_cause_inconsistent_parameters)
    × (check_cancel breaker 1 5 8 reserved ≡ check_selection breaker 1 5 8 reserved)
    × (reserve breaker 2 5 true 8 reserved ≡ (false, reserved))
    × (check_selection breaker 2 5 8 reserved ≡ add_cause_object_not_selected)
    × (check_cancel breaker 2 5 8 reserved ≡ add_cause_object_not_selected)
reserve-exclusive_example =
    reserve-exclusive empty reserved breaker 1 2 4 5 7 8 true true reserves
      (omega (arith, default_timeout)) (λ e. omega arith)

selected : check_selection breaker 1 4 8 reserved ≡ add_cause_none
unfolding check_selection lookup equal_bytes
selected = refl

abbrev history : List Step
history = closes 2 ∷ selects breaker 1 4 true 7 ∷ []

operated : check_selection breaker 1 4 8 (run history empty) ≡ add_cause_none
unfolding run apply reserve lookup insert equal_bytes sbo_timeout cf_millis release
    release_selections check_selection
operated = refl

check_selection-run_example :
    (num : ℕ) × (has : Bool) × (now : ℕ) × Memᴰ (selects breaker 1 num has now) history
    × (8 < now + sbo_timeout empty breaker)
    × ((has && not (num == 4)) ≡ false)
check_selection-run_example = check_selection-run history empty breaker 1 4 8 refl operated
