-- ===== src/Tests/Units.antt =====
-- The theorems on units, states and settings at concrete data.
use killjoy.Base.{
  ◌≢◌, ◌<>◌, ℕ, true, not, List, [], ◌∷◌, if◌then◌else◌, ◌&&◌, ltb, ◌≡◌, refl, ◌↔◌, In, arith,
  ends_with,
}
use killjoy.ActiveState.{ActiveState, active, failed, inactive, state_eq}
use killjoy.Error.{Error, ParseIntError, ok}
use killjoy.Error.Display.{display}
use killjoy.Error.Source.{source, display-source}
use killjoy.Exec.{returned}
use killjoy.Unit.State.{try_from, to_string, try_from_iff}
use killjoy.Unit.Machine.{UnitStateMachine, OnChange, update}
use killjoy.Unit.Machine.Laws.{
  update-machine, update-callback, observe, IsLatest, observe-IsLatest, observe_order,
}
use killjoy.Timestamp.{get_monotonic_timestamp_key, get_realtime_timestamp_key}
use killjoy.Timestamp.Laws.{monotonic_key-realtime_key}

abbrev at : ActiveState → ℕ → UnitStateMachine
at s n = record { active_state = s; mono_ts = n }

abbrev count : OnChange ℕ
count usm old n = (returned tt, 5)

update-machine_example :
    (update (at active 7) failed 9 count 0).0 ≡ (if ltb 7 9 then at failed 9 else at active 7)
update-machine_example = update-machine (at active 7) failed 9 count 0

update-callback_example :
    (update (at active 7) failed 9 count 0).1
    ≡ (if ltb 7 9 && not (state_eq active failed) then (returned tt, 5) else (returned tt, 0))
update-callback_example = update-callback (at active 7) failed 9 count 0

abbrev later : List UnitStateMachine
later = at failed 9 ∷ at inactive 5 ∷ []

abbrev earlier : List UnitStateMachine
earlier = at inactive 5 ∷ at failed 9 ∷ []

observe-IsLatest_example : IsLatest (observe (at active 7) later) (at active 7 ∷ later)
observe-IsLatest_example = observe-IsLatest (at active 7) later

consistent :
    (a b : UnitStateMachine)
    → In a (at active 7 ∷ later)
    → In b (at active 7 ∷ later)
    → a.mono_ts ≡ b.mono_ts
    → a.active_state ≡ b.active_state
consistent a b m n e = grind arith

swapped : (o : UnitStateMachine) → In o (at active 7 ∷ later) ↔ In o (at active 7 ∷ earlier)
swapped o = ground arith

observe_order_example : observe (at active 7) later ≡ observe (at active 7) earlier
observe_order_example = observe_order (at active 7) later earlier consistent swapped

try_from_iff_example : (try_from "failed" ≡ ok failed) ↔ ("failed" ≡ to_string failed)
try_from_iff_example = try_from_iff "failed" failed

display-source_example :
    (ends_with (display (Error.get_unit_id (record { text = "no reply" }))) "no reply" ≡ true) ↔ (
      (k : ParseIntError)
      → Error.get_unit_id (record { text = "no reply" }) ≢ Error.parse_loop_timeout_arg k)
unfolding source
display-source_example =
    display-source (Error.get_unit_id (record { text = "no reply" })) (record { text = "no reply" })
      refl

monotonic_key-realtime_key_example :
    get_monotonic_timestamp_key failed ≡ get_realtime_timestamp_key failed <> "Monotonic"
monotonic_key-realtime_key_example = monotonic_key-realtime_key failed
