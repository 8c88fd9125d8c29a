-- ===== src/Watcher/Units.antt =====
-- src/bus.rs: the map of unit state machines.
use killjoy.Base.{String, ℕ, Option, none, some}
use killjoy.Base.Dict.{insert, remove, lookup}
use killjoy.ActiveState.{ActiveState}
use killjoy.Exec.{Outcome, Exec, lift, ◌>>=◌}
use killjoy.Unit.Machine.{UnitStateMachine, OnChange, new, update}
use killjoy.Timestamp.{UnitProps, get_realtime_timestamp, get_monotonic_timestamp}
use killjoy.Dbus.{Dbus}
use killjoy.Settings.Regex.{RegexCrate}
use killjoy.Settings.Types.{Settings}
use killjoy.Watcher.World.{World, gets, set_unit_states}
use killjoy.Watcher.Rules.{get_active_state}
use killjoy.Watcher.Notify.{gen_on_change}

-- `unit_states.get_mut(unit_name)` and the mutation of the machine in its place.
unfoldable pub stored : String → UnitStateMachine × (Outcome Unit × World) → Outcome Unit × World
stored unit_name (usm, (r, w)) = (r, record w { unit_states = insert unit_name usm w.unit_states })

-- The `match` of `upsert_unit_states`.
unfoldable pub upsert_machine :
    String → ActiveState → ℕ → OnChange World → Option UnitStateMachine → Exec World (Unit {0})
upsert_machine unit_name active_state mono_ts on_change (some usm) =
    λ w. stored unit_name (update usm active_state mono_ts on_change w)
upsert_machine unit_name active_state mono_ts on_change none = do
  usm ← new active_state mono_ts on_change
  set_unit_states (insert unit_name usm)

module _ (B : Dbus) (R : RegexCrate) where
  unfoldable pub upsert_unit_states : Settings R → String → UnitProps B → Exec World (Unit {0})
  upsert_unit_states settings unit_name unit_props = do
    active_state ← lift (get_active_state B unit_props)
    real_ts ← lift (get_realtime_timestamp B active_state unit_props)
    mono_ts ← lift (get_monotonic_timestamp B active_state unit_props)
    found ← gets (λ w. lookup unit_name w.unit_states)
    upsert_machine unit_name active_state mono_ts (gen_on_change B R settings unit_name real_ts)
        found

unfoldable pub forget_unit_state : String → Exec World (Unit {0})
forget_unit_state unit_name = set_unit_states (remove unit_name)
