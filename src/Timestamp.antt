-- ===== src/Timestamp.antt =====
-- src/timestamp.rs: the timestamps of a unit's current state.
pub mod Laws
use killjoy.Base.{String, ℕ, Option}
use killjoy.Base.Dict.{Dict, lookup}
use killjoy.ActiveState.{ActiveState, activating, active, deactivating, failed, inactive}
use killjoy.Error.{Error, Result, ok, ok_or, ◌>>=◌}
use killjoy.Dbus.{Dbus}

unfoldable pub get_monotonic_timestamp_key : ActiveState → String
get_monotonic_timestamp_key activating = "InactiveExitTimestampMonotonic"
get_monotonic_timestamp_key active = "ActiveEnterTimestampMonotonic"
get_monotonic_timestamp_key deactivating = "ActiveExitTimestampMonotonic"
get_monotonic_timestamp_key failed = "InactiveEnterTimestampMonotonic"
get_monotonic_timestamp_key inactive = "InactiveEnterTimestampMonotonic"

unfoldable pub get_realtime_timestamp_key : ActiveState → String
get_realtime_timestamp_key activating = "InactiveExitTimestamp"
get_realtime_timestamp_key active = "ActiveEnterTimestamp"
get_realtime_timestamp_key deactivating = "ActiveExitTimestamp"
get_realtime_timestamp_key failed = "InactiveEnterTimestamp"
get_realtime_timestamp_key inactive = "InactiveEnterTimestamp"

module _ (B : Dbus) where
  open B use {RefArg, as_u64}

  -- `UnitProps` of src/bus.rs
  abbrev pub UnitProps : Type 0
  UnitProps = Dict RefArg

  -- The u64 inside `MonotonicTimestamp`.
  unfoldable pub get_monotonic_timestamp : ActiveState → UnitProps → Result Error ℕ
  get_monotonic_timestamp active_state unit_props = do
    let timestamp_key : String = get_monotonic_timestamp_key active_state
    value ←
        ok_or (Error.properties_lacks_timestamp active_state timestamp_key)
          (lookup timestamp_key unit_props)
    ok_or (Error.cast_unit_timestamp timestamp_key) (as_u64 value)

  -- The u64 inside `RealtimeTimestamp`.
  unfoldable pub get_realtime_timestamp : ActiveState → UnitProps → Result Error ℕ
  get_realtime_timestamp active_state unit_props = do
    let timestamp_key : String = get_realtime_timestamp_key active_state
    value ←
        ok_or (Error.properties_lacks_timestamp active_state timestamp_key)
          (lookup timestamp_key unit_props)
    ok_or (Error.cast_unit_timestamp timestamp_key) (as_u64 value)
