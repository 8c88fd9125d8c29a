-- ===== src/Generated/Signals.antt =====
-- The signals UnitNew, UnitRemoved and PropertiesChanged, with their `SignalArgs`.
use killjoy.Base.{String, Option, List}
use killjoy.Base.Dict.{Dict}
use killjoy.Error.{ExternResult, ok, ◌>>=◌}
use killjoy.Dbus.{Dbus}
use killjoy.Generated.Client.{properties_interface, manager_interface}

-- `OrgFreedesktopSystemd1ManagerUnitNew`
pub record UnitNew : Type 0 where
  pub arg0 : String
  pub arg1 : String

-- `OrgFreedesktopSystemd1ManagerUnitRemoved`
pub record UnitRemoved : Type 0 where
  pub arg0 : String
  pub arg1 : String

-- `OrgFreedesktopDBusPropertiesPropertiesChanged`
pub record PropertiesChanged (RefArg : Type 0) : Type 0 where
  pub interface : String
  pub changed_properties : Dict RefArg
  pub invalidated_properties : List String

module _ (B : Dbus) where
  open B use {
    Iter, RefArg, Message, read_str, read_path, read_props, read_strs, from_message, match_str,
  }

  unfoldable pub get_unit_new : Iter → ExternResult UnitNew
  get_unit_new i = do
    (arg0, i) ← read_str i
    (arg1, i) ← read_path i
    ok (record { arg0 = arg0; arg1 = arg1 })

  unfoldable pub get_unit_removed : Iter → ExternResult UnitRemoved
  get_unit_removed i = do
    (arg0, i) ← read_str i
    (arg1, i) ← read_path i
    ok (record { arg0 = arg0; arg1 = arg1 })

  unfoldable pub get_properties_changed : Iter → ExternResult (PropertiesChanged RefArg)
  get_properties_changed i = do
    (interface, i) ← read_str i
    (changed_properties, i) ← read_props i
    (invalidated_properties, i) ← read_strs i
    ok (record {
      interface = interface;
      changed_properties = changed_properties;
      invalidated_properties = invalidated_properties;
    })

  unfoldable pub unit_new_from_message : Message → Option UnitNew
  unit_new_from_message = from_message UnitNew "UnitNew" manager_interface get_unit_new

  unfoldable pub unit_removed_from_message : Message → Option UnitRemoved
  unit_removed_from_message =
      from_message UnitRemoved "UnitRemoved" manager_interface get_unit_removed

  unfoldable pub properties_changed_from_message : Message → Option (PropertiesChanged RefArg)
  properties_changed_from_message =
      from_message (PropertiesChanged RefArg) "PropertiesChanged" properties_interface
        get_properties_changed

  -- `match_str(Some(sender), Some(path))` of each signal
  unfoldable pub unit_new_match_str : String → String → String
  unit_new_match_str = match_str "UnitNew" manager_interface

  unfoldable pub unit_removed_match_str : String → String → String
  unit_removed_match_str = match_str "UnitRemoved" manager_interface

  unfoldable pub properties_changed_match_str : String → String → String
  properties_changed_match_str = match_str "PropertiesChanged" properties_interface
