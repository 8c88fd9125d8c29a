-- ===== src/Generated/Client.antt =====
-- The methods of `OrgFreedesktopDBusProperties` and `OrgFreedesktopSystemd1Manager` for
-- `ConnPath` that the program calls.
use killjoy.Base.{String, List, [], ◌∷◌}
use killjoy.Base.Dict.{Dict}
use killjoy.Dbus.{Dbus, ConnPath, UnitEntry}
use killjoy.Generated.Wire.{Wire, pure, given, call, ◌>>=◌, ◌>>◌}

abbrev pub properties_interface : String
properties_interface = "org.freedesktop.DBus.Properties"

abbrev pub manager_interface : String
manager_interface = "org.freedesktop.systemd1.Manager"

module _ (B : Dbus) where
  open B use {RefArg, iter_init, read_path, read_variant, read_props, read_units, as_result}

  -- `Properties::get`
  unfoldable pub get : ConnPath → (interface property : String) → Wire RefArg
  get c interface property = do
    m ← call B c properties_interface "Get" (interface ∷ property ∷ [])
    given (as_result m)
    (value, _) ← given (read_variant (iter_init m))
    pure value

  -- `Properties::get_all`
  unfoldable pub get_all : ConnPath → (interface : String) → Wire (Dict RefArg)
  get_all c interface = do
    m ← call B c properties_interface "GetAll" (interface ∷ [])
    given (as_result m)
    (properties, _) ← given (read_props (iter_init m))
    pure properties

  -- `Manager::get_unit`
  unfoldable pub get_unit : ConnPath → String → Wire String
  get_unit c arg0 = do
    m ← call B c manager_interface "GetUnit" (arg0 ∷ [])
    given (as_result m)
    (unit_path, _) ← given (read_path (iter_init m))
    pure unit_path

  -- `Manager::list_units`
  unfoldable pub list_units : ConnPath → Wire (List UnitEntry)
  list_units c = do
    m ← call B c manager_interface "ListUnits" []
    given (as_result m)
    (units, _) ← given (read_units (iter_init m))
    pure units

  -- `Manager::subscribe`
  unfoldable pub subscribe : ConnPath → Wire (Unit {0})
  subscribe c = do m ← call B c manager_interface "Subscribe" []; given (as_result m); pure tt
