-- ===== src/Generated/Trace.antt =====
-- The calls that the client methods make.
use killjoy.Base.{String, [], ◌∷◌, ◌≡◌, arith}
use killjoy.Dbus.{Dbus, ConnPath, Trace, method_call}
use killjoy.Generated.Client.{
  properties_interface, manager_interface, get, get_all, get_unit, list_units, subscribe,
}

module _ (B : Dbus) (c : ConnPath) where
  pub get-trace :
      (interface property : String) (t : Trace)
      → (get B c interface property t).1
        ≡ method_call c properties_interface "Get" (interface ∷ property ∷ []) ∷ t
  unfolding get
  get-trace interface property t = ground arith

  pub get_all-trace :
      (interface : String) (t : Trace)
      → (get_all B c interface t).1
        ≡ method_call c properties_interface "GetAll" (interface ∷ []) ∷ t
  unfolding get_all
  get_all-trace interface t = ground arith

  pub get_unit-trace :
      (unit_name : String) (t : Trace)
      → (get_unit B c unit_name t).1
        ≡ method_call c manager_interface "GetUnit" (unit_name ∷ []) ∷ t
  unfolding get_unit
  get_unit-trace unit_name t = ground arith

  pub list_units-trace :
      (t : Trace) → (list_units B c t).1 ≡ method_call c manager_interface "ListUnits" [] ∷ t
  unfolding list_units
  list_units-trace t = ground arith

  pub subscribe-trace :
      (t : Trace) → (subscribe B c t).1 ≡ method_call c manager_interface "Subscribe" [] ∷ t
  unfolding subscribe
  subscribe-trace t = ground arith
