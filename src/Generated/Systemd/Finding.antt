-- ===== src/Generated/Systemd/Finding.antt =====
-- The manager's interface: the methods that find a unit by a process or an invocation.
use killjoy.Base.{List, [], ◌∷◌}
use killjoy.Dbus.{Dbus, ConnPath}
use killjoy.Generated.Systemd.Kinds.{byte, u32, string, object_path, array}
use killjoy.Generated.Systemd.Typed.{Typed, Line, ask, Asks, Does, Served, served, unnamed, Obtains}

-- The part of the trait, of an implementation with a state.
pub record Methods (B : Dbus) (T : Typed B) (S : Type 0) : Type 0 where
  pub get_unit : Does B T S (string ∷ []) (object_path ∷ [])
  pub get_unit_by_pid : Does B T S (u32 ∷ []) (object_path ∷ [])
  pub get_unit_by_invocation_id : Does B T S (array byte ∷ []) (object_path ∷ [])
  pub get_unit_by_control_group : Does B T S (string ∷ []) (object_path ∷ [])

module _ (B : Dbus) (T : Typed B) (N : Line B T) where
  unfoldable pub get_unit_by_pid : Asks B T (u32 ∷ []) (object_path ∷ [])
  unfolding ask
  get_unit_by_pid = ask B T N "GetUnitByPID" (u32 ∷ []) (object_path ∷ [])

  unfoldable pub get_unit_by_invocation_id : Asks B T (array byte ∷ []) (object_path ∷ [])
  unfolding ask
  get_unit_by_invocation_id = ask B T N "GetUnitByInvocationID" (array byte ∷ []) (object_path ∷ [])

  unfoldable pub get_unit_by_control_group : Asks B T (string ∷ []) (object_path ∷ [])
  unfolding ask
  get_unit_by_control_group = ask B T N "GetUnitByControlGroup" (string ∷ []) (object_path ∷ [])

module _ (B : Dbus) (T : Typed B) where
  -- The part of the server.
  unfoldable pub server : {S : Type 0} → Methods B T S → List (Served B T S)
  server d =
      served B T "GetUnit" (string ∷ []) (object_path ∷ []) d.get_unit (unnamed ("s" ∷ []))
        (unnamed ("o" ∷ []))
      ∷ served B T "GetUnitByPID" (u32 ∷ []) (object_path ∷ []) d.get_unit_by_pid
          (unnamed ("u" ∷ [])) (unnamed ("o" ∷ []))
      ∷ served B T "GetUnitByInvocationID" (array byte ∷ []) (object_path ∷ [])
          d.get_unit_by_invocation_id (unnamed ("ay" ∷ [])) (unnamed ("o" ∷ []))
      ∷ served B T "GetUnitByControlGroup" (string ∷ []) (object_path ∷ [])
          d.get_unit_by_control_group (unnamed ("s" ∷ [])) (unnamed ("o" ∷ []))
      ∷ []

module _ (B : Dbus) (T : Typed B) (N : Line B T) where
  -- Each client method obtains what the implementation's method of its name gives.
  abbrev pub Agrees : {S : Type 0} → Methods B T S → ConnPath → S → Type 0
  Agrees d c s =
      Obtains B T (u32 ∷ []) (object_path ∷ []) (get_unit_by_pid B T N) d.get_unit_by_pid c s
      × Obtains B T (array byte ∷ []) (object_path ∷ []) (get_unit_by_invocation_id B T N)
          d.get_unit_by_invocation_id c s
      × Obtains B T (string ∷ []) (object_path ∷ []) (get_unit_by_control_group B T N)
          d.get_unit_by_control_group c s
