-- ===== src/Generated/Systemd/Starting.antt =====
-- The manager's interface: the methods that load, start, stop and reload a unit.
use killjoy.Base.{List, [], ◌∷◌}
use killjoy.Dbus.{Dbus, ConnPath}
use killjoy.Generated.Systemd.Kinds.{string, object_path}
use killjoy.Generated.Systemd.Typed.{Typed, Line, ask, Asks, Does, Served, served, unnamed, Obtains}

-- The part of the trait, of an implementation with a state.
pub record Methods (B : Dbus) (T : Typed B) (S : Type 0) : Type 0 where
  pub load_unit : Does B T S (string ∷ []) (object_path ∷ [])
  pub start_unit : Does B T S (string ∷ string ∷ []) (object_path ∷ [])
  pub start_unit_replace : Does B T S (string ∷ string ∷ string ∷ []) (object_path ∷ [])
  pub stop_unit : Does B T S (string ∷ string ∷ []) (object_path ∷ [])
  pub reload_unit : Does B T S (string ∷ string ∷ []) (object_path ∷ [])
  pub restart_unit : Does B T S (string ∷ string ∷ []) (object_path ∷ [])
  pub try_restart_unit : Does B T S (string ∷ string ∷ []) (object_path ∷ [])
  pub reload_or_restart_unit : Does B T S (string ∷ string ∷ []) (object_path ∷ [])
  pub reload_or_try_restart_unit : Does B T S (string ∷ string ∷ []) (object_path ∷ [])

module _ (B : Dbus) (T : Typed B) (N : Line B T) where
  unfoldable pub load_unit : Asks B T (string ∷ []) (object_path ∷ [])
  unfolding ask
  load_unit = ask B T N "LoadUnit" (string ∷ []) (object_path ∷ [])

  unfoldable pub start_unit : Asks B T (string ∷ string ∷ []) (object_path ∷ [])
  unfolding ask
  start_unit = ask B T N "StartUnit" (string ∷ string ∷ []) (object_path ∷ [])

  unfoldable pub start_unit_replace : Asks B T (string ∷ string ∷ string ∷ []) (object_path ∷ [])
  unfolding ask
  start_unit_replace =
      ask B T N "StartUnitReplace" (string ∷ string ∷ string ∷ []) (object_path ∷ [])

  unfoldable pub stop_unit : Asks B T (string ∷ string ∷ []) (object_path ∷ [])
  unfolding ask
  stop_unit = ask B T N "StopUnit" (string ∷ string ∷ []) (object_path ∷ [])

  unfoldable pub reload_unit : Asks B T (string ∷ string ∷ []) (object_path ∷ [])
  unfolding ask
  reload_unit = ask B T N "ReloadUnit" (string ∷ string ∷ []) (object_path ∷ [])

  unfoldable pub restart_unit : Asks B T (string ∷ string ∷ []) (object_path ∷ [])
  unfolding ask
  restart_unit = ask B T N "RestartUnit" (string ∷ string ∷ []) (object_path ∷ [])

  unfoldable pub try_restart_unit : Asks B T (string ∷ string ∷ []) (object_path ∷ [])
  unfolding ask
  try_restart_unit = ask B T N "TryRestartUnit" (string ∷ string ∷ []) (object_path ∷ [])

  unfoldable pub reload_or_restart_unit : Asks B T (string ∷ string ∷ []) (object_path ∷ [])
  unfolding ask
  reload_or_restart_unit = ask B T N "ReloadOrRestartUnit" (string ∷ string ∷ []) (object_path ∷ [])

  unfoldable pub reload_or_try_restart_unit : Asks B T (string ∷ string ∷ []) (object_path ∷ [])
  unfolding ask
  reload_or_try_restart_unit =
      ask B T N "ReloadOrTryRestartUnit" (string ∷ string ∷ []) (object_path ∷ [])

module _ (B : Dbus) (T : Typed B) where
  -- The part of the server.
  unfoldable pub server : {S : Type 0} → Methods B T S → List (Served B T S)
  server d =
      served B T "LoadUnit" (string ∷ []) (object_path ∷ []) d.load_unit (unnamed ("s" ∷ []))
        (unnamed ("o" ∷ []))
      ∷ served B T "StartUnit" (string ∷ string ∷ []) (object_path ∷ []) d.start_unit
          (unnamed ("s" ∷ "s" ∷ [])) (unnamed ("o" ∷ []))
      ∷ served B T "StartUnitReplace" (string ∷ string ∷ string ∷ []) (object_path ∷ [])
          d.start_unit_replace (unnamed ("s" ∷ "s" ∷ "s" ∷ [])) (unnamed ("o" ∷ []))
      ∷ served B T "StopUnit" (string ∷ string ∷ []) (object_path ∷ []) d.stop_unit
          (unnamed ("s" ∷ "s" ∷ [])) (unnamed ("o" ∷ []))
      ∷ served B T "ReloadUnit" (string ∷ string ∷ []) (object_path ∷ []) d.reload_unit
          (unnamed ("s" ∷ "s" ∷ [])) (unnamed ("o" ∷ []))
      ∷ served B T "RestartUnit" (string ∷ string ∷ []) (object_path ∷ []) d.restart_unit
          (unnamed ("s" ∷ "s" ∷ [])) (unnamed ("o" ∷ []))
      ∷ served B T "TryRestartUnit" (string ∷ string ∷ []) (object_path ∷ []) d.try_restart_unit
          (unnamed ("s" ∷ "s" ∷ [])) (unnamed ("o" ∷ []))
      ∷ served B T "ReloadOrRestartUnit" (string ∷ string ∷ []) (object_path ∷ [])
          d.reload_or_restart_unit (unnamed ("s" ∷ "s" ∷ [])) (unnamed ("o" ∷ []))
      ∷ served B T "ReloadOrTryRestartUnit" (string ∷ string ∷ []) (object_path ∷ [])
          d.reload_or_try_restart_unit (unnamed ("s" ∷ "s" ∷ [])) (unnamed ("o" ∷ []))
      ∷ []

module _ (B : Dbus) (T : Typed B) (N : Line B T) where
  -- Each client method obtains what the implementation's method of its name gives.
  abbrev pub Agrees : {S : Type 0} → Methods B T S → ConnPath → S → Type 0
  Agrees d c s =
      Obtains B T (string ∷ []) (object_path ∷ []) (load_unit B T N) d.load_unit c s
      × Obtains B T (string ∷ string ∷ []) (object_path ∷ []) (start_unit B T N) d.start_unit c s
      × Obtains B T (string ∷ string ∷ string ∷ []) (object_path ∷ []) (start_unit_replace B T N)
          d.start_unit_replace c s
      × Obtains B T (string ∷ string ∷ []) (object_path ∷ []) (stop_unit B T N) d.stop_unit c s
      × Obtains B T (string ∷ string ∷ []) (object_path ∷ []) (reload_unit B T N) d.reload_unit c s
      × Obtains B T (string ∷ string ∷ []) (object_path ∷ []) (restart_unit B T N) d.restart_unit c
          s
      × Obtains B T (string ∷ string ∷ []) (object_path ∷ []) (try_restart_unit B T N)
          d.try_restart_unit c s
      × Obtains B T (string ∷ string ∷ []) (object_path ∷ []) (reload_or_restart_unit B T N)
          d.reload_or_restart_unit c s
      × Obtains B T (string ∷ string ∷ []) (object_path ∷ []) (reload_or_try_restart_unit B T N)
          d.reload_or_try_restart_unit c s
