-- ===== src/Generated/Systemd/Targets.antt =====
-- The manager's interface: the methods that undo changes of unit files, and those on targets.
use killjoy.Base.{List, [], ◌∷◌}
use killjoy.Dbus.{Dbus, ConnPath}
use killjoy.Generated.Systemd.Kinds.{boolean, string, array, change}
use killjoy.Generated.Systemd.Typed.{Typed, Line, ask, Asks, Does, Served, served, unnamed, Obtains}

-- The part of the trait, of an implementation with a state.
pub record Methods (B : Dbus) (T : Typed B) (S : Type 0) : Type 0 where
  pub unmask_unit_files : Does B T S (array string ∷ boolean ∷ []) (array change ∷ [])
  pub revert_unit_files : Does B T S (array string ∷ []) (array change ∷ [])
  pub set_default_target : Does B T S (string ∷ boolean ∷ []) (array change ∷ [])
  pub get_default_target : Does B T S [] (string ∷ [])
  pub preset_all_unit_files : Does B T S (string ∷ boolean ∷ boolean ∷ []) (array change ∷ [])
  pub add_dependency_unit_files :
      Does B T S (array string ∷ string ∷ string ∷ boolean ∷ boolean ∷ []) (array change ∷ [])
  pub get_unit_file_links : Does B T S (string ∷ boolean ∷ []) (array string ∷ [])

module _ (B : Dbus) (T : Typed B) (N : Line B T) where
  unfoldable pub unmask_unit_files : Asks B T (array string ∷ boolean ∷ []) (array change ∷ [])
  unfolding ask
  unmask_unit_files = ask B T N "UnmaskUnitFiles" (array string ∷ boolean ∷ []) (array change ∷ [])

  unfoldable pub revert_unit_files : Asks B T (array string ∷ []) (array change ∷ [])
  unfolding ask
  revert_unit_files = ask B T N "RevertUnitFiles" (array string ∷ []) (array change ∷ [])

  unfoldable pub set_default_target : Asks B T (string ∷ boolean ∷ []) (array change ∷ [])
  unfolding ask
  set_default_target = ask B T N "SetDefaultTarget" (string ∷ boolean ∷ []) (array change ∷ [])

  unfoldable pub get_default_target : Asks B T [] (string ∷ [])
  unfolding ask
  get_default_target = ask B T N "GetDefaultTarget" [] (string ∷ [])

  unfoldable pub preset_all_unit_files :
      Asks B T (string ∷ boolean ∷ boolean ∷ []) (array change ∷ [])
  unfolding ask
  preset_all_unit_files =
      ask B T N "PresetAllUnitFiles" (string ∷ boolean ∷ boolean ∷ []) (array change ∷ [])

  unfoldable pub add_dependency_unit_files :
      Asks B T (array string ∷ string ∷ string ∷ boolean ∷ boolean ∷ []) (array change ∷ [])
  unfolding ask
  add_dependency_unit_files =
      ask B T N "AddDependencyUnitFiles" (array string ∷ string ∷ string ∷ boolean ∷ boolean ∷ [])
        (array change ∷ [])

  unfoldable pub get_unit_file_links : Asks B T (string ∷ boolean ∷ []) (array string ∷ [])
  unfolding ask
  get_unit_file_links = ask B T N "GetUnitFileLinks" (string ∷ boolean ∷ []) (array string ∷ [])

module _ (B : Dbus) (T : Typed B) where
  -- The part of the server.
  unfoldable pub server : {S : Type 0} → Methods B T S → List (Served B T S)
  server d =
      served B T "UnmaskUnitFiles" (array string ∷ boolean ∷ []) (array change ∷ [])
        d.unmask_unit_files (unnamed ("as" ∷ "b" ∷ [])) (unnamed ("a(sss)" ∷ []))
      ∷ served B T "RevertUnitFiles" (array string ∷ []) (array change ∷ []) d.revert_unit_files
          (unnamed ("as" ∷ [])) (unnamed ("a(sss)" ∷ []))
      ∷ served B T "SetDefaultTarget" (string ∷ boolean ∷ []) (array change ∷ [])
          d.set_default_target (unnamed ("s" ∷ "b" ∷ [])) (unnamed ("a(sss)" ∷ []))
      ∷ served B T "GetDefaultTarget" [] (string ∷ []) d.get_default_target (unnamed [])
          (unnamed ("s" ∷ []))
      ∷ served B T "PresetAllUnitFiles" (string ∷ boolean ∷ boolean ∷ []) (array change ∷ [])
          d.preset_all_unit_files (unnamed ("s" ∷ "b" ∷ "b" ∷ [])) (unnamed ("a(sss)" ∷ []))
      ∷ served B T "AddDependencyUnitFiles"
          (array string ∷ string ∷ string ∷ boolean ∷ boolean ∷ []) (array change ∷ [])
          d.add_dependency_unit_files (unnamed ("as" ∷ "s" ∷ "s" ∷ "b" ∷ "b" ∷ []))
          (unnamed ("a(sss)" ∷ []))
      ∷ served B T "GetUnitFileLinks" (string ∷ boolean ∷ []) (array string ∷ [])
          d.get_unit_file_links (unnamed ("s" ∷ "b" ∷ [])) (unnamed ("as" ∷ []))
      ∷ []

module _ (B : Dbus) (T : Typed B) (N : Line B T) where
  -- Each client method obtains what the implementation's method of its name gives.
  abbrev pub Agrees : {S : Type 0} → Methods B T S → ConnPath → S → Type 0
  Agrees d c s =
      Obtains B T (array string ∷ boolean ∷ []) (array change ∷ []) (unmask_unit_files B T N)
        d.unmask_unit_files c s
      × Obtains B T (array string ∷ []) (array change ∷ []) (revert_unit_files B T N)
          d.revert_unit_files c s
      × Obtains B T (string ∷ boolean ∷ []) (array change ∷ []) (set_default_target B T N)
          d.set_default_target c s
      × Obtains B T [] (string ∷ []) (get_default_target B T N) d.get_default_target c s
      × Obtains B T (string ∷ boolean ∷ boolean ∷ []) (array change ∷ [])
          (preset_all_unit_files B T N) d.preset_all_unit_files c s
      × Obtains B T (array string ∷ string ∷ string ∷ boolean ∷ boolean ∷ []) (array change ∷ [])
          (add_dependency_unit_files B T N) d.add_dependency_unit_files c s
      × Obtains B T (string ∷ boolean ∷ []) (array string ∷ []) (get_unit_file_links B T N)
          d.get_unit_file_links c s
