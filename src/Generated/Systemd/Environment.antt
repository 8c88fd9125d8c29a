-- ===== src/Generated/Systemd/Environment.antt =====
-- The manager's interface: the methods on the environment, and those that read unit files.
use killjoy.Base.{List, [], ◌∷◌}
use killjoy.Dbus.{Dbus, ConnPath}
use killjoy.Generated.Systemd.Kinds.{string, array, struct, ◌⊗◌}
use killjoy.Generated.Systemd.Typed.{Typed, Line, ask, Asks, Does, Served, served, unnamed, Obtains}

-- The part of the trait, of an implementation with a state.
pub record Methods (B : Dbus) (T : Typed B) (S : Type 0) : Type 0 where
  pub switch_root : Does B T S (string ∷ string ∷ []) []
  pub set_environment : Does B T S (array string ∷ []) []
  pub unset_environment : Does B T S (array string ∷ []) []
  pub unset_and_set_environment : Does B T S (array string ∷ array string ∷ []) []
  pub list_unit_files : Does B T S [] (array (struct (string ⊗ string)) ∷ [])
  pub list_unit_files_by_patterns :
      Does B T S (array string ∷ array string ∷ []) (array (struct (string ⊗ string)) ∷ [])
  pub get_unit_file_state : Does B T S (string ∷ []) (string ∷ [])

module _ (B : Dbus) (T : Typed B) (N : Line B T) where
  unfoldable pub switch_root : Asks B T (string ∷ string ∷ []) []
  unfolding ask
  switch_root = ask B T N "SwitchRoot" (string ∷ string ∷ []) []

  unfoldable pub set_environment : Asks B T (array string ∷ []) []
  unfolding ask
  set_environment = ask B T N "SetEnvironment" (array string ∷ []) []

  unfoldable pub unset_environment : Asks B T (array string ∷ []) []
  unfolding ask
  unset_environment = ask B T N "UnsetEnvironment" (array string ∷ []) []

  unfoldable pub unset_and_set_environment : Asks B T (array string ∷ array string ∷ []) []
  unfolding ask
  unset_and_set_environment =
      ask B T N "UnsetAndSetEnvironment" (array string ∷ array string ∷ []) []

  unfoldable pub list_unit_files : Asks B T [] (array (struct (string ⊗ string)) ∷ [])
  unfolding ask
  list_unit_files = ask B T N "ListUnitFiles" [] (array (struct (string ⊗ string)) ∷ [])

  unfoldable pub list_unit_files_by_patterns :
      Asks B T (array string ∷ array string ∷ []) (array (struct (string ⊗ string)) ∷ [])
  unfolding ask
  list_unit_files_by_patterns =
      ask B T N "ListUnitFilesByPatterns" (array string ∷ array string ∷ [])
        (array (struct (string ⊗ string)) ∷ [])

  unfoldable pub get_unit_file_state : Asks B T (string ∷ []) (string ∷ [])
  unfolding ask
  get_unit_file_state = ask B T N "GetUnitFileState" (string ∷ []) (string ∷ [])

module _ (B : Dbus) (T : Typed B) where
  -- The part of the server.
  unfoldable pub server : {S : Type 0} → Methods B T S → List (Served B T S)
  server d =
      served B T "SwitchRoot" (string ∷ string ∷ []) [] d.switch_root (unnamed ("s" ∷ "s" ∷ []))
        (unnamed [])
      ∷ served B T "SetEnvironment" (array string ∷ []) [] d.set_environment (unnamed ("as" ∷ []))
          (unnamed [])
      ∷ served B T "UnsetEnvironment" (array string ∷ []) [] d.unset_environment
          (unnamed ("as" ∷ [])) (unnamed [])
      ∷ served B T "UnsetAndSetEnvironment" (array string ∷ array string ∷ []) []
          d.unset_and_set_environment (unnamed ("as" ∷ "as" ∷ [])) (unnamed [])
      ∷ served B T "ListUnitFiles" [] (array (struct (string ⊗ string)) ∷ []) d.list_unit_files
          (unnamed []) (unnamed ("a(ss)" ∷ []))
      ∷ served B T "ListUnitFilesByPatterns" (array string ∷ array string ∷ [])
          (array (struct (string ⊗ string)) ∷ []) d.list_unit_files_by_patterns
          (unnamed ("as" ∷ "as" ∷ [])) (unnamed ("a(ss)" ∷ []))
      ∷ served B T "GetUnitFileState" (string ∷ []) (string ∷ []) d.get_unit_file_state
          (unnamed ("s" ∷ [])) (unnamed ("s" ∷ []))
      ∷ []

module _ (B : Dbus) (T : Typed B) (N : Line B T) where
  -- Each client method obtains what the implementation's method of its name gives.
  abbrev pub Agrees : {S : Type 0} → Methods B T S → ConnPath → S → Type 0
  Agrees d c s =
      Obtains B T (string ∷ string ∷ []) [] (switch_root B T N) d.switch_root c s
      × Obtains B T (array string ∷ []) [] (set_environment B T N) d.set_environment c s
      × Obtains B T (array string ∷ []) [] (unset_environment B T N) d.unset_environment c s
      × Obtains B T (array string ∷ array string ∷ []) [] (unset_and_set_environment B T N)
          d.unset_and_set_environment c s
      × Obtains B T [] (array (struct (string ⊗ string)) ∷ []) (list_unit_files B T N)
          d.list_unit_files c s
      × Obtains B T (array string ∷ array string ∷ []) (array (struct (string ⊗ string)) ∷ [])
          (list_unit_files_by_patterns B T N) d.list_unit_files_by_patterns c s
      × Obtains B T (string ∷ []) (string ∷ []) (get_unit_file_state B T N) d.get_unit_file_state c
          s
