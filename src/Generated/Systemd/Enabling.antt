-- ===== src/Generated/Systemd/Enabling.antt =====
-- The manager's interface: the methods that enable and disable unit files.
use killjoy.Base.{List, [], ◌∷◌}
use killjoy.Dbus.{Dbus, ConnPath}
use killjoy.Generated.Systemd.Kinds.{boolean, string, array, change}
use killjoy.Generated.Systemd.Typed.{Typed, Line, ask, Asks, Does, Served, served, unnamed, Obtains}

-- The part of the trait, of an implementation with a state.
pub record Methods (B : Dbus) (T : Typed B) (S : Type 0) : Type 0 where
  pub enable_unit_files :
      Does B T S (array string ∷ boolean ∷ boolean ∷ []) (boolean ∷ array change ∷ [])
  pub disable_unit_files : Does B T S (array string ∷ boolean ∷ []) (array change ∷ [])
  pub reenable_unit_files :
      Does B T S (array string ∷ boolean ∷ boolean ∷ []) (boolean ∷ array change ∷ [])
  pub link_unit_files : Does B T S (array string ∷ boolean ∷ boolean ∷ []) (array change ∷ [])
  pub preset_unit_files :
      Does B T S (array string ∷ boolean ∷ boolean ∷ []) (boolean ∷ array change ∷ [])
  pub preset_unit_files_with_mode :
      Does B T S (array string ∷ string ∷ boolean ∷ boolean ∷ []) (boolean ∷ array change ∷ [])
  pub mask_unit_files : Does B T S (array string ∷ boolean ∷ boolean ∷ []) (array change ∷ [])

module _ (B : Dbus) (T : Typed B) (N : Line B T) where
  unfoldable pub enable_unit_files :
      Asks B T (array string ∷ boolean ∷ boolean ∷ []) (boolean ∷ array change ∷ [])
  unfolding ask
  enable_unit_files =
      ask B T N "EnableUnitFiles" (array string ∷ boolean ∷ boolean ∷ [])
        (boolean ∷ array change ∷ [])

  unfoldable pub disable_unit_files : Asks B T (array string ∷ boolean ∷ []) (array change ∷ [])
  unfolding ask
  disable_unit_files =
      ask B T N "DisableUnitFiles" (array string ∷ boolean ∷ []) (array change ∷ [])

  unfoldable pub reenable_unit_files :
      Asks B T (array string ∷ boolean ∷ boolean ∷ []) (boolean ∷ array change ∷ [])
  unfolding ask
  reenable_unit_files =
      ask B T N "ReenableUnitFiles" (array string ∷ boolean ∷ boolean ∷ [])
        (boolean ∷ array change ∷ [])

  unfoldable pub link_unit_files :
      Asks B T (array string ∷ boolean ∷ boolean ∷ []) (array change ∷ [])
  unfolding ask
  link_unit_files =
      ask B T N "LinkUnitFiles" (array string ∷ boolean ∷ boolean ∷ []) (array change ∷ [])

  unfoldable pub preset_unit_files :
      Asks B T (array string ∷ boolean ∷ boolean ∷ []) (boolean ∷ array change ∷ [])
  unfolding ask
  preset_unit_files =
      ask B T N "PresetUnitFiles" (array string ∷ boolean ∷ boolean ∷ [])
        (boolean ∷ array change ∷ [])

  unfoldable pub preset_unit_files_with_mode :
      Asks B T (array string ∷ string ∷ boolean ∷ boolean ∷ []) (boolean ∷ array change ∷ [])
  unfolding ask
  preset_unit_files_with_mode =
      ask B T N "PresetUnitFilesWithMode" (array string ∷ string ∷ boolean ∷ boolean ∷ [])
        (boolean ∷ array change ∷ [])

  unfoldable pub mask_unit_files :
      Asks B T (array string ∷ boolean ∷ boolean ∷ []) (array change ∷ [])
  unfolding ask
  mask_unit_files =
      ask B T N "MaskUnitFiles" (array string ∷ boolean ∷ boolean ∷ []) (array change ∷ [])

module _ (B : Dbus) (T : Typed B) where
  -- The part of the server.
  unfoldable pub server : {S : Type 0} → Methods B T S → List (Served B T S)
  server d =
      served B T "EnableUnitFiles" (array string ∷ boolean ∷ boolean ∷ [])
        (boolean ∷ array change ∷ []) d.enable_unit_files (unnamed ("as" ∷ "b" ∷ "b" ∷ []))
        (unnamed ("b" ∷ "a(sss)" ∷ []))
      ∷ served B T "DisableUnitFiles" (array string ∷ boolean ∷ []) (array change ∷ [])
          d.disable_unit_files (unnamed ("as" ∷ "b" ∷ [])) (unnamed ("a(sss)" ∷ []))
      ∷ served B T "ReenableUnitFiles" (array string ∷ boolean ∷ boolean ∷ [])
          (boolean ∷ array change ∷ []) d.reenable_unit_files (unnamed ("as" ∷ "b" ∷ "b" ∷ []))
          (unnamed ("b" ∷ "a(sss)" ∷ []))
      ∷ served B T "LinkUnitFiles" (array string ∷ boolean ∷ boolean ∷ []) (array change ∷ [])
          d.link_unit_files (unnamed ("as" ∷ "b" ∷ "b" ∷ [])) (unnamed ("a(sss)" ∷ []))
      ∷ served B T "PresetUnitFiles" (array string ∷ boolean ∷ boolean ∷ [])
          (boolean ∷ array change ∷ []) d.preset_unit_files (unnamed ("as" ∷ "b" ∷ "b" ∷ []))
          (unnamed ("b" ∷ "a(sss)" ∷ []))
      ∷ served B T "PresetUnitFilesWithMode" (array string ∷ string ∷ boolean ∷ boolean ∷ [])
          (boolean ∷ array change ∷ []) d.preset_unit_files_with_mode
          (unnamed ("as" ∷ "s" ∷ "b" ∷ "b" ∷ [])) (unnamed ("b" ∷ "a(sss)" ∷ []))
      ∷ served B T "MaskUnitFiles" (array string ∷ boolean ∷ boolean ∷ []) (array change ∷ [])
          d.mask_unit_files (unnamed ("as" ∷ "b" ∷ "b" ∷ [])) (unnamed ("a(sss)" ∷ []))
      ∷ []

module _ (B : Dbus) (T : Typed B) (N : Line B T) where
  -- Each client method obtains what the implementation's method of its name gives.
  abbrev pub Agrees : {S : Type 0} → Methods B T S → ConnPath → S → Type 0
  Agrees d c s =
      Obtains B T (array string ∷ boolean ∷ boolean ∷ []) (boolean ∷ array change ∷ [])
        (enable_unit_files B T N) d.enable_unit_files c s
      × Obtains B T (array string ∷ boolean ∷ []) (array change ∷ []) (disable_unit_files B T N)
          d.disable_unit_files c s
      × Obtains B T (array string ∷ boolean ∷ boolean ∷ []) (boolean ∷ array change ∷ [])
          (reenable_unit_files B T N) d.reenable_unit_files c s
      × Obtains B T (array string ∷ boolean ∷ boolean ∷ []) (array change ∷ [])
          (link_unit_files B T N) d.link_unit_files c s
      × Obtains B T (array string ∷ boolean ∷ boolean ∷ []) (boolean ∷ array change ∷ [])
          (preset_unit_files B T N) d.preset_unit_files c s
      × Obtains B T (array string ∷ string ∷ boolean ∷ boolean ∷ []) (boolean ∷ array change ∷ [])
          (preset_unit_files_with_mode B T N) d.preset_unit_files_with_mode c s
      × Obtains B T (array string ∷ boolean ∷ boolean ∷ []) (array change ∷ [])
          (mask_unit_files B T N) d.mask_unit_files c s
