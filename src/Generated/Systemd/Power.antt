-- ===== src/Generated/Systemd/Power.antt =====
-- The manager's interface: the methods on the manager and the machine as a whole.
use killjoy.Base.{List, [], ◌∷◌}
use killjoy.Dbus.{Dbus, ConnPath}
use killjoy.Generated.Systemd.Kinds.{string, fd}
use killjoy.Generated.Systemd.Typed.{Typed, Line, ask, Asks, Does, Served, served, unnamed, Obtains}

-- The part of the trait, of an implementation with a state.
pub record Methods (B : Dbus) (T : Typed B) (S : Type 0) : Type 0 where
  pub subscribe : Does B T S [] []
  pub unsubscribe : Does B T S [] []
  pub dump : Does B T S [] (string ∷ [])
  pub dump_by_file_descriptor : Does B T S [] (fd ∷ [])
  pub reload : Does B T S [] []
  pub reexecute : Does B T S [] []
  pub exit : Does B T S [] []
  pub reboot : Does B T S [] []
  pub power_off : Does B T S [] []
  pub halt : Does B T S [] []
  pub kexec : Does B T S [] []

module _ (B : Dbus) (T : Typed B) (N : Line B T) where
  unfoldable pub unsubscribe : Asks B T [] []
  unfolding ask
  unsubscribe = ask B T N "Unsubscribe" [] []

  unfoldable pub dump : Asks B T [] (string ∷ [])
  unfolding ask
  dump = ask B T N "Dump" [] (string ∷ [])

  unfoldable pub dump_by_file_descriptor : Asks B T [] (fd ∷ [])
  unfolding ask
  dump_by_file_descriptor = ask B T N "DumpByFileDescriptor" [] (fd ∷ [])

  unfoldable pub reload : Asks B T [] []
  unfolding ask
  reload = ask B T N "Reload" [] []

  unfoldable pub reexecute : Asks B T [] []
  unfolding ask
  reexecute = ask B T N "Reexecute" [] []

  unfoldable pub exit : Asks B T [] []
  unfolding ask
  exit = ask B T N "Exit" [] []

  unfoldable pub reboot : Asks B T [] []
  unfolding ask
  reboot = ask B T N "Reboot" [] []

  unfoldable pub power_off : Asks B T [] []
  unfolding ask
  power_off = ask B T N "PowerOff" [] []

  unfoldable pub halt : Asks B T [] []
  unfolding ask
  halt = ask B T N "Halt" [] []

  unfoldable pub kexec : Asks B T [] []
  unfolding ask
  kexec = ask B T N "KExec" [] []

module _ (B : Dbus) (T : Typed B) where
  -- The part of the server.
  unfoldable pub server : {S : Type 0} → Methods B T S → List (Served B T S)
  server d =
      served B T "Subscribe" [] [] d.subscribe (unnamed []) (unnamed [])
      ∷ served B T "Unsubscribe" [] [] d.unsubscribe (unnamed []) (unnamed [])
      ∷ served B T "Dump" [] (string ∷ []) d.dump (unnamed []) (unnamed ("s" ∷ []))
      ∷ served B T "DumpByFileDescriptor" [] (fd ∷ []) d.dump_by_file_descriptor (unnamed [])
          (unnamed ("h" ∷ []))
      ∷ served B T "Reload" [] [] d.reload (unnamed []) (unnamed [])
      ∷ served B T "Reexecute" [] [] d.reexecute (unnamed []) (unnamed [])
      ∷ served B T "Exit" [] [] d.exit (unnamed []) (unnamed [])
      ∷ served B T "Reboot" [] [] d.reboot (unnamed []) (unnamed [])
      ∷ served B T "PowerOff" [] [] d.power_off (unnamed []) (unnamed [])
      ∷ served B T "Halt" [] [] d.halt (unnamed []) (unnamed [])
      ∷ served B T "KExec" [] [] d.kexec (unnamed []) (unnamed [])
      ∷ []

module _ (B : Dbus) (T : Typed B) (N : Line B T) where
  -- Each client method obtains what the implementation's method of its name gives.
  abbrev pub Agrees : {S : Type 0} → Methods B T S → ConnPath → S → Type 0
  Agrees d c s =
      Obtains B T [] [] (unsubscribe B T N) d.unsubscribe c s
      × Obtains B T [] (string ∷ []) (dump B T N) d.dump c s
      × Obtains B T [] (fd ∷ []) (dump_by_file_descriptor B T N) d.dump_by_file_descriptor c s
      × Obtains B T [] [] (reload B T N) d.reload c s
      × Obtains B T [] [] (reexecute B T N) d.reexecute c s
      × Obtains B T [] [] (exit B T N) d.exit c s
      × Obtains B T [] [] (reboot B T N) d.reboot c s
      × Obtains B T [] [] (power_off B T N) d.power_off c s
      × Obtains B T [] [] (halt B T N) d.halt c s
      × Obtains B T [] [] (kexec B T N) d.kexec c s
