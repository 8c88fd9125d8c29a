-- ===== src/Generated/Systemd/Watchdogs.antt =====
-- The manager's interface: the properties of the console, the watchdogs and the state of the system.
use killjoy.Base.{List, [], ◌∷◌, ◌≡◌}
use killjoy.Dbus.{Dbus, ConnPath}
use killjoy.Generated.Systemd.Kinds.{boolean, u64, string, array}
use killjoy.Generated.Systemd.Typed.{
  Typed, Line, Gets, get_property, Sets, set_property, Yields, Takes, Property, readable, writable,
  Val,
}

-- The part of the trait, of an implementation with a state.
pub record Methods (B : Dbus) (T : Typed B) (S : Type 0) : Type 0 where
  pub get_confirm_spawn : Yields B T S boolean
  pub get_show_status : Yields B T S boolean
  pub get_unit_path : Yields B T S (array string)
  pub get_default_standard_output : Yields B T S string
  pub get_default_standard_error : Yields B T S string
  pub get_runtime_watchdog_usec : Yields B T S u64
  pub set_runtime_watchdog_usec : Takes B T S u64
  pub get_reboot_watchdog_usec : Yields B T S u64
  pub set_reboot_watchdog_usec : Takes B T S u64
  pub get_kexec_watchdog_usec : Yields B T S u64
  pub set_kexec_watchdog_usec : Takes B T S u64
  pub get_service_watchdogs : Yields B T S boolean
  pub set_service_watchdogs : Takes B T S boolean
  pub get_control_group : Yields B T S string
  pub get_system_state : Yields B T S string

module _ (B : Dbus) (T : Typed B) (N : Line B T) where
  unfoldable pub get_confirm_spawn : Gets B T boolean
  unfolding get_property
  get_confirm_spawn = get_property B T N "ConfirmSpawn" boolean

  unfoldable pub get_show_status : Gets B T boolean
  unfolding get_property
  get_show_status = get_property B T N "ShowStatus" boolean

  unfoldable pub get_unit_path : Gets B T (array string)
  unfolding get_property
  get_unit_path = get_property B T N "UnitPath" (array string)

  unfoldable pub get_default_standard_output : Gets B T string
  unfolding get_property
  get_default_standard_output = get_property B T N "DefaultStandardOutput" string

  unfoldable pub get_default_standard_error : Gets B T string
  unfolding get_property
  get_default_standard_error = get_property B T N "DefaultStandardError" string

  unfoldable pub get_runtime_watchdog_usec : Gets B T u64
  unfolding get_property
  get_runtime_watchdog_usec = get_property B T N "RuntimeWatchdogUSec" u64

  unfoldable pub set_runtime_watchdog_usec : Sets B T u64
  unfolding set_property
  set_runtime_watchdog_usec = set_property B T N "RuntimeWatchdogUSec" u64

  unfoldable pub get_reboot_watchdog_usec : Gets B T u64
  unfolding get_property
  get_reboot_watchdog_usec = get_property B T N "RebootWatchdogUSec" u64

  unfoldable pub set_reboot_watchdog_usec : Sets B T u64
  unfolding set_property
  set_reboot_watchdog_usec = set_property B T N "RebootWatchdogUSec" u64

  unfoldable pub get_kexec_watchdog_usec : Gets B T u64
  unfolding get_property
  get_kexec_watchdog_usec = get_property B T N "KExecWatchdogUSec" u64

  unfoldable pub set_kexec_watchdog_usec : Sets B T u64
  unfolding set_property
  set_kexec_watchdog_usec = set_property B T N "KExecWatchdogUSec" u64

  unfoldable pub get_service_watchdogs : Gets B T boolean
  unfolding get_property
  get_service_watchdogs = get_property B T N "ServiceWatchdogs" boolean

  unfoldable pub set_service_watchdogs : Sets B T boolean
  unfolding set_property
  set_service_watchdogs = set_property B T N "ServiceWatchdogs" boolean

  unfoldable pub get_control_group : Gets B T string
  unfolding get_property
  get_control_group = get_property B T N "ControlGroup" string

  unfoldable pub get_system_state : Gets B T string
  unfolding get_property
  get_system_state = get_property B T N "SystemState" string

module _ (B : Dbus) (T : Typed B) where
  -- The part of the server.
  unfoldable pub server : {S : Type 0} → Methods B T S → List (Property B T S)
  server d =
      readable B T "ConfirmSpawn" boolean d.get_confirm_spawn
      ∷ readable B T "ShowStatus" boolean d.get_show_status
      ∷ readable B T "UnitPath" (array string) d.get_unit_path
      ∷ readable B T "DefaultStandardOutput" string d.get_default_standard_output
      ∷ readable B T "DefaultStandardError" string d.get_default_standard_error
      ∷ writable B T "RuntimeWatchdogUSec" u64 d.get_runtime_watchdog_usec
          d.set_runtime_watchdog_usec
      ∷ writable B T "RebootWatchdogUSec" u64 d.get_reboot_watchdog_usec d.set_reboot_watchdog_usec
      ∷ writable B T "KExecWatchdogUSec" u64 d.get_kexec_watchdog_usec d.set_kexec_watchdog_usec
      ∷ writable B T "ServiceWatchdogs" boolean d.get_service_watchdogs d.set_service_watchdogs
      ∷ readable B T "ControlGroup" string d.get_control_group
      ∷ readable B T "SystemState" string d.get_system_state
      ∷ []

module _ (B : Dbus) (T : Typed B) (N : Line B T) where
  -- Each getter obtains what the implementation's getter gives, and each setter what its setter does.
  abbrev pub Agrees : {S : Type 0} → Methods B T S → ConnPath → S → Type 0
  Agrees d c s =
      (get_confirm_spawn B T N c ≡ (d.get_confirm_spawn s).0)
      × (get_show_status B T N c ≡ (d.get_show_status s).0)
      × (get_unit_path B T N c ≡ (d.get_unit_path s).0)
      × (get_default_standard_output B T N c ≡ (d.get_default_standard_output s).0)
      × (get_default_standard_error B T N c ≡ (d.get_default_standard_error s).0)
      × (get_runtime_watchdog_usec B T N c ≡ (d.get_runtime_watchdog_usec s).0)
      × ((v : Val B T u64)
          → set_runtime_watchdog_usec B T N c v ≡ (d.set_runtime_watchdog_usec v s).0)
      × (get_reboot_watchdog_usec B T N c ≡ (d.get_reboot_watchdog_usec s).0)
      × ((v : Val B T u64)
          → set_reboot_watchdog_usec B T N c v ≡ (d.set_reboot_watchdog_usec v s).0)
      × (get_kexec_watchdog_usec B T N c ≡ (d.get_kexec_watchdog_usec s).0)
      × ((v : Val B T u64) → set_kexec_watchdog_usec B T N c v ≡ (d.set_kexec_watchdog_usec v s).0)
      × (get_service_watchdogs B T N c ≡ (d.get_service_watchdogs s).0)
      × ((v : Val B T boolean) → set_service_watchdogs B T N c v ≡ (d.set_service_watchdogs v s).0)
      × (get_control_group B T N c ≡ (d.get_control_group s).0)
      × (get_system_state B T N c ≡ (d.get_system_state s).0)
