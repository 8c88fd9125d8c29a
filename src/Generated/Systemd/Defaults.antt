-- ===== src/Generated/Systemd/Defaults.antt =====
-- The manager's interface: the defaults of timeouts and of accounting.
use killjoy.Base.{List, [], ◌∷◌, ◌≡◌}
use killjoy.Dbus.{Dbus, ConnPath}
use killjoy.Generated.Systemd.Kinds.{byte, boolean, u32, u64}
use killjoy.Generated.Systemd.Typed.{Typed, Line, Gets, get_property, Yields, Property, readable}

-- The part of the trait, of an implementation with a state.
pub record Methods (B : Dbus) (T : Typed B) (S : Type 0) : Type 0 where
  pub get_exit_code : Yields B T S byte
  pub get_default_timer_accuracy_usec : Yields B T S u64
  pub get_default_timeout_start_usec : Yields B T S u64
  pub get_default_timeout_stop_usec : Yields B T S u64
  pub get_default_timeout_abort_usec : Yields B T S u64
  pub get_default_restart_usec : Yields B T S u64
  pub get_default_start_limit_interval_usec : Yields B T S u64
  pub get_default_start_limit_burst : Yields B T S u32
  pub get_default_cpuaccounting : Yields B T S boolean
  pub get_default_block_ioaccounting : Yields B T S boolean
  pub get_default_memory_accounting : Yields B T S boolean
  pub get_default_tasks_accounting : Yields B T S boolean
  pub get_default_limit_cpu : Yields B T S u64

module _ (B : Dbus) (T : Typed B) (N : Line B T) where
  unfoldable pub get_exit_code : Gets B T byte
  unfolding get_property
  get_exit_code = get_property B T N "ExitCode" byte

  unfoldable pub get_default_timer_accuracy_usec : Gets B T u64
  unfolding get_property
  get_default_timer_accuracy_usec = get_property B T N "DefaultTimerAccuracyUSec" u64

  unfoldable pub get_default_timeout_start_usec : Gets B T u64
  unfolding get_property
  get_default_timeout_start_usec = get_property B T N "DefaultTimeoutStartUSec" u64

  unfoldable pub get_default_timeout_stop_usec : Gets B T u64
  unfolding get_property
  get_default_timeout_stop_usec = get_property B T N "DefaultTimeoutStopUSec" u64

  unfoldable pub get_default_timeout_abort_usec : Gets B T u64
  unfolding get_property
  get_default_timeout_abort_usec = get_property B T N "DefaultTimeoutAbortUSec" u64

  unfoldable pub get_default_restart_usec : Gets B T u64
  unfolding get_property
  get_default_restart_usec = get_property B T N "DefaultRestartUSec" u64

  unfoldable pub get_default_start_limit_interval_usec : Gets B T u64
  unfolding get_property
  get_default_start_limit_interval_usec = get_property B T N "DefaultStartLimitIntervalUSec" u64

  unfoldable pub get_default_start_limit_burst : Gets B T u32
  unfolding get_property
  get_default_start_limit_burst = get_property B T N "DefaultStartLimitBurst" u32

  unfoldable pub get_default_cpuaccounting : Gets B T boolean
  unfolding get_property
  get_default_cpuaccounting = get_property B T N "DefaultCPUAccounting" boolean

  unfoldable pub get_default_block_ioaccounting : Gets B T boolean
  unfolding get_property
  get_default_block_ioaccounting = get_property B T N "DefaultBlockIOAccounting" boolean

  unfoldable pub get_default_memory_accounting : Gets B T boolean
  unfolding get_property
  get_default_memory_accounting = get_property B T N "DefaultMemoryAccounting" boolean

  unfoldable pub get_default_tasks_accounting : Gets B T boolean
  unfolding get_property
  get_default_tasks_accounting = get_property B T N "DefaultTasksAccounting" boolean

  unfoldable pub get_default_limit_cpu : Gets B T u64
  unfolding get_property
  get_default_limit_cpu = get_property B T N "DefaultLimitCPU" u64

module _ (B : Dbus) (T : Typed B) where
  -- The part of the server.
  unfoldable pub server : {S : Type 0} → Methods B T S → List (Property B T S)
  server d =
      readable B T "ExitCode" byte d.get_exit_code
      ∷ readable B T "DefaultTimerAccuracyUSec" u64 d.get_default_timer_accuracy_usec
      ∷ readable B T "DefaultTimeoutStartUSec" u64 d.get_default_timeout_start_usec
      ∷ readable B T "DefaultTimeoutStopUSec" u64 d.get_default_timeout_stop_usec
      ∷ readable B T "DefaultTimeoutAbortUSec" u64 d.get_default_timeout_abort_usec
      ∷ readable B T "DefaultRestartUSec" u64 d.get_default_restart_usec
      ∷ readable B T "DefaultStartLimitIntervalUSec" u64 d.get_default_start_limit_interval_usec
      ∷ readable B T "DefaultStartLimitBurst" u32 d.get_default_start_limit_burst
      ∷ readable B T "DefaultCPUAccounting" boolean d.get_default_cpuaccounting
      ∷ readable B T "DefaultBlockIOAccounting" boolean d.get_default_block_ioaccounting
      ∷ readable B T "DefaultMemoryAccounting" boolean d.get_default_memory_accounting
      ∷ readable B T "DefaultTasksAccounting" boolean d.get_default_tasks_accounting
      ∷ readable B T "DefaultLimitCPU" u64 d.get_default_limit_cpu
      ∷ []

module _ (B : Dbus) (T : Typed B) (N : Line B T) where
  -- Each getter obtains what the implementation's getter gives, and each setter what its setter does.
  abbrev pub Agrees : {S : Type 0} → Methods B T S → ConnPath → S → Type 0
  Agrees d c s =
      (get_exit_code B T N c ≡ (d.get_exit_code s).0)
      × (get_default_timer_accuracy_usec B T N c ≡ (d.get_default_timer_accuracy_usec s).0)
      × (get_default_timeout_start_usec B T N c ≡ (d.get_default_timeout_start_usec s).0)
      × (get_default_timeout_stop_usec B T N c ≡ (d.get_default_timeout_stop_usec s).0)
      × (get_default_timeout_abort_usec B T N c ≡ (d.get_default_timeout_abort_usec s).0)
      × (get_default_restart_usec B T N c ≡ (d.get_default_restart_usec s).0)
      × (get_default_start_limit_interval_usec B T N c
          ≡ (d.get_default_start_limit_interval_usec s).0)
      × (get_default_start_limit_burst B T N c ≡ (d.get_default_start_limit_burst s).0)
      × (get_default_cpuaccounting B T N c ≡ (d.get_default_cpuaccounting s).0)
      × (get_default_block_ioaccounting B T N c ≡ (d.get_default_block_ioaccounting s).0)
      × (get_default_memory_accounting B T N c ≡ (d.get_default_memory_accounting s).0)
      × (get_default_tasks_accounting B T N c ≡ (d.get_default_tasks_accounting s).0)
      × (get_default_limit_cpu B T N c ≡ (d.get_default_limit_cpu s).0)
