-- ===== src/Generated/Systemd/Logging.antt =====
-- The manager's interface: the properties of the log, the counters and the environment.
use killjoy.Base.{List, [], ◌∷◌, ◌≡◌}
use killjoy.Dbus.{Dbus, ConnPath}
use killjoy.Generated.Systemd.Kinds.{u32, u64, double, string, array}
use killjoy.Generated.Systemd.Typed.{
  Typed, Line, Gets, get_property, Sets, set_property, Yields, Takes, Property, readable, writable,
  Val,
}

-- The part of the trait, of an implementation with a state.
pub record Methods (B : Dbus) (T : Typed B) (S : Type 0) : Type 0 where
  pub get_init_rdunits_load_finish_timestamp : Yields B T S u64
  pub get_init_rdunits_load_finish_timestamp_monotonic : Yields B T S u64
  pub get_log_level : Yields B T S string
  pub set_log_level : Takes B T S string
  pub get_log_target : Yields B T S string
  pub set_log_target : Takes B T S string
  pub get_nnames : Yields B T S u32
  pub get_nfailed_units : Yields B T S u32
  pub get_njobs : Yields B T S u32
  pub get_ninstalled_jobs : Yields B T S u32
  pub get_nfailed_jobs : Yields B T S u32
  pub get_progress : Yields B T S double
  pub get_environment : Yields B T S (array string)

module _ (B : Dbus) (T : Typed B) (N : Line B T) where
  unfoldable pub get_init_rdunits_load_finish_timestamp : Gets B T u64
  unfolding get_property
  get_init_rdunits_load_finish_timestamp = get_property B T N "InitRDUnitsLoadFinishTimestamp" u64

  unfoldable pub get_init_rdunits_load_finish_timestamp_monotonic : Gets B T u64
  unfolding get_property
  get_init_rdunits_load_finish_timestamp_monotonic =
      get_property B T N "InitRDUnitsLoadFinishTimestampMonotonic" u64

  unfoldable pub get_log_level : Gets B T string
  unfolding get_property
  get_log_level = get_property B T N "LogLevel" string

  unfoldable pub set_log_level : Sets B T string
  unfolding set_property
  set_log_level = set_property B T N "LogLevel" string

  unfoldable pub get_log_target : Gets B T string
  unfolding get_property
  get_log_target = get_property B T N "LogTarget" string

  unfoldable pub set_log_target : Sets B T string
  unfolding set_property
  set_log_target = set_property B T N "LogTarget" string

  unfoldable pub get_nnames : Gets B T u32
  unfolding get_property
  get_nnames = get_property B T N "NNames" u32

  unfoldable pub get_nfailed_units : Gets B T u32
  unfolding get_property
  get_nfailed_units = get_property B T N "NFailedUnits" u32

  unfoldable pub get_njobs : Gets B T u32
  unfolding get_property
  get_njobs = get_property B T N "NJobs" u32

  unfoldable pub get_ninstalled_jobs : Gets B T u32
  unfolding get_property
  get_ninstalled_jobs = get_property B T N "NInstalledJobs" u32

  unfoldable pub get_nfailed_jobs : Gets B T u32
  unfolding get_property
  get_nfailed_jobs = get_property B T N "NFailedJobs" u32

  unfoldable pub get_progress : Gets B T double
  unfolding get_property
  get_progress = get_property B T N "Progress" double

  unfoldable pub get_environment : Gets B T (array string)
  unfolding get_property
  get_environment = get_property B T N "Environment" (array string)

module _ (B : Dbus) (T : Typed B) where
  -- The part of the server.
  unfoldable pub server : {S : Type 0} → Methods B T S → List (Property B T S)
  server d =
      readable B T "InitRDUnitsLoadFinishTimestamp" u64 d.get_init_rdunits_load_finish_timestamp
      ∷ readable B T "InitRDUnitsLoadFinishTimestampMonotonic" u64
          d.get_init_rdunits_load_finish_timestamp_monotonic
      ∷ writable B T "LogLevel" string d.get_log_level d.set_log_level
      ∷ writable B T "LogTarget" string d.get_log_target d.set_log_target
      ∷ readable B T "NNames" u32 d.get_nnames
      ∷ readable B T "NFailedUnits" u32 d.get_nfailed_units
      ∷ readable B T "NJobs" u32 d.get_njobs
      ∷ readable B T "NInstalledJobs" u32 d.get_ninstalled_jobs
      ∷ readable B T "NFailedJobs" u32 d.get_nfailed_jobs
      ∷ readable B T "Progress" double d.get_progress
      ∷ readable B T "Environment" (array string) d.get_environment
      ∷ []

module _ (B : Dbus) (T : Typed B) (N : Line B T) where
  -- Each getter obtains what the implementation's getter gives, and each setter what its setter does.
  abbrev pub Agrees : {S : Type 0} → Methods B T S → ConnPath → S → Type 0
  Agrees d c s =
      (get_init_rdunits_load_finish_timestamp B T N c
        ≡ (d.get_init_rdunits_load_finish_timestamp s).0)
      × (get_init_rdunits_load_finish_timestamp_monotonic B T N c
          ≡ (d.get_init_rdunits_load_finish_timestamp_monotonic s).0)
      × (get_log_level B T N c ≡ (d.get_log_level s).0)
      × ((v : Val B T string) → set_log_level B T N c v ≡ (d.set_log_level v s).0)
      × (get_log_target B T N c ≡ (d.get_log_target s).0)
      × ((v : Val B T string) → set_log_target B T N c v ≡ (d.set_log_target v s).0)
      × (get_nnames B T N c ≡ (d.get_nnames s).0)
      × (get_nfailed_units B T N c ≡ (d.get_nfailed_units s).0)
      × (get_njobs B T N c ≡ (d.get_njobs s).0)
      × (get_ninstalled_jobs B T N c ≡ (d.get_ninstalled_jobs s).0)
      × (get_nfailed_jobs B T N c ≡ (d.get_nfailed_jobs s).0)
      × (get_progress B T N c ≡ (d.get_progress s).0)
      × (get_environment B T N c ≡ (d.get_environment s).0)
