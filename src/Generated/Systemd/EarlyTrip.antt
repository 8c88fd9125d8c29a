-- ===== src/Generated/Systemd/EarlyTrip.antt =====
-- The first groups of properties: the getters and setters against the server.
use killjoy.Base.{refl}
use killjoy.Dbus.{Dbus, ConnPath}
use killjoy.Generated.Systemd.Typed.{Typed, Line, find_property}
use killjoy.Generated.Systemd.Server.{Systemd, properties, Wired, HasProperties}
use killjoy.Generated.Systemd.Trip.{gets, sets}
use killjoy.Generated.Systemd.Boot
use killjoy.Generated.Systemd.Startup
use killjoy.Generated.Systemd.Initrd
use killjoy.Generated.Systemd.Logging

module _ (B : Dbus) (T : Typed B) (N : Line B T) (W : Wired B T) {S : Type 0} (d : Systemd B T S)
    (s : S) (c : ConnPath) (has : HasProperties B T N W (properties B T d) s c) where
  pub boot_lem : Boot.Agrees B T N d.boot c s
  unfolding properties find_property Boot.get_version Boot.get_features Boot.get_virtualization
      Boot.get_architecture Boot.get_tainted Boot.get_firmware_timestamp
      Boot.get_firmware_timestamp_monotonic Boot.get_loader_timestamp
      Boot.get_loader_timestamp_monotonic Boot.get_kernel_timestamp
      Boot.get_kernel_timestamp_monotonic Boot.get_init_rdtimestamp
      Boot.get_init_rdtimestamp_monotonic
  boot_lem = (
    gets B T N W s c (properties B T d) has "Version" _ refl,
    gets B T N W s c (properties B T d) has "Features" _ refl,
    gets B T N W s c (properties B T d) has "Virtualization" _ refl,
    gets B T N W s c (properties B T d) has "Architecture" _ refl,
    gets B T N W s c (properties B T d) has "Tainted" _ refl,
    gets B T N W s c (properties B T d) has "FirmwareTimestamp" _ refl,
    gets B T N W s c (properties B T d) has "FirmwareTimestampMonotonic" _ refl,
    gets B T N W s c (properties B T d) has "LoaderTimestamp" _ refl,
    gets B T N W s c (properties B T d) has "LoaderTimestampMonotonic" _ refl,
    gets B T N W s c (properties B T d) has "KernelTimestamp" _ refl,
    gets B T N W s c (properties B T d) has "KernelTimestampMonotonic" _ refl,
    gets B T N W s c (properties B T d) has "InitRDTimestamp" _ refl,
    gets B T N W s c (properties B T d) has "InitRDTimestampMonotonic" _ refl,
  )

  pub startup_lem : Startup.Agrees B T N d.startup c s
  unfolding properties find_property Startup.get_userspace_timestamp
      Startup.get_userspace_timestamp_monotonic Startup.get_finish_timestamp
      Startup.get_finish_timestamp_monotonic Startup.get_security_start_timestamp
      Startup.get_security_start_timestamp_monotonic Startup.get_security_finish_timestamp
      Startup.get_security_finish_timestamp_monotonic Startup.get_generators_start_timestamp
      Startup.get_generators_start_timestamp_monotonic Startup.get_generators_finish_timestamp
      Startup.get_generators_finish_timestamp_monotonic Startup.get_units_load_start_timestamp
  startup_lem = (
    gets B T N W s c (properties B T d) has "UserspaceTimestamp" _ refl,
    gets B T N W s c (properties B T d) has "UserspaceTimestampMonotonic" _ refl,
    gets B T N W s c (properties B T d) has "FinishTimestamp" _ refl,
    gets B T N W s c (properties B T d) has "FinishTimestampMonotonic" _ refl,
    gets B T N W s c (properties B T d) has "SecurityStartTimestamp" _ refl,
    gets B T N W s c (properties B T d) has "SecurityStartTimestampMonotonic" _ refl,
    gets B T N W s c (properties B T d) has "SecurityFinishTimestamp" _ refl,
    gets B T N W s c (properties B T d) has "SecurityFinishTimestampMonotonic" _ refl,
    gets B T N W s c (properties B T d) has "GeneratorsStartTimestamp" _ refl,
    gets B T N W s c (properties B T d) has "GeneratorsStartTimestampMonotonic" _ refl,
    gets B T N W s c (properties B T d) has "GeneratorsFinishTimestamp" _ refl,
    gets B T N W s c (properties B T d) has "GeneratorsFinishTimestampMonotonic" _ refl,
    gets B T N W s c (properties B T d) has "UnitsLoadStartTimestamp" _ refl,
  )

  pub initrd_lem : Initrd.Agrees B T N d.initrd c s
  unfolding properties find_property Initrd.get_units_load_start_timestamp_monotonic
      Initrd.get_units_load_finish_timestamp Initrd.get_units_load_finish_timestamp_monotonic
      Initrd.get_init_rdsecurity_start_timestamp
      Initrd.get_init_rdsecurity_start_timestamp_monotonic
      Initrd.get_init_rdsecurity_finish_timestamp
      Initrd.get_init_rdsecurity_finish_timestamp_monotonic
      Initrd.get_init_rdgenerators_start_timestamp
      Initrd.get_init_rdgenerators_start_timestamp_monotonic
      Initrd.get_init_rdgenerators_finish_timestamp
      Initrd.get_init_rdgenerators_finish_timestamp_monotonic
      Initrd.get_init_rdunits_load_start_timestamp
      Initrd.get_init_rdunits_load_start_timestamp_monotonic
  initrd_lem = (
    gets B T N W s c (properties B T d) has "UnitsLoadStartTimestampMonotonic" _ refl,
    gets B T N W s c (properties B T d) has "UnitsLoadFinishTimestamp" _ refl,
    gets B T N W s c (properties B T d) has "UnitsLoadFinishTimestampMonotonic" _ refl,
    gets B T N W s c (properties B T d) has "InitRDSecurityStartTimestamp" _ refl,
    gets B T N W s c (properties B T d) has "InitRDSecurityStartTimestampMonotonic" _ refl,
    gets B T N W s c (properties B T d) has "InitRDSecurityFinishTimestamp" _ refl,
    gets B T N W s c (properties B T d) has "InitRDSecurityFinishTimestampMonotonic" _ refl,
    gets B T N W s c (properties B T d) has "InitRDGeneratorsStartTimestamp" _ refl,
    gets B T N W s c (properties B T d) has "InitRDGeneratorsStartTimestampMonotonic" _ refl,
    gets B T N W s c (properties B T d) has "InitRDGeneratorsFinishTimestamp" _ refl,
    gets B T N W s c (properties B T d) has "InitRDGeneratorsFinishTimestampMonotonic" _ refl,
    gets B T N W s c (properties B T d) has "InitRDUnitsLoadStartTimestamp" _ refl,
    gets B T N W s c (properties B T d) has "InitRDUnitsLoadStartTimestampMonotonic" _ refl,
  )

  pub logging_lem : Logging.Agrees B T N d.logging c s
  unfolding properties find_property Logging.get_init_rdunits_load_finish_timestamp
      Logging.get_init_rdunits_load_finish_timestamp_monotonic Logging.get_log_level
      Logging.set_log_level Logging.get_log_target Logging.set_log_target Logging.get_nnames
      Logging.get_nfailed_units Logging.get_njobs Logging.get_ninstalled_jobs
      Logging.get_nfailed_jobs Logging.get_progress Logging.get_environment
  logging_lem = (
    gets B T N W s c (properties B T d) has "InitRDUnitsLoadFinishTimestamp" _ refl,
    gets B T N W s c (properties B T d) has "InitRDUnitsLoadFinishTimestampMonotonic" _ refl,
    gets B T N W s c (properties B T d) has "LogLevel" _ refl,
    sets B T N W s c (properties B T d) has "LogLevel" _ refl _ refl,
    gets B T N W s c (properties B T d) has "LogTarget" _ refl,
    sets B T N W s c (properties B T d) has "LogTarget" _ refl _ refl,
    gets B T N W s c (properties B T d) has "NNames" _ refl,
    gets B T N W s c (properties B T d) has "NFailedUnits" _ refl,
    gets B T N W s c (properties B T d) has "NJobs" _ refl,
    gets B T N W s c (properties B T d) has "NInstalledJobs" _ refl,
    gets B T N W s c (properties B T d) has "NFailedJobs" _ refl,
    gets B T N W s c (properties B T d) has "Progress" _ refl,
    gets B T N W s c (properties B T d) has "Environment" _ refl,
  )
