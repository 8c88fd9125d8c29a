-- ===== src/Generated/Systemd/LateTrip.antt =====
-- The other groups of properties: the getters and setters against the server.
use killjoy.Base.{refl}
use killjoy.Dbus.{Dbus, ConnPath}
use killjoy.Generated.Systemd.Typed.{Typed, Line, find_property}
use killjoy.Generated.Systemd.Server.{Systemd, properties, Wired, HasProperties}
use killjoy.Generated.Systemd.Trip.{gets, sets}
use killjoy.Generated.Systemd.Watchdogs
use killjoy.Generated.Systemd.Defaults
use killjoy.Generated.Systemd.Limits
use killjoy.Generated.Systemd.MoreLimits
use killjoy.Generated.Systemd.Scheduling

module _ (B : Dbus) (T : Typed B) (N : Line B T) (W : Wired B T) {S : Type 0} (d : Systemd B T S)
    (s : S) (c : ConnPath) (has : HasProperties B T N W (properties B T d) s c) where
  pub watchdogs_lem : Watchdogs.Agrees B T N d.watchdogs c s
  unfolding properties find_property Watchdogs.get_confirm_spawn Watchdogs.get_show_status
      Watchdogs.get_unit_path Watchdogs.get_default_standard_output
      Watchdogs.get_default_standard_error Watchdogs.get_runtime_watchdog_usec
      Watchdogs.set_runtime_watchdog_usec Watchdogs.get_reboot_watchdog_usec
      Watchdogs.set_reboot_watchdog_usec Watchdogs.get_kexec_watchdog_usec
      Watchdogs.set_kexec_watchdog_usec Watchdogs.get_service_watchdogs
      Watchdogs.set_service_watchdogs Watchdogs.get_control_group Watchdogs.get_system_state
  watchdogs_lem = (
    gets B T N W s c (properties B T d) has "ConfirmSpawn" _ refl,
    gets B T N W s c (properties B T d) has "ShowStatus" _ refl,
    gets B T N W s c (properties B T d) has "UnitPath" _ refl,
    gets B T N W s c (properties B T d) has "DefaultStandardOutput" _ refl,
    gets B T N W s c (properties B T d) has "DefaultStandardError" _ refl,
    gets B T N W s c (properties B T d) has "RuntimeWatchdogUSec" _ refl,
    sets B T N W s c (properties B T d) has "RuntimeWatchdogUSec" _ refl _ refl,
    gets B T N W s c (properties B T d) has "RebootWatchdogUSec" _ refl,
    sets B T N W s c (properties B T d) has "RebootWatchdogUSec" _ refl _ refl,
    gets B T N W s c (properties B T d) has "KExecWatchdogUSec" _ refl,
    sets B T N W s c (properties B T d) has "KExecWatchdogUSec" _ refl _ refl,
    gets B T N W s c (properties B T d) has "ServiceWatchdogs" _ refl,
    sets B T N W s c (properties B T d) has "ServiceWatchdogs" _ refl _ refl,
    gets B T N W s c (properties B T d) has "ControlGroup" _ refl,
    gets B T N W s c (properties B T d) has "SystemState" _ refl,
  )

  pub defaults_lem : Defaults.Agrees B T N d.defaults c s
  unfolding properties find_property Defaults.get_exit_code Defaults.get_default_timer_accuracy_usec
      Defaults.get_default_timeout_start_usec Defaults.get_default_timeout_stop_usec
      Defaults.get_default_timeout_abort_usec Defaults.get_default_restart_usec
      Defaults.get_default_start_limit_interval_usec Defaults.get_default_start_limit_burst
      Defaults.get_default_cpuaccounting Defaults.get_default_block_ioaccounting
      Defaults.get_default_memory_accounting Defaults.get_default_tasks_accounting
      Defaults.get_default_limit_cpu
  defaults_lem = (
    gets B T N W s c (properties B T d) has "ExitCode" _ refl,
    gets B T N W s c (properties B T d) has "DefaultTimerAccuracyUSec" _ refl,
    gets B T N W s c (properties B T d) has "DefaultTimeoutStartUSec" _ refl,
    gets B T N W s c (properties B T d) has "DefaultTimeoutStopUSec" _ refl,
    gets B T N W s c (properties B T d) has "DefaultTimeoutAbortUSec" _ refl,
    gets B T N W s c (properties B T d) has "DefaultRestartUSec" _ refl,
    gets B T N W s c (properties B T d) has "DefaultStartLimitIntervalUSec" _ refl,
    gets B T N W s c (properties B T d) has "DefaultStartLimitBurst" _ refl,
    gets B T N W s c (properties B T d) has "DefaultCPUAccounting" _ refl,
    gets B T N W s c (properties B T d) has "DefaultBlockIOAccounting" _ refl,
    gets B T N W s c (properties B T d) has "DefaultMemoryAccounting" _ refl,
    gets B T N W s c (properties B T d) has "DefaultTasksAccounting" _ refl,
    gets B T N W s c (properties B T d) has "DefaultLimitCPU" _ refl,
  )

  pub limits_lem : Limits.Agrees B T N d.limits c s
  unfolding properties find_property Limits.get_default_limit_cpusoft Limits.get_default_limit_fsize
      Limits.get_default_limit_fsizesoft Limits.get_default_limit_data
      Limits.get_default_limit_datasoft Limits.get_default_limit_stack
      Limits.get_default_limit_stacksoft Limits.get_default_limit_core
      Limits.get_default_limit_coresoft Limits.get_default_limit_rss
      Limits.get_default_limit_rsssoft Limits.get_default_limit_nofile
      Limits.get_default_limit_nofilesoft
  limits_lem = (
    gets B T N W s c (properties B T d) has "DefaultLimitCPUSoft" _ refl,
    gets B T N W s c (properties B T d) has "DefaultLimitFSIZE" _ refl,
    gets B T N W s c (properties B T d) has "DefaultLimitFSIZESoft" _ refl,
    gets B T N W s c (properties B T d) has "DefaultLimitDATA" _ refl,
    gets B T N W s c (properties B T d) has "DefaultLimitDATASoft" _ refl,
    gets B T N W s c (properties B T d) has "DefaultLimitSTACK" _ refl,
    gets B T N W s c (properties B T d) has "DefaultLimitSTACKSoft" _ refl,
    gets B T N W s c (properties B T d) has "DefaultLimitCORE" _ refl,
    gets B T N W s c (properties B T d) has "DefaultLimitCORESoft" _ refl,
    gets B T N W s c (properties B T d) has "DefaultLimitRSS" _ refl,
    gets B T N W s c (properties B T d) has "DefaultLimitRSSSoft" _ refl,
    gets B T N W s c (properties B T d) has "DefaultLimitNOFILE" _ refl,
    gets B T N W s c (properties B T d) has "DefaultLimitNOFILESoft" _ refl,
  )

  pub more_limits_lem : MoreLimits.Agrees B T N d.more_limits c s
  unfolding properties find_property MoreLimits.get_default_limit_as
      MoreLimits.get_default_limit_assoft MoreLimits.get_default_limit_nproc
      MoreLimits.get_default_limit_nprocsoft MoreLimits.get_default_limit_memlock
      MoreLimits.get_default_limit_memlocksoft MoreLimits.get_default_limit_locks
      MoreLimits.get_default_limit_lockssoft MoreLimits.get_default_limit_sigpending
      MoreLimits.get_default_limit_sigpendingsoft MoreLimits.get_default_limit_msgqueue
      MoreLimits.get_default_limit_msgqueuesoft MoreLimits.get_default_limit_nice
  more_limits_lem = (
    gets B T N W s c (properties B T d) has "DefaultLimitAS" _ refl,
    gets B T N W s c (properties B T d) has "DefaultLimitASSoft" _ refl,
    gets B T N W s c (properties B T d) has "DefaultLimitNPROC" _ refl,
    gets B T N W s c (properties B T d) has "DefaultLimitNPROCSoft" _ refl,
    gets B T N W s c (properties B T d) has "DefaultLimitMEMLOCK" _ refl,
    gets B T N W s c (properties B T d) has "DefaultLimitMEMLOCKSoft" _ refl,
    gets B T N W s c (properties B T d) has "DefaultLimitLOCKS" _ refl,
    gets B T N W s c (properties B T d) has "DefaultLimitLOCKSSoft" _ refl,
    gets B T N W s c (properties B T d) has "DefaultLimitSIGPENDING" _ refl,
    gets B T N W s c (properties B T d) has "DefaultLimitSIGPENDINGSoft" _ refl,
    gets B T N W s c (properties B T d) has "DefaultLimitMSGQUEUE" _ refl,
    gets B T N W s c (properties B T d) has "DefaultLimitMSGQUEUESoft" _ refl,
    gets B T N W s c (properties B T d) has "DefaultLimitNICE" _ refl,
  )

  pub scheduling_lem : Scheduling.Agrees B T N d.scheduling c s
  unfolding properties find_property Scheduling.get_default_limit_nicesoft
      Scheduling.get_default_limit_rtprio Scheduling.get_default_limit_rtpriosoft
      Scheduling.get_default_limit_rttime Scheduling.get_default_limit_rttimesoft
      Scheduling.get_default_tasks_max Scheduling.get_timer_slack_nsec
      Scheduling.get_default_oompolicy
  scheduling_lem = (
    gets B T N W s c (properties B T d) has "DefaultLimitNICESoft" _ refl,
    gets B T N W s c (properties B T d) has "DefaultLimitRTPRIO" _ refl,
    gets B T N W s c (properties B T d) has "DefaultLimitRTPRIOSoft" _ refl,
    gets B T N W s c (properties B T d) has "DefaultLimitRTTIME" _ refl,
    gets B T N W s c (properties B T d) has "DefaultLimitRTTIMESoft" _ refl,
    gets B T N W s c (properties B T d) has "DefaultTasksMax" _ refl,
    gets B T N W s c (properties B T d) has "TimerSlackNSec" _ refl,
    gets B T N W s c (properties B T d) has "DefaultOOMPolicy" _ refl,
  )
