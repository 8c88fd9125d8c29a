-- ===== src/Tests/Yielding.antt =====
-- The properties of that manager, and the manager.
use killjoy.Base.{ℕ}
use killjoy.Generated.Systemd.Kinds.{byte, boolean, u32, u64, double, string, array}
use killjoy.Generated.Systemd.Boot
use killjoy.Generated.Systemd.Startup
use killjoy.Generated.Systemd.Initrd
use killjoy.Generated.Systemd.Logging
use killjoy.Generated.Systemd.Watchdogs
use killjoy.Generated.Systemd.Defaults
use killjoy.Generated.Systemd.Limits
use killjoy.Generated.Systemd.MoreLimits
use killjoy.Generated.Systemd.Scheduling
use killjoy.Generated.Systemd.Server.{Systemd}
use killjoy.Tests.Wires.{wires, typed}
use killjoy.Tests.Obeying.{
  give, accept, finding, starting, units, processes, listing, power, environment, enabling, targets,
  users,
}

abbrev boot : Boot.Methods wires typed ℕ
boot = record {
  get_version = give string;
  get_features = give string;
  get_virtualization = give string;
  get_architecture = give string;
  get_tainted = give string;
  get_firmware_timestamp = give u64;
  get_firmware_timestamp_monotonic = give u64;
  get_loader_timestamp = give u64;
  get_loader_timestamp_monotonic = give u64;
  get_kernel_timestamp = give u64;
  get_kernel_timestamp_monotonic = give u64;
  get_init_rdtimestamp = give u64;
  get_init_rdtimestamp_monotonic = give u64;
}

abbrev startup : Startup.Methods wires typed ℕ
startup = record {
  get_userspace_timestamp = give u64;
  get_userspace_timestamp_monotonic = give u64;
  get_finish_timestamp = give u64;
  get_finish_timestamp_monotonic = give u64;
  get_security_start_timestamp = give u64;
  get_security_start_timestamp_monotonic = give u64;
  get_security_finish_timestamp = give u64;
  get_security_finish_timestamp_monotonic = give u64;
  get_generators_start_timestamp = give u64;
  get_generators_start_timestamp_monotonic = give u64;
  get_generators_finish_timestamp = give u64;
  get_generators_finish_timestamp_monotonic = give u64;
  get_units_load_start_timestamp = give u64;
}

abbrev initrd : Initrd.Methods wires typed ℕ
initrd = record {
  get_units_load_start_timestamp_monotonic = give u64;
  get_units_load_finish_timestamp = give u64;
  get_units_load_finish_timestamp_monotonic = give u64;
  get_init_rdsecurity_start_timestamp = give u64;
  get_init_rdsecurity_start_timestamp_monotonic = give u64;
  get_init_rdsecurity_finish_timestamp = give u64;
  get_init_rdsecurity_finish_timestamp_monotonic = give u64;
  get_init_rdgenerators_start_timestamp = give u64;
  get_init_rdgenerators_start_timestamp_monotonic = give u64;
  get_init_rdgenerators_finish_timestamp = give u64;
  get_init_rdgenerators_finish_timestamp_monotonic = give u64;
  get_init_rdunits_load_start_timestamp = give u64;
  get_init_rdunits_load_start_timestamp_monotonic = give u64;
}

abbrev logging : Logging.Methods wires typed ℕ
logging = record {
  get_init_rdunits_load_finish_timestamp = give u64;
  get_init_rdunits_load_finish_timestamp_monotonic = give u64;
  get_log_level = give string;
  set_log_level = accept string;
  get_log_target = give string;
  set_log_target = accept string;
  get_nnames = give u32;
  get_nfailed_units = give u32;
  get_njobs = give u32;
  get_ninstalled_jobs = give u32;
  get_nfailed_jobs = give u32;
  get_progress = give double;
  get_environment = give (array string);
}

abbrev watchdogs : Watchdogs.Methods wires typed ℕ
watchdogs = record {
  get_confirm_spawn = give boolean;
  get_show_status = give boolean;
  get_unit_path = give (array string);
  get_default_standard_output = give string;
  get_default_standard_error = give string;
  get_runtime_watchdog_usec = give u64;
  set_runtime_watchdog_usec = accept u64;
  get_reboot_watchdog_usec = give u64;
  set_reboot_watchdog_usec = accept u64;
  get_kexec_watchdog_usec = give u64;
  set_kexec_watchdog_usec = accept u64;
  get_service_watchdogs = give boolean;
  set_service_watchdogs = accept boolean;
  get_control_group = give string;
  get_system_state = give string;
}

abbrev defaults : Defaults.Methods wires typed ℕ
defaults = record {
  get_exit_code = give byte;
  get_default_timer_accuracy_usec = give u64;
  get_default_timeout_start_usec = give u64;
  get_default_timeout_stop_usec = give u64;
  get_default_timeout_abort_usec = give u64;
  get_default_restart_usec = give u64;
  get_default_start_limit_interval_usec = give u64;
  get_default_start_limit_burst = give u32;
  get_default_cpuaccounting = give boolean;
  get_default_block_ioaccounting = give boolean;
  get_default_memory_accounting = give boolean;
  get_default_tasks_accounting = give boolean;
  get_default_limit_cpu = give u64;
}

abbrev limits : Limits.Methods wires typed ℕ
limits = record {
  get_default_limit_cpusoft = give u64;
  get_default_limit_fsize = give u64;
  get_default_limit_fsizesoft = give u64;
  get_default_limit_data = give u64;
  get_default_limit_datasoft = give u64;
  get_default_limit_stack = give u64;
  get_default_limit_stacksoft = give u64;
  get_default_limit_core = give u64;
  get_default_limit_coresoft = give u64;
  get_default_limit_rss = give u64;
  get_default_limit_rsssoft = give u64;
  get_default_limit_nofile = give u64;
  get_default_limit_nofilesoft = give u64;
}

abbrev more_limits : MoreLimits.Methods wires typed ℕ
more_limits = record {
  get_default_limit_as = give u64;
  get_default_limit_assoft = give u64;
  get_default_limit_nproc = give u64;
  get_default_limit_nprocsoft = give u64;
  get_default_limit_memlock = give u64;
  get_default_limit_memlocksoft = give u64;
  get_default_limit_locks = give u64;
  get_default_limit_lockssoft = give u64;
  get_default_limit_sigpending = give u64;
  get_default_limit_sigpendingsoft = give u64;
  get_default_limit_msgqueue = give u64;
  get_default_limit_msgqueuesoft = give u64;
  get_default_limit_nice = give u64;
}

abbrev scheduling : Scheduling.Methods wires typed ℕ
scheduling = record {
  get_default_limit_nicesoft = give u64;
  get_default_limit_rtprio = give u64;
  get_default_limit_rtpriosoft = give u64;
  get_default_limit_rttime = give u64;
  get_default_limit_rttimesoft = give u64;
  get_default_tasks_max = give u64;
  get_timer_slack_nsec = give u64;
  get_default_oompolicy = give string;
}

abbrev pub manager : Systemd wires typed ℕ
manager = record {
  finding = finding;
  starting = starting;
  units = units;
  processes = processes;
  listing = listing;
  power = power;
  environment = environment;
  enabling = enabling;
  targets = targets;
  users = users;
  boot = boot;
  startup = startup;
  initrd = initrd;
  logging = logging;
  watchdogs = watchdogs;
  defaults = defaults;
  limits = limits;
  more_limits = more_limits;
  scheduling = scheduling;
}
