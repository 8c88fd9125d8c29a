-- ===== src/Generated/Systemd/MethodTrip.antt =====
-- The client methods of the manager against its server.
use killjoy.Base.{refl}
use killjoy.Dbus.{Dbus, ConnPath}
use killjoy.Generated.Systemd.Typed.{Typed, Line, find_method}
use killjoy.Generated.Systemd.Server.{Systemd, methods, Wired, HasMethods}
use killjoy.Generated.Systemd.Trip.{obtains}
use killjoy.Generated.Systemd.Finding
use killjoy.Generated.Systemd.Starting
use killjoy.Generated.Systemd.Units
use killjoy.Generated.Systemd.Processes
use killjoy.Generated.Systemd.Listing
use killjoy.Generated.Systemd.Power
use killjoy.Generated.Systemd.Environment
use killjoy.Generated.Systemd.Enabling
use killjoy.Generated.Systemd.Targets
use killjoy.Generated.Systemd.Users

module _ (B : Dbus) (T : Typed B) (N : Line B T) (W : Wired B T) {S : Type 0} (d : Systemd B T S)
    (s : S) (c : ConnPath) (has : HasMethods B T N W (methods B T d) s c) where
  finding_lem : Finding.Agrees B T N d.finding c s
  unfolding methods find_method Finding.get_unit_by_pid Finding.get_unit_by_invocation_id
      Finding.get_unit_by_control_group
  finding_lem = (
    obtains B T N W s c (methods B T d) has "GetUnitByPID" _ refl,
    obtains B T N W s c (methods B T d) has "GetUnitByInvocationID" _ refl,
    obtains B T N W s c (methods B T d) has "GetUnitByControlGroup" _ refl,
  )

  starting_lem : Starting.Agrees B T N d.starting c s
  unfolding methods find_method Starting.load_unit Starting.start_unit Starting.start_unit_replace
      Starting.stop_unit Starting.reload_unit Starting.restart_unit Starting.try_restart_unit
      Starting.reload_or_restart_unit Starting.reload_or_try_restart_unit
  starting_lem = (
    obtains B T N W s c (methods B T d) has "LoadUnit" _ refl,
    obtains B T N W s c (methods B T d) has "StartUnit" _ refl,
    obtains B T N W s c (methods B T d) has "StartUnitReplace" _ refl,
    obtains B T N W s c (methods B T d) has "StopUnit" _ refl,
    obtains B T N W s c (methods B T d) has "ReloadUnit" _ refl,
    obtains B T N W s c (methods B T d) has "RestartUnit" _ refl,
    obtains B T N W s c (methods B T d) has "TryRestartUnit" _ refl,
    obtains B T N W s c (methods B T d) has "ReloadOrRestartUnit" _ refl,
    obtains B T N W s c (methods B T d) has "ReloadOrTryRestartUnit" _ refl,
  )

  units_lem : Units.Agrees B T N d.units c s
  unfolding methods find_method Units.enqueue_unit_job Units.kill_unit Units.clean_unit
      Units.reset_failed_unit Units.set_unit_properties Units.ref_unit Units.unref_unit
      Units.start_transient_unit
  units_lem = (
    obtains B T N W s c (methods B T d) has "EnqueueUnitJob" _ refl,
    obtains B T N W s c (methods B T d) has "KillUnit" _ refl,
    obtains B T N W s c (methods B T d) has "CleanUnit" _ refl,
    obtains B T N W s c (methods B T d) has "ResetFailedUnit" _ refl,
    obtains B T N W s c (methods B T d) has "SetUnitProperties" _ refl,
    obtains B T N W s c (methods B T d) has "RefUnit" _ refl,
    obtains B T N W s c (methods B T d) has "UnrefUnit" _ refl,
    obtains B T N W s c (methods B T d) has "StartTransientUnit" _ refl,
  )

  processes_lem : Processes.Agrees B T N d.processes c s
  unfolding methods find_method Processes.get_unit_processes Processes.attach_processes_to_unit
      Processes.abandon_scope Processes.get_job Processes.get_job_after Processes.get_job_before
      Processes.cancel_job Processes.clear_jobs Processes.reset_failed
  processes_lem = (
    obtains B T N W s c (methods B T d) has "GetUnitProcesses" _ refl,
    obtains B T N W s c (methods B T d) has "AttachProcessesToUnit" _ refl,
    obtains B T N W s c (methods B T d) has "AbandonScope" _ refl,
    obtains B T N W s c (methods B T d) has "GetJob" _ refl,
    obtains B T N W s c (methods B T d) has "GetJobAfter" _ refl,
    obtains B T N W s c (methods B T d) has "GetJobBefore" _ refl,
    obtains B T N W s c (methods B T d) has "CancelJob" _ refl,
    obtains B T N W s c (methods B T d) has "ClearJobs" _ refl,
    obtains B T N W s c (methods B T d) has "ResetFailed" _ refl,
  )

  listing_lem : Listing.Agrees B T N d.listing c s
  unfolding methods find_method Listing.list_units_filtered Listing.list_units_by_patterns
      Listing.list_units_by_names Listing.list_jobs
  listing_lem = (
    obtains B T N W s c (methods B T d) has "ListUnitsFiltered" _ refl,
    obtains B T N W s c (methods B T d) has "ListUnitsByPatterns" _ refl,
    obtains B T N W s c (methods B T d) has "ListUnitsByNames" _ refl,
    obtains B T N W s c (methods B T d) has "ListJobs" _ refl,
  )

  power_lem : Power.Agrees B T N d.power c s
  unfolding methods find_method Power.unsubscribe Power.dump Power.dump_by_file_descriptor
      Power.reload Power.reexecute Power.exit Power.reboot Power.power_off Power.halt Power.kexec
  power_lem = (
    obtains B T N W s c (methods B T d) has "Unsubscribe" _ refl,
    obtains B T N W s c (methods B T d) has "Dump" _ refl,
    obtains B T N W s c (methods B T d) has "DumpByFileDescriptor" _ refl,
    obtains B T N W s c (methods B T d) has "Reload" _ refl,
    obtains B T N W s c (methods B T d) has "Reexecute" _ refl,
    obtains B T N W s c (methods B T d) has "Exit" _ refl,
    obtains B T N W s c (methods B T d) has "Reboot" _ refl,
    obtains B T N W s c (methods B T d) has "PowerOff" _ refl,
    obtains B T N W s c (methods B T d) has "Halt" _ refl,
    obtains B T N W s c (methods B T d) has "KExec" _ refl,
  )

  environment_lem : Environment.Agrees B T N d.environment c s
  unfolding methods find_method Environment.switch_root Environment.set_environment
      Environment.unset_environment Environment.unset_and_set_environment
      Environment.list_unit_files Environment.list_unit_files_by_patterns
      Environment.get_unit_file_state
  environment_lem = (
    obtains B T N W s c (methods B T d) has "SwitchRoot" _ refl,
    obtains B T N W s c (methods B T d) has "SetEnvironment" _ refl,
    obtains B T N W s c (methods B T d) has "UnsetEnvironment" _ refl,
    obtains B T N W s c (methods B T d) has "UnsetAndSetEnvironment" _ refl,
    obtains B T N W s c (methods B T d) has "ListUnitFiles" _ refl,
    obtains B T N W s c (methods B T d) has "ListUnitFilesByPatterns" _ refl,
    obtains B T N W s c (methods B T d) has "GetUnitFileState" _ refl,
  )

  enabling_lem : Enabling.Agrees B T N d.enabling c s
  unfolding methods find_method Enabling.enable_unit_files Enabling.disable_unit_files
      Enabling.reenable_unit_files Enabling.link_unit_files Enabling.preset_unit_files
      Enabling.preset_unit_files_with_mode Enabling.mask_unit_files
  enabling_lem = (
    obtains B T N W s c (methods B T d) has "EnableUnitFiles" _ refl,
    obtains B T N W s c (methods B T d) has "DisableUnitFiles" _ refl,
    obtains B T N W s c (methods B T d) has "ReenableUnitFiles" _ refl,
    obtains B T N W s c (methods B T d) has "LinkUnitFiles" _ refl,
    obtains B T N W s c (methods B T d) has "PresetUnitFiles" _ refl,
    obtains B T N W s c (methods B T d) has "PresetUnitFilesWithMode" _ refl,
    obtains B T N W s c (methods B T d) has "MaskUnitFiles" _ refl,
  )

  targets_lem : Targets.Agrees B T N d.targets c s
  unfolding methods find_method Targets.unmask_unit_files Targets.revert_unit_files
      Targets.set_default_target Targets.get_default_target Targets.preset_all_unit_files
      Targets.add_dependency_unit_files Targets.get_unit_file_links
  targets_lem = (
    obtains B T N W s c (methods B T d) has "UnmaskUnitFiles" _ refl,
    obtains B T N W s c (methods B T d) has "RevertUnitFiles" _ refl,
    obtains B T N W s c (methods B T d) has "SetDefaultTarget" _ refl,
    obtains B T N W s c (methods B T d) has "GetDefaultTarget" _ refl,
    obtains B T N W s c (methods B T d) has "PresetAllUnitFiles" _ refl,
    obtains B T N W s c (methods B T d) has "AddDependencyUnitFiles" _ refl,
    obtains B T N W s c (methods B T d) has "GetUnitFileLinks" _ refl,
  )

  users_lem : Users.Agrees B T N d.users c s
  unfolding methods find_method Users.set_exit_code Users.lookup_dynamic_user_by_name
      Users.lookup_dynamic_user_by_uid Users.get_dynamic_users
  users_lem = (
    obtains B T N W s c (methods B T d) has "SetExitCode" _ refl,
    obtains B T N W s c (methods B T d) has "LookupDynamicUserByName" _ refl,
    obtains B T N W s c (methods B T d) has "LookupDynamicUserByUID" _ refl,
    obtains B T N W s c (methods B T d) has "GetDynamicUsers" _ refl,
  )

  -- From an object that has the methods of the generated manager server, each generated client method
  -- obtains what the implementation's method of its name gives, values and errors alike. These are
  -- all the methods of the manager but the three that the program uses.
  pub client-methods :
      Finding.Agrees B T N d.finding c s
      × Starting.Agrees B T N d.starting c s
      × Units.Agrees B T N d.units c s
      × Processes.Agrees B T N d.processes c s
      × Listing.Agrees B T N d.listing c s
      × Power.Agrees B T N d.power c s
      × Environment.Agrees B T N d.environment c s
      × Enabling.Agrees B T N d.enabling c s
      × Targets.Agrees B T N d.targets c s
      × Users.Agrees B T N d.users c s
  client-methods = (
    finding_lem, starting_lem, units_lem, processes_lem, listing_lem, power_lem, environment_lem,
    enabling_lem, targets_lem, users_lem,
  )
