-- ===== src/Tests/Obeying.antt =====
-- A manager that does what it is asked, counts the requests, and answers with default values.
use killjoy.Base.{String, ℕ, suc, false, List, [], ◌∷◌}
use killjoy.Error.{ok}
use killjoy.Generated.Systemd.Kinds.{
  Kind, byte, boolean, i32, u32, u64, double, string, object_path, fd, variant, array, struct, ◌⊗◌,
  Value, Values, pos, property, change, unit_entry, job_entry,
}
use killjoy.Generated.Systemd.Typed.{Does, Yields, Takes}
use killjoy.Generated.Systemd.Finding
use killjoy.Generated.Systemd.Starting
use killjoy.Generated.Systemd.Units
use killjoy.Generated.Systemd.Processes
use killjoy.Generated.Systemd.Listing
use killjoy.Generated.Systemd.Power
use killjoy.Generated.Systemd.Environment
use killjoy.Generated.Systemd.Enabling
use killjoy.Generated.Systemd.Targets
use killjoy.Generated.Systemd.Users
use killjoy.Tests.Wires.{wires, typed, missing}

abbrev pub default : (k : Kind) → Value String ℕ ℕ k
default byte = 0
default boolean = false
default i32 = pos 0
default u32 = 0
default u64 = 0
default double = 0
default string = "default"
default object_path = "/"
default fd = 0
default variant = ""
default (array k) = default k ∷ []
default (struct k) = default k
default (k ⊗ l) = (default k, default l)

abbrev pub defaults : (ks : List Kind) → Values String ℕ ℕ ks
defaults [] = tt
defaults (k ∷ ks) = (default k, defaults ks)

abbrev pub obey : (ins outs : List Kind) → Does wires typed ℕ ins outs
obey ins outs args s = (ok (defaults outs), suc s)

-- The machine is not turned off.
abbrev pub refuse : (ins outs : List Kind) → Does wires typed ℕ ins outs
refuse ins outs args s = (missing, s)

abbrev pub give : (k : Kind) → Yields wires typed ℕ k
give k s = (ok (default k), s)

abbrev pub accept : (k : Kind) → Takes wires typed ℕ k
accept k v s = (ok tt, suc s)

abbrev pub finding : Finding.Methods wires typed ℕ
finding = record {
  get_unit_by_pid = obey (u32 ∷ []) (object_path ∷ []);
  get_unit_by_invocation_id = obey (array byte ∷ []) (object_path ∷ []);
  get_unit = obey (string ∷ []) (object_path ∷ []);
  get_unit_by_control_group = obey (string ∷ []) (object_path ∷ []);
}

abbrev pub starting : Starting.Methods wires typed ℕ
starting = record {
  load_unit = obey (string ∷ []) (object_path ∷ []);
  start_unit = obey (string ∷ string ∷ []) (object_path ∷ []);
  start_unit_replace = obey (string ∷ string ∷ string ∷ []) (object_path ∷ []);
  stop_unit = obey (string ∷ string ∷ []) (object_path ∷ []);
  reload_unit = obey (string ∷ string ∷ []) (object_path ∷ []);
  restart_unit = obey (string ∷ string ∷ []) (object_path ∷ []);
  try_restart_unit = obey (string ∷ string ∷ []) (object_path ∷ []);
  reload_or_restart_unit = obey (string ∷ string ∷ []) (object_path ∷ []);
  reload_or_try_restart_unit = obey (string ∷ string ∷ []) (object_path ∷ []);
}

abbrev pub units : Units.Methods wires typed ℕ
units = record {
  enqueue_unit_job = obey (string ∷ string ∷ string ∷ []) (
      u32
      ∷ object_path
      ∷ string
      ∷ object_path
      ∷ string
      ∷ array (struct (u32 ⊗ object_path ⊗ string ⊗ object_path ⊗ string))
      ∷ []);
  kill_unit = obey (string ∷ string ∷ i32 ∷ []) [];
  clean_unit = obey (string ∷ array string ∷ []) [];
  reset_failed_unit = obey (string ∷ []) [];
  set_unit_properties = obey (string ∷ boolean ∷ array property ∷ []) [];
  ref_unit = obey (string ∷ []) [];
  unref_unit = obey (string ∷ []) [];
  start_transient_unit =
      obey (string ∷ string ∷ array property ∷ array (struct (string ⊗ (array property))) ∷ [])
        (object_path ∷ []);
}

abbrev pub processes : Processes.Methods wires typed ℕ
processes = record {
  get_unit_processes = obey (string ∷ []) (array (struct (string ⊗ u32 ⊗ string)) ∷ []);
  attach_processes_to_unit = obey (string ∷ string ∷ array u32 ∷ []) [];
  abandon_scope = obey (string ∷ []) [];
  get_job = obey (u32 ∷ []) (object_path ∷ []);
  get_job_after = obey (u32 ∷ []) (array job_entry ∷ []);
  get_job_before = obey (u32 ∷ []) (array job_entry ∷ []);
  cancel_job = obey (u32 ∷ []) [];
  clear_jobs = obey [] [];
  reset_failed = obey [] [];
}

abbrev pub listing : Listing.Methods wires typed ℕ
listing = record {
  list_units = obey [] (array unit_entry ∷ []);
  list_units_filtered = obey (array string ∷ []) (array unit_entry ∷ []);
  list_units_by_patterns = obey (array string ∷ array string ∷ []) (array unit_entry ∷ []);
  list_units_by_names = obey (array string ∷ []) (array unit_entry ∷ []);
  list_jobs = obey [] (array job_entry ∷ []);
}

abbrev pub power : Power.Methods wires typed ℕ
power = record {
  subscribe = obey [] [];
  unsubscribe = obey [] [];
  dump = obey [] (string ∷ []);
  dump_by_file_descriptor = obey [] (fd ∷ []);
  reload = obey [] [];
  reexecute = obey [] [];
  exit = obey [] [];
  reboot = refuse [] [];
  power_off = refuse [] [];
  halt = refuse [] [];
  kexec = refuse [] [];
}

abbrev pub environment : Environment.Methods wires typed ℕ
environment = record {
  switch_root = obey (string ∷ string ∷ []) [];
  set_environment = obey (array string ∷ []) [];
  unset_environment = obey (array string ∷ []) [];
  unset_and_set_environment = obey (array string ∷ array string ∷ []) [];
  list_unit_files = obey [] (array (struct (string ⊗ string)) ∷ []);
  list_unit_files_by_patterns =
      obey (array string ∷ array string ∷ []) (array (struct (string ⊗ string)) ∷ []);
  get_unit_file_state = obey (string ∷ []) (string ∷ []);
}

abbrev pub enabling : Enabling.Methods wires typed ℕ
enabling = record {
  enable_unit_files = obey (array string ∷ boolean ∷ boolean ∷ []) (boolean ∷ array change ∷ []);
  disable_unit_files = obey (array string ∷ boolean ∷ []) (array change ∷ []);
  reenable_unit_files = obey (array string ∷ boolean ∷ boolean ∷ []) (boolean ∷ array change ∷ []);
  link_unit_files = obey (array string ∷ boolean ∷ boolean ∷ []) (array change ∷ []);
  preset_unit_files = obey (array string ∷ boolean ∷ boolean ∷ []) (boolean ∷ array change ∷ []);
  preset_unit_files_with_mode =
      obey (array string ∷ string ∷ boolean ∷ boolean ∷ []) (boolean ∷ array change ∷ []);
  mask_unit_files = obey (array string ∷ boolean ∷ boolean ∷ []) (array change ∷ []);
}

abbrev pub targets : Targets.Methods wires typed ℕ
targets = record {
  unmask_unit_files = obey (array string ∷ boolean ∷ []) (array change ∷ []);
  revert_unit_files = obey (array string ∷ []) (array change ∷ []);
  set_default_target = obey (string ∷ boolean ∷ []) (array change ∷ []);
  get_default_target = obey [] (string ∷ []);
  preset_all_unit_files = obey (string ∷ boolean ∷ boolean ∷ []) (array change ∷ []);
  add_dependency_unit_files =
      obey (array string ∷ string ∷ string ∷ boolean ∷ boolean ∷ []) (array change ∷ []);
  get_unit_file_links = obey (string ∷ boolean ∷ []) (array string ∷ []);
}

abbrev pub users : Users.Methods wires typed ℕ
users = record {
  set_exit_code = obey (byte ∷ []) [];
  lookup_dynamic_user_by_name = obey (string ∷ []) (u32 ∷ []);
  lookup_dynamic_user_by_uid = obey (u32 ∷ []) (string ∷ []);
  get_dynamic_users = obey [] (array (struct (u32 ⊗ string)) ∷ []);
}
