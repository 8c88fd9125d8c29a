-- ===== src/Generated/Systemd/Signals.antt =====
-- The manager's signals that the program does not use, with their `SignalArgs`, and the signals that
-- the server declares.
use killjoy.Base.{String, Bool, ℕ, List, [], ◌∷◌}
use killjoy.Error.{ExternResult, ok, ◌>>=◌}
use killjoy.Dbus.{Dbus}
use killjoy.Generated.Server.{Signal}
use killjoy.Generated.Systemd.Kinds.{Kind, boolean, u32, u64, string, object_path}
use killjoy.Generated.Systemd.Typed.{Typed, Vals, unnamed}

-- `OrgFreedesktopSystemd1ManagerJobNew`
pub record JobNew : Type 0 where
  pub arg0 : ℕ
  pub arg1 : String
  pub arg2 : String

-- `OrgFreedesktopSystemd1ManagerJobRemoved`
pub record JobRemoved : Type 0 where
  pub arg0 : ℕ
  pub arg1 : String
  pub arg2 : String
  pub arg3 : String

-- `OrgFreedesktopSystemd1ManagerStartupFinished`
pub record StartupFinished : Type 0 where
  pub arg0 : ℕ
  pub arg1 : ℕ
  pub arg2 : ℕ
  pub arg3 : ℕ
  pub arg4 : ℕ
  pub arg5 : ℕ

-- `OrgFreedesktopSystemd1ManagerUnitFilesChanged`
pub data UnitFilesChanged : Type 0 where
  unit_files_changed : UnitFilesChanged

-- `OrgFreedesktopSystemd1ManagerReloading`
pub record Reloading : Type 0 where
  pub arg0 : Bool

-- The types of their arguments.
abbrev pub job_new_kinds : List Kind
job_new_kinds = u32 ∷ object_path ∷ string ∷ []

abbrev pub job_removed_kinds : List Kind
job_removed_kinds = u32 ∷ object_path ∷ string ∷ string ∷ []

abbrev pub startup_finished_kinds : List Kind
startup_finished_kinds = u64 ∷ u64 ∷ u64 ∷ u64 ∷ u64 ∷ u64 ∷ []

abbrev pub unit_files_changed_kinds : List Kind
unit_files_changed_kinds = []

abbrev pub reloading_kinds : List Kind
reloading_kinds = boolean ∷ []

module _ (B : Dbus) (T : Typed B) where
  unfoldable pub append_job_new : JobNew → Vals B T job_new_kinds
  append_job_new m = (m.arg0, (m.arg1, (m.arg2, tt)))

  unfoldable pub get_job_new : Dbus.Iter B → ExternResult JobNew
  get_job_new i = do
    (arg0, i) ← Typed.read T u32 i
    (arg1, i) ← Typed.read T object_path i
    (arg2, i) ← Typed.read T string i
    ok (record { arg0 = arg0; arg1 = arg1; arg2 = arg2 })

  unfoldable pub append_job_removed : JobRemoved → Vals B T job_removed_kinds
  append_job_removed m = (m.arg0, (m.arg1, (m.arg2, (m.arg3, tt))))

  unfoldable pub get_job_removed : Dbus.Iter B → ExternResult JobRemoved
  get_job_removed i = do
    (arg0, i) ← Typed.read T u32 i
    (arg1, i) ← Typed.read T object_path i
    (arg2, i) ← Typed.read T string i
    (arg3, i) ← Typed.read T string i
    ok (record { arg0 = arg0; arg1 = arg1; arg2 = arg2; arg3 = arg3 })

  unfoldable pub append_startup_finished : StartupFinished → Vals B T startup_finished_kinds
  append_startup_finished m = (m.arg0, (m.arg1, (m.arg2, (m.arg3, (m.arg4, (m.arg5, tt))))))

  unfoldable pub get_startup_finished : Dbus.Iter B → ExternResult StartupFinished
  get_startup_finished i = do
    (arg0, i) ← Typed.read T u64 i
    (arg1, i) ← Typed.read T u64 i
    (arg2, i) ← Typed.read T u64 i
    (arg3, i) ← Typed.read T u64 i
    (arg4, i) ← Typed.read T u64 i
    (arg5, i) ← Typed.read T u64 i
    ok (record { arg0 = arg0; arg1 = arg1; arg2 = arg2; arg3 = arg3; arg4 = arg4; arg5 = arg5 })

  unfoldable pub append_unit_files_changed : UnitFilesChanged → Vals B T unit_files_changed_kinds
  append_unit_files_changed m = tt

  unfoldable pub get_unit_files_changed : Dbus.Iter B → ExternResult UnitFilesChanged
  get_unit_files_changed i = ok unit_files_changed

  unfoldable pub append_reloading : Reloading → Vals B T reloading_kinds
  append_reloading m = (m.arg0, tt)

  unfoldable pub get_reloading : Dbus.Iter B → ExternResult Reloading
  get_reloading i = do (arg0, i) ← Typed.read T boolean i; ok (record { arg0 = arg0 })

-- The server's declarations, in order.
unfoldable pub signals : List Signal
signals =
    record { name = "UnitNew"; args = unnamed ("s" ∷ "o" ∷ []) }
    ∷ record { name = "UnitRemoved"; args = unnamed ("s" ∷ "o" ∷ []) }
    ∷ record { name = "JobNew"; args = unnamed ("u" ∷ "o" ∷ "s" ∷ []) }
    ∷ record { name = "JobRemoved"; args = unnamed ("u" ∷ "o" ∷ "s" ∷ "s" ∷ []) }
    ∷ record { name = "StartupFinished"; args = unnamed ("t" ∷ "t" ∷ "t" ∷ "t" ∷ "t" ∷ "t" ∷ []) }
    ∷ record { name = "UnitFilesChanged"; args = unnamed ([]) }
    ∷ record { name = "Reloading"; args = unnamed ("b" ∷ []) }
    ∷ []
