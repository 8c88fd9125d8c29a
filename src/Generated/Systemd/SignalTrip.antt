-- ===== src/Generated/Systemd/SignalTrip.antt =====
-- The manager's signals, read back as they were appended.
use killjoy.Base.{◌≡◌, refl}
use killjoy.Error.{ok}
use killjoy.Dbus.{Dbus}
use killjoy.Generated.Systemd.Typed.{Typed}
use killjoy.Generated.Systemd.Signals.{
  JobNew, JobRemoved, StartupFinished, UnitFilesChanged, Reloading, job_new_kinds,
  job_removed_kinds, startup_finished_kinds, unit_files_changed_kinds, reloading_kinds,
  append_job_new, append_job_removed, append_startup_finished, append_unit_files_changed,
  append_reloading, get_job_new, get_job_removed, get_startup_finished, get_unit_files_changed,
  get_reloading,
}
use killjoy.Generated.Systemd.Server.{Wired}

module _ (B : Dbus) (T : Typed B) where
  module _ (W : Wired B T) where
    pub job_new-trip :
        (m : JobNew) → get_job_new B T (Wired.iter_of W job_new_kinds (append_job_new B T m)) ≡ ok m
    unfolding get_job_new append_job_new
    job_new-trip m = rw (Wired.reads W, Wired.reads W, Wired.reads W) refl

    pub job_removed-trip :
        (m : JobRemoved)
        → get_job_removed B T (Wired.iter_of W job_removed_kinds (append_job_removed B T m)) ≡ ok m
    unfolding get_job_removed append_job_removed
    job_removed-trip m = rw (Wired.reads W, Wired.reads W, Wired.reads W, Wired.reads W) refl

    pub startup_finished-trip :
        (m : StartupFinished)
        → get_startup_finished B T
            (Wired.iter_of W startup_finished_kinds (append_startup_finished B T m))
          ≡ ok m
    unfolding get_startup_finished append_startup_finished
    startup_finished-trip m =
        rw
          (Wired.reads W, Wired.reads W, Wired.reads W, Wired.reads W, Wired.reads W, Wired.reads W)
          refl

    pub unit_files_changed-trip :
        (m : UnitFilesChanged)
        → get_unit_files_changed B T
            (Wired.iter_of W unit_files_changed_kinds (append_unit_files_changed B T m))
          ≡ ok m
    unfolding get_unit_files_changed append_unit_files_changed
    unit_files_changed-trip UnitFilesChanged.unit_files_changed = refl

    pub reloading-trip :
        (m : Reloading)
        → get_reloading B T (Wired.iter_of W reloading_kinds (append_reloading B T m)) ≡ ok m
    unfolding get_reloading append_reloading
    reloading-trip m = rw (Wired.reads W) refl
