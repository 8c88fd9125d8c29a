-- ===== src/Generated/Systemd/Processes.antt =====
-- The manager's interface: the methods on the processes of units, and on jobs.
use killjoy.Base.{List, [], ◌∷◌}
use killjoy.Dbus.{Dbus, ConnPath}
use killjoy.Generated.Systemd.Kinds.{u32, string, object_path, array, struct, ◌⊗◌, job_entry}
use killjoy.Generated.Systemd.Typed.{Typed, Line, ask, Asks, Does, Served, served, unnamed, Obtains}

-- The part of the trait, of an implementation with a state.
pub record Methods (B : Dbus) (T : Typed B) (S : Type 0) : Type 0 where
  pub get_unit_processes : Does B T S (string ∷ []) (array (struct (string ⊗ u32 ⊗ string)) ∷ [])
  pub attach_processes_to_unit : Does B T S (string ∷ string ∷ array u32 ∷ []) []
  pub abandon_scope : Does B T S (string ∷ []) []
  pub get_job : Does B T S (u32 ∷ []) (object_path ∷ [])
  pub get_job_after : Does B T S (u32 ∷ []) (array job_entry ∷ [])
  pub get_job_before : Does B T S (u32 ∷ []) (array job_entry ∷ [])
  pub cancel_job : Does B T S (u32 ∷ []) []
  pub clear_jobs : Does B T S [] []
  pub reset_failed : Does B T S [] []

module _ (B : Dbus) (T : Typed B) (N : Line B T) where
  unfoldable pub get_unit_processes :
      Asks B T (string ∷ []) (array (struct (string ⊗ u32 ⊗ string)) ∷ [])
  unfolding ask
  get_unit_processes =
      ask B T N "GetUnitProcesses" (string ∷ []) (array (struct (string ⊗ u32 ⊗ string)) ∷ [])

  unfoldable pub attach_processes_to_unit : Asks B T (string ∷ string ∷ array u32 ∷ []) []
  unfolding ask
  attach_processes_to_unit = ask B T N "AttachProcessesToUnit" (string ∷ string ∷ array u32 ∷ []) []

  unfoldable pub abandon_scope : Asks B T (string ∷ []) []
  unfolding ask
  abandon_scope = ask B T N "AbandonScope" (string ∷ []) []

  unfoldable pub get_job : Asks B T (u32 ∷ []) (object_path ∷ [])
  unfolding ask
  get_job = ask B T N "GetJob" (u32 ∷ []) (object_path ∷ [])

  unfoldable pub get_job_after : Asks B T (u32 ∷ []) (array job_entry ∷ [])
  unfolding ask
  get_job_after = ask B T N "GetJobAfter" (u32 ∷ []) (array job_entry ∷ [])

  unfoldable pub get_job_before : Asks B T (u32 ∷ []) (array job_entry ∷ [])
  unfolding ask
  get_job_before = ask B T N "GetJobBefore" (u32 ∷ []) (array job_entry ∷ [])

  unfoldable pub cancel_job : Asks B T (u32 ∷ []) []
  unfolding ask
  cancel_job = ask B T N "CancelJob" (u32 ∷ []) []

  unfoldable pub clear_jobs : Asks B T [] []
  unfolding ask
  clear_jobs = ask B T N "ClearJobs" [] []

  unfoldable pub reset_failed : Asks B T [] []
  unfolding ask
  reset_failed = ask B T N "ResetFailed" [] []

module _ (B : Dbus) (T : Typed B) where
  -- The part of the server.
  unfoldable pub server : {S : Type 0} → Methods B T S → List (Served B T S)
  server d =
      served B T "GetUnitProcesses" (string ∷ []) (array (struct (string ⊗ u32 ⊗ string)) ∷ [])
        d.get_unit_processes (unnamed ("s" ∷ [])) (unnamed ("a(sus)" ∷ []))
      ∷ served B T "AttachProcessesToUnit" (string ∷ string ∷ array u32 ∷ []) []
          d.attach_processes_to_unit (unnamed ("s" ∷ "s" ∷ "au" ∷ [])) (unnamed [])
      ∷ served B T "AbandonScope" (string ∷ []) [] d.abandon_scope (unnamed ("s" ∷ [])) (unnamed [])
      ∷ served B T "GetJob" (u32 ∷ []) (object_path ∷ []) d.get_job (unnamed ("u" ∷ []))
          (unnamed ("o" ∷ []))
      ∷ served B T "GetJobAfter" (u32 ∷ []) (array job_entry ∷ []) d.get_job_after
          (unnamed ("u" ∷ [])) (unnamed ("a(usssoo)" ∷ []))
      ∷ served B T "GetJobBefore" (u32 ∷ []) (array job_entry ∷ []) d.get_job_before
          (unnamed ("u" ∷ [])) (unnamed ("a(usssoo)" ∷ []))
      ∷ served B T "CancelJob" (u32 ∷ []) [] d.cancel_job (unnamed ("u" ∷ [])) (unnamed [])
      ∷ served B T "ClearJobs" [] [] d.clear_jobs (unnamed []) (unnamed [])
      ∷ served B T "ResetFailed" [] [] d.reset_failed (unnamed []) (unnamed [])
      ∷ []

module _ (B : Dbus) (T : Typed B) (N : Line B T) where
  -- Each client method obtains what the implementation's method of its name gives.
  abbrev pub Agrees : {S : Type 0} → Methods B T S → ConnPath → S → Type 0
  Agrees d c s =
      Obtains B T (string ∷ []) (array (struct (string ⊗ u32 ⊗ string)) ∷ [])
        (get_unit_processes B T N) d.get_unit_processes c s
      × Obtains B T (string ∷ string ∷ array u32 ∷ []) [] (attach_processes_to_unit B T N)
          d.attach_processes_to_unit c s
      × Obtains B T (string ∷ []) [] (abandon_scope B T N) d.abandon_scope c s
      × Obtains B T (u32 ∷ []) (object_path ∷ []) (get_job B T N) d.get_job c s
      × Obtains B T (u32 ∷ []) (array job_entry ∷ []) (get_job_after B T N) d.get_job_after c s
      × Obtains B T (u32 ∷ []) (array job_entry ∷ []) (get_job_before B T N) d.get_job_before c s
      × Obtains B T (u32 ∷ []) [] (cancel_job B T N) d.cancel_job c s
      × Obtains B T [] [] (clear_jobs B T N) d.clear_jobs c s
      × Obtains B T [] [] (reset_failed B T N) d.reset_failed c s
