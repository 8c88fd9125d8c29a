-- ===== src/Generated/Systemd/Units.antt =====
-- The manager's interface: the methods that act on one unit.
use killjoy.Base.{List, [], ◌∷◌}
use killjoy.Dbus.{Dbus, ConnPath}
use killjoy.Generated.Systemd.Kinds.{
  boolean, i32, u32, string, object_path, array, struct, ◌⊗◌, property,
}
use killjoy.Generated.Systemd.Typed.{Typed, Line, ask, Asks, Does, Served, served, unnamed, Obtains}

-- The part of the trait, of an implementation with a state.
pub record Methods (B : Dbus) (T : Typed B) (S : Type 0) : Type 0 where
  pub enqueue_unit_job : Does B T S (string ∷ string ∷ string ∷ []) (
      u32
      ∷ object_path
      ∷ string
      ∷ object_path
      ∷ string
      ∷ array (struct (u32 ⊗ object_path ⊗ string ⊗ object_path ⊗ string))
      ∷ [])
  pub kill_unit : Does B T S (string ∷ string ∷ i32 ∷ []) []
  pub clean_unit : Does B T S (string ∷ array string ∷ []) []
  pub reset_failed_unit : Does B T S (string ∷ []) []
  pub set_unit_properties : Does B T S (string ∷ boolean ∷ array property ∷ []) []
  pub ref_unit : Does B T S (string ∷ []) []
  pub unref_unit : Does B T S (string ∷ []) []
  pub start_transient_unit :
      Does B T S
        (string ∷ string ∷ array property ∷ array (struct (string ⊗ (array property))) ∷ [])
        (object_path ∷ [])

module _ (B : Dbus) (T : Typed B) (N : Line B T) where
  unfoldable pub enqueue_unit_job : Asks B T (string ∷ string ∷ string ∷ []) (
      u32
      ∷ object_path
      ∷ string
      ∷ object_path
      ∷ string
      ∷ array (struct (u32 ⊗ object_path ⊗ string ⊗ object_path ⊗ string))
      ∷ [])
  unfolding ask
  enqueue_unit_job = ask B T N "EnqueueUnitJob" (string ∷ string ∷ string ∷ []) (
      u32
      ∷ object_path
      ∷ string
      ∷ object_path
      ∷ string
      ∷ array (struct (u32 ⊗ object_path ⊗ string ⊗ object_path ⊗ string))
      ∷ [])

  unfoldable pub kill_unit : Asks B T (string ∷ string ∷ i32 ∷ []) []
  unfolding ask
  kill_unit = ask B T N "KillUnit" (string ∷ string ∷ i32 ∷ []) []

  unfoldable pub clean_unit : Asks B T (string ∷ array string ∷ []) []
  unfolding ask
  clean_unit = ask B T N "CleanUnit" (string ∷ array string ∷ []) []

  unfoldable pub reset_failed_unit : Asks B T (string ∷ []) []
  unfolding ask
  reset_failed_unit = ask B T N "ResetFailedUnit" (string ∷ []) []

  unfoldable pub set_unit_properties : Asks B T (string ∷ boolean ∷ array property ∷ []) []
  unfolding ask
  set_unit_properties = ask B T N "SetUnitProperties" (string ∷ boolean ∷ array property ∷ []) []

  unfoldable pub ref_unit : Asks B T (string ∷ []) []
  unfolding ask
  ref_unit = ask B T N "RefUnit" (string ∷ []) []

  unfoldable pub unref_unit : Asks B T (string ∷ []) []
  unfolding ask
  unref_unit = ask B T N "UnrefUnit" (string ∷ []) []

  unfoldable pub start_transient_unit :
      Asks B T
        (string ∷ string ∷ array property ∷ array (struct (string ⊗ (array property))) ∷ [])
        (object_path ∷ [])
  unfolding ask
  start_transient_unit =
      ask B T N "StartTransientUnit"
        (string ∷ string ∷ array property ∷ array (struct (string ⊗ (array property))) ∷ [])
        (object_path ∷ [])

module _ (B : Dbus) (T : Typed B) where
  -- The part of the server.
  unfoldable pub server : {S : Type 0} → Methods B T S → List (Served B T S)
  server d =
      served B T "EnqueueUnitJob" (string ∷ string ∷ string ∷ [])
        (u32
          ∷ object_path
          ∷ string
          ∷ object_path
          ∷ string
          ∷ array (struct (u32 ⊗ object_path ⊗ string ⊗ object_path ⊗ string))
          ∷ [])
        d.enqueue_unit_job (unnamed ("s" ∷ "s" ∷ "s" ∷ []))
        (unnamed ("u" ∷ "o" ∷ "s" ∷ "o" ∷ "s" ∷ "a(uosos)" ∷ []))
      ∷ served B T "KillUnit" (string ∷ string ∷ i32 ∷ []) [] d.kill_unit
          (unnamed ("s" ∷ "s" ∷ "i" ∷ [])) (unnamed [])
      ∷ served B T "CleanUnit" (string ∷ array string ∷ []) [] d.clean_unit
          (unnamed ("s" ∷ "as" ∷ [])) (unnamed [])
      ∷ served B T "ResetFailedUnit" (string ∷ []) [] d.reset_failed_unit (unnamed ("s" ∷ []))
          (unnamed [])
      ∷ served B T "SetUnitProperties" (string ∷ boolean ∷ array property ∷ []) []
          d.set_unit_properties (unnamed ("s" ∷ "b" ∷ "a(sv)" ∷ [])) (unnamed [])
      ∷ served B T "RefUnit" (string ∷ []) [] d.ref_unit (unnamed ("s" ∷ [])) (unnamed [])
      ∷ served B T "UnrefUnit" (string ∷ []) [] d.unref_unit (unnamed ("s" ∷ [])) (unnamed [])
      ∷ served B T "StartTransientUnit"
          (string ∷ string ∷ array property ∷ array (struct (string ⊗ (array property))) ∷ [])
          (object_path ∷ []) d.start_transient_unit
          (unnamed ("s" ∷ "s" ∷ "a(sv)" ∷ "a(sa(sv))" ∷ [])) (unnamed ("o" ∷ []))
      ∷ []

module _ (B : Dbus) (T : Typed B) (N : Line B T) where
  -- Each client method obtains what the implementation's method of its name gives.
  abbrev pub Agrees : {S : Type 0} → Methods B T S → ConnPath → S → Type 0
  Agrees d c s =
      Obtains B T (string ∷ string ∷ string ∷ [])
        (u32
          ∷ object_path
          ∷ string
          ∷ object_path
          ∷ string
          ∷ array (struct (u32 ⊗ object_path ⊗ string ⊗ object_path ⊗ string))
          ∷ [])
        (enqueue_unit_job B T N) d.enqueue_unit_job c s
      × Obtains B T (string ∷ string ∷ i32 ∷ []) [] (kill_unit B T N) d.kill_unit c s
      × Obtains B T (string ∷ array string ∷ []) [] (clean_unit B T N) d.clean_unit c s
      × Obtains B T (string ∷ []) [] (reset_failed_unit B T N) d.reset_failed_unit c s
      × Obtains B T (string ∷ boolean ∷ array property ∷ []) [] (set_unit_properties B T N)
          d.set_unit_properties c s
      × Obtains B T (string ∷ []) [] (ref_unit B T N) d.ref_unit c s
      × Obtains B T (string ∷ []) [] (unref_unit B T N) d.unref_unit c s
      × Obtains B T
          (string ∷ string ∷ array property ∷ array (struct (string ⊗ (array property))) ∷ [])
          (object_path ∷ []) (start_transient_unit B T N) d.start_transient_unit c s
