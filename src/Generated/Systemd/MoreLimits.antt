-- ===== src/Generated/Systemd/MoreLimits.antt =====
-- The manager's interface: more default resource limits.
use killjoy.Base.{List, [], ◌∷◌, ◌≡◌}
use killjoy.Dbus.{Dbus, ConnPath}
use killjoy.Generated.Systemd.Kinds.{u64}
use killjoy.Generated.Systemd.Typed.{Typed, Line, Gets, get_property, Yields, Property, readable}

-- The part of the trait, of an implementation with a state.
pub record Methods (B : Dbus) (T : Typed B) (S : Type 0) : Type 0 where
  pub get_default_limit_as : Yields B T S u64
  pub get_default_limit_assoft : Yields B T S u64
  pub get_default_limit_nproc : Yields B T S u64
  pub get_default_limit_nprocsoft : Yields B T S u64
  pub get_default_limit_memlock : Yields B T S u64
  pub get_default_limit_memlocksoft : Yields B T S u64
  pub get_default_limit_locks : Yields B T S u64
  pub get_default_limit_lockssoft : Yields B T S u64
  pub get_default_limit_sigpending : Yields B T S u64
  pub get_default_limit_sigpendingsoft : Yields B T S u64
  pub get_default_limit_msgqueue : Yields B T S u64
  pub get_default_limit_msgqueuesoft : Yields B T S u64
  pub get_default_limit_nice : Yields B T S u64

module _ (B : Dbus) (T : Typed B) (N : Line B T) where
  unfoldable pub get_default_limit_as : Gets B T u64
  unfolding get_property
  get_default_limit_as = get_property B T N "DefaultLimitAS" u64

  unfoldable pub get_default_limit_assoft : Gets B T u64
  unfolding get_property
  get_default_limit_assoft = get_property B T N "DefaultLimitASSoft" u64

  unfoldable pub get_default_limit_nproc : Gets B T u64
  unfolding get_property
  get_default_limit_nproc = get_property B T N "DefaultLimitNPROC" u64

  unfoldable pub get_default_limit_nprocsoft : Gets B T u64
  unfolding get_property
  get_default_limit_nprocsoft = get_property B T N "DefaultLimitNPROCSoft" u64

  unfoldable pub get_default_limit_memlock : Gets B T u64
  unfolding get_property
  get_default_limit_memlock = get_property B T N "DefaultLimitMEMLOCK" u64

  unfoldable pub get_default_limit_memlocksoft : Gets B T u64
  unfolding get_property
  get_default_limit_memlocksoft = get_property B T N "DefaultLimitMEMLOCKSoft" u64

  unfoldable pub get_default_limit_locks : Gets B T u64
  unfolding get_property
  get_default_limit_locks = get_property B T N "DefaultLimitLOCKS" u64

  unfoldable pub get_default_limit_lockssoft : Gets B T u64
  unfolding get_property
  get_default_limit_lockssoft = get_property B T N "DefaultLimitLOCKSSoft" u64

  unfoldable pub get_default_limit_sigpending : Gets B T u64
  unfolding get_property
  get_default_limit_sigpending = get_property B T N "DefaultLimitSIGPENDING" u64

  unfoldable pub get_default_limit_sigpendingsoft : Gets B T u64
  unfolding get_property
  get_default_limit_sigpendingsoft = get_property B T N "DefaultLimitSIGPENDINGSoft" u64

  unfoldable pub get_default_limit_msgqueue : Gets B T u64
  unfolding get_property
  get_default_limit_msgqueue = get_property B T N "DefaultLimitMSGQUEUE" u64

  unfoldable pub get_default_limit_msgqueuesoft : Gets B T u64
  unfolding get_property
  get_default_limit_msgqueuesoft = get_property B T N "DefaultLimitMSGQUEUESoft" u64

  unfoldable pub get_default_limit_nice : Gets B T u64
  unfolding get_property
  get_default_limit_nice = get_property B T N "DefaultLimitNICE" u64

module _ (B : Dbus) (T : Typed B) where
  -- The part of the server.
  unfoldable pub server : {S : Type 0} → Methods B T S → List (Property B T S)
  server d =
      readable B T "DefaultLimitAS" u64 d.get_default_limit_as
      ∷ readable B T "DefaultLimitASSoft" u64 d.get_default_limit_assoft
      ∷ readable B T "DefaultLimitNPROC" u64 d.get_default_limit_nproc
      ∷ readable B T "DefaultLimitNPROCSoft" u64 d.get_default_limit_nprocsoft
      ∷ readable B T "DefaultLimitMEMLOCK" u64 d.get_default_limit_memlock
      ∷ readable B T "DefaultLimitMEMLOCKSoft" u64 d.get_default_limit_memlocksoft
      ∷ readable B T "DefaultLimitLOCKS" u64 d.get_default_limit_locks
      ∷ readable B T "DefaultLimitLOCKSSoft" u64 d.get_default_limit_lockssoft
      ∷ readable B T "DefaultLimitSIGPENDING" u64 d.get_default_limit_sigpending
      ∷ readable B T "DefaultLimitSIGPENDINGSoft" u64 d.get_default_limit_sigpendingsoft
      ∷ readable B T "DefaultLimitMSGQUEUE" u64 d.get_default_limit_msgqueue
      ∷ readable B T "DefaultLimitMSGQUEUESoft" u64 d.get_default_limit_msgqueuesoft
      ∷ readable B T "DefaultLimitNICE" u64 d.get_default_limit_nice
      ∷ []

module _ (B : Dbus) (T : Typed B) (N : Line B T) where
  -- Each getter obtains what the implementation's getter gives, and each setter what its setter does.
  abbrev pub Agrees : {S : Type 0} → Methods B T S → ConnPath → S → Type 0
  Agrees d c s =
      (get_default_limit_as B T N c ≡ (d.get_default_limit_as s).0)
      × (get_default_limit_assoft B T N c ≡ (d.get_default_limit_assoft s).0)
      × (get_default_limit_nproc B T N c ≡ (d.get_default_limit_nproc s).0)
      × (get_default_limit_nprocsoft B T N c ≡ (d.get_default_limit_nprocsoft s).0)
      × (get_default_limit_memlock B T N c ≡ (d.get_default_limit_memlock s).0)
      × (get_default_limit_memlocksoft B T N c ≡ (d.get_default_limit_memlocksoft s).0)
      × (get_default_limit_locks B T N c ≡ (d.get_default_limit_locks s).0)
      × (get_default_limit_lockssoft B T N c ≡ (d.get_default_limit_lockssoft s).0)
      × (get_default_limit_sigpending B T N c ≡ (d.get_default_limit_sigpending s).0)
      × (get_default_limit_sigpendingsoft B T N c ≡ (d.get_default_limit_sigpendingsoft s).0)
      × (get_default_limit_msgqueue B T N c ≡ (d.get_default_limit_msgqueue s).0)
      × (get_default_limit_msgqueuesoft B T N c ≡ (d.get_default_limit_msgqueuesoft s).0)
      × (get_default_limit_nice B T N c ≡ (d.get_default_limit_nice s).0)
