-- ===== src/Generated/Systemd/Startup.antt =====
-- The manager's interface: the timestamps of the start up to the loading of units.
use killjoy.Base.{List, [], ◌∷◌, ◌≡◌}
use killjoy.Dbus.{Dbus, ConnPath}
use killjoy.Generated.Systemd.Kinds.{u64}
use killjoy.Generated.Systemd.Typed.{Typed, Line, Gets, get_property, Yields, Property, readable}

-- The part of the trait, of an implementation with a state.
pub record Methods (B : Dbus) (T : Typed B) (S : Type 0) : Type 0 where
  pub get_userspace_timestamp : Yields B T S u64
  pub get_userspace_timestamp_monotonic : Yields B T S u64
  pub get_finish_timestamp : Yields B T S u64
  pub get_finish_timestamp_monotonic : Yields B T S u64
  pub get_security_start_timestamp : Yields B T S u64
  pub get_security_start_timestamp_monotonic : Yields B T S u64
  pub get_security_finish_timestamp : Yields B T S u64
  pub get_security_finish_timestamp_monotonic : Yields B T S u64
  pub get_generators_start_timestamp : Yields B T S u64
  pub get_generators_start_timestamp_monotonic : Yields B T S u64
  pub get_generators_finish_timestamp : Yields B T S u64
  pub get_generators_finish_timestamp_monotonic : Yields B T S u64
  pub get_units_load_start_timestamp : Yields B T S u64

module _ (B : Dbus) (T : Typed B) (N : Line B T) where
  unfoldable pub get_userspace_timestamp : Gets B T u64
  unfolding get_property
  get_userspace_timestamp = get_property B T N "UserspaceTimestamp" u64

  unfoldable pub get_userspace_timestamp_monotonic : Gets B T u64
  unfolding get_property
  get_userspace_timestamp_monotonic = get_property B T N "UserspaceTimestampMonotonic" u64

  unfoldable pub get_finish_timestamp : Gets B T u64
  unfolding get_property
  get_finish_timestamp = get_property B T N "FinishTimestamp" u64

  unfoldable pub get_finish_timestamp_monotonic : Gets B T u64
  unfolding get_property
  get_finish_timestamp_monotonic = get_property B T N "FinishTimestampMonotonic" u64

  unfoldable pub get_security_start_timestamp : Gets B T u64
  unfolding get_property
  get_security_start_timestamp = get_property B T N "SecurityStartTimestamp" u64

  unfoldable pub get_security_start_timestamp_monotonic : Gets B T u64
  unfolding get_property
  get_security_start_timestamp_monotonic = get_property B T N "SecurityStartTimestampMonotonic" u64

  unfoldable pub get_security_finish_timestamp : Gets B T u64
  unfolding get_property
  get_security_finish_timestamp = get_property B T N "SecurityFinishTimestamp" u64

  unfoldable pub get_security_finish_timestamp_monotonic : Gets B T u64
  unfolding get_property
  get_security_finish_timestamp_monotonic =
      get_property B T N "SecurityFinishTimestampMonotonic" u64

  unfoldable pub get_generators_start_timestamp : Gets B T u64
  unfolding get_property
  get_generators_start_timestamp = get_property B T N "GeneratorsStartTimestamp" u64

  unfoldable pub get_generators_start_timestamp_monotonic : Gets B T u64
  unfolding get_property
  get_generators_start_timestamp_monotonic =
      get_property B T N "GeneratorsStartTimestampMonotonic" u64

  unfoldable pub get_generators_finish_timestamp : Gets B T u64
  unfolding get_property
  get_generators_finish_timestamp = get_property B T N "GeneratorsFinishTimestamp" u64

  unfoldable pub get_generators_finish_timestamp_monotonic : Gets B T u64
  unfolding get_property
  get_generators_finish_timestamp_monotonic =
      get_property B T N "GeneratorsFinishTimestampMonotonic" u64

  unfoldable pub get_units_load_start_timestamp : Gets B T u64
  unfolding get_property
  get_units_load_start_timestamp = get_property B T N "UnitsLoadStartTimestamp" u64

module _ (B : Dbus) (T : Typed B) where
  -- The part of the server.
  unfoldable pub server : {S : Type 0} → Methods B T S → List (Property B T S)
  server d =
      readable B T "UserspaceTimestamp" u64 d.get_userspace_timestamp
      ∷ readable B T "UserspaceTimestampMonotonic" u64 d.get_userspace_timestamp_monotonic
      ∷ readable B T "FinishTimestamp" u64 d.get_finish_timestamp
      ∷ readable B T "FinishTimestampMonotonic" u64 d.get_finish_timestamp_monotonic
      ∷ readable B T "SecurityStartTimestamp" u64 d.get_security_start_timestamp
      ∷ readable B T "SecurityStartTimestampMonotonic" u64 d.get_security_start_timestamp_monotonic
      ∷ readable B T "SecurityFinishTimestamp" u64 d.get_security_finish_timestamp
      ∷ readable B T "SecurityFinishTimestampMonotonic" u64
          d.get_security_finish_timestamp_monotonic
      ∷ readable B T "GeneratorsStartTimestamp" u64 d.get_generators_start_timestamp
      ∷ readable B T "GeneratorsStartTimestampMonotonic" u64
          d.get_generators_start_timestamp_monotonic
      ∷ readable B T "GeneratorsFinishTimestamp" u64 d.get_generators_finish_timestamp
      ∷ readable B T "GeneratorsFinishTimestampMonotonic" u64
          d.get_generators_finish_timestamp_monotonic
      ∷ readable B T "UnitsLoadStartTimestamp" u64 d.get_units_load_start_timestamp
      ∷ []

module _ (B : Dbus) (T : Typed B) (N : Line B T) where
  -- Each getter obtains what the implementation's getter gives, and each setter what its setter does.
  abbrev pub Agrees : {S : Type 0} → Methods B T S → ConnPath → S → Type 0
  Agrees d c s =
      (get_userspace_timestamp B T N c ≡ (d.get_userspace_timestamp s).0)
      × (get_userspace_timestamp_monotonic B T N c ≡ (d.get_userspace_timestamp_monotonic s).0)
      × (get_finish_timestamp B T N c ≡ (d.get_finish_timestamp s).0)
      × (get_finish_timestamp_monotonic B T N c ≡ (d.get_finish_timestamp_monotonic s).0)
      × (get_security_start_timestamp B T N c ≡ (d.get_security_start_timestamp s).0)
      × (get_security_start_timestamp_monotonic B T N c
          ≡ (d.get_security_start_timestamp_monotonic s).0)
      × (get_security_finish_timestamp B T N c ≡ (d.get_security_finish_timestamp s).0)
      × (get_security_finish_timestamp_monotonic B T N c
          ≡ (d.get_security_finish_timestamp_monotonic s).0)
      × (get_generators_start_timestamp B T N c ≡ (d.get_generators_start_timestamp s).0)
      × (get_generators_start_timestamp_monotonic B T N c
          ≡ (d.get_generators_start_timestamp_monotonic s).0)
      × (get_generators_finish_timestamp B T N c ≡ (d.get_generators_finish_timestamp s).0)
      × (get_generators_finish_timestamp_monotonic B T N c
          ≡ (d.get_generators_finish_timestamp_monotonic s).0)
      × (get_units_load_start_timestamp B T N c ≡ (d.get_units_load_start_timestamp s).0)
