-- ===== src/Generated/Systemd/Initrd.antt =====
-- The manager's interface: the timestamps of the initial RAM disk.
use killjoy.Base.{List, [], ◌∷◌, ◌≡◌}
use killjoy.Dbus.{Dbus, ConnPath}
use killjoy.Generated.Systemd.Kinds.{u64}
use killjoy.Generated.Systemd.Typed.{Typed, Line, Gets, get_property, Yields, Property, readable}

-- The part of the trait, of an implementation with a state.
pub record Methods (B : Dbus) (T : Typed B) (S : Type 0) : Type 0 where
  pub get_units_load_start_timestamp_monotonic : Yields B T S u64
  pub get_units_load_finish_timestamp : Yields B T S u64
  pub get_units_load_finish_timestamp_monotonic : Yields B T S u64
  pub get_init_rdsecurity_start_timestamp : Yields B T S u64
  pub get_init_rdsecurity_start_timestamp_monotonic : Yields B T S u64
  pub get_init_rdsecurity_finish_timestamp : Yields B T S u64
  pub get_init_rdsecurity_finish_timestamp_monotonic : Yields B T S u64
  pub get_init_rdgenerators_start_timestamp : Yields B T S u64
  pub get_init_rdgenerators_start_timestamp_monotonic : Yields B T S u64
  pub get_init_rdgenerators_finish_timestamp : Yields B T S u64
  pub get_init_rdgenerators_finish_timestamp_monotonic : Yields B T S u64
  pub get_init_rdunits_load_start_timestamp : Yields B T S u64
  pub get_init_rdunits_load_start_timestamp_monotonic : Yields B T S u64

module _ (B : Dbus) (T : Typed B) (N : Line B T) where
  unfoldable pub get_units_load_start_timestamp_monotonic : Gets B T u64
  unfolding get_property
  get_units_load_start_timestamp_monotonic =
      get_property B T N "UnitsLoadStartTimestampMonotonic" u64

  unfoldable pub get_units_load_finish_timestamp : Gets B T u64
  unfolding get_property
  get_units_load_finish_timestamp = get_property B T N "UnitsLoadFinishTimestamp" u64

  unfoldable pub get_units_load_finish_timestamp_monotonic : Gets B T u64
  unfolding get_property
  get_units_load_finish_timestamp_monotonic =
      get_property B T N "UnitsLoadFinishTimestampMonotonic" u64

  unfoldable pub get_init_rdsecurity_start_timestamp : Gets B T u64
  unfolding get_property
  get_init_rdsecurity_start_timestamp = get_property B T N "InitRDSecurityStartTimestamp" u64

  unfoldable pub get_init_rdsecurity_start_timestamp_monotonic : Gets B T u64
  unfolding get_property
  get_init_rdsecurity_start_timestamp_monotonic =
      get_property B T N "InitRDSecurityStartTimestampMonotonic" u64

  unfoldable pub get_init_rdsecurity_finish_timestamp : Gets B T u64
  unfolding get_property
  get_init_rdsecurity_finish_timestamp = get_property B T N "InitRDSecurityFinishTimestamp" u64

  unfoldable pub get_init_rdsecurity_finish_timestamp_monotonic : Gets B T u64
  unfolding get_property
  get_init_rdsecurity_finish_timestamp_monotonic =
      get_property B T N "InitRDSecurityFinishTimestampMonotonic" u64

  unfoldable pub get_init_rdgenerators_start_timestamp : Gets B T u64
  unfolding get_property
  get_init_rdgenerators_start_timestamp = get_property B T N "InitRDGeneratorsStartTimestamp" u64

  unfoldable pub get_init_rdgenerators_start_timestamp_monotonic : Gets B T u64
  unfolding get_property
  get_init_rdgenerators_start_timestamp_monotonic =
      get_property B T N "InitRDGeneratorsStartTimestampMonotonic" u64

  unfoldable pub get_init_rdgenerators_finish_timestamp : Gets B T u64
  unfolding get_property
  get_init_rdgenerators_finish_timestamp = get_property B T N "InitRDGeneratorsFinishTimestamp" u64

  unfoldable pub get_init_rdgenerators_finish_timestamp_monotonic : Gets B T u64
  unfolding get_property
  get_init_rdgenerators_finish_timestamp_monotonic =
      get_property B T N "InitRDGeneratorsFinishTimestampMonotonic" u64

  unfoldable pub get_init_rdunits_load_start_timestamp : Gets B T u64
  unfolding get_property
  get_init_rdunits_load_start_timestamp = get_property B T N "InitRDUnitsLoadStartTimestamp" u64

  unfoldable pub get_init_rdunits_load_start_timestamp_monotonic : Gets B T u64
  unfolding get_property
  get_init_rdunits_load_start_timestamp_monotonic =
      get_property B T N "InitRDUnitsLoadStartTimestampMonotonic" u64

module _ (B : Dbus) (T : Typed B) where
  -- The part of the server.
  unfoldable pub server : {S : Type 0} → Methods B T S → List (Property B T S)
  server d =
      readable B T "UnitsLoadStartTimestampMonotonic" u64 d.get_units_load_start_timestamp_monotonic
      ∷ readable B T "UnitsLoadFinishTimestamp" u64 d.get_units_load_finish_timestamp
      ∷ readable B T "UnitsLoadFinishTimestampMonotonic" u64
          d.get_units_load_finish_timestamp_monotonic
      ∷ readable B T "InitRDSecurityStartTimestamp" u64 d.get_init_rdsecurity_start_timestamp
      ∷ readable B T "InitRDSecurityStartTimestampMonotonic" u64
          d.get_init_rdsecurity_start_timestamp_monotonic
      ∷ readable B T "InitRDSecurityFinishTimestamp" u64 d.get_init_rdsecurity_finish_timestamp
      ∷ readable B T "InitRDSecurityFinishTimestampMonotonic" u64
          d.get_init_rdsecurity_finish_timestamp_monotonic
      ∷ readable B T "InitRDGeneratorsStartTimestamp" u64 d.get_init_rdgenerators_start_timestamp
      ∷ readable B T "InitRDGeneratorsStartTimestampMonotonic" u64
          d.get_init_rdgenerators_start_timestamp_monotonic
      ∷ readable B T "InitRDGeneratorsFinishTimestamp" u64 d.get_init_rdgenerators_finish_timestamp
      ∷ readable B T "InitRDGeneratorsFinishTimestampMonotonic" u64
          d.get_init_rdgenerators_finish_timestamp_monotonic
      ∷ readable B T "InitRDUnitsLoadStartTimestamp" u64 d.get_init_rdunits_load_start_timestamp
      ∷ readable B T "InitRDUnitsLoadStartTimestampMonotonic" u64
          d.get_init_rdunits_load_start_timestamp_monotonic
      ∷ []

module _ (B : Dbus) (T : Typed B) (N : Line B T) where
  -- Each getter obtains what the implementation's getter gives, and each setter what its setter does.
  abbrev pub Agrees : {S : Type 0} → Methods B T S → ConnPath → S → Type 0
  Agrees d c s =
      (get_units_load_start_timestamp_monotonic B T N c
        ≡ (d.get_units_load_start_timestamp_monotonic s).0)
      × (get_units_load_finish_timestamp B T N c ≡ (d.get_units_load_finish_timestamp s).0)
      × (get_units_load_finish_timestamp_monotonic B T N c
          ≡ (d.get_units_load_finish_timestamp_monotonic s).0)
      × (get_init_rdsecurity_start_timestamp B T N c ≡ (d.get_init_rdsecurity_start_timestamp s).0)
      × (get_init_rdsecurity_start_timestamp_monotonic B T N c
          ≡ (d.get_init_rdsecurity_start_timestamp_monotonic s).0)
      × (get_init_rdsecurity_finish_timestamp B T N c
          ≡ (d.get_init_rdsecurity_finish_timestamp s).0)
      × (get_init_rdsecurity_finish_timestamp_monotonic B T N c
          ≡ (d.get_init_rdsecurity_finish_timestamp_monotonic s).0)
      × (get_init_rdgenerators_start_timestamp B T N c
          ≡ (d.get_init_rdgenerators_start_timestamp s).0)
      × (get_init_rdgenerators_start_timestamp_monotonic B T N c
          ≡ (d.get_init_rdgenerators_start_timestamp_monotonic s).0)
      × (get_init_rdgenerators_finish_timestamp B T N c
          ≡ (d.get_init_rdgenerators_finish_timestamp s).0)
      × (get_init_rdgenerators_finish_timestamp_monotonic B T N c
          ≡ (d.get_init_rdgenerators_finish_timestamp_monotonic s).0)
      × (get_init_rdunits_load_start_timestamp B T N c
          ≡ (d.get_init_rdunits_load_start_timestamp s).0)
      × (get_init_rdunits_load_start_timestamp_monotonic B T N c
          ≡ (d.get_init_rdunits_load_start_timestamp_monotonic s).0)
