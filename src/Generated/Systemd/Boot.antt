-- ===== src/Generated/Systemd/Boot.antt =====
-- The manager's interface: the properties from the version to the first timestamps of the start.
use killjoy.Base.{List, [], ◌∷◌, ◌≡◌}
use killjoy.Dbus.{Dbus, ConnPath}
use killjoy.Generated.Systemd.Kinds.{u64, string}
use killjoy.Generated.Systemd.Typed.{Typed, Line, Gets, get_property, Yields, Property, readable}

-- The part of the trait, of an implementation with a state.
pub record Methods (B : Dbus) (T : Typed B) (S : Type 0) : Type 0 where
  pub get_version : Yields B T S string
  pub get_features : Yields B T S string
  pub get_virtualization : Yields B T S string
  pub get_architecture : Yields B T S string
  pub get_tainted : Yields B T S string
  pub get_firmware_timestamp : Yields B T S u64
  pub get_firmware_timestamp_monotonic : Yields B T S u64
  pub get_loader_timestamp : Yields B T S u64
  pub get_loader_timestamp_monotonic : Yields B T S u64
  pub get_kernel_timestamp : Yields B T S u64
  pub get_kernel_timestamp_monotonic : Yields B T S u64
  pub get_init_rdtimestamp : Yields B T S u64
  pub get_init_rdtimestamp_monotonic : Yields B T S u64

module _ (B : Dbus) (T : Typed B) (N : Line B T) where
  unfoldable pub get_version : Gets B T string
  unfolding get_property
  get_version = get_property B T N "Version" string

  unfoldable pub get_features : Gets B T string
  unfolding get_property
  get_features = get_property B T N "Features" string

  unfoldable pub get_virtualization : Gets B T string
  unfolding get_property
  get_virtualization = get_property B T N "Virtualization" string

  unfoldable pub get_architecture : Gets B T string
  unfolding get_property
  get_architecture = get_property B T N "Architecture" string

  unfoldable pub get_tainted : Gets B T string
  unfolding get_property
  get_tainted = get_property B T N "Tainted" string

  unfoldable pub get_firmware_timestamp : Gets B T u64
  unfolding get_property
  get_firmware_timestamp = get_property B T N "FirmwareTimestamp" u64

  unfoldable pub get_firmware_timestamp_monotonic : Gets B T u64
  unfolding get_property
  get_firmware_timestamp_monotonic = get_property B T N "FirmwareTimestampMonotonic" u64

  unfoldable pub get_loader_timestamp : Gets B T u64
  unfolding get_property
  get_loader_timestamp = get_property B T N "LoaderTimestamp" u64

  unfoldable pub get_loader_timestamp_monotonic : Gets B T u64
  unfolding get_property
  get_loader_timestamp_monotonic = get_property B T N "LoaderTimestampMonotonic" u64

  unfoldable pub get_kernel_timestamp : Gets B T u64
  unfolding get_property
  get_kernel_timestamp = get_property B T N "KernelTimestamp" u64

  unfoldable pub get_kernel_timestamp_monotonic : Gets B T u64
  unfolding get_property
  get_kernel_timestamp_monotonic = get_property B T N "KernelTimestampMonotonic" u64

  unfoldable pub get_init_rdtimestamp : Gets B T u64
  unfolding get_property
  get_init_rdtimestamp = get_property B T N "InitRDTimestamp" u64

  unfoldable pub get_init_rdtimestamp_monotonic : Gets B T u64
  unfolding get_property
  get_init_rdtimestamp_monotonic = get_property B T N "InitRDTimestampMonotonic" u64

module _ (B : Dbus) (T : Typed B) where
  -- The part of the server.
  unfoldable pub server : {S : Type 0} → Methods B T S → List (Property B T S)
  server d =
      readable B T "Version" string d.get_version
      ∷ readable B T "Features" string d.get_features
      ∷ readable B T "Virtualization" string d.get_virtualization
      ∷ readable B T "Architecture" string d.get_architecture
      ∷ readable B T "Tainted" string d.get_tainted
      ∷ readable B T "FirmwareTimestamp" u64 d.get_firmware_timestamp
      ∷ readable B T "FirmwareTimestampMonotonic" u64 d.get_firmware_timestamp_monotonic
      ∷ readable B T "LoaderTimestamp" u64 d.get_loader_timestamp
      ∷ readable B T "LoaderTimestampMonotonic" u64 d.get_loader_timestamp_monotonic
      ∷ readable B T "KernelTimestamp" u64 d.get_kernel_timestamp
      ∷ readable B T "KernelTimestampMonotonic" u64 d.get_kernel_timestamp_monotonic
      ∷ readable B T "InitRDTimestamp" u64 d.get_init_rdtimestamp
      ∷ readable B T "InitRDTimestampMonotonic" u64 d.get_init_rdtimestamp_monotonic
      ∷ []

module _ (B : Dbus) (T : Typed B) (N : Line B T) where
  -- Each getter obtains what the implementation's getter gives, and each setter what its setter does.
  abbrev pub Agrees : {S : Type 0} → Methods B T S → ConnPath → S → Type 0
  Agrees d c s =
      (get_version B T N c ≡ (d.get_version s).0)
      × (get_features B T N c ≡ (d.get_features s).0)
      × (get_virtualization B T N c ≡ (d.get_virtualization s).0)
      × (get_architecture B T N c ≡ (d.get_architecture s).0)
      × (get_tainted B T N c ≡ (d.get_tainted s).0)
      × (get_firmware_timestamp B T N c ≡ (d.get_firmware_timestamp s).0)
      × (get_firmware_timestamp_monotonic B T N c ≡ (d.get_firmware_timestamp_monotonic s).0)
      × (get_loader_timestamp B T N c ≡ (d.get_loader_timestamp s).0)
      × (get_loader_timestamp_monotonic B T N c ≡ (d.get_loader_timestamp_monotonic s).0)
      × (get_kernel_timestamp B T N c ≡ (d.get_kernel_timestamp s).0)
      × (get_kernel_timestamp_monotonic B T N c ≡ (d.get_kernel_timestamp_monotonic s).0)
      × (get_init_rdtimestamp B T N c ≡ (d.get_init_rdtimestamp s).0)
      × (get_init_rdtimestamp_monotonic B T N c ≡ (d.get_init_rdtimestamp_monotonic s).0)
