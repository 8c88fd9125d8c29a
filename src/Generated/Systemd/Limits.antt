-- ===== src/Generated/Systemd/Limits.antt =====
-- The manager's interface: the default resource limits.
use killjoy.Base.{List, [], ◌∷◌, ◌≡◌}
use killjoy.Dbus.{Dbus, ConnPath}
use killjoy.Generated.Systemd.Kinds.{u64}
use killjoy.Generated.Systemd.Typed.{Typed, Line, Gets, get_property, Yields, Property, readable}

-- The part of the trait, of an implementation with a state.
pub record Methods (B : Dbus) (T : Typed B) (S : Type 0) : Type 0 where
  pub get_default_limit_cpusoft : Yields B T S u64
  pub get_default_limit_fsize : Yields B T S u64
  pub get_default_limit_fsizesoft : Yields B T S u64
  pub get_default_limit_data : Yields B T S u64
  pub get_default_limit_datasoft : Yields B T S u64
  pub get_default_limit_stack : Yields B T S u64
  pub get_default_limit_stacksoft : Yields B T S u64
  pub get_default_limit_core : Yields B T S u64
  pub get_default_limit_coresoft : Yields B T S u64
  pub get_default_limit_rss : Yields B T S u64
  pub get_default_limit_rsssoft : Yields B T S u64
  pub get_default_limit_nofile : Yields B T S u64
  pub get_default_limit_nofilesoft : Yields B T S u64

module _ (B : Dbus) (T : Typed B) (N : Line B T) where
  unfoldable pub get_default_limit_cpusoft : Gets B T u64
  unfolding get_property
  get_default_limit_cpusoft = get_property B T N "DefaultLimitCPUSoft" u64

  unfoldable pub get_default_limit_fsize : Gets B T u64
  unfolding get_property
  get_default_limit_fsize = get_property B T N "DefaultLimitFSIZE" u64

  unfoldable pub get_default_limit_fsizesoft : Gets B T u64
  unfolding get_property
  get_default_limit_fsizesoft = get_property B T N "DefaultLimitFSIZESoft" u64

  unfoldable pub get_default_limit_data : Gets B T u64
  unfolding get_property
  get_default_limit_data = get_property B T N "DefaultLimitDATA" u64

  unfoldable pub get_default_limit_datasoft : Gets B T u64
  unfolding get_property
  get_default_limit_datasoft = get_property B T N "DefaultLimitDATASoft" u64

  unfoldable pub get_default_limit_stack : Gets B T u64
  unfolding get_property
  get_default_limit_stack = get_property B T N "DefaultLimitSTACK" u64

  unfoldable pub get_default_limit_stacksoft : Gets B T u64
  unfolding get_property
  get_default_limit_stacksoft = get_property B T N "DefaultLimitSTACKSoft" u64

  unfoldable pub get_default_limit_core : Gets B T u64
  unfolding get_property
  get_default_limit_core = get_property B T N "DefaultLimitCORE" u64

  unfoldable pub get_default_limit_coresoft : Gets B T u64
  unfolding get_property
  get_default_limit_coresoft = get_property B T N "DefaultLimitCORESoft" u64

  unfoldable pub get_default_limit_rss : Gets B T u64
  unfolding get_property
  get_default_limit_rss = get_property B T N "DefaultLimitRSS" u64

  unfoldable pub get_default_limit_rsssoft : Gets B T u64
  unfolding get_property
  get_default_limit_rsssoft = get_property B T N "DefaultLimitRSSSoft" u64

  unfoldable pub get_default_limit_nofile : Gets B T u64
  unfolding get_property
  get_default_limit_nofile = get_property B T N "DefaultLimitNOFILE" u64

  unfoldable pub get_default_limit_nofilesoft : Gets B T u64
  unfolding get_property
  get_default_limit_nofilesoft = get_property B T N "DefaultLimitNOFILESoft" u64

module _ (B : Dbus) (T : Typed B) where
  -- The part of the server.
  unfoldable pub server : {S : Type 0} → Methods B T S → List (Property B T S)
  server d =
      readable B T "DefaultLimitCPUSoft" u64 d.get_default_limit_cpusoft
      ∷ readable B T "DefaultLimitFSIZE" u64 d.get_default_limit_fsize
      ∷ readable B T "DefaultLimitFSIZESoft" u64 d.get_default_limit_fsizesoft
      ∷ readable B T "DefaultLimitDATA" u64 d.get_default_limit_data
      ∷ readable B T "DefaultLimitDATASoft" u64 d.get_default_limit_datasoft
      ∷ readable B T "DefaultLimitSTACK" u64 d.get_default_limit_stack
      ∷ readable B T "DefaultLimitSTACKSoft" u64 d.get_default_limit_stacksoft
      ∷ readable B T "DefaultLimitCORE" u64 d.get_default_limit_core
      ∷ readable B T "DefaultLimitCORESoft" u64 d.get_default_limit_coresoft
      ∷ readable B T "DefaultLimitRSS" u64 d.get_default_limit_rss
      ∷ readable B T "DefaultLimitRSSSoft" u64 d.get_default_limit_rsssoft
      ∷ readable B T "DefaultLimitNOFILE" u64 d.get_default_limit_nofile
      ∷ readable B T "DefaultLimitNOFILESoft" u64 d.get_default_limit_nofilesoft
      ∷ []

module _ (B : Dbus) (T : Typed B) (N : Line B T) where
  -- Each getter obtains what the implementation's getter gives, and each setter what its setter does.
  abbrev pub Agrees : {S : Type 0} → Methods B T S → ConnPath → S → Type 0
  Agrees d c s =
      (get_default_limit_cpusoft B T N c ≡ (d.get_default_limit_cpusoft s).0)
      × (get_default_limit_fsize B T N c ≡ (d.get_default_limit_fsize s).0)
      × (get_default_limit_fsizesoft B T N c ≡ (d.get_default_limit_fsizesoft s).0)
      × (get_default_limit_data B T N c ≡ (d.get_default_limit_data s).0)
      × (get_default_limit_datasoft B T N c ≡ (d.get_default_limit_datasoft s).0)
      × (get_default_limit_stack B T N c ≡ (d.get_default_limit_stack s).0)
      × (get_default_limit_stacksoft B T N c ≡ (d.get_default_limit_stacksoft s).0)
      × (get_default_limit_core B T N c ≡ (d.get_default_limit_core s).0)
      × (get_default_limit_coresoft B T N c ≡ (d.get_default_limit_coresoft s).0)
      × (get_default_limit_rss B T N c ≡ (d.get_default_limit_rss s).0)
      × (get_default_limit_rsssoft B T N c ≡ (d.get_default_limit_rsssoft s).0)
      × (get_default_limit_nofile B T N c ≡ (d.get_default_limit_nofile s).0)
      × (get_default_limit_nofilesoft B T N c ≡ (d.get_default_limit_nofilesoft s).0)
