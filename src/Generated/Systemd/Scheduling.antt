-- ===== src/Generated/Systemd/Scheduling.antt =====
-- The manager's interface: the default limits of scheduling, and the last properties.
use killjoy.Base.{List, [], ◌∷◌, ◌≡◌}
use killjoy.Dbus.{Dbus, ConnPath}
use killjoy.Generated.Systemd.Kinds.{u64, string}
use killjoy.Generated.Systemd.Typed.{Typed, Line, Gets, get_property, Yields, Property, readable}

-- The part of the trait, of an implementation with a state.
pub record Methods (B : Dbus) (T : Typed B) (S : Type 0) : Type 0 where
  pub get_default_limit_nicesoft : Yields B T S u64
  pub get_default_limit_rtprio : Yields B T S u64
  pub get_default_limit_rtpriosoft : Yields B T S u64
  pub get_default_limit_rttime : Yields B T S u64
  pub get_default_limit_rttimesoft : Yields B T S u64
  pub get_default_tasks_max : Yields B T S u64
  pub get_timer_slack_nsec : Yields B T S u64
  pub get_default_oompolicy : Yields B T S string

module _ (B : Dbus) (T : Typed B) (N : Line B T) where
  unfoldable pub get_default_limit_nicesoft : Gets B T u64
  unfolding get_property
  get_default_limit_nicesoft = get_property B T N "DefaultLimitNICESoft" u64

  unfoldable pub get_default_limit_rtprio : Gets B T u64
  unfolding get_property
  get_default_limit_rtprio = get_property B T N "DefaultLimitRTPRIO" u64

  unfoldable pub get_default_limit_rtpriosoft : Gets B T u64
  unfolding get_property
  get_default_limit_rtpriosoft = get_property B T N "DefaultLimitRTPRIOSoft" u64

  unfoldable pub get_default_limit_rttime : Gets B T u64
  unfolding get_property
  get_default_limit_rttime = get_property B T N "DefaultLimitRTTIME" u64

  unfoldable pub get_default_limit_rttimesoft : Gets B T u64
  unfolding get_property
  get_default_limit_rttimesoft = get_property B T N "DefaultLimitRTTIMESoft" u64

  unfoldable pub get_default_tasks_max : Gets B T u64
  unfolding get_property
  get_default_tasks_max = get_property B T N "DefaultTasksMax" u64

  unfoldable pub get_timer_slack_nsec : Gets B T u64
  unfolding get_property
  get_timer_slack_nsec = get_property B T N "TimerSlackNSec" u64

  unfoldable pub get_default_oompolicy : Gets B T string
  unfolding get_property
  get_default_oompolicy = get_property B T N "DefaultOOMPolicy" string

module _ (B : Dbus) (T : Typed B) where
  -- The part of the server.
  unfoldable pub server : {S : Type 0} → Methods B T S → List (Property B T S)
  server d =
      readable B T "DefaultLimitNICESoft" u64 d.get_default_limit_nicesoft
      ∷ readable B T "DefaultLimitRTPRIO" u64 d.get_default_limit_rtprio
      ∷ readable B T "DefaultLimitRTPRIOSoft" u64 d.get_default_limit_rtpriosoft
      ∷ readable B T "DefaultLimitRTTIME" u64 d.get_default_limit_rttime
      ∷ readable B T "DefaultLimitRTTIMESoft" u64 d.get_default_limit_rttimesoft
      ∷ readable B T "DefaultTasksMax" u64 d.get_default_tasks_max
      ∷ readable B T "TimerSlackNSec" u64 d.get_timer_slack_nsec
      ∷ readable B T "DefaultOOMPolicy" string d.get_default_oompolicy
      ∷ []

module _ (B : Dbus) (T : Typed B) (N : Line B T) where
  -- Each getter obtains what the implementation's getter gives, and each setter what its setter does.
  abbrev pub Agrees : {S : Type 0} → Methods B T S → ConnPath → S → Type 0
  Agrees d c s =
      (get_default_limit_nicesoft B T N c ≡ (d.get_default_limit_nicesoft s).0)
      × (get_default_limit_rtprio B T N c ≡ (d.get_default_limit_rtprio s).0)
      × (get_default_limit_rtpriosoft B T N c ≡ (d.get_default_limit_rtpriosoft s).0)
      × (get_default_limit_rttime B T N c ≡ (d.get_default_limit_rttime s).0)
      × (get_default_limit_rttimesoft B T N c ≡ (d.get_default_limit_rttimesoft s).0)
      × (get_default_tasks_max B T N c ≡ (d.get_default_tasks_max s).0)
      × (get_timer_slack_nsec B T N c ≡ (d.get_timer_slack_nsec s).0)
      × (get_default_oompolicy B T N c ≡ (d.get_default_oompolicy s).0)
