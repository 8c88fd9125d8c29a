-- ===== src/Generated/Systemd/PropertyTrip.antt =====
-- The getters and setters of the manager against its server.
use killjoy.Dbus.{Dbus, ConnPath}
use killjoy.Generated.Systemd.Typed.{Typed, Line}
use killjoy.Generated.Systemd.Server.{Systemd, properties, Wired, HasProperties}
use killjoy.Generated.Systemd.Boot
use killjoy.Generated.Systemd.Startup
use killjoy.Generated.Systemd.Initrd
use killjoy.Generated.Systemd.Logging
use killjoy.Generated.Systemd.Watchdogs
use killjoy.Generated.Systemd.Defaults
use killjoy.Generated.Systemd.Limits
use killjoy.Generated.Systemd.MoreLimits
use killjoy.Generated.Systemd.Scheduling
use killjoy.Generated.Systemd.EarlyTrip.{boot_lem, startup_lem, initrd_lem, logging_lem}
use killjoy.Generated.Systemd.LateTrip.{
  watchdogs_lem, defaults_lem, limits_lem, more_limits_lem, scheduling_lem,
}

module _ (B : Dbus) (T : Typed B) (N : Line B T) (W : Wired B T) {S : Type 0} (d : Systemd B T S)
    (s : S) (c : ConnPath) (has : HasProperties B T N W (properties B T d) s c) where
  -- From an object that has the properties of the generated manager server, each generated getter obtains
  -- what the implementation's getter of its name gives, and each generated setter what the setter of
  -- its name does with the value, successes and errors alike.
  pub client-properties :
      Boot.Agrees B T N d.boot c s
      × Startup.Agrees B T N d.startup c s
      × Initrd.Agrees B T N d.initrd c s
      × Logging.Agrees B T N d.logging c s
      × Watchdogs.Agrees B T N d.watchdogs c s
      × Defaults.Agrees B T N d.defaults c s
      × Limits.Agrees B T N d.limits c s
      × MoreLimits.Agrees B T N d.more_limits c s
      × Scheduling.Agrees B T N d.scheduling c s
  client-properties = (
    boot_lem B T N W d s c has,
    startup_lem B T N W d s c has,
    initrd_lem B T N W d s c has,
    logging_lem B T N W d s c has,
    watchdogs_lem B T N W d s c has,
    defaults_lem B T N W d s c has,
    limits_lem B T N W d s c has,
    more_limits_lem B T N W d s c has,
    scheduling_lem B T N W d s c has,
  )
