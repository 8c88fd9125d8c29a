-- ===== src/Tests/Systemds.antt =====
-- The theorems on the manager's interface, at that manager.
use killjoy.Dbus.{ConnPath}
use killjoy.Dbus.{Dbus}
use killjoy.Generated.Systemd.Finding
use killjoy.Generated.Systemd.Starting
use killjoy.Generated.Systemd.Units
use killjoy.Generated.Systemd.Processes
use killjoy.Generated.Systemd.Listing
use killjoy.Generated.Systemd.Power
use killjoy.Generated.Systemd.Environment
use killjoy.Generated.Systemd.Enabling
use killjoy.Generated.Systemd.Targets
use killjoy.Generated.Systemd.Users
use killjoy.Generated.Systemd.Boot
use killjoy.Generated.Systemd.Startup
use killjoy.Generated.Systemd.Initrd
use killjoy.Generated.Systemd.Logging
use killjoy.Generated.Systemd.Watchdogs
use killjoy.Generated.Systemd.Defaults
use killjoy.Generated.Systemd.Limits
use killjoy.Generated.Systemd.MoreLimits
use killjoy.Generated.Systemd.Scheduling
use killjoy.Generated.Systemd.MethodTrip.{client-methods}
use killjoy.Generated.Systemd.PropertyTrip.{client-properties}
use killjoy.Tests.Wires.{wires, typed, wired, line, has_methods, has_properties}
use killjoy.Tests.Yielding.{manager}

abbrev path : ConnPath
path = record {
  dest = "org.freedesktop.systemd1";
  path = "/org/freedesktop/systemd1";
  timeout = 1000;
}

client-methods_example :
    Finding.Agrees wires typed (line manager 7) manager.finding path 7
    × Starting.Agrees wires typed (line manager 7) manager.starting path 7
    × Units.Agrees wires typed (line manager 7) manager.units path 7
    × Processes.Agrees wires typed (line manager 7) manager.processes path 7
    × Listing.Agrees wires typed (line manager 7) manager.listing path 7
    × Power.Agrees wires typed (line manager 7) manager.power path 7
    × Environment.Agrees wires typed (line manager 7) manager.environment path 7
    × Enabling.Agrees wires typed (line manager 7) manager.enabling path 7
    × Targets.Agrees wires typed (line manager 7) manager.targets path 7
    × Users.Agrees wires typed (line manager 7) manager.users path 7
client-methods_example =
    client-methods wires typed (line manager 7) wired manager 7 path (has_methods manager 7 path)

client-properties_example :
    Boot.Agrees wires typed (line manager 7) manager.boot path 7
    × Startup.Agrees wires typed (line manager 7) manager.startup path 7
    × Initrd.Agrees wires typed (line manager 7) manager.initrd path 7
    × Logging.Agrees wires typed (line manager 7) manager.logging path 7
    × Watchdogs.Agrees wires typed (line manager 7) manager.watchdogs path 7
    × Defaults.Agrees wires typed (line manager 7) manager.defaults path 7
    × Limits.Agrees wires typed (line manager 7) manager.limits path 7
    × MoreLimits.Agrees wires typed (line manager 7) manager.more_limits path 7
    × Scheduling.Agrees wires typed (line manager 7) manager.scheduling path 7
client-properties_example =
    client-properties wires typed (line manager 7) wired manager 7 path
      (has_properties manager 7 path)
