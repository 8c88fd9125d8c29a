-- ===== src/Watcher/Names.antt =====
-- src/bus.rs: the constants, the functions that wrap them, and the path of a notifier.
use killjoy.Base.{String, ◌<>◌, replace_char}
use killjoy.Error.{Error, Result, map_err, ◌>>=◌}
use killjoy.Exec.{Exec, pure, expect, ◌>>=◌ as ◌then◌}
use killjoy.Dbus.{Dbus, ConnPath}

abbrev pub bus_name_for_systemd : String
bus_name_for_systemd = "org.freedesktop.systemd1"

abbrev pub path_for_systemd : String
path_for_systemd = "/org/freedesktop/systemd1"

abbrev pub interface_for_systemd_unit : String
interface_for_systemd_unit = "org.freedesktop.systemd1.Unit"

abbrev pub interface_for_notifier : String
interface_for_notifier = "name.jerebear.KilljoyNotifier1"

abbrev pub member_for_notify : String
member_for_notify = "Notify"

module _ (B : Dbus) {S : Type 0} where
  open B use {bus_name_new, path_new, interface_new, member_new}

  unfoldable pub wrap_bus_name_for_systemd : Exec S String
  wrap_bus_name_for_systemd =
      expect (bus_name_new bus_name_for_systemd)
        ("Failed to create BusName from '" <> bus_name_for_systemd <> "'")

  unfoldable pub wrap_path_for_systemd : Exec S String
  wrap_path_for_systemd =
      expect (path_new path_for_systemd) ("Failed to create Path from '" <> path_for_systemd <> "'")

  unfoldable pub wrap_interface_for_killjoy_notifier : Exec S String
  wrap_interface_for_killjoy_notifier =
      expect (interface_new interface_for_notifier)
        ("Failed to create Interface from '" <> interface_for_notifier <> "'")

  unfoldable pub wrap_member_for_notify : Exec S String
  wrap_member_for_notify =
      expect (member_new member_for_notify)
        ("Failed to create Member from '" <> member_for_notify <> "'")

  -- `BusWatcher::get_conn_path`
  unfoldable pub get_conn_path : String → Exec S ConnPath
  get_conn_path path = wrap_bus_name_for_systemd then λ bus_name.
      pure (record { dest = bus_name; path = path; timeout = 1000 })

module _ (B : Dbus) where
  open B use {path_new, bus_name_to_str}

  -- Given a bus name foo.bar.Biz1, make path /foo/bar/Biz1.
  unfoldable pub cast_bus_name_to_path : String → Result Error String
  unfolding replace_char
  cast_bus_name_to_path bus_name = do
    path_str ← map_err Error.cast_bus_name_to_str (bus_name_to_str bus_name)
    let rooted : String = "/" <> replace_char "." "/" path_str
    map_err Error.cast_str_to_path (path_new rooted)
