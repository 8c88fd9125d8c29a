-- ===== src/Watcher/Manager.antt =====
-- src/bus.rs: the calls of systemd and of the bus daemon.
use killjoy.Base.{String, List, map}
use killjoy.Error.{Error}
use killjoy.Exec.{Exec, pure, ◌>>=◌}
use killjoy.Dbus.{Dbus, UnitEntry, add_match, remove_match}
use killjoy.Generated.Client.{get_all, get_unit, list_units, subscribe}
use killjoy.Generated.Signals.{
  unit_new_match_str, unit_removed_match_str, properties_changed_match_str,
}
use killjoy.Timestamp.{UnitProps}
use killjoy.Watcher.World.{World, ask, invoke}
use killjoy.Watcher.Names.{wrap_bus_name_for_systemd, wrap_path_for_systemd, get_conn_path}

module _ (B : Dbus) where
  open B use {answer_add_match, answer_remove_match}

  unfoldable pub call_properties_get_all : String → Exec World (UnitProps B)
  call_properties_get_all unit_path = do
    c ← get_conn_path B unit_path
    invoke (get_all B c "org.freedesktop.systemd1.Unit") Error.call_properties_get_all

  unfoldable pub call_manager_get_unit : String → Exec World String
  call_manager_get_unit unit_name = do
    path ← wrap_path_for_systemd B
    c ← get_conn_path B path
    invoke (get_unit B c unit_name) Error.call_manager_get_unit

  unfoldable pub call_manager_subscribe : Exec World (Unit {0})
  call_manager_subscribe = do
    path ← wrap_path_for_systemd B
    c ← get_conn_path B path
    invoke (subscribe B c) Error.call_manager_subscribe

  unfoldable pub call_manager_list_units : Exec World (List String)
  call_manager_list_units = do
    path ← wrap_path_for_systemd B
    c ← get_conn_path B path
    units ← invoke (list_units B c) Error.call_manager_list_units
    pure (map (λ (unit : UnitEntry). unit.0) units)

  -- `connection.add_match`
  unfoldable pub subscribe_signal : (match_str : String) → Exec World (Unit {0})
  subscribe_signal match_str =
      ask (add_match match_str) (λ t. answer_add_match t match_str)
        (Error.add_signal_match match_str)

  unfoldable pub subscribe_manager_unit_new : Exec World (Unit {0})
  subscribe_manager_unit_new = do
    bus_name ← wrap_bus_name_for_systemd B
    path ← wrap_path_for_systemd B
    subscribe_signal (unit_new_match_str B bus_name path)

  unfoldable pub subscribe_manager_unit_removed : Exec World (Unit {0})
  subscribe_manager_unit_removed = do
    bus_name ← wrap_bus_name_for_systemd B
    path ← wrap_path_for_systemd B
    subscribe_signal (unit_removed_match_str B bus_name path)

  unfoldable pub subscribe_properties_changed : String → Exec World (Unit {0})
  subscribe_properties_changed unit_path = do
    bus_name ← wrap_bus_name_for_systemd B
    subscribe_signal (properties_changed_match_str B bus_name unit_path)

  unfoldable pub unsubscribe_properties_changed : String → Exec World (Unit {0})
  unsubscribe_properties_changed unit_path = do
    bus_name ← wrap_bus_name_for_systemd B
    let match_str : String = properties_changed_match_str B bus_name unit_path
    ask (remove_match match_str) (λ t. answer_remove_match t match_str)
        (Error.remove_signal_match match_str)
