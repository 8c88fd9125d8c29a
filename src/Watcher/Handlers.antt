-- ===== src/Watcher/Handlers.antt =====
-- src/bus.rs: what a watcher does on each signal.
use killjoy.Base.{String, ◌<>◌, ◌==◌, Option, none, some, if◌then◌else◌}
use killjoy.Error.{Error, Result, ok, err, ok_or}
use killjoy.Error.Display.{display}
use killjoy.Exec.{Exec, pure, raise, panic, lift, attempt, ◌>>=◌, ◌>>◌}
use killjoy.Timestamp.{UnitProps}
use killjoy.Dbus.{Dbus}
use killjoy.Generated.Client.{get}
use killjoy.Generated.Signals.{
  UnitNew, UnitRemoved, PropertiesChanged, unit_new_from_message, unit_removed_from_message,
  properties_changed_from_message,
}
use killjoy.Settings.Regex.{RegexCrate}
use killjoy.Settings.Types.{Settings}
use killjoy.Watcher.World.{World, invoke}
use killjoy.Watcher.Names.{interface_for_systemd_unit, get_conn_path}
use killjoy.Watcher.Rules.{rules_match_name}
use killjoy.Watcher.Manager.{
  call_properties_get_all, subscribe_properties_changed, unsubscribe_properties_changed,
}
use killjoy.Watcher.Units.{upsert_unit_states, forget_unit_state}

-- The `match` on the outcome of unsubscribing.
unfoldable pub forget_or_panic : String → Result Error (Unit {0}) → Exec World (Unit {0})
forget_or_panic unit_name (ok _) = forget_unit_state unit_name
forget_or_panic unit_name (err e) = panic ("Failed to handle UnitRemoved signal: " <> display e)

-- A missing ActiveState property is no error.
unfoldable pub tolerate : Result Error (Unit {0}) → Exec World (Unit {0})
tolerate (ok _) = pure tt
tolerate (err Error.properties_lacks_active_state) = pure tt
tolerate (err e) = raise e

module _ (B : Dbus) (R : RegexCrate) (settings : Settings R) where
  -- The unit is dropped if its properties cannot be had.
  unfoldable pub upsert_if_loaded : String → Result Error (UnitProps B) → Exec World (Unit {0})
  upsert_if_loaded unit_name (ok unit_props) = upsert_unit_states B R settings unit_name unit_props
  upsert_if_loaded unit_name (err _) = pure tt

  -- Subscribes to a unit's changes, and only then asks for its state.
  unfoldable pub track : (unit_name unit_path : String) → Exec World (Unit {0})
  track unit_name unit_path = do
    subscribe_properties_changed B unit_path
    unit_props ← attempt (call_properties_get_all B unit_path)
    upsert_if_loaded unit_name unit_props

  unfoldable pub handle_unit_new : UnitNew → Exec World (Unit {0})
  handle_unit_new msg_body =
      if rules_match_name R settings.rules msg_body.arg0
      then track msg_body.arg0 msg_body.arg1
      else pure tt

  unfoldable pub handle_unit_removed : UnitRemoved → Exec World (Unit {0})
  handle_unit_removed msg_body =
      if rules_match_name R settings.rules msg_body.arg0
      then (attempt (unsubscribe_properties_changed B msg_body.arg1)
          >>= forget_or_panic msg_body.arg0)
      else pure tt

  -- The name of the unit at a path, from its `Id` property.
  unfoldable pub get_unit_id : (unit_path : String) → Exec World String
  get_unit_id unit_path = do
    c ← get_conn_path B unit_path
    value ← invoke (get B c interface_for_systemd_unit "Id") Error.get_unit_id
    lift (ok_or Error.cast_unit_id (Dbus.as_str B value))

  unfoldable pub handle_properties_changed :
      Dbus.Message B → PropertiesChanged (Dbus.RefArg B) → Exec World (Unit {0})
  handle_properties_changed msg msg_body =
      if msg_body.interface == interface_for_systemd_unit
      then (do
        unit_path ← lift (ok_or Error.message_lacks_path (Dbus.message_path B msg))
        unit_name ← get_unit_id unit_path
        attempt (upsert_unit_states B R settings unit_name msg_body.changed_properties)
            >>= tolerate)
      else pure tt

  -- The first kind of signal that fits; other messages are passed over.
  unfoldable pub dispatch :
      Dbus.Message B
      → Option UnitNew
      → Option UnitRemoved
      → Option (PropertiesChanged (Dbus.RefArg B))
      → Exec World (Unit {0})
  dispatch msg (some msg_body) _ _ = handle_unit_new msg_body
  dispatch msg none (some msg_body) _ = handle_unit_removed msg_body
  dispatch msg none none (some msg_body) = handle_properties_changed msg msg_body
  dispatch msg none none none = pure tt

  -- The body of the signal loop.
  unfoldable pub handle_message : Dbus.Message B → Exec World (Unit {0})
  handle_message msg =
      dispatch msg (unit_new_from_message B msg) (unit_removed_from_message B msg)
        (properties_changed_from_message B msg)
