-- ===== src/Watcher/Run.antt =====
-- src/bus.rs: `BusWatcher` and its `run`. What `Connection::incoming` yields is an explicit
-- schedule, a message or a timeout at each poll; the thread is still running when it ends.
use killjoy.Base.{String, ℕ, Option, none, some, Bool, List, [], ◌∷◌, if◌then◌else◌}
use killjoy.Error.{Error, Result, ok, err}
use killjoy.Exec.{Exec, pure, attempt, ◌>>=◌, ◌>>◌}
use killjoy.Dbus.{Dbus, BusType, connect, poll}
use killjoy.Settings.Regex.{RegexCrate}
use killjoy.Settings.Types.{Settings}
use killjoy.Watcher.World.{World, ask, tell, set_unit_states}
use killjoy.Watcher.Rules.{rules_match_name}
use killjoy.Watcher.Manager.{
  call_manager_get_unit, call_manager_subscribe, call_manager_list_units,
  subscribe_manager_unit_new, subscribe_manager_unit_removed,
}
use killjoy.Watcher.Handlers.{track, handle_message}

-- The connection is the trace of the world.
pub record BusWatcher (R : RegexCrate) : Type 0 where
  pub loop_once : Bool
  pub loop_timeout : ℕ
  pub settings : Settings R

module _ (B : Dbus) (R : RegexCrate) where
  -- `BusWatcher::new`
  unfoldable pub new : BusType → Settings R → Bool → ℕ → Exec World (BusWatcher R)
  new bus_type settings loop_once loop_timeout = do
    ask (connect bus_type) (λ t. Dbus.get_private B t bus_type) Error.connect_to_bus
    pure (record { loop_once = loop_once; loop_timeout = loop_timeout; settings = settings })

  unfoldable pub track_if_loaded : Settings R → String → Result Error String → Exec World (Unit {0})
  track_if_loaded settings unit_name (ok unit_path) = track B R settings unit_name unit_path
  track_if_loaded settings unit_name (err _) = pure tt

  -- The body of the loop over the extant units.
  unfoldable pub learn_unit : Settings R → String → Exec World (Unit {0})
  learn_unit settings unit_name =
      if rules_match_name R settings.rules unit_name
      then (attempt (call_manager_get_unit B unit_name) >>= track_if_loaded settings unit_name)
      else pure tt

  unfoldable pub learn_units : Settings R → List String → Exec World (Unit {0})
  learn_units settings [] = pure tt
  learn_units settings (unit_name ∷ unit_names) = do
    learn_unit settings unit_name
    learn_units settings unit_names

  -- The signal loop. `none`: the schedule has ended, and the loop has not.
  unfoldable pub serve :
      BusWatcher R → List (Option (Dbus.Message B)) → Exec World (Option (Unit {0}))
  serve watcher [] = pure none
  serve watcher (none ∷ schedule) = do
    tell (poll watcher.loop_timeout)
    if watcher.loop_once then pure (some tt) else serve watcher schedule
  serve watcher (some msg ∷ schedule) = do
    tell (poll watcher.loop_timeout)
    handle_message B R watcher.settings msg
    serve watcher schedule

  -- Everything that comes before the loop over the extant units.
  unfoldable pub start : Exec World (List String)
  start = do
    call_manager_subscribe B
    tell (poll 1000)
    subscribe_manager_unit_removed B
    subscribe_manager_unit_new B
    set_unit_states (λ _. [])
    call_manager_list_units B

  unfoldable pub run :
      BusWatcher R → List (Option (Dbus.Message B)) → Exec World (Option (Unit {0}))
  run watcher schedule = do
    unit_names ← start
    learn_units watcher.settings unit_names
    serve watcher schedule
