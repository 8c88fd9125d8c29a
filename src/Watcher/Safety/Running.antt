-- ===== src/Watcher/Safety/Running.antt =====
-- Panics and errors of a whole run.
use killjoy.Base.{String, Option, none, some, List, [], ◌∷◌}
use killjoy.Error.{Error, Result, ok, err}
use killjoy.Dbus.{Dbus}
use killjoy.Settings.Regex.{RegexCrate}
use killjoy.Settings.Types.{Settings}
use killjoy.Watcher.World.{World}
use killjoy.Watcher.Manager.{
  call_manager_subscribe, call_manager_list_units, subscribe_signal, subscribe_manager_unit_new,
  subscribe_manager_unit_removed,
}
use killjoy.Watcher.Run.{BusWatcher, track_if_loaded, learn_unit, learn_units, serve, start, run}
use killjoy.Exec.Safe.{Safe, Allows, Safe-bind, Safe-if, Safe-pure, Safe-bind-attempt}
use killjoy.Settings.Sound.{IsSound}
use killjoy.Watcher.Safety.Errors.{
  IsRuntime, IsHealthy, IsRefused, IsAny, Safe-ask, Safe-invoke, Safe-tell, Safe-set_unit_states,
}
use killjoy.Watcher.Safety.Signals.{
  bus_name-Safe, path-Safe, conn_path-Safe, get_unit-Safe, track-Safe, handle_message-Safe,
}

module _ (B : Dbus) (healthy : IsHealthy B) where
  call_subscribe-Safe : Safe IsRuntime (IsRefused B) (call_manager_subscribe B)
  unfolding call_manager_subscribe
  call_subscribe-Safe =
      Safe-bind _ _ (path-Safe B healthy _)
        λ p. Safe-bind _ _ (conn_path-Safe B healthy _ p) (λ c. Safe-invoke _ _ (λ x. tt))

  call_list_units-Safe : Safe IsRuntime (IsRefused B) (call_manager_list_units B)
  unfolding call_manager_list_units
  call_list_units-Safe = Safe-bind _ _ (path-Safe B healthy _) λ p.
      Safe-bind _ _ (conn_path-Safe B healthy _ p)
        λ c. Safe-bind _ _ (Safe-invoke _ _ (λ x. tt)) (λ units. Safe-pure _)

  unit_new-Safe : Safe IsRuntime (IsRefused B) (subscribe_manager_unit_new B)
  unfolding subscribe_manager_unit_new subscribe_signal
  unit_new-Safe =
      Safe-bind _ _ (bus_name-Safe B healthy _)
        λ n. Safe-bind _ _ (path-Safe B healthy _) (λ p. Safe-ask _ _ _ (λ x. tt))

  unit_removed-Safe : Safe IsRuntime (IsRefused B) (subscribe_manager_unit_removed B)
  unfolding subscribe_manager_unit_removed subscribe_signal
  unit_removed-Safe =
      Safe-bind _ _ (bus_name-Safe B healthy _)
        λ n. Safe-bind _ _ (path-Safe B healthy _) (λ p. Safe-ask _ _ _ (λ x. tt))

  start-Safe : (R : RegexCrate) → Safe IsRuntime (IsRefused B) (start B R)
  unfolding start
  start-Safe R = Safe-bind _ _ call_subscribe-Safe λ _. Safe-bind _ _ (Safe-tell _) λ _.
      Safe-bind _ _ unit_removed-Safe λ _.
        Safe-bind _ _ unit_new-Safe
          λ _. Safe-bind _ _ (Safe-set_unit_states _) (λ _. call_list_units-Safe)

module _ (B : Dbus) (R : RegexCrate) (healthy : IsHealthy B) (settings : Settings R)
    (sound : IsSound B R settings) where
  track_if_loaded-Safe :
      (name : String) (r : Result Error String)
      → Safe IsRuntime (IsRefused B) (track_if_loaded B R settings name r)
  unfolding track_if_loaded
  track_if_loaded-Safe name (ok path) = track-Safe B R healthy settings sound name path
  track_if_loaded-Safe name (err e) = Safe-pure _

  learn_unit-Safe : (name : String) → Safe IsRuntime (IsRefused B) (learn_unit B R settings name)
  unfolding learn_unit
  learn_unit-Safe name =
      Safe-if _ _ _
        (Safe-bind-attempt IsAny _ _ (get_unit-Safe B healthy name)
          (λ r _. track_if_loaded-Safe name r))
        (Safe-pure _)

  learn_units-Safe :
      (names : List String) → Safe IsRuntime (IsRefused B) (learn_units B R settings names)
  unfolding learn_units
  learn_units-Safe [] = Safe-pure _
  learn_units-Safe (name ∷ names) =
      Safe-bind _ _ (learn_unit-Safe name) (λ _. learn_units-Safe names)

module _ (B : Dbus) (R : RegexCrate) (healthy : IsHealthy B) (watcher : BusWatcher R)
    (sound : IsSound B R watcher.settings) where
  serve-Safe :
      (schedule : List (Option (Dbus.Message B)))
      → Safe IsRuntime (IsRefused B) (serve B R watcher schedule)
  unfolding serve
  serve-Safe [] = Safe-pure _
  serve-Safe (none ∷ schedule) =
      let more = serve-Safe schedule in
      Safe-bind _ _ (Safe-tell _) (λ _. Safe-if watcher.loop_once _ _ (Safe-pure _) more)
  serve-Safe (some msg ∷ schedule) = Safe-bind _ _ (Safe-tell _) λ _.
      Safe-bind _ _ (handle_message-Safe B R healthy watcher.settings sound msg)
        (λ _. serve-Safe schedule)

  -- With sound settings and valid constants, a watcher panics only if the bus refuses to remove a
  -- match rule. Then that is its last call, and the message is that of the handler of UnitRemoved
  -- with the bus's error. The errors that it ends with are failures of the bus, of systemd or of
  -- their answers, or say that a notifier's bus name makes no object path.
  pub run-safe :
      (schedule : List (Option (Dbus.Message B))) (w : World)
      → Allows IsRuntime (IsRefused B) (run B R watcher schedule w)
  unfolding run
  run-safe schedule w =
      (Safe-bind _ _ (start-Safe B healthy R) λ names.
          Safe-bind _ _ (learn_units-Safe B R healthy watcher.settings sound names)
            (λ _. serve-Safe schedule)).at
        w
