-- ===== src/Watcher/Ordered/Signals.antt =====
-- The order of the calls over the handlers and the whole run.
use killjoy.Base.{String, ◌≢◌, Option, List, [], ◌∷◌, arith, eq_iff}
use killjoy.Error.{Error, Result, ok, err, ExternError}
use killjoy.Exec.Keeps.{Keeps, Keeps-bind}
use killjoy.Dbus.{Dbus, ConnPath}
use killjoy.Generated.Client.{get, get_unit, list_units, subscribe}
use killjoy.Generated.Signals.{UnitNew, UnitRemoved, PropertiesChanged}
use killjoy.Generated.Trace.{get-trace, get_unit-trace, list_units-trace, subscribe-trace}
use killjoy.Settings.Regex.{RegexCrate}
use killjoy.Settings.Types.{Settings}
use killjoy.Watcher.World.{World, invoke}
use killjoy.Watcher.Manager.{
  call_manager_get_unit, call_manager_subscribe, call_manager_list_units, subscribe_signal,
  subscribe_manager_unit_new, subscribe_manager_unit_removed, unsubscribe_properties_changed,
}
use killjoy.Watcher.Units.{forget_unit_state}
use killjoy.Watcher.Handlers.{
  forget_or_panic, handle_unit_new, handle_unit_removed, get_unit_id, handle_properties_changed,
  handle_message,
}
use killjoy.Watcher.Run.{BusWatcher, track_if_loaded, learn_unit, learn_units, serve, start, run}
use killjoy.Watcher.Looping.{message-Keeps, serve_any-Keeps}
use killjoy.Watcher.Ordered.Calls.{
  IsOrdered, Ordered, Keeps-tell, Keeps-invoke, poll-IsQuiet, method_call-IsQuiet,
}
use killjoy.Watcher.Ordered.Quiet.{quiet_rules}
use killjoy.Watcher.Ordered.Track.{track-Ordered, upsert-Ordered}

get_is_not_get_all : ◌≢◌ {A = String} "Get" "GetAll"
get_is_not_get_all = ground (arith, eq_iff "Get" "GetAll")

get_unit_is_not_get_all : ◌≢◌ {A = String} "GetUnit" "GetAll"
get_unit_is_not_get_all = ground (arith, eq_iff "GetUnit" "GetAll")

list_units_is_not_get_all : ◌≢◌ {A = String} "ListUnits" "GetAll"
list_units_is_not_get_all = ground (arith, eq_iff "ListUnits" "GetAll")

subscribe_is_not_get_all : ◌≢◌ {A = String} "Subscribe" "GetAll"
subscribe_is_not_get_all = ground (arith, eq_iff "Subscribe" "GetAll")

module _ (B : Dbus) where
  get-Ordered :
      (c : ConnPath) (interface property : String) (f : ExternError → Error)
      → Keeps (Ordered B) (invoke (get B c interface property) f)
  get-Ordered c interface property f =
      Keeps-invoke B _ _ f (get-trace B c interface property)
        (method_call-IsQuiet c _ _ _ get_is_not_get_all)

  get_unit-Ordered :
      (c : ConnPath) (name : String) (f : ExternError → Error)
      → Keeps (Ordered B) (invoke (get_unit B c name) f)
  get_unit-Ordered c name f =
      Keeps-invoke B _ _ f (get_unit-trace B c name)
        (method_call-IsQuiet c _ _ _ get_unit_is_not_get_all)

  list_units-Ordered :
      (c : ConnPath) (f : ExternError → Error) → Keeps (Ordered B) (invoke (list_units B c) f)
  list_units-Ordered c f =
      Keeps-invoke B _ _ f (list_units-trace B c)
        (method_call-IsQuiet c _ _ _ list_units_is_not_get_all)

  subscribe-Ordered :
      (c : ConnPath) (f : ExternError → Error) → Keeps (Ordered B) (invoke (subscribe B c) f)
  subscribe-Ordered c f =
      Keeps-invoke B _ _ f (subscribe-trace B c)
        (method_call-IsQuiet c _ _ _ subscribe_is_not_get_all)

  call_get_unit-Ordered : (name : String) → Keeps (Ordered B) (call_manager_get_unit B name)
  unfolding call_manager_get_unit
  call_get_unit-Ordered name = search (quiet_rules, get_unit-Ordered)

  call_subscribe-Ordered : Keeps (Ordered B) (call_manager_subscribe B)
  unfolding call_manager_subscribe
  call_subscribe-Ordered = search (quiet_rules, subscribe-Ordered)

  call_list_units-Ordered : Keeps (Ordered B) (call_manager_list_units B)
  unfolding call_manager_list_units
  call_list_units-Ordered = search (quiet_rules, list_units-Ordered)

  unit_new-Ordered : Keeps (Ordered B) (subscribe_manager_unit_new B)
  unfolding subscribe_manager_unit_new subscribe_signal
  unit_new-Ordered = search (quiet_rules)

  unit_removed-Ordered : Keeps (Ordered B) (subscribe_manager_unit_removed B)
  unfolding subscribe_manager_unit_removed subscribe_signal
  unit_removed-Ordered = search (quiet_rules)

  unsubscribe-Ordered : (path : String) → Keeps (Ordered B) (unsubscribe_properties_changed B path)
  unfolding unsubscribe_properties_changed
  unsubscribe-Ordered path = search (quiet_rules)

  forget_or_panic-Ordered :
      (name : String) (r : Result Error (Unit {0})) → Keeps (Ordered B) (forget_or_panic name r)
  unfolding forget_or_panic forget_unit_state
  forget_or_panic-Ordered name (ok _) = search quiet_rules
  forget_or_panic-Ordered name (err e) = search quiet_rules

module _ (B : Dbus) (R : RegexCrate) (settings : Settings R) where
  handle_unit_new-Ordered : (m : UnitNew) → Keeps (Ordered B) (handle_unit_new B R settings m)
  unfolding handle_unit_new
  handle_unit_new-Ordered m = search (quiet_rules, track-Ordered)

  handle_unit_removed-Ordered :
      (m : UnitRemoved) → Keeps (Ordered B) (handle_unit_removed B R settings m)
  unfolding handle_unit_removed
  handle_unit_removed-Ordered m = search (quiet_rules, unsubscribe-Ordered, forget_or_panic-Ordered)

  get_unit_id-Ordered : (path : String) → Keeps (Ordered B) (get_unit_id B R settings path)
  unfolding get_unit_id
  get_unit_id-Ordered path = search (quiet_rules, get-Ordered)

  handle_properties_changed-Ordered :
      (msg : Dbus.Message B) (m : PropertiesChanged (Dbus.RefArg B))
      → Keeps (Ordered B) (handle_properties_changed B R settings msg m)
  unfolding handle_properties_changed
  handle_properties_changed-Ordered msg m =
      search (quiet_rules, get_unit_id-Ordered, upsert-Ordered) depth 8

  pub handle_message-Ordered :
      (msg : Dbus.Message B) → Keeps (Ordered B) (handle_message B R settings msg)
  handle_message-Ordered msg =
      message-Keeps (Ordered B) B R settings msg handle_unit_new-Ordered
        (λ m removed. handle_unit_removed-Ordered m) (handle_properties_changed-Ordered msg)

  track_if_loaded-Ordered :
      (name : String) (r : Result Error String)
      → Keeps (Ordered B) (track_if_loaded B R settings name r)
  unfolding track_if_loaded
  track_if_loaded-Ordered name (ok path) = track-Ordered B R settings name path
  track_if_loaded-Ordered name (err e) = search quiet_rules

  learn_unit-Ordered : (name : String) → Keeps (Ordered B) (learn_unit B R settings name)
  unfolding learn_unit
  learn_unit-Ordered name = search (quiet_rules, call_get_unit-Ordered, track_if_loaded-Ordered)

  learn_units-Ordered : (names : List String) → Keeps (Ordered B) (learn_units B R settings names)
  unfolding learn_units
  learn_units-Ordered [] = search quiet_rules
  learn_units-Ordered (name ∷ names) =
      Keeps-bind (learn_unit B R settings name) _ (learn_unit-Ordered name)
        (λ _. learn_units-Ordered names)

module _ (B : Dbus) (R : RegexCrate) where
  start-Ordered : Keeps (Ordered B) (start B R)
  unfolding start
  start-Ordered =
      search
        (
          quiet_rules, call_subscribe-Ordered, unit_removed-Ordered, unit_new-Ordered,
          call_list_units-Ordered,
        )
        depth 9

  serve-Ordered :
      (watcher : BusWatcher R) (schedule : List (Option (Dbus.Message B)))
      → Keeps (Ordered B) (serve B R watcher schedule)
  serve-Ordered watcher schedule =
      serve_any-Keeps (Ordered B) B R watcher (Keeps-tell B _ (poll-IsQuiet _))
        (handle_message-Ordered B R watcher.settings) schedule

  -- At every moment of a run, whatever systemd and the bus answer and whichever signals arrive,
  -- each call of GetAll comes after a subscription to the changes of the same object.
  pub run-Ordered :
      (watcher : BusWatcher R) (schedule : List (Option (Dbus.Message B))) (w : World)
      → IsOrdered B w.trace
      → IsOrdered B (run B R watcher schedule w).1.trace
  unfolding run
  run-Ordered watcher schedule w h =
      (Keeps-bind _ _ start-Ordered (λ names.
          Keeps-bind _ _ (learn_units-Ordered B R watcher.settings names)
            (λ _. serve-Ordered watcher schedule))).at
        w h
