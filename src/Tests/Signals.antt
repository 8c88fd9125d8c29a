-- ===== src/Tests/Signals.antt =====
-- The theorems on the signal loop, at the watcher of the tests.
use killjoy.Base.{
  String, none, some, true, false, List, [], ◌∷◌, ◌++◌, map, ◌≡◌, ◌≢◌, refl, ◌⊎◌, All, arith,
  replace_char,
}
use killjoy.Base.Dict.{lookup}
use killjoy.ActiveState.{active}
use killjoy.Exec.{returned, ◌>>=◌}
use killjoy.Unit.Machine.{UnitStateMachine}
use killjoy.Dbus.{BusType, system}
use killjoy.Generated.Client.{subscribe, list_units}
use killjoy.Generated.Signals.{
  UnitRemoved, unit_removed_from_message, unit_new_match_str, unit_removed_match_str,
}
use killjoy.Settings.Types.{Rule}
use killjoy.Watcher.World.{World, ask, tell, invoke, set_unit_states}
use killjoy.Watcher.Names.{wrap_bus_name_for_systemd, wrap_path_for_systemd, get_conn_path}
use killjoy.Watcher.Rules.{rules_match_name}
use killjoy.Watcher.Manager.{
  unsubscribe_properties_changed, call_manager_subscribe, call_manager_list_units, subscribe_signal,
  subscribe_manager_unit_new, subscribe_manager_unit_removed,
}
use killjoy.Watcher.Handlers.{handle_unit_removed}
use killjoy.Watcher.Run.{BusWatcher, serve, run, start}
use killjoy.Watcher.BusTypes.{all_moved, run_moved}
use killjoy.Watcher.Loop.{HasEnded, serve_forever, serve_once}
use killjoy.Watcher.Removal.{Removes, handle_unit_removed-Removes}
use killjoy.Watcher.Starting.{starting_calls, start-trace}
use killjoy.Watcher.Machines.Tracked.{IsTracked, IsOther}
use killjoy.Watcher.Machines.Serving.{serve-IsTracked}
use killjoy.Tests.Bus.{demo}
use killjoy.Tests.Crates.{literal}
use killjoy.Tests.Rules.{settings}
use killjoy.Tests.Watchers.{watcher, failure, schedule, nothing, systemd, systemd_path}
use killjoy.Generated.Signals.{PropertiesChanged}
use killjoy.Watcher.Handlers.{handle_properties_changed}
use killjoy.Watcher.Unchanged.{IsQuiet, handle_properties_changed-IsQuiet}
use killjoy.Tests.Bus.{Value, number}

abbrev to_system : Rule literal → BusType
to_system rule = system

run_moved_example :
    run demo literal
      (record watcher { settings = all_moved literal to_system watcher.settings })
      schedule
    ≡ run demo literal watcher schedule
run_moved_example = run_moved literal to_system demo watcher schedule

abbrev running : UnitStateMachine
running = record { active_state = active; mono_ts = 7 }

abbrev known : World
known = record { unit_states = ("web.service", running) ∷ []; trace = [] }

no_removal : All (IsOther demo "web.service") schedule
unfolding unit_removed_from_message
no_removal = (λ m e. absurd (ground arith), (tt, tt))

tracked : lookup "web.service" known.unit_states ≡ some running
unfolding lookup
tracked = refl

serve-IsTracked_example :
    IsTracked "web.service" running (serve demo literal watcher schedule known).1
serve-IsTracked_example =
    serve-IsTracked "web.service" running demo literal watcher schedule known no_removal tracked

abbrev tireless : BusWatcher literal
tireless = record watcher { loop_once = false }

serve_forever_example : (serve demo literal tireless schedule known).0 ≢ returned (some tt)
serve_forever_example = serve_forever demo literal tireless refl schedule known

serve_once_example :
    HasEnded (serve demo literal watcher (map some (failure ∷ []) ++ none ∷ schedule) known).0
    × (serve demo literal watcher (map some (failure ∷ []) ++ none ∷ schedule) known
        ≡ serve demo literal watcher (map some (failure ∷ []) ++ none ∷ []) known)
serve_once_example = serve_once demo literal watcher refl (failure ∷ []) schedule known

abbrev removal : UnitRemoved
removal = record { arg0 = "web.service"; arg1 = "/web" }

handle_unit_removed-Removes_example :
    (rules_match_name literal settings.rules "web.service" ≡ false
      × (handle_unit_removed demo literal settings removal known ≡ (returned tt, known)))
    ⊎ (rules_match_name literal settings.rules "web.service" ≡ true
        × Removes "web.service"
            (unsubscribe_properties_changed demo "/web" known).0
            known.unit_states
            (handle_unit_removed demo literal settings removal known))
handle_unit_removed-Removes_example =
    handle_unit_removed-Removes demo literal settings removal known

abbrev extant : List String
extant = "web.service" ∷ "ntp.timer" ∷ []

started : (start demo literal nothing).0 ≡ returned extant
unfolding start call_manager_subscribe call_manager_list_units subscribe_manager_unit_new
    subscribe_manager_unit_removed subscribe_signal wrap_bus_name_for_systemd wrap_path_for_systemd
    get_conn_path ask tell invoke set_unit_states subscribe list_units ◌>>=◌ replace_char
    unit_new_match_str unit_removed_match_str
started = refl

start-trace_example :
    (start demo literal nothing).1.trace
    ≡ starting_calls demo "org.freedesktop.systemd1" systemd refl systemd_path ++ []
start-trace_example =
    start-trace demo "org.freedesktop.systemd1" systemd refl systemd_path literal nothing extant
      started

-- Only the memory of web.service has changed.
abbrev memory : PropertiesChanged Value
memory = record {
  interface = "org.freedesktop.systemd1.Unit";
  changed_properties = ("MemoryCurrent", number 4096) ∷ [];
  invalidated_properties = [];
}

no_state : lookup "ActiveState" memory.changed_properties ≡ none
unfolding lookup
no_state = refl

handle_properties_changed-IsQuiet_example :
    IsQuiet known (handle_properties_changed demo literal settings failure memory known)
handle_properties_changed-IsQuiet_example =
    handle_properties_changed-IsQuiet demo literal settings failure memory known no_state
