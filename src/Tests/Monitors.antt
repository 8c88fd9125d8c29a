-- ===== src/Tests/Monitors.antt =====
-- The specification of a watcher, and the theorems on it at the watcher of the tests.
use killjoy.Base.{none, some, [], ◌∷◌, ◌≡◌, refl, In, All, arith, inl}
use killjoy.Base.Dict.{lookup}
use killjoy.ActiveState.{active, failed, state_eq}
use killjoy.Exec.{◌>>=◌}
use killjoy.Unit.State.{try_from}
use killjoy.Unit.Machine.{UnitStateMachine}
use killjoy.Dbus.{BusType, Notification}
use killjoy.Generated.Client.{get}
use killjoy.Generated.Signals.{
  PropertiesChanged, unit_new_from_message, unit_removed_from_message,
  properties_changed_from_message, get_properties_changed,
}
use killjoy.Timestamp.{
  get_monotonic_timestamp_key, get_realtime_timestamp_key, get_monotonic_timestamp,
  get_realtime_timestamp,
}
use killjoy.Settings.Types.{matches}
use killjoy.Watcher.World.{invoke}
use killjoy.Watcher.Names.{wrap_bus_name_for_systemd, get_conn_path}
use killjoy.Watcher.Rules.{
  get_active_state, get_rules_matching_name, get_rules_matching_active_state,
}
use killjoy.Watcher.Notify.{interested}
use killjoy.Watcher.Handlers.{get_unit_id}
use killjoy.Watcher.Run.{serve, run}
use killjoy.Watcher.Newest.{newest_first}
use killjoy.Watcher.Delivery.{letter, labels, sent}
use killjoy.Watcher.Monitor.{view, letters, Steps}
use killjoy.Watcher.Monitor.Serving.{run-Steps}
use killjoy.Watcher.Monitor.Letters.{IsDue, run-IsDue}
use killjoy.Watcher.Alert.News.{IsNews}
use killjoy.Watcher.Alert.Serving.{polled, serve-Alerts}
use killjoy.Tests.Bus.{demo, Value, web_failure}
use killjoy.Tests.Crates.{literal}
use killjoy.Tests.Rules.{settings, sound}
use killjoy.Tests.Watchers.{
  watcher, failure, schedule, nothing, known, up, log_address, log_reached,
}

run-Steps_example :
    Steps demo literal settings log_address
      (record { board = λ k. none; outbox = sent nothing.trace })
      (view (run demo literal watcher schedule nothing).1)
run-Steps_example =
    run-Steps demo literal up watcher sound log_address log_reached schedule nothing refl

unsent : sent nothing.trace ≡ []
unfolding sent
unsent = refl

run-IsDue_example :
    All
      (IsDue demo literal settings log_address)
      (sent (run demo literal watcher schedule nothing).1.trace)
run-IsDue_example =
    run-IsDue demo literal up watcher sound log_address log_reached schedule nothing refl unsent

abbrev before : UnitStateMachine
before = record { active_state = active; mono_ts = 7 }

abbrev after : UnitStateMachine
after = record { active_state = failed; mono_ts = 9 }

abbrev body : PropertiesChanged Value
body = record {
  interface = "org.freedesktop.systemd1.Unit";
  changed_properties = web_failure;
  invalidated_properties = [];
}

not_new : unit_new_from_message demo failure ≡ none
unfolding unit_new_from_message
not_new = refl

not_removed : unit_removed_from_message demo failure ≡ none
unfolding unit_removed_from_message
not_removed = refl

is_changed : properties_changed_from_message demo failure ≡ some body
unfolding properties_changed_from_message get_properties_changed
is_changed = refl

news :
    IsNews demo literal settings (polled watcher known) failure body "web.service" before after 1800
unfolding get_unit_id get_conn_path wrap_bus_name_for_systemd invoke get ◌>>=◌ get_active_state
    lookup try_from get_monotonic_timestamp get_realtime_timestamp get_monotonic_timestamp_key
    get_realtime_timestamp_key
news = record {
  path = "/web";
  interface = refl;
  from = refl;
  named = refl;
  state = refl;
  real = refl;
  mono = refl;
  known = refl;
  newer = omega arith;
  other = λ e. absurd (ground arith);
}

abbrev alarm : BusType × Notification
alarm = letter "web.service" 1800 (newest_first failed (some active)) (log_address "log")

alarm_due :
    In alarm (letters demo literal settings log_address "web.service" 1800 after (some active))
unfolding letters labels interested get_rules_matching_name get_rules_matching_active_state matches
    state_eq
alarm_due = inl refl

serve-Alerts_example : In alarm (sent (serve demo literal watcher schedule known).1.trace)
serve-Alerts_example =
    serve-Alerts demo literal up watcher sound log_address log_reached failure body (none ∷ [])
      known "web.service" before after 1800 not_new not_removed is_changed news alarm alarm_due
