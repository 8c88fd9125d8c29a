-- ===== src/Tests/Commands.antt =====
-- Command lines, and the theorems on the main thread at them.
use killjoy.Base.{
  length, ◌≤◌, true, Option, some, List, [], ◌∷◌, any, All, if◌then◌else◌, ◌≡◌, refl, ◌↔◌,
}
use killjoy.Error.{Error, ok, err}
use killjoy.Exec.{returned, raised, panicked, pure, ◌>>=◌}
use killjoy.Main.Threads.{finished, blocked, Joined, join_all, report, monitor, watch_buses}
use killjoy.Main.Joining.{is_running, failures, join_all_lem, report-join_all}
use killjoy.Dbus.{Dbus, BusType}
use killjoy.Main.Bounds.{watch_buses-errors}
use killjoy.Watcher.World.{ask}
use killjoy.Watcher.Run.{new, run}
use killjoy.Tests.Rules.{settings}
use killjoy.Settings.Buses.{get_bus_types, collect_set, from_bus_type, into_bus_type, bus_eq}
use killjoy.Cli.Help.{re, expect_regex}
use killjoy.Main.Args.{handle_args}
use killjoy.Main.Ends.{EndsWell}
use killjoy.Main.Safety.{handle_args-EndsWell}
use killjoy.Tests.Bus.{demo, Packet}
use killjoy.Tests.Crates.{literal, disk, plain, forms}
use killjoy.Tests.Lawful.{lawful}
use killjoy.Tests.Watchers.{healthy, schedule}
use killjoy.Cli.Help.{trim, trim_start, trim_end, is_whitespace, between}

-- One thread has ended well, one has panicked and one has failed.
abbrev ends : List Joined
ends = returned (some tt) ∷ panicked "boom" ∷ raised Error.cast_unit_id ∷ []

join_all_lem_example :
    join_all ends ≡ (if any is_running ends then blocked else finished (failures ends))
join_all_lem_example = join_all_lem ends

report-join_all_example :
    (report (join_all ends) ≡ finished (ok tt)) ↔ All (λ h. h ≡ returned (some tt)) ends
report-join_all_example = report-join_all ends

two_errors :
    report (join_all ends)
    ≡ finished (err (Error.monitoring_thread_panicked "boom" ∷ Error.cast_unit_id ∷ []))
unfolding report join_all
two_errors = refl

pattern_text : re plain ≡ returned "(?P<pre>\\S)\\n(?P<post>\\S)"
unfolding re expect_regex
pattern_text = refl

abbrev schedules : BusType → List (Option Packet)
schedules b = schedule

-- The session bus cannot be reached.
abbrev unreachable : Dbus
unreachable = record demo { get_private = λ t b. err (record { text = "no bus" }) }

abbrev lost : List Error
lost = Error.connect_to_bus (record { text = "no bus" }) ∷ []

unreached : watch_buses disk unreachable literal schedules settings true 10000 ≡ finished (err lost)
unfolding watch_buses join_all report monitor new run ask get_bus_types collect_set from_bus_type
    into_bus_type bus_eq pure ◌>>=◌
unreached = refl

watch_buses-errors_example : (1 ≤ length lost) × (length lost ≤ 3)
watch_buses-errors_example =
    watch_buses-errors disk unreachable literal schedules settings true 10000 lost unreached

handle_args-EndsWell_example :
    EndsWell demo
      (handle_args forms disk demo literal schedules plain "0.2.2" ("--loop-once" ∷ [])).0
handle_args-EndsWell_example =
    handle_args-EndsWell disk demo literal healthy schedules plain forms "0.2.2"
      "(?P<pre>\\S)\\n(?P<post>\\S)" pattern_text (lawful _) ("--loop-once" ∷ [])

trimmed : trim " a b\n" ≡ "a b"
unfolding trim trim_start trim_end is_whitespace between
trimmed = refl
