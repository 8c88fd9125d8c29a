-- ===== src/Tests/Watchers.antt =====
-- A watcher on the bus of the tests, and the theorems on watchers at it.
use mathlib.Core.Path.{subst}
use killjoy.Base.{
  String, ◌==◌, Option, none, some, true, List, [], ◌∷◌, if◌then◌else◌, ◌≡◌, refl, ◌↔◌, In, arith,
  map, replace_char,
}
use killjoy.Base.Dict.{lookup}
use killjoy.ActiveState.{active, failed}
use killjoy.Error.{ok}
use killjoy.Exec.Safe.{Allows}
use killjoy.Unit.Machine.{UnitStateMachine}
use killjoy.Dbus.{Dbus, session}
use killjoy.Settings.Types.{Notifier}
use killjoy.Settings.Matching.{Denotes}
use killjoy.Watcher.World.{World}
use killjoy.Watcher.Names.{cast_bus_name_to_path}
use killjoy.Watcher.Notify.{interested, gen_on_change}
use killjoy.Watcher.Units.{upsert_machine}
use killjoy.Watcher.Run.{BusWatcher, run}
use killjoy.Watcher.Ordered.Calls.{IsOrdered}
use killjoy.Watcher.Ordered.Signals.{run-Ordered}
use killjoy.Watcher.Interest.{In-interested}
use killjoy.Watcher.Newest.{newest_first}
use killjoy.Watcher.Delivery.{Address, HasAddress, IsUp, letter, labels, Sends, gen_on_change-Sends}
use killjoy.Watcher.Safety.Errors.{IsRuntime, IsHealthy, IsRefused}
use killjoy.Watcher.Safety.Running.{run-safe}
use killjoy.Watcher.Machines.Aside.{gen_on_change-IsAside}
use killjoy.Watcher.Machines.Upsert.{observed, upsert_machine-lookup}
use killjoy.Tests.Bus.{demo, Packet, str, path, props, strs, web_failure}
use killjoy.Tests.Crates.{literal}
use killjoy.Tests.Rules.{settings, log, watch_services, sound}

abbrev pub watcher : BusWatcher literal
watcher = record { loop_once = true; loop_timeout = 10000; settings = settings }

-- web.service fails.
abbrev pub failure : Packet
failure = record {
  name = "PropertiesChanged";
  interface = "org.freedesktop.DBus.Properties";
  origin = some "/web";
  arguments = str "org.freedesktop.systemd1.Unit" ∷ props web_failure ∷ strs [] ∷ [];
}

abbrev pub schedule : List (Option Packet)
schedule = some failure ∷ none ∷ []

abbrev pub nothing : World
nothing = record { unit_states = []; trace = [] }

run-Ordered_example : IsOrdered demo (run demo literal watcher schedule nothing).1.trace
run-Ordered_example = run-Ordered demo literal watcher schedule nothing tt

abbrev pub systemd : String
systemd = "/org/freedesktop/systemd1"

pub systemd_path : Dbus.path_new demo systemd ≡ ok systemd
unfolding replace_char
systemd_path = refl

pub healthy : IsHealthy demo
healthy = record {
  bus_name = ("org.freedesktop.systemd1", refl);
  path = (systemd, systemd_path);
  interface = ("name.jerebear.KilljoyNotifier1", refl);
  member = ("Notify", refl);
}

-- A unit of interest goes whose changes were never subscribed to.
abbrev removed : Packet
removed = record {
  name = "UnitRemoved";
  interface = "org.freedesktop.systemd1.Manager";
  origin = some "/org/freedesktop/systemd1";
  arguments = str "db.service" ∷ path "/db" ∷ [];
}

run-safe_example :
    Allows IsRuntime (IsRefused demo) (run demo literal watcher (some removed ∷ schedule) nothing)
run-safe_example = run-safe demo literal healthy watcher sound (some removed ∷ schedule) nothing

In-interested_example : In watch_services (interested literal settings "web.service" failed) ↔ (
    In watch_services settings.rules
    × Denotes literal watch_services.expression "web.service"
    × In failed watch_services.active_states)
In-interested_example = In-interested literal settings "web.service" failed watch_services

pub up : IsUp demo
up = record { interface = refl; member = refl; connects = λ t b. refl }

abbrev pub log_address : String → Address
log_address name = record { bus = session; bus_name = "org.log"; path = "/org/log" }

log_listed : (name : String) (n : Notifier) → lookup name settings.notifiers ≡ some n → log ≡ n
unfolding lookup
log_listed name n h = ground arith

log_address_lem : (name : String) → HasAddress demo log (log_address name)
unfolding cast_bus_name_to_path replace_char
log_address_lem name = record { bus = refl; name = refl; path = refl }

pub log_reached :
    (name : String) (n : Notifier)
    → lookup name settings.notifiers ≡ some n
    → HasAddress demo n (log_address name)
log_reached name n h =
    subst (λ m. HasAddress demo m (log_address name)) (log_listed name n h) (log_address_lem name)

abbrev broken : UnitStateMachine
broken = record { active_state = failed; mono_ts = 9 }

gen_on_change-Sends_example :
    Sends
      (map
        (λ name. letter "web.service" 1800 (newest_first failed (some active)) (log_address name))
        (labels (interested literal settings "web.service" failed)))
      nothing
      (gen_on_change demo literal settings "web.service" 1800 broken (some active) nothing)
gen_on_change-Sends_example =
    gen_on_change-Sends demo literal up settings sound log_address log_reached "web.service" 1800
      broken (some active) nothing

abbrev pub known : World
known = record {
  unit_states = ("web.service", record { active_state = active; mono_ts = 7 }) ∷ [];
  trace = [];
}

upsert_machine-lookup_example :
    let after =
      upsert_machine "web.service" failed 9
        (gen_on_change demo literal settings "web.service" 1800)
        (lookup "web.service" known.unit_states)
        known in
    lookup "web.service" after.1.unit_states ≡ (
      if "web.service" == "web.service"
      then observed after.0 broken (lookup "web.service" known.unit_states)
      else lookup "web.service" known.unit_states)
upsert_machine-lookup_example =
    upsert_machine-lookup "web.service" failed 9
      (gen_on_change demo literal settings "web.service" 1800) known "web.service"
      (gen_on_change-IsAside demo literal settings "web.service" 1800)
