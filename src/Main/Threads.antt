-- ===== src/Main/Threads.antt =====
-- src/main.rs: `handle_no_subcommand`. A thread is a watcher in a world of its own; joining one
-- that is still running blocks.
use killjoy.Base.{String, ℕ, Option, none, some, Bool, List, [], ◌∷◌, map, is_empty, if◌then◌else◌}
use killjoy.Error.{Error, Result, ok, err}
use killjoy.Exec.{Outcome, returned, raised, panicked, ◌>>=◌}
use killjoy.Dbus.{Dbus, BusType}
use killjoy.Settings.Regex.{RegexCrate}
use killjoy.Settings.Types.{Settings}
use killjoy.Settings.Buses.{get_bus_types}
use killjoy.Settings.Load.{Files, load}
use killjoy.Watcher.World.{World}
use killjoy.Watcher.Run.{new, run}

-- How a computation of the main thread ends, if it does.
pub data Ending (A : Type 0) : Type 0 where
  finished : A → Ending A
  blocked : Ending A
  aborted : String → Ending A

abbrev pub Joined : Type 0
Joined = Outcome (Option (Unit {0}))

abbrev pub consed : Error → Ending (List Error) → Ending (List Error)
consed e (finished es) = finished (e ∷ es)
consed e blocked = blocked
consed e (aborted m) = aborted m

-- The loop over the handles, which pushes the error of each thread that failed.
unfoldable pub join_all : List Joined → Ending (List Error)
join_all [] = finished []
join_all (returned (some _) ∷ handles) = join_all handles
join_all (returned none ∷ handles) = blocked
join_all (raised e ∷ handles) = consed e (join_all handles)
join_all (panicked m ∷ handles) = consed (Error.monitoring_thread_panicked m) (join_all handles)

-- `if errs.is_empty() { Ok(()) } else { Err(errs) }`
unfoldable pub report : Ending (List Error) → Ending (Result (List Error) (Unit {0}))
report (finished errs) = finished (if is_empty errs then ok tt else err errs)
report blocked = blocked
report (aborted m) = aborted m

abbrev pub fresh : World
fresh = record { unit_states = []; trace = [] }

module _ (F : Files) (B : Dbus) (R : RegexCrate)
    (schedule : BusType → List (Option (Dbus.Message B))) where
  -- The body of a thread.
  unfoldable pub monitor : Settings R → Bool → ℕ → BusType → Joined
  monitor settings loop_once loop_timeout bus_type =
      ((new B R bus_type settings loop_once loop_timeout >>= λ watcher.
      run B R watcher (schedule bus_type))
        fresh).0

  -- Spawns and joins the threads.
  unfoldable pub watch_buses : Settings R → Bool → ℕ → Ending (Result (List Error) (Unit {0}))
  watch_buses settings loop_once loop_timeout =
      report
        (join_all (map (monitor settings loop_once loop_timeout) (get_bus_types R settings.rules)))

  unfoldable pub watch_loaded :
      Result Error (Settings R) → Bool → ℕ → Ending (Result (List Error) (Unit {0}))
  watch_loaded (ok settings) loop_once loop_timeout = watch_buses settings loop_once loop_timeout
  watch_loaded (err e) loop_once loop_timeout = finished (err (e ∷ []))

  unfoldable pub handle_no_subcommand : Bool → ℕ → Ending (Result (List Error) (Unit {0}))
  handle_no_subcommand loop_once loop_timeout =
      watch_loaded (load F B R none) loop_once loop_timeout
