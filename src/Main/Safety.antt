-- ===== src/Main/Safety.antt =====
-- How the process can end.
use killjoy.Base.{
  String, ℕ, Option, none, some, Bool, List, [], ◌∷◌, map, All, ◌≡◌, refl, arith, inl, inr,
}
use killjoy.Error.{Error, Result, ok, err, map_err, Result-cases, ExternResult}
use killjoy.Exec.{returned, pure, and_then, ◌>>=◌ as ◌then◌}
use killjoy.Exec.Safe.{Allows}
use killjoy.Dbus.{Dbus, BusType}
use killjoy.Settings.Regex.{RegexCrate}
use killjoy.Settings.Types.{Settings}
use killjoy.Settings.Sound.{IsSound}
use killjoy.Settings.Buses.{get_bus_types}
use killjoy.Settings.Load.{Files, load, load-IsSound}
use killjoy.Watcher.World.{World, ask, or_raise}
use killjoy.Watcher.Run.{BusWatcher, new, run}
use killjoy.Watcher.Safety.Errors.{IsRuntime, IsHealthy, IsRefused}
use killjoy.Watcher.Safety.Running.{run-safe}
use killjoy.Cli.Clap.{Clap, IsLawful}
use killjoy.Cli.Help.{TextCrates, HelpMessages, re, gen_help_messages}
use killjoy.Cli.Spec.{killjoy_command, settings_command, get_cli_args, matched}
use killjoy.Main.Threads.{finished, monitor, watch_buses, watch_loaded, handle_no_subcommand}
use killjoy.Main.Args.{
  Printing, printed, handle_settings_load_path_subcommand, get_loop_timeout,
  handle_settings_validate_subcommand, handle_settings_command, handle_settings_subcommand,
  watch_with, handle_watch, handle_command, handle_matches, handle_args,
}
use killjoy.Main.Expected.{Within, Fails-bind, load-Fails, get_load_path-Fails}
use killjoy.Main.Ends.{EndsWell, IsEnd, Allows-IsEnd, join_all-Joins, report-EndsWell}

module _ (F : Files) (B : Dbus) (R : RegexCrate) (healthy : IsHealthy B)
    (schedule : BusType → List (Option (Dbus.Message B))) where
  module _ (settings : Settings R) (sound : IsSound B R settings) (loop_once : Bool)
      (loop_timeout : ℕ) where
    abbrev watcher : BusWatcher R
    watcher = record { loop_once = loop_once; loop_timeout = loop_timeout; settings = settings }

    connected-Allows :
        (bus_type : BusType) (r : ExternResult (Unit {0})) (w : World)
        → Allows IsRuntime (IsRefused B) (
            and_then
              (and_then (or_raise r Error.connect_to_bus, w) (λ _. pure watcher))
              (λ watcher. run B R watcher (schedule bus_type)))
    unfolding pure
    connected-Allows bus_type (ok _) w = run-safe B R healthy watcher sound (schedule bus_type) w
    connected-Allows bus_type (err x) w = tt

    monitor-IsEnd :
        (bus_type : BusType)
        → IsEnd B (monitor F B R schedule settings loop_once loop_timeout bus_type)
    unfolding monitor new ask ◌then◌
    monitor-IsEnd bus_type =
        Allows-IsEnd B _ (connected-Allows bus_type (Dbus.get_private B [] bus_type) _)

    monitors-IsEnd :
        (buses : List BusType)
        → All (IsEnd B) (map (monitor F B R schedule settings loop_once loop_timeout) buses)
    monitors-IsEnd [] = tt
    monitors-IsEnd (b ∷ bs) = (monitor-IsEnd b, monitors-IsEnd bs)

    watch_buses-EndsWell : EndsWell B (watch_buses F B R schedule settings loop_once loop_timeout)
    unfolding watch_buses
    watch_buses-EndsWell =
        report-EndsWell B _ (join_all-Joins B _ (monitors-IsEnd (get_bus_types R settings.rules)))

  pub handle_no_subcommand-EndsWell :
      (loop_once : Bool) (loop_timeout : ℕ)
      → EndsWell B (handle_no_subcommand F B R schedule loop_once loop_timeout)
  unfolding handle_no_subcommand watch_loaded
  handle_no_subcommand-EndsWell loop_once loop_timeout = elim (Result-cases (load F B R none)) [
    | inl (settings, e) ↦
        rw e (
          watch_buses-EndsWell settings (load-IsSound F B R none settings e) loop_once loop_timeout)
    | inr (x, e) ↦ rw e (inl (rw e at ((load-Fails B R F none).at)), tt)
  ]

  module _ (C : Clap) (crate_version : String) (help : HelpMessages)
      (lawful : IsLawful C (killjoy_command crate_version help)) where
    open C use {ArgMatches, subcommand_of, get_bool, get_u32, get_text}
    open lawful use {Comes, comes-subcommand, required, flag, defaulted}

    abbrev SettingsDone : Printing → Type 0
    SettingsDone (r, lines) = Within r

    load_path-Within : (r : Result Error String) → Within r → SettingsDone (printed F r)
    unfolding printed
    load_path-Within (ok path) h = tt
    load_path-Within (err e) h = h

    -- Whatever clap finds below `settings`.
    settings_command-Within :
        (args : ArgMatches) (found : Option (String × ArgMatches))
        → subcommand_of args ≡ found
        → Comes (settings_command help) args
        → SettingsDone (handle_settings_command C F B R found)
    unfolding handle_settings_command handle_settings_load_path_subcommand
        handle_settings_validate_subcommand
    settings_command-Within args none e comes =
        absurd (required (settings_command help) args comes refl e)
    settings_command-Within args (some (name, sub)) e comes =
        elim (comes-subcommand (settings_command help) args name sub comes e) [
          | inl (same, _) ↦ rw (← same) (load_path-Within _ (get_load_path-Fails B R F).at)
          | inr (inl (same, _)) ↦ rw (← same) (
              (Fails-bind (load F B R (get_text sub "path")) (λ _. ok tt) (load-Fails B R F _)
                (λ _. record { at = tt })).at)
          | inr (inr h) ↦ absurd h
        ]

    module _ (args : ArgMatches) (comes : Comes (killjoy_command crate_version help) args) where
      handle_watch-EndsWell : EndsWell B (handle_watch C F B R schedule args)
      unfolding handle_watch watch_with get_loop_timeout killjoy_command
      handle_watch-EndsWell =
          let (flagged, _) = flag (killjoy_command crate_version help) args comes in
          let (_, (numbered, _)) = defaulted (killjoy_command crate_version help) args comes in
          let (loop_once, e) = flagged refl in
          let (loop_timeout, e') = numbered refl (λ q. absurd (ground arith)) in
          rw (e, e') (handle_no_subcommand-EndsWell loop_once loop_timeout)

      settings-EndsWell :
          (r : Result Error (Unit {0})) → Within r → EndsWell B (finished (map_err (λ e. e ∷ []) r))
      settings-EndsWell (ok _) h = tt
      settings-EndsWell (err e) h = (inl h, tt)

      command-EndsWell :
          (found : Option (String × ArgMatches))
          → subcommand_of args ≡ found
          → EndsWell B (handle_command C F B R schedule args found).0
      unfolding handle_command handle_settings_subcommand killjoy_command
      command-EndsWell none e = handle_watch-EndsWell
      command-EndsWell (some (name, sub)) e =
          elim (comes-subcommand (killjoy_command crate_version help) args name sub comes e) [
            | inl (same, comes') ↦
                rw (← same) (
                  settings-EndsWell _ (settings_command-Within sub (subcommand_of sub) refl comes'))
            | inr h ↦ absurd h
          ]

  -- With the help messages' regular expression compiled, clap as documented and valid constants,
  -- the main thread never panics, whatever the arguments, the files, the buses and the signals. If
  -- it fails, then with no error about the arguments or an unknown subcommand, and with a panic of
  -- a thread only where a bus refused that thread to remove a match rule: the panic's message is
  -- that of the handler of UnitRemoved with the bus's error.
  pub handle_args-EndsWell :
      (X : TextCrates) (C : Clap) (crate_version : String) (r : TextCrates.Regex X)
      → re X ≡ returned r
      → IsLawful C (killjoy_command crate_version (gen_help_messages X r))
      → (argv : List String) → EndsWell B (handle_args C F B R schedule X crate_version argv).0
  unfolding handle_args handle_matches get_cli_args matched
  handle_args-EndsWell X C crate_version r e lawful argv =
      let help = gen_help_messages X r in
      let command = killjoy_command crate_version help in
      let args = Clap.get_matches C command argv in
      rw e (
        command-EndsWell C crate_version help lawful args (IsLawful.comes-get_matches lawful argv) _
          refl)
