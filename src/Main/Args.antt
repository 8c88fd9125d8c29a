-- ===== src/Main/Args.antt =====
-- src/main.rs: the entry point and the subcommands.
use killjoy.Base.{String, ℕ, Option, none, some, Bool, List, [], ◌∷◌, map, ◌==◌, if◌then◌else◌}
use killjoy.Error.{Error, Result, ok, err, ok_or, map_err, ◌>>=◌}
use killjoy.Error.Display.{display}
use killjoy.Exec.{Outcome, returned, raised, panicked}
use killjoy.Dbus.{Dbus, BusType}
use killjoy.Settings.Regex.{RegexCrate}
use killjoy.Settings.Load.{Files, load, get_load_path}
use killjoy.Cli.Clap.{Clap}
use killjoy.Cli.Help.{TextCrates}
use killjoy.Cli.Spec.{get_cli_args}
use killjoy.Main.Threads.{Ending, finished, blocked, aborted, handle_no_subcommand}

-- How a process ends: its exit status, and the lines that its main thread printed.
pub record Exit : Type 0 where
  pub status : ℕ
  pub stdout : List String
  pub stderr : List String

-- A step of the main thread: its result, and the lines that it printed.
abbrev pub Printing : Type 0
Printing = Result Error (Unit {0}) × List String

module _ (F : Files) where
  unfoldable pub printed : Result Error String → Printing
  printed (ok load_path) = (ok tt, load_path ∷ [])
  printed (err e) = (err e, [])

  unfoldable pub handle_settings_load_path_subcommand : Printing
  unfolding printed
  handle_settings_load_path_subcommand = printed (get_load_path F)

module _ (C : Clap) where
  open C use {ArgMatches, subcommand_of, get_bool, get_u32, get_text}

  unfoldable pub get_loop_timeout : ArgMatches → Result Error ℕ
  get_loop_timeout args = ok_or Error.missing_loop_timeout_arg (get_u32 args "loop-timeout")

  module _ (F : Files) (B : Dbus) (R : RegexCrate) where
    unfoldable pub handle_settings_validate_subcommand : ArgMatches → Result Error (Unit {0})
    handle_settings_validate_subcommand args = do _ ← load F B R (get_text args "path"); ok tt

    -- The `match` on the subcommand of `settings`.
    unfoldable pub handle_settings_command : Option (String × ArgMatches) → Printing
    handle_settings_command none = (err (Error.unexpected_subcommand none), [])
    handle_settings_command (some (name, sub_args)) =
        if name == "load-path"
        then handle_settings_load_path_subcommand F
        else if name == "validate"
        then (handle_settings_validate_subcommand sub_args, [])
        else (err (Error.unexpected_subcommand (some name)), [])

    unfoldable pub handle_settings_subcommand : ArgMatches → Printing
    unfolding handle_settings_command
    handle_settings_subcommand args = handle_settings_command (subcommand_of args)

    module _ (schedule : BusType → List (Option (Dbus.Message B))) where
      -- `unwrap`, and what follows it.
      unfoldable pub watch_with :
          Option Bool → Result Error ℕ → Ending (Result (List Error) (Unit {0}))
      watch_with none _ = aborted "called `Option::unwrap()` on a `None` value"
      watch_with (some loop_once) (err e) = finished (err (e ∷ []))
      watch_with (some loop_once) (ok loop_timeout) =
          handle_no_subcommand F B R schedule loop_once loop_timeout

      -- The branch of `handle_args` without a known subcommand.
      unfoldable pub handle_watch : ArgMatches → Ending (Result (List Error) (Unit {0}))
      unfolding watch_with
      handle_watch args = watch_with (get_bool args "loop-once") (get_loop_timeout args)

      -- The `match` of `handle_args`.
      unfoldable pub handle_command :
          ArgMatches
          → Option (String × ArgMatches)
          → Ending (Result (List Error) (Unit {0})) × List String
      handle_command args none = (handle_watch args, [])
      handle_command args (some (name, sub_args)) =
          if name == "settings"
          then (let (result, lines) = handle_settings_subcommand sub_args in
              (finished (map_err (λ e. e ∷ []) result), lines))
          else (handle_watch args, [])

      unfoldable pub handle_matches :
          Outcome ArgMatches → Ending (Result (List Error) (Unit {0})) × List String
      unfolding handle_command
      handle_matches (returned args) = handle_command args (subcommand_of args)
      handle_matches (raised e) = (finished (err (e ∷ [])), [])
      handle_matches (panicked m) = (aborted m, [])

      unfoldable pub handle_args :
          TextCrates
          → (crate_version : String) → List String
          → Ending (Result (List Error) (Unit {0})) × List String
      unfolding handle_matches
      handle_args X crate_version argv = handle_matches (get_cli_args X C crate_version argv)

      unfoldable pub exit_of : Ending (Result (List Error) (Unit {0})) × List String → Ending Exit
      exit_of (finished (ok _), lines) =
          finished (record { status = 0; stdout = lines; stderr = [] })
      exit_of (finished (err errs), lines) =
          finished (record { status = 1; stdout = lines; stderr = map display errs })
      exit_of (blocked, lines) = blocked
      exit_of (aborted m, lines) = aborted m

      unfoldable pub main : TextCrates → (crate_version : String) → List String → Ending Exit
      unfolding exit_of
      main X crate_version argv = exit_of (handle_args X crate_version argv)
