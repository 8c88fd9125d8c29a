-- ===== src/Cli/Spec.antt =====
-- src/cli.rs: `get_cli_args`, the declaration of the command line.
use killjoy.Base.{String, Option, none, some, List, [], ◌∷◌, true, false}
use killjoy.Exec.{Outcome, returned, raised, panicked}
use killjoy.Cli.Clap.{set, set_true, text, u32, Arg, About, Command, command, end, subcommand, Clap}
use killjoy.Cli.Help.{TextCrates, HelpMessages, re, gen_help_messages}

abbrev pub loop_once_arg : Arg
loop_once_arg = record {
  id = "loop-once";
  long = some "loop-once";
  action = set_true;
  value_parser = text;
  default_value = none;
  help = "FOR DEVELOPMENT ONLY! Run the main loop just once.";
  hide = true;
}

abbrev pub loop_timeout_arg : Arg
loop_timeout_arg = record {
  id = "loop-timeout";
  long = some "loop-timeout";
  action = set;
  value_parser = u32;
  default_value = some "10000";
  help = "FOR DEVELOPMENT ONLY! The main loop message wait timeout, in ms.";
  hide = true;
}

abbrev pub path_arg : Arg
path_arg = record {
  id = "path";
  long = none;
  action = set;
  value_parser = text;
  default_value = none;
  help = "The path to the settings file to validate.";
  hide = false;
}

-- A subcommand that is given no version and no author.
abbrev pub about_sub : (name about : String) → Option String → About
about_sub name about after_help = record {
  name = name;
  version = none;
  author = none;
  about = about;
  max_term_width = none;
  after_help = after_help;
  subcommand_required = false;
}

abbrev pub load_path_command : HelpMessages → Command
load_path_command help =
    command
      (about_sub "load-path" "Print the path to the file from which settings are loaded."
        (some help.settings_load_path))
      [] end

abbrev pub validate_command : HelpMessages → Command
validate_command help =
    command (about_sub "validate" "Validate the settings file." (some help.settings_validate))
      (path_arg ∷ []) end

abbrev pub settings_command : HelpMessages → Command
settings_command help =
    command
      (record (about_sub "settings" "Manage the settings file." none) {
        subcommand_required = true;
      })
      [] (subcommand (load_path_command help) (subcommand (validate_command help) end))

-- `crate_version!` is the version in Cargo.toml.
unfoldable pub killjoy_command : (crate_version : String) → HelpMessages → Command
killjoy_command crate_version help =
    command
      (record {
        name = "killjoy";
        version = some crate_version;
        author = some "Jeremy Audet <jerebear@protonmail.com>";
        about = "Monitor systemd units.";
        max_term_width = some 100;
        after_help = none;
        subcommand_required = false;
      })
      (loop_once_arg ∷ loop_timeout_arg ∷ []) (subcommand (settings_command help) end)

module _ (X : TextCrates) (C : Clap) where
  open C use {ArgMatches, get_matches}

  unfoldable pub matched : String → List String → Outcome (TextCrates.Regex X) → Outcome ArgMatches
  unfolding killjoy_command gen_help_messages
  matched crate_version argv (returned r) =
      returned (get_matches (killjoy_command crate_version (gen_help_messages X r)) argv)
  matched crate_version argv (raised e) = raised e
  matched crate_version argv (panicked m) = panicked m

  unfoldable pub get_cli_args : (crate_version : String) → List String → Outcome ArgMatches
  unfolding re matched
  get_cli_args crate_version argv = matched crate_version argv (re X)
