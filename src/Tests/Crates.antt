-- ===== src/Tests/Crates.antt =====
-- The regex crate as equality of texts, a file system with one settings file, and a command line
-- of fixed forms.
use killjoy.Base.{String, ◌==◌, ℕ, Option, none, some, Bool, false, List, [], ◌∷◌, if◌then◌else◌}
use killjoy.Error.{ok, err}
use killjoy.Settings.Regex.{RegexCrate}
use killjoy.Settings.Decode.{SerdeRule, SerdeSettings}
use killjoy.Settings.Load.{Files}
use killjoy.Cli.Clap.{Clap, Command}
use killjoy.Cli.Help.{TextCrates}

abbrev pub literal : RegexCrate
literal = record {
  Regex = String;
  compile = λ s. if s == "(" then err (record { text = "unclosed group" }) else ok s;
  is_match = λ e name. e == name;
}

abbrev pub web_rule : SerdeRule
web_rule = record {
  active_states = "failed" ∷ "inactive" ∷ "failed" ∷ [];
  bus_type = "session";
  expression = ".service";
  expression_type = "unit type";
  notifiers = "log" ∷ [];
}

abbrev pub file : SerdeSettings
file = record {
  notifiers = ("log", record { bus_name = "org.log"; bus_type = "session" }) ∷ [];
  rules = web_rule ∷ [];
}

abbrev pub disk : Files
disk = record {
  Directories = Unit;
  with_prefix = λ s. ok tt;
  find_config_file = λ d s. some "/etc/xdg/killjoy/settings.json";
  Reader = String;
  open_file = λ s. if s == "" then err (record { text = "no such file" }) else ok s;
  from_reader = λ r. ok file;
}

abbrev pub plain : TextCrates
plain = record {
  Regex = String;
  compile = λ s. ok s;
  replace_all = λ r text replacement. text;
  dedent = λ s. s;
}

-- The matches of the command line: without a subcommand, of `settings`, and those below it.
pub data Matches : Type 0 where
  watch : Bool → ℕ → Matches
  with_settings : Matches → Matches
  of_load_path : Matches
  of_validate : Option String → Matches
  leaf : Option String → Matches

abbrev pub subcommand_in : Matches → Option (String × Matches)
subcommand_in (watch b n) = none
subcommand_in (with_settings m) = some ("settings", m)
subcommand_in of_load_path = some ("load-path", leaf none)
subcommand_in (of_validate p) = some ("validate", leaf p)
subcommand_in (leaf p) = none

abbrev pub flag_in : Matches → String → Option Bool
flag_in (watch b n) s = some b
flag_in _ s = some false

abbrev pub number_in : Matches → String → Option ℕ
number_in (watch b n) s = some n
number_in _ s = some 10000

abbrev pub text_in : Matches → String → Option String
text_in (leaf p) s = p
text_in _ s = none

abbrev pub read_settings : List String → Matches
read_settings [] = of_load_path
read_settings (name ∷ []) = if name == "validate" then of_validate none else of_load_path
read_settings (name ∷ p ∷ _) = if name == "validate" then of_validate (some p) else of_load_path

abbrev pub read : Command → List String → Matches
read c [] = watch false 10000
read c (name ∷ args) =
    if name == "settings"
    then with_settings (read_settings args)
    else watch (name == "--loop-once") 10000

abbrev pub forms : Clap
forms = record {
  ArgMatches = Matches;
  get_matches = read;
  subcommand_of = subcommand_in;
  get_bool = flag_in;
  get_u32 = number_in;
  get_text = text_in;
}
