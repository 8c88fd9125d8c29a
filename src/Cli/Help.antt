-- ===== src/Cli/Help.antt =====
-- src/cli.rs: the help messages. The regex and textwrap crates are parameters; `str::trim` is
-- written out.
use Prim.Native.Char.{Char, code}
use Prim.Native.String.{String, [], ◌∷◌}
use killjoy.Base.{Bool, not, ◌||◌, ◌&&◌, ltb, if◌then◌else◌, ℕ, ◌==◌, ◌<>◌}
use killjoy.Error.{ExternResult, ok, err}
use killjoy.Exec.{Outcome, returned, panicked}

pub record TextCrates : Type 1 where
  pub Regex : Type 0
  -- `Regex::new` and `Regex::replace_all`
  pub compile : String → ExternResult Regex
  pub replace_all : Regex → (text replacement : String) → String
  -- `textwrap::dedent`
  pub dedent : String → String

unfoldable pub between : ℕ → ℕ → ℕ → Bool
between low high n = not (ltb n low) && not (ltb high n)

-- `char::is_whitespace`, by the code points.
unfoldable pub is_whitespace : Char → Bool
unfolding between
is_whitespace c =
    let n : ℕ = code c in
    between 9 13 n
    || between 32 32 n
    || between 133 133 n
    || between 160 160 n
    || between 5760 5760 n
    || between 8192 8202 n
    || between 8232 8233 n
    || between 8239 8239 n
    || between 8287 8287 n
    || between 12288 12288 n

unfoldable pub trim_start : String → String
unfolding is_whitespace
trim_start [] = []
trim_start (c ∷ s) = let rest = trim_start s in if is_whitespace c then rest else c ∷ s

unfoldable pub trim_end : String → String
unfolding is_whitespace
trim_end [] = []
trim_end (c ∷ s) = let rest = trim_end s in if rest == [] && is_whitespace c then [] else c ∷ rest

-- `str::trim`
unfoldable pub trim : String → String
unfolding trim_start trim_end
trim s = trim_end (trim_start s)

pub record HelpMessages : Type 0 where
  pub settings_load_path : String
  pub settings_validate : String

-- Both texts stand between an empty line and a line of spaces, and each line is indented by eight.
unfoldable pub get_help_for_settings_load_path : String
get_help_for_settings_load_path =
    "\n        Search an ordered list of directories for a settings file. If one is found, print its path.\n"
    <> "        Otherwise, return a non-zero exit code. The load path is used by sibling commands such as\n"
    <> "        \"validate\".\n        "

unfoldable pub get_help_for_settings_validate : String
get_help_for_settings_validate =
    "\n        Check to see whether the settings file conforms with a schema. If so, silently exit.\n"
    <> "        Otherwise, print an error message to stderr and return non-zero.\n        "

module _ (X : TextCrates) where
  open X use {Regex, compile, replace_all, dedent}

  unfoldable pub expect_regex : ExternResult Regex → Outcome Regex
  expect_regex (ok r) = returned r
  expect_regex (err e) = panicked "Failed to compile regex."

  -- The regular expression that strips newlines inside of a paragraph.
  unfoldable pub re : Outcome Regex
  unfolding expect_regex
  re = expect_regex (compile "(?P<pre>\\S)\\n(?P<post>\\S)")

  unfoldable pub format : Regex → String → String
  unfolding trim
  format r msg = replace_all r (trim (dedent msg)) "$pre $post"

  unfoldable pub gen_help_messages : Regex → HelpMessages
  unfolding format get_help_for_settings_load_path get_help_for_settings_validate
  gen_help_messages r = record {
    settings_load_path = format r get_help_for_settings_load_path;
    settings_validate = format r get_help_for_settings_validate;
  }
