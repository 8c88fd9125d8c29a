-- ===== src/Cli/Clap.antt =====
-- The clap crate: the declaration of a command as data, and the parsed arguments as a parameter.
use killjoy.Base.{String, Bool, true, ℕ, Option, none, some, List, ◌⊎◌, ◌≡◌, ◌≢◌, All}

pub data ArgAction : Type 0 where
  set set_true : ArgAction

-- The value parser of an argument: text, unless another one is given.
pub data ValueParser : Type 0 where
  text u32 : ValueParser

-- `clap::Arg`
pub record Arg : Type 0 where
  pub id : String
  pub long : Option String
  pub action : ArgAction
  pub value_parser : ValueParser
  pub default_value : Option String
  pub help : String
  pub hide : Bool

-- What a command is and says of itself.
pub record About : Type 0 where
  pub name : String
  pub version : Option String
  pub author : Option String
  pub about : String
  pub max_term_width : Option ℕ
  pub after_help : Option String
  pub subcommand_required : Bool

mutual
  -- `clap::Command`
  pub data Command : Type 0 where
    command : About → List Arg → Subcommands → Command

  pub data Subcommands : Type 0 where
    end : Subcommands
    subcommand : Command → Subcommands → Subcommands

abbrev pub about_of : Command → About
about_of (command about args subs) = about

abbrev pub args_of : Command → List Arg
args_of (command about args subs) = args

abbrev pub subcommands_of : Command → Subcommands
subcommands_of (command about args subs) = subs

-- One of the subcommands.
abbrev pub HasSubcommand : (Command → Type 0) → Subcommands → Type 0
HasSubcommand P end = ⊥
HasSubcommand P (subcommand c rest) = P c ⊎ HasSubcommand P rest

-- `ArgMatches`
pub record Clap : Type 1 where
  pub ArgMatches : Type 0
  -- `get_matches`, on the arguments of a process that it lets through: help, the version and
  -- faulty arguments end the process
  pub get_matches : Command → (argv : List String) → ArgMatches
  pub subcommand_of : ArgMatches → Option (String × ArgMatches)
  -- `get_one::<bool>`, `get_one::<u32>` and `get_one::<String>`
  pub get_bool : ArgMatches → String → Option Bool
  pub get_u32 : ArgMatches → String → Option ℕ
  pub get_text : ArgMatches → String → Option String

-- What clap's documentation promises of a command line that is declared by `whole`. `Comes c m`:
-- the matches `m` are those of the command `c`, which is `whole` or stands below it.
pub record IsLawful (C : Clap) (whole : Command) : Type 1 where
  pub Comes : Command → Clap.ArgMatches C → Type 0
  pub comes-get_matches : (argv : List String) → Comes whole (Clap.get_matches C whole argv)
  -- the subcommand is one of those declared, with its own matches
  pub comes-subcommand :
      (c : Command) (m : Clap.ArgMatches C) (name : String) (sub : Clap.ArgMatches C)
      → Comes c m
      → Clap.subcommand_of C m ≡ some (name, sub)
      → HasSubcommand (λ d. ((about_of d).name ≡ name) × Comes d sub) (subcommands_of c)
  -- `subcommand_required`
  pub required :
      (c : Command) (m : Clap.ArgMatches C)
      → Comes c m
      → (about_of c).subcommand_required ≡ true
      → Clap.subcommand_of C m ≢ none
  -- a flag has a value, given or not
  pub flag :
      (c : Command) (m : Clap.ArgMatches C)
      → Comes c m
      → All (λ a. a.action ≡ set_true → (b : Bool) × (Clap.get_bool C m a.id ≡ some b)) (args_of c)
  -- an argument with a default has a value, given or not
  pub defaulted :
      (c : Command) (m : Clap.ArgMatches C)
      → Comes c m
      → All
          (λ a.
            a.value_parser ≡ u32
            → a.default_value ≢ none
            → (n : ℕ) × (Clap.get_u32 C m a.id ≡ some n))
          (args_of c)
