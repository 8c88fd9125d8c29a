-- ===== src/Tests/Lawful.antt =====
-- The command line of the tests does what clap documents.
use mathlib.Core.Path.{subst}
use killjoy.Base.{
  ◌∙◌, String, ℕ, ◌==◌, none, some, Bool, true, false, List, [], ◌∷◌, ◌≡◌, ◌≢◌, refl, All, arith,
  inl, inr, Bool-cases,
}
use killjoy.Cli.Clap.{
  IsLawful, Command, about_of, args_of, subcommands_of, Subcommands, end, subcommand, HasSubcommand,
}
use killjoy.Cli.Help.{HelpMessages}
use killjoy.Cli.Spec.{killjoy_command, settings_command}
use killjoy.Tests.Crates.{
  Matches, watch, with_settings, of_load_path, of_validate, leaf, subcommand_in, flag_in, number_in,
  read_settings, read, forms,
}

-- The commands whose matches have one of the fixed forms.
abbrev pub Comes : Command → Matches → Type 0
Comes c (watch b n) = (about_of c).subcommand_required ≡ false
Comes c (with_settings m) =
    HasSubcommand (λ d. ((about_of d).name ≡ "settings") × Comes d m) (subcommands_of c)
Comes c of_load_path =
    HasSubcommand
      (λ d. ((about_of d).name ≡ "load-path") × ((about_of d).subcommand_required ≡ false))
      (subcommands_of c)
Comes c (of_validate p) =
    HasSubcommand
      (λ d. ((about_of d).name ≡ "validate") × ((about_of d).subcommand_required ≡ false))
      (subcommands_of c)
Comes c (leaf p) = (about_of c).subcommand_required ≡ false

abbrev pub whole : HelpMessages → Command
whole help = killjoy_command "0.2.2" help

settings_form :
    (help : HelpMessages) (args : List String) → Comes (settings_command help) (read_settings args)
settings_form help [] = inl (refl, refl)
settings_form help (name ∷ []) = elim (Bool-cases (name == "validate")) [
  | inl e ↦ rw e (inr (inl (refl, refl)))
  | inr e ↦ rw e (inl (refl, refl))
]
settings_form help (name ∷ p ∷ args) = elim (Bool-cases (name == "validate")) [
  | inl e ↦ rw e (inr (inl (refl, refl)))
  | inr e ↦ rw e (inl (refl, refl))
]

form : (help : HelpMessages) (argv : List String) → Comes (whole help) (read (whole help) argv)
unfolding killjoy_command
form help [] = refl
form help (name ∷ args) = elim (Bool-cases (name == "settings")) [
  | inl e ↦ rw e (inl (refl, settings_form help args))
  | inr e ↦ rw e refl
]

Subcommands-map :
    (P Q : Command → Type 0) (cs : Subcommands)
    → ((c : Command) → P c → Q c)
    → HasSubcommand P cs
    → HasSubcommand Q cs
Subcommands-map P Q end f h = h
Subcommands-map P Q (subcommand c cs) f (inl h) = inl (f c h)
Subcommands-map P Q (subcommand c cs) f (inr h) = inr (Subcommands-map P Q cs f h)

below :
    (c : Command) (m : Matches) (name : String) (sub : Matches)
    → Comes c m
    → subcommand_in m ≡ some (name, sub)
    → HasSubcommand (λ d. ((about_of d).name ≡ name) × Comes d sub) (subcommands_of c)
below c (watch b n) name sub h e = absurd (ground arith)
below c (leaf p) name sub h e = absurd (ground arith)
below c (with_settings m) name sub h e =
    let p : "settings" ≡ name = ground arith in
    let q : m ≡ sub = ground arith in
    Subcommands-map _ _ (subcommands_of c) (λ d (a, b). (a ∙ p, subst (Comes d) q b)) h
below c of_load_path name sub h e =
    let p : "load-path" ≡ name = ground arith in
    let q : leaf none ≡ sub = ground arith in
    Subcommands-map _ _ (subcommands_of c) (λ d (a, b). (a ∙ p, subst (Comes d) q b)) h
below c (of_validate v) name sub h e =
    let p : "validate" ≡ name = ground arith in
    let q : leaf v ≡ sub = ground arith in
    Subcommands-map _ _ (subcommands_of c) (λ d (a, b). (a ∙ p, subst (Comes d) q b)) h

flag_of : (m : Matches) (s : String) → (b : Bool) × (flag_in m s ≡ some b)
flag_of (watch b n) s = (b, refl)
flag_of _ s = (false, refl)

number_of : (m : Matches) (s : String) → (n : ℕ) × (number_in m s ≡ some n)
number_of (watch b n) s = (n, refl)
number_of _ s = (10000, refl)

All-every : {A : Type 0} (P : A → Type 0) (xs : List A) → ((x : A) → P x) → All P xs
All-every P [] h = tt
All-every P (x ∷ xs) h = (h x, All-every P xs h)

subcommand_required_lem :
    (c : Command) (m : Matches)
    → Comes c m
    → (about_of c).subcommand_required ≡ true
    → subcommand_in m ≢ none
subcommand_required_lem c (watch b n) h r e = absurd (ground arith)
subcommand_required_lem c (leaf p) h r e = absurd (ground arith)
subcommand_required_lem c (with_settings m) h r e = absurd (ground arith)
subcommand_required_lem c of_load_path h r e = absurd (ground arith)
subcommand_required_lem c (of_validate p) h r e = absurd (ground arith)

pub lawful : (help : HelpMessages) → IsLawful forms (whole help)
lawful help = record {
  Comes = Comes;
  comes-get_matches = form help;
  comes-subcommand = below;
  required = subcommand_required_lem;
  flag = λ c m h. All-every _ (args_of c) (λ a _. flag_of m a.id);
  defaulted = λ c m h. All-every _ (args_of c) (λ a _ _. number_of m a.id);
}
