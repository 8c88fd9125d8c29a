-- ===== src/Main/Expected.antt =====
-- The errors that a user can meet, and those of loading the settings.
use killjoy.Base.{
  String, Option, none, some, List, [], ◌∷◌, if◌then◌else◌, ◌≡◌, refl, arith, Bool, true, false,
}
use killjoy.Base.Dict.{Dict, insert, lookup}
use killjoy.ActiveState.{ActiveState}
use killjoy.Error.{Error, Result, ok, err, map_err, ok_or, ◌>>=◌}
use killjoy.Unit.State.{try_from}
use killjoy.Dbus.{Dbus}
use killjoy.Settings.Regex.{RegexCrate}
use killjoy.Settings.Types.{Notifier, Rule, new_notifier, maybe_get_bus_name}
use killjoy.Settings.Decode.{
  SerdeNotifier, SerdeRule, SerdeSettings, insert_state, decode_bus_type_str, decode_states,
  decode_expression, decode_rule, decode_notifier, decode_notifiers, check_notifiers, decode_rules,
  decode_settings,
}
use killjoy.Settings.Load.{Files, new, load, get_load_path, path_to_load}
use killjoy.Watcher.Safety.Errors.{IsRuntime}

-- Not an error that only a fault of the program could cause.
abbrev pub IsExpected : Error → Type 0
IsExpected Error.missing_loop_timeout_arg = ⊥
IsExpected (Error.monitoring_thread_panicked _) = ⊥
IsExpected (Error.parse_loop_timeout_arg _) = ⊥
IsExpected (Error.unexpected_subcommand _) = ⊥
IsExpected _ = Unit

pub IsExpected-IsRuntime : (e : Error) → IsRuntime e → IsExpected e
IsExpected-IsRuntime Error.missing_loop_timeout_arg h = h
IsExpected-IsRuntime (Error.monitoring_thread_panicked _) h = h
IsExpected-IsRuntime (Error.parse_loop_timeout_arg _) h = h
IsExpected-IsRuntime (Error.unexpected_subcommand _) h = h
IsExpected-IsRuntime _ h = tt

-- If there is an error, it is an expected one.
abbrev pub Within : {A : Type 0} → Result Error A → Type 0
Within (ok a) = Unit
Within (err e) = IsExpected e

pub record Fails {A : Type 0} (m : Result Error A) : Type 0 where
  pub at : Within m

Within-bind :
    {A B : Type 0} (m : Result Error A) (f : A → Result Error B)
    → Within m
    → ((a : A) → Fails (f a))
    → Within (m >>= f)
Within-bind (ok a) f h k = (k a).at
Within-bind (err e) f h k = h

Within-map_err :
    {D A : Type 0} (f : D → Error) (m : Result D A)
    → ((d : D) → IsExpected (f d))
    → Within (map_err f m)
Within-map_err f (ok a) h = tt
Within-map_err f (err d) h = h d

Within-ok_or : {A : Type 0} (e : Error) (o : Option A) → IsExpected e → Within (ok_or e o)
Within-ok_or e none h = h
Within-ok_or e (some a) h = tt

Fails-ok : {A : Type 0} (a : A) → Fails {A = A} (ok a)
Fails-ok a = record { at = tt }

Fails-err : {A : Type 0} (e : Error) → IsExpected e → Fails {A = A} (err e)
Fails-err e h = record { at = h }

pub Fails-bind :
    {A B : Type 0} (m : Result Error A) (f : A → Result Error B)
    → Fails m
    → ((a : A) → Fails (f a))
    → Fails (m >>= f)
Fails-bind m f h k = record { at = Within-bind m f h.at k }

Fails-map_err :
    {D A : Type 0} (f : D → Error) (m : Result D A)
    → ((d : D) → IsExpected (f d))
    → Fails (map_err f m)
Fails-map_err f m h = record { at = Within-map_err f m h }

Fails-ok_or : {A : Type 0} (e : Error) (o : Option A) → IsExpected e → Fails (ok_or e o)
Fails-ok_or e o h = record { at = Within-ok_or e o h }

Fails-if :
    {A : Type 0} (b : Bool) (x y : Result Error A) → Fails x → Fails y → Fails (if b then x else y)
Fails-if true x y h k = h
Fails-if false x y h k = k

Fails-of_err :
    {A : Type 0} (m : Result Error A) → ((e : Error) → m ≡ err e → IsExpected e) → Fails m
Fails-of_err (ok a) h = Fails-ok a
Fails-of_err (err e) h = Fails-err e (h e refl)

decode_bus_type_str_error : (s : String) (e : Error) → decode_bus_type_str s ≡ err e → IsExpected e
unfolding decode_bus_type_str
decode_bus_type_str_error s e h = ground arith

decode_bus_type_str-Fails : (s : String) → Fails (decode_bus_type_str s)
decode_bus_type_str-Fails s = Fails-of_err _ (decode_bus_type_str_error s)

decode_states-Fails :
    (names : List String) (acc : List ActiveState) → Fails (decode_states names acc)
unfolding decode_states
decode_states-Fails [] acc = Fails-ok _
decode_states-Fails (name ∷ names) acc =
    Fails-bind _ _ (Fails-map_err _ (try_from name) (λ _. tt))
      (λ s. decode_states-Fails names (insert_state s acc))

check_notifiers-Fails :
    (notifiers : Dict Notifier) (names : List String) → Fails (check_notifiers notifiers names)
unfolding check_notifiers
check_notifiers-Fails notifiers [] = Fails-ok _
check_notifiers-Fails notifiers (name ∷ names) =
    let ih = check_notifiers-Fails notifiers names in
    elim (lookup name notifiers)
      as (λ o. Fails (elim o [
        | none ↦ err (Error.invalid_notifier name)
        | some _ ↦ check_notifiers notifiers names
      ])) [ none ↦ Fails-err _ tt | some _ ↦ ih ]

module _ (B : Dbus) where
  decode_notifier-Fails : (v : SerdeNotifier) → Fails (decode_notifier B v)
  unfolding decode_notifier new_notifier maybe_get_bus_name
  decode_notifier-Fails v = Fails-bind _ _ (decode_bus_type_str-Fails v.bus_type) λ t.
      Fails-bind _ _ (Fails-map_err _ (Dbus.bus_name_new B v.bus_name) (λ _. tt)) (λ _. Fails-ok _)

  decode_notifiers-Fails :
      (m : Dict SerdeNotifier) (acc : Dict Notifier) → Fails (decode_notifiers B m acc)
  unfolding decode_notifiers
  decode_notifiers-Fails [] acc = Fails-ok _
  decode_notifiers-Fails ((k, v) ∷ m) acc =
      Fails-bind _ _ (decode_notifier-Fails v) (λ n. decode_notifiers-Fails m (insert k n acc))

module _ (R : RegexCrate) where
  decode_expression_error :
      (t e : String) (x : Error) → decode_expression R t e ≡ err x → IsExpected x
  unfolding decode_expression
  decode_expression_error t e x h = ground arith

  decode_expression-Fails : (t e : String) → Fails (decode_expression R t e)
  decode_expression-Fails t e = Fails-of_err _ (decode_expression_error t e)

  decode_rule-Fails : (v : SerdeRule) → Fails (decode_rule R v)
  unfolding decode_rule
  decode_rule-Fails v = Fails-bind _ _ (decode_states-Fails v.active_states []) λ _.
      Fails-bind _ _ (decode_bus_type_str-Fails v.bus_type) λ _.
        Fails-bind _ _ (decode_expression-Fails v.expression_type v.expression) (λ _. Fails-ok _)

module _ (B : Dbus) (R : RegexCrate) where
  decode_rules-Fails :
      (notifiers : Dict Notifier) (vs : List SerdeRule) → Fails (decode_rules B R notifiers vs)
  unfolding decode_rules
  decode_rules-Fails notifiers [] = Fails-ok _
  decode_rules-Fails notifiers (v ∷ vs) =
      let ih = decode_rules-Fails notifiers vs in
      Fails-bind _ _ (decode_rule-Fails R v) λ r.
        Fails-bind _ _ (check_notifiers-Fails notifiers (Rule.notifiers r))
          λ _. Fails-bind _ _ ih (λ _. Fails-ok _)

  decode_settings-Fails : (v : SerdeSettings) → Fails (decode_settings B R v)
  unfolding decode_settings
  decode_settings-Fails v =
      Fails-bind _ _ (decode_notifiers-Fails B v.notifiers [])
        λ ns. Fails-bind _ _ (decode_rules-Fails ns v.rules) (λ _. Fails-ok _)

  pub get_load_path-Fails : (F : Files) → Fails (get_load_path F)
  unfolding get_load_path
  get_load_path-Fails F =
      Fails-bind _ _ (Fails-map_err _ (Files.with_prefix F "killjoy") (λ _. tt))
        (λ d. Fails-ok_or _ _ tt)

  path_to_load-Fails : (F : Files) (p : Option String) → Fails (path_to_load F B R p)
  unfolding path_to_load
  path_to_load-Fails F none = get_load_path-Fails F
  path_to_load-Fails F (some path) = Fails-ok _

  -- Loading the settings fails only with errors that are expected.
  pub load-Fails : (F : Files) (p : Option String) → Fails (load F B R p)
  unfolding load new
  load-Fails F p = Fails-bind _ _ (path_to_load-Fails F p) λ path.
      Fails-bind _ _ (Fails-map_err _ (Files.open_file F path) (λ _. tt)) λ handle.
        Fails-bind _ _ (Fails-map_err _ (Files.from_reader F handle) (λ _. tt))
          (λ v. decode_settings-Fails v)
