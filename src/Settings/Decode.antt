-- ===== src/Settings/Decode.antt =====
-- src/settings.rs: from the deserialised form, made of texts and lists, to `Settings`.
use killjoy.Base.{String, none, some, List, [], ◌∷◌, ◌==◌, if◌then◌else◌, any}
use killjoy.Base.Dict.{Dict, insert, lookup}
use killjoy.ActiveState.{ActiveState, state_eq}
use killjoy.Error.{Error, Result, ok, err, map_err, ◌>>=◌, ◌>>◌}
use killjoy.Unit.State.{try_from}
use killjoy.Dbus.{Dbus, BusType, session, starter, system}
use killjoy.Settings.Regex.{RegexCrate}
use killjoy.Settings.Types.{
  Notifier, Expression, regex, unit_name, unit_type, Rule, Settings, new_notifier,
}

pub record SerdeNotifier : Type 0 where
  pub bus_name : String
  pub bus_type : String

pub record SerdeRule : Type 0 where
  pub active_states : List String
  pub bus_type : String
  pub expression : String
  pub expression_type : String
  pub notifiers : List String

-- The order of the notifiers is the one in which the hash map yields them.
pub record SerdeSettings : Type 0 where
  pub notifiers : Dict SerdeNotifier
  pub rules : List SerdeRule

unfoldable pub decode_bus_type_str : String → Result Error BusType
decode_bus_type_str bus_type_str =
    if bus_type_str == "session"
    then ok session
    else if bus_type_str == "starter"
    then ok starter
    else if bus_type_str == "system"
    then ok system
    else err (Error.invalid_bus_type bus_type_str)

-- `HashSet::insert`
unfoldable pub insert_state : ActiveState → List ActiveState → List ActiveState
unfolding state_eq
insert_state s states = if any (state_eq s) states then states else s ∷ states

-- The loop of `Rule::try_from` over the names of states.
unfoldable pub decode_states : List String → List ActiveState → Result Error (List ActiveState)
unfolding insert_state try_from
decode_states [] active_states = ok active_states
decode_states (name ∷ names) active_states = do
  active_state ← map_err (λ _. Error.invalid_active_state name) (try_from name)
  decode_states names (insert_state active_state active_states)

module _ (R : RegexCrate) where
  open R use {compile}

  unfoldable pub decode_expression :
      (expression_type expression : String) → Result Error (Expression R)
  decode_expression expression_type expression =
      if expression_type == "regex"
      then map_err Error.invalid_regex (compile expression >>= λ r. ok (regex r))
      else if expression_type == "unit name"
      then ok (unit_name expression)
      else if expression_type == "unit type"
      then ok (unit_type expression)
      else err (Error.invalid_expression_type expression_type)

  -- `Rule::try_from`
  unfoldable pub decode_rule : SerdeRule → Result Error (Rule R)
  unfolding decode_states decode_bus_type_str decode_expression
  decode_rule value = do
    active_states ← decode_states value.active_states []
    bus_type ← decode_bus_type_str value.bus_type
    expression ← decode_expression value.expression_type value.expression
    ok (record {
      active_states = active_states;
      bus_type = bus_type;
      expression = expression;
      notifiers = value.notifiers;
    })

module _ (B : Dbus) where
  -- `Notifier::try_from`
  unfoldable pub decode_notifier : SerdeNotifier → Result Error Notifier
  unfolding decode_bus_type_str new_notifier
  decode_notifier value = do
    bus_type ← decode_bus_type_str value.bus_type
    new_notifier B value.bus_name bus_type

  -- The first loop of `Settings::try_from`.
  unfoldable pub decode_notifiers :
      Dict SerdeNotifier → Dict Notifier → Result Error (Dict Notifier)
  unfolding decode_notifier insert
  decode_notifiers [] notifiers = ok notifiers
  decode_notifiers ((key, serde_notifier) ∷ rest) notifiers = do
    notifier ← decode_notifier serde_notifier
    decode_notifiers rest (insert key notifier notifiers)

-- The inner loop of `Settings::try_from`: each notifier of a rule must be there.
unfoldable pub check_notifiers : Dict Notifier → List String → Result Error (Unit {0})
unfolding lookup
check_notifiers notifiers [] = ok tt
check_notifiers notifiers (notifier ∷ rest) =
    let checked = check_notifiers notifiers rest in
    elim (lookup notifier notifiers) [
      | none ↦ err (Error.invalid_notifier notifier)
      | some _ ↦ checked
    ]

module _ (B : Dbus) (R : RegexCrate) where
  -- The second loop of `Settings::try_from`.
  unfoldable pub decode_rules : Dict Notifier → List SerdeRule → Result Error (List (Rule R))
  unfolding decode_rule check_notifiers
  decode_rules notifiers [] = ok []
  decode_rules notifiers (serde_rule ∷ serde_rules) = do
    rule ← decode_rule R serde_rule
    check_notifiers notifiers rule.notifiers
    rules ← decode_rules notifiers serde_rules
    ok (rule ∷ rules)

  -- `Settings::try_from`
  unfoldable pub decode_settings : SerdeSettings → Result Error (Settings R)
  unfolding decode_notifiers decode_rules
  decode_settings value = do
    notifiers ← decode_notifiers B value.notifiers []
    rules ← decode_rules notifiers value.rules
    ok (record { notifiers = notifiers; rules = rules })
