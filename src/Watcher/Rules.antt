-- ===== src/Watcher/Rules.antt =====
-- src/bus.rs: which rules are about a unit, and the active state among a unit's properties.
use killjoy.Base.{String, Bool, not, List, filter, any, is_empty}
use killjoy.Base.Dict.{lookup}
use killjoy.ActiveState.{ActiveState, state_eq}
use killjoy.Error.{Error, Result, ok_or, ◌>>=◌}
use killjoy.Unit.State.{try_from}
use killjoy.Timestamp.{UnitProps}
use killjoy.Dbus.{Dbus}
use killjoy.Settings.Regex.{RegexCrate}
use killjoy.Settings.Types.{Rule, matches}

module _ (R : RegexCrate) where
  unfoldable pub get_rules_matching_name : List (Rule R) → String → List (Rule R)
  unfolding matches
  get_rules_matching_name rules unit_name =
      filter (λ rule. matches R (Rule.expression rule) unit_name) rules

  unfoldable pub get_rules_matching_active_state : List (Rule R) → ActiveState → List (Rule R)
  unfolding state_eq
  get_rules_matching_active_state rules target =
      filter (λ rule. any (λ active_state. state_eq active_state target) (Rule.active_states rule))
        rules

  unfoldable pub rules_match_name : List (Rule R) → String → Bool
  unfolding get_rules_matching_name
  rules_match_name rules unit_name = not (is_empty (get_rules_matching_name rules unit_name))

module _ (B : Dbus) where
  unfoldable pub get_active_state : UnitProps B → Result Error ActiveState
  unfolding lookup try_from
  get_active_state unit_props = do
    value ← ok_or Error.properties_lacks_active_state (lookup "ActiveState" unit_props)
    active_state_str ← ok_or Error.cast_unit_active_state (Dbus.as_str B value)
    try_from active_state_str
