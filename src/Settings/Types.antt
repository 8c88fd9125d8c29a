-- ===== src/Settings/Types.antt =====
-- src/settings.rs: expressions, notifiers and rules. The regex crate is a parameter.
use killjoy.Base.{String, Bool, List, ◌==◌, ends_with}
use killjoy.Base.Dict.{Dict}
use killjoy.ActiveState.{ActiveState}
use killjoy.Error.{Error, Result, ok, err, map_err, ◌>>=◌}
use killjoy.Exec.{Outcome, returned, panicked}
use killjoy.Dbus.{Dbus, BusType}
use killjoy.Settings.Regex.{RegexCrate}

-- `Notifier`
pub record Notifier : Type 0 where
  pub bus_name : String
  pub bus_type : BusType

module _ (R : RegexCrate) where
  open R use {Regex, is_match}

  pub data Expression : Type 0 where
    regex : Regex → Expression
    unit_name : String → Expression
    unit_type : String → Expression

  -- `Expression::matches`
  unfoldable pub matches : Expression → String → Bool
  unfolding ends_with
  matches (regex expr) name = is_match expr name
  matches (unit_name expr) name = name == expr
  matches (unit_type expr) name = ends_with name expr

  -- `Rule`; the hash set of states is a list without repetition.
  pub record Rule : Type 0 where
    pub active_states : List ActiveState
    pub bus_type : BusType
    pub expression : Expression
    pub notifiers : List String

  -- `Settings`
  pub record Settings : Type 0 where
    pub notifiers : Dict Notifier
    pub rules : List Rule

module _ (B : Dbus) where
  open B use {bus_name_new}

  -- `Notifier::maybe_get_bus_name`
  unfoldable pub maybe_get_bus_name : Notifier → Result Error String
  maybe_get_bus_name n = map_err (λ _. Error.invalid_bus_name n.bus_name) (bus_name_new n.bus_name)

  -- `Notifier::new`
  unfoldable pub new_notifier : String → BusType → Result Error Notifier
  unfolding maybe_get_bus_name
  new_notifier bus_name bus_type = do
    let new_obj : Notifier = record { bus_name = bus_name; bus_type = bus_type }
    _ ← maybe_get_bus_name new_obj
    ok new_obj

  -- `Notifier::get_bus_name`, whose `expect` panics on an invalid name
  unfoldable pub expect_bus_name : Result Error String → Outcome String
  expect_bus_name (ok name) = returned name
  expect_bus_name (err e) =
      panicked "bus_name is invalid. new() should have caught this. Please contact a developer."

  unfoldable pub get_bus_name : Notifier → Outcome String
  unfolding expect_bus_name maybe_get_bus_name
  get_bus_name n = expect_bus_name (maybe_get_bus_name n)
