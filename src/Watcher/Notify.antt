-- ===== src/Watcher/Notify.antt =====
-- src/bus.rs: `gen_on_change`, the callback that contacts the notifiers.
use killjoy.Base.{String, ◌<>◌, ℕ, Option, none, some, List, [], ◌∷◌}
use killjoy.Base.Dict.{Dict, lookup}
use killjoy.ActiveState.{ActiveState}
use killjoy.Error.{Error, ok, err, ok_or, ExternResult}
use killjoy.Exec.{Exec, pure, conclude, lift, ◌>>=◌, ◌>>◌}
use killjoy.Unit.State.{to_string}
use killjoy.Unit.Machine.{OnChange}
use killjoy.Dbus.{Dbus, BusType, connect, send, eprint, Notification}
use killjoy.Settings.Regex.{RegexCrate}
use killjoy.Settings.Types.{Notifier, Rule, Settings, get_bus_name}
use killjoy.Watcher.World.{World, ask, tell}
use killjoy.Watcher.Names.{
  wrap_interface_for_killjoy_notifier, wrap_member_for_notify, cast_bus_name_to_path,
}
use killjoy.Watcher.Rules.{get_rules_matching_name, get_rules_matching_active_state}

-- The states in the message's body, from newest to oldest.
unfoldable pub body_active_states : ActiveState → Option ActiveState → List String
unfolding to_string
body_active_states active_state none = to_string active_state ∷ []
body_active_states active_state (some old_state) = to_string active_state ∷ to_string old_state ∷ []

-- What is printed when the notifier does not answer.
unfoldable pub report : String → ExternResult (Unit {0}) → Exec World (Unit {0})
report notifier_name (ok _) = pure tt
report notifier_name (err e) =
    tell
      (eprint ("Error occurred when contacting notifier \"" <> notifier_name <> "\": " <> e.text))

module _ (B : Dbus) where
  open B use {get_private, send_with_reply_and_block}

  -- `send_with_reply_and_block(msg, 5000)`, with the `if let Err` around it.
  unfoldable pub deliver : String → BusType → Notification → Exec World (Unit {0})
  deliver notifier_name bus_type msg w =
      report notifier_name (send_with_reply_and_block w.trace bus_type msg 5000)
        (record w { trace = send bus_type msg 5000 ∷ w.trace })

  -- The body of the inner loop, for one notifier of one rule.
  unfoldable pub notify_one :
      Dict Notifier
      → (unit_name : String) → ℕ
      → List String
      → (notifier_name : String) → Exec World (Unit {0})
  notify_one notifiers unit_name real_ts states notifier_name = do
    notifier ← lift (ok_or (Error.invalid_notifier notifier_name) (lookup notifier_name notifiers))
    header_bus_name ← conclude (get_bus_name B notifier)
    header_path ← lift (cast_bus_name_to_path B header_bus_name)
    header_interface ← wrap_interface_for_killjoy_notifier B
    header_member ← wrap_member_for_notify B
    let msg : Notification = record {
      bus_name = header_bus_name;
      path = header_path;
      interface = header_interface;
      member = header_member;
      timestamp = real_ts;
      unit_name = unit_name;
      active_states = states;
    }
    ask (connect notifier.bus_type) (λ t. get_private t notifier.bus_type) Error.connect_to_bus
    deliver notifier_name notifier.bus_type msg

  -- The inner loop, over the notifiers of one rule.
  unfoldable pub notify_all :
      Dict Notifier → String → ℕ → List String → List String → Exec World (Unit {0})
  notify_all notifiers unit_name real_ts states [] = pure tt
  notify_all notifiers unit_name real_ts states (name ∷ names) = do
    notify_one notifiers unit_name real_ts states name
    notify_all notifiers unit_name real_ts states names

module _ (R : RegexCrate) where
  -- The rules that a unit's change to a state is of interest to.
  unfoldable pub interested : Settings R → String → ActiveState → List (Rule R)
  unfolding get_rules_matching_name get_rules_matching_active_state
  interested settings unit_name active_state =
      get_rules_matching_active_state R (get_rules_matching_name R settings.rules unit_name)
        active_state

module _ (B : Dbus) (R : RegexCrate) where
  -- The outer loop, over the matching rules.
  unfoldable pub notify_rules :
      Dict Notifier → String → ℕ → List String → List (Rule R) → Exec World (Unit {0})
  notify_rules notifiers unit_name real_ts states [] = pure tt
  notify_rules notifiers unit_name real_ts states (rule ∷ rules) = do
    notify_all B notifiers unit_name real_ts states rule.notifiers
    notify_rules notifiers unit_name real_ts states rules

  unfoldable pub gen_on_change : Settings R → String → ℕ → OnChange World
  gen_on_change settings unit_name real_ts usm old_state =
      notify_rules settings.notifiers unit_name real_ts
        (body_active_states usm.active_state old_state)
        (interested R settings unit_name usm.active_state)
