-- ===== src/Watcher/Safety/Notifying.antt =====
-- Panics and errors while notifiers are contacted.
use killjoy.Base.{
  String, ℕ, Option, none, some, List, [], ◌∷◌, All, All-filter, arith, Bool-cases, ltb, not, ◌&&◌,
  inl, inr,
}
use killjoy.Base.Dict.{Dict}
use killjoy.ActiveState.{ActiveState, state_eq}
use killjoy.Error.{Result, ok, err}
use killjoy.Exec.Safe.{
  Safe, Allows, Never, Allows-calm, Safe-calm, safe_rules, Safe-conclude, Safe-lift, Safe-expect,
  Safe-bind, Safe-bind-lift,
}
use killjoy.Unit.Machine.{UnitStateMachine, OnChange, new, update}
use killjoy.Unit.Machine.Laws.{update-callback}
use killjoy.Timestamp.{UnitProps}
use killjoy.Dbus.{Dbus, BusType, Notification}
use killjoy.Settings.Regex.{RegexCrate}
use killjoy.Settings.Types.{Notifier, Rule, Settings, get_bus_name}
use killjoy.Settings.Sound.{HasBusName, AllNamed, IsListed, IsSound}
use killjoy.Watcher.World.{World}
use killjoy.Watcher.Names.{wrap_interface_for_killjoy_notifier, wrap_member_for_notify}
use killjoy.Watcher.Rules.{get_rules_matching_name, get_rules_matching_active_state}
use killjoy.Watcher.Notify.{
  report, deliver, notify_one, notify_all, notify_rules, interested, gen_on_change,
}
use killjoy.Watcher.Units.{stored, upsert_machine, upsert_unit_states}
use killjoy.Watcher.Safety.Errors.{
  IsRuntime, IsHealthy, Safe-ask, Safe-tell, Safe-gets, Safe-set_unit_states,
  get_active_state-IsRuntime, get_realtime_timestamp-IsRuntime, get_monotonic_timestamp-IsRuntime,
  cast_bus_name_to_path-IsRuntime,
}

module _ (B : Dbus) (healthy : IsHealthy B) where
  interface-Safe : Safe {S = World} IsRuntime Never (wrap_interface_for_killjoy_notifier B)
  unfolding wrap_interface_for_killjoy_notifier
  interface-Safe = Safe-expect _ _ _ healthy.interface.1

  member-Safe : Safe {S = World} IsRuntime Never (wrap_member_for_notify B)
  unfolding wrap_member_for_notify
  member-Safe = Safe-expect _ _ _ healthy.member.1

  report-Safe : (name : String) (r : Result _ (Unit {0})) → Safe IsRuntime Never (report name r)
  unfolding report
  report-Safe name (ok _) = search safe_rules
  report-Safe name (err e) = Safe-tell _

  deliver-Safe :
      (name : String) (b : BusType) (msg : Notification)
      → Safe IsRuntime Never (deliver B name b msg)
  unfolding deliver
  deliver-Safe name b msg = record { at = λ w. (report-Safe name _).at _ }

  get_bus_name-safe :
      (n : Notifier) → HasBusName B n → (w : World) → Allows IsRuntime Never (get_bus_name B n, w)
  unfolding get_bus_name
  get_bus_name-safe n (name, e) w = rw e tt

  module _ (notifiers : Dict Notifier) (named : AllNamed B notifiers) (unit_name : String) (ts : ℕ)
      (states : List String) where
    notify_one-Safe :
        (name : String)
        → IsListed notifiers name
        → Safe IsRuntime Never (notify_one B notifiers unit_name ts states name)
    unfolding notify_one
    notify_one-Safe name (n, e) =
        Safe-bind-lift _ _ (λ x q. absurd (ground arith))
          λ n' q.
            Safe-bind _ _ (Safe-conclude _ (get_bus_name-safe n' (named name n' (ground arith))))
              λ bus_name.
                Safe-bind _ _ (Safe-lift _ (cast_bus_name_to_path-IsRuntime B bus_name)) λ path.
                  Safe-bind _ _ interface-Safe λ interface.
                    Safe-bind _ _ member-Safe λ member.
                      Safe-bind _ _ (Safe-ask _ _ _ (λ x. tt)) (λ _. deliver-Safe name _ _)

    notify_all-Safe :
        (names : List String)
        → All (IsListed notifiers) names
        → Safe IsRuntime Never (notify_all B notifiers unit_name ts states names)
    unfolding notify_all
    notify_all-Safe [] h = search safe_rules
    notify_all-Safe (name ∷ names) (l, h) =
        Safe-bind _ _ (notify_one-Safe name l) (λ _. notify_all-Safe names h)

    notify_rules-Safe :
        (R : RegexCrate) (rules : List (Rule R))
        → All (λ rule. All (IsListed notifiers) (Rule.notifiers rule)) rules
        → Safe IsRuntime Never (notify_rules B R notifiers unit_name ts states rules)
    unfolding notify_rules
    notify_rules-Safe R [] h = search safe_rules
    notify_rules-Safe R (rule ∷ rules) (l, h) =
        Safe-bind _ _ (notify_all-Safe rule.notifiers l) (λ _. notify_rules-Safe R rules h)

module _ (f : OnChange World)
    (safe : (usm : UnitStateMachine) (old : Option ActiveState)
      → Safe IsRuntime Never (f usm old)) where
  new-Safe : (state : ActiveState) (ts : ℕ) → Safe IsRuntime Never (new state ts f)
  unfolding new
  new-Safe state ts = search (safe_rules, safe)

  update-safe :
      (usm : UnitStateMachine) (state : ActiveState) (ts : ℕ) (w : World)
      → Allows IsRuntime Never (update usm state ts f w).1
  update-safe usm state ts w =
      elim (Bool-cases (ltb usm.mono_ts ts && not (state_eq usm.active_state state))) [
        | inl e ↦ rw (update-callback usm state ts f w, e) ((safe _ _).at w)
        | inr e ↦ rw (update-callback usm state ts f w, e) tt
      ]

  upsert_machine-Safe :
      (name : String) (state : ActiveState) (ts : ℕ) (found : Option UnitStateMachine)
      → Safe IsRuntime Never (upsert_machine name state ts f found)
  unfolding upsert_machine stored
  upsert_machine-Safe name state ts none = search (safe_rules, new-Safe, Safe-set_unit_states)
  upsert_machine-Safe name state ts (some usm) = record {
    at = λ w. Allows-calm _ _ (update usm state ts f w).1 _ (update-safe usm state ts w);
  }

module _ (B : Dbus) (R : RegexCrate) (healthy : IsHealthy B) (settings : Settings R)
    (sound : IsSound B R settings) where
  gen_on_change-Safe :
      (unit_name : String) (ts : ℕ) (usm : UnitStateMachine) (old : Option ActiveState)
      → Safe IsRuntime Never (gen_on_change B R settings unit_name ts usm old)
  unfolding gen_on_change interested get_rules_matching_name get_rules_matching_active_state
  gen_on_change-Safe unit_name ts usm old =
      notify_rules-Safe B healthy settings.notifiers sound.named unit_name ts _ R _
        (All-filter _ _ _ (All-filter _ _ settings.rules sound.listed))

  pub upsert-Safe :
      {P : String → World → Type 0} (name : String) (props : UnitProps B)
      → Safe IsRuntime P (upsert_unit_states B R settings name props)
  unfolding upsert_unit_states
  upsert-Safe name props = Safe-bind _ _ (Safe-lift _ (get_active_state-IsRuntime B props)) λ state.
      Safe-bind _ _ (Safe-lift _ (get_realtime_timestamp-IsRuntime B state props)) λ real_ts.
        Safe-bind _ _ (Safe-lift _ (get_monotonic_timestamp-IsRuntime B state props)) λ mono_ts.
          Safe-bind _ _ (Safe-gets _) λ found.
            Safe-calm _
              (upsert_machine-Safe _ (gen_on_change-Safe name real_ts) name state mono_ts found)
