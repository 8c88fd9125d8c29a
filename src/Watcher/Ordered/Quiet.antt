-- ===== src/Watcher/Ordered/Quiet.antt =====
-- The order of the calls while notifiers are contacted and machines updated.
use killjoy.Base.{
  String, ℕ, Option, none, some, List, [], ◌∷◌, inl, inr, not, Bool-cases, ◌&&◌, ltb,
}
use killjoy.Base.Dict.{Dict}
use killjoy.ActiveState.{ActiveState, state_eq}
use killjoy.Error.{Result, ok, err}
use killjoy.Exec.Keeps.{Keeps, Keeps-bind}
use killjoy.Unit.Machine.{UnitStateMachine, OnChange, new, update}
use killjoy.Unit.Machine.Laws.{update-callback}
use killjoy.Dbus.{Dbus, BusType, Notification}
use killjoy.Settings.Regex.{RegexCrate}
use killjoy.Settings.Types.{Settings, Notifier, Rule}
use killjoy.Watcher.World.{World}
use killjoy.Watcher.Keeping.{still_rules}
use killjoy.Watcher.Notify.{report, deliver, notify_one, notify_all, notify_rules, gen_on_change}
use killjoy.Watcher.Units.{stored, upsert_machine}
use killjoy.Watcher.Ordered.Calls.{
  IsGetAll, IsQuiet, change_rule, IsOrdered, Ordered, Keeps-tell, Keeps-ask, Keeps-invoke,
  Keeps-gets, Keeps-set_unit_states, connect-IsQuiet, add_match-IsQuiet, remove_match-IsQuiet,
  poll-IsQuiet, send-IsQuiet, eprint-IsQuiet, method_call-IsQuiet,
}

pub ruleset quiet_rules = (
  still_rules, Keeps-tell, Keeps-ask, Keeps-gets, Keeps-set_unit_states, connect-IsQuiet,
  add_match-IsQuiet, remove_match-IsQuiet, poll-IsQuiet, send-IsQuiet, eprint-IsQuiet,
)

module _ (B : Dbus) where
  report-Ordered : (name : String) (r : Result _ (Unit {0})) → Keeps (Ordered B) (report name r)
  unfolding report
  report-Ordered name (ok _) = search quiet_rules
  report-Ordered name (err e) = search quiet_rules

  deliver-Ordered :
      (name : String) (b : BusType) (msg : Notification) → Keeps (Ordered B) (deliver B name b msg)
  unfolding deliver
  deliver-Ordered name b msg = record {
    at = λ w h. (report-Ordered name _).at _ (λ c g. absurd (send-IsQuiet b msg 5000 c g), h);
  }

  notify_one-Ordered :
      (notifiers : Dict Notifier) (unit_name : String) (ts : ℕ) (states : List String)
      (name : String)
      → Keeps (Ordered B) (notify_one B notifiers unit_name ts states name)
  unfolding notify_one
  notify_one-Ordered notifiers unit_name ts states name =
      search (quiet_rules, deliver-Ordered) depth 9

  notify_all-Ordered :
      (notifiers : Dict Notifier) (unit_name : String) (ts : ℕ) (states : List String)
      (names : List String)
      → Keeps (Ordered B) (notify_all B notifiers unit_name ts states names)
  unfolding notify_all
  notify_all-Ordered notifiers unit_name ts states [] = search quiet_rules
  notify_all-Ordered notifiers unit_name ts states (name ∷ names) =
      Keeps-bind (notify_one B notifiers unit_name ts states name) _
        (notify_one-Ordered notifiers unit_name ts states name)
        (λ _. notify_all-Ordered notifiers unit_name ts states names)

module _ (B : Dbus) (R : RegexCrate) where
  notify_rules-Ordered :
      (notifiers : Dict Notifier) (unit_name : String) (ts : ℕ) (states : List String)
      (rules : List (Rule R))
      → Keeps (Ordered B) (notify_rules B R notifiers unit_name ts states rules)
  unfolding notify_rules
  notify_rules-Ordered notifiers unit_name ts states [] = search quiet_rules
  notify_rules-Ordered notifiers unit_name ts states (rule ∷ rules) =
      Keeps-bind (notify_all B notifiers unit_name ts states rule.notifiers) _
        (notify_all-Ordered B notifiers unit_name ts states rule.notifiers)
        (λ _. notify_rules-Ordered notifiers unit_name ts states rules)

  pub gen_on_change-Ordered :
      (settings : Settings R) (unit_name : String) (ts : ℕ) (usm : UnitStateMachine)
      (old : Option ActiveState)
      → Keeps (Ordered B) (gen_on_change B R settings unit_name ts usm old)
  unfolding gen_on_change
  gen_on_change-Ordered settings unit_name ts usm old = notify_rules-Ordered _ _ _ _ _

module _ (B : Dbus) (f : OnChange World)
    (quiet : (usm : UnitStateMachine) (old : Option ActiveState)
      → Keeps (Ordered B) (f usm old)) where
  new-Ordered : (state : ActiveState) (ts : ℕ) → Keeps (Ordered B) (new state ts f)
  unfolding new
  new-Ordered state ts = search (quiet_rules, quiet)

  update-Ordered :
      (usm : UnitStateMachine) (state : ActiveState) (ts : ℕ) (w : World)
      → Ordered B w
      → Ordered B (update usm state ts f w).1.1
  update-Ordered usm state ts w h =
      elim (Bool-cases (ltb usm.mono_ts ts && not (state_eq usm.active_state state))) [
        | inl e ↦ rw (update-callback usm state ts f w, e) ((quiet _ _).at w h)
        | inr e ↦ rw (update-callback usm state ts f w, e) h
      ]

  pub upsert_machine-Ordered :
      (name : String) (state : ActiveState) (ts : ℕ) (found : Option UnitStateMachine)
      → Keeps (Ordered B) (upsert_machine name state ts f found)
  unfolding upsert_machine stored
  upsert_machine-Ordered name state ts none = search (quiet_rules, new-Ordered)
  upsert_machine-Ordered name state ts (some usm) = record {
    at = λ w h. update-Ordered usm state ts w h;
  }
