-- ===== src/Watcher/Machines/Aside.antt =====
-- The map of machines while notifiers are contacted.
use killjoy.Base.{String, ◌≡◌, refl, ℕ, Option, List, [], ◌∷◌}
use killjoy.Base.Dict.{Dict}
use killjoy.ActiveState.{ActiveState}
use killjoy.Error.{Error, Result, ok, err, ExternError, ExternResult}
use killjoy.Exec.Keeps.{Keeps, Keeps-bind, Keeps-pure}
use killjoy.Unit.Machine.{UnitStateMachine, OnChange}
use killjoy.Dbus.{Dbus, Call, Trace, BusType, Notification}
use killjoy.Settings.Regex.{RegexCrate}
use killjoy.Settings.Types.{Settings, Notifier, Rule}
use killjoy.Watcher.World.{World, ask, tell}
use killjoy.Watcher.Keeping.{still_rules}
use killjoy.Watcher.Notify.{report, deliver, notify_one, notify_all, notify_rules, gen_on_change}

-- The machines are `m`.
abbrev pub Holds : Dict UnitStateMachine → World → Type 0
Holds m w = w.unit_states ≡ m

module _ (m : Dict UnitStateMachine) where
  tell-Holds : (call : Call) → Keeps (Holds m) (tell call)
  unfolding tell
  tell-Holds call = record { at = λ w h. h }

  ask-Holds :
      {A : Type 0} (call : Call) (answer : Trace → ExternResult A) (f : ExternError → Error)
      → Keeps (Holds m) (ask call answer f)
  unfolding ask
  ask-Holds call answer f = record { at = λ w h. h }

  report-Holds :
      (name : String) (r : Result ExternError (Unit {0})) → Keeps (Holds m) (report name r)
  unfolding report
  report-Holds name (ok _) = Keeps-pure _
  report-Holds name (err e) = tell-Holds _

module _ (B : Dbus) (m : Dict UnitStateMachine) where
  deliver-Holds :
      (name : String) (b : BusType) (msg : Notification) → Keeps (Holds m) (deliver B name b msg)
  unfolding deliver
  deliver-Holds name b msg = record { at = λ w h. (report-Holds m name _).at _ h }

  notify_one-Holds :
      (notifiers : Dict Notifier) (unit_name : String) (ts : ℕ) (states : List String)
      (name : String)
      → Keeps (Holds m) (notify_one B notifiers unit_name ts states name)
  unfolding notify_one
  notify_one-Holds notifiers unit_name ts states name =
      search (still_rules, ask-Holds, deliver-Holds) depth 9

  notify_all-Holds :
      (notifiers : Dict Notifier) (unit_name : String) (ts : ℕ) (states : List String)
      (names : List String)
      → Keeps (Holds m) (notify_all B notifiers unit_name ts states names)
  unfolding notify_all
  notify_all-Holds notifiers unit_name ts states [] = Keeps-pure _
  notify_all-Holds notifiers unit_name ts states (name ∷ names) =
      Keeps-bind _ _ (notify_one-Holds notifiers unit_name ts states name)
        (λ _. notify_all-Holds notifiers unit_name ts states names)

  notify_rules-Holds :
      (R : RegexCrate) (notifiers : Dict Notifier) (unit_name : String) (ts : ℕ)
      (states : List String) (rules : List (Rule R))
      → Keeps (Holds m) (notify_rules B R notifiers unit_name ts states rules)
  unfolding notify_rules
  notify_rules-Holds R notifiers unit_name ts states [] = Keeps-pure _
  notify_rules-Holds R notifiers unit_name ts states (rule ∷ rules) =
      Keeps-bind _ _ (notify_all-Holds notifiers unit_name ts states rule.notifiers)
        (λ _. notify_rules-Holds R notifiers unit_name ts states rules)

-- A callback that leaves the machines alone, whatever its outcome.
abbrev pub IsAside : OnChange World → Type 0
IsAside f =
    (usm : UnitStateMachine) (old : Option ActiveState) (w : World)
    → (f usm old w).1.unit_states ≡ w.unit_states

pub gen_on_change-IsAside :
    (B : Dbus) (R : RegexCrate) (settings : Settings R) (unit_name : String) (ts : ℕ)
    → IsAside (gen_on_change B R settings unit_name ts)
unfolding gen_on_change
gen_on_change-IsAside B R settings unit_name ts usm old w =
    (notify_rules-Holds B w.unit_states R _ _ _ _ _).at w refl
