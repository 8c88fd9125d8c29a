-- ===== src/Watcher/Machines/Serving.antt =====
-- Tracked units over the signal loop.
use killjoy.Base.{String, ◌≡◌, ◌≢◌, refl, ℕ, Option, none, some, List, [], ◌∷◌, All, inl}
use killjoy.Base.Dict.{lookup}
use killjoy.ActiveState.{ActiveState}
use killjoy.Error.{Error, Result, ok, err}
use killjoy.Exec.{◌>>=◌}
use killjoy.Exec.Keeps.{Keeps, Keeps-bind, Keeps-if, Keeps-pure, Keeps-lift, Keeps-attempt}
use killjoy.Unit.Machine.{UnitStateMachine}
use killjoy.Dbus.{Dbus}
use killjoy.Generated.Signals.{UnitNew, UnitRemoved, PropertiesChanged}
use killjoy.Timestamp.{UnitProps}
use killjoy.Settings.Regex.{RegexCrate}
use killjoy.Settings.Types.{Settings}
use killjoy.Watcher.World.{World, gets}
use killjoy.Watcher.Keeping.{still_rules}
use killjoy.Watcher.Notify.{gen_on_change}
use killjoy.Watcher.Manager.{
  call_properties_get_all, subscribe_signal, subscribe_properties_changed,
  unsubscribe_properties_changed,
}
use killjoy.Watcher.Units.{upsert_machine, upsert_unit_states}
use killjoy.Watcher.Handlers.{
  forget_or_panic, upsert_if_loaded, track, handle_unit_new, handle_unit_removed, get_unit_id,
  handle_properties_changed, handle_message,
}
use killjoy.Watcher.Run.{BusWatcher, serve}
use killjoy.Watcher.Looping.{message-Keeps, Handles, serve-Keeps}
use killjoy.Watcher.Machines.Aside.{gen_on_change-IsAside}
use killjoy.Watcher.Machines.Tracked.{
  IsTracked, IsOther, tell-IsTracked, ask-IsTracked, invoke-IsTracked, forget-IsTracked,
  upsert_machine-IsTracked,
}

module _ (k : String) (u : UnitStateMachine) where
  module _ (B : Dbus) (R : RegexCrate) (settings : Settings R) where
    gets_upsert-IsTracked :
        (name : String) (state : ActiveState) (ts real_ts : ℕ)
        → Keeps (IsTracked k u) (
            gets (λ w. lookup name w.unit_states)
            >>= upsert_machine name state ts (gen_on_change B R settings name real_ts))
    unfolding gets ◌>>=◌
    gets_upsert-IsTracked name state ts real_ts = record {
      at = λ w h.
          upsert_machine-IsTracked k u name state ts _ w
            (gen_on_change-IsAside B R settings name real_ts) h;
    }

    upsert-IsTracked :
        (name : String) (props : UnitProps B)
        → Keeps (IsTracked k u) (upsert_unit_states B R settings name props)
    unfolding upsert_unit_states
    upsert-IsTracked name props = Keeps-bind _ _ (Keeps-lift _) λ state.
        Keeps-bind _ _ (Keeps-lift _)
          λ real_ts. Keeps-bind _ _ (Keeps-lift _) λ ts. gets_upsert-IsTracked name state ts real_ts

    upsert_if_loaded-IsTracked :
        (name : String) (r : Result Error (UnitProps B))
        → Keeps (IsTracked k u) (upsert_if_loaded B R settings name r)
    unfolding upsert_if_loaded
    upsert_if_loaded-IsTracked name (ok props) = upsert-IsTracked name props
    upsert_if_loaded-IsTracked name (err e) = search still_rules

    get_all-IsTracked : (path : String) → Keeps (IsTracked k u) (call_properties_get_all B path)
    unfolding call_properties_get_all
    get_all-IsTracked path = search (still_rules, invoke-IsTracked)

    subscribe-IsTracked :
        (path : String) → Keeps (IsTracked k u) (subscribe_properties_changed B path)
    unfolding subscribe_properties_changed subscribe_signal
    subscribe-IsTracked path = search (still_rules, ask-IsTracked)

    unsubscribe-IsTracked :
        (path : String) → Keeps (IsTracked k u) (unsubscribe_properties_changed B path)
    unfolding unsubscribe_properties_changed
    unsubscribe-IsTracked path = search (still_rules, ask-IsTracked)

    unit_new-IsTracked : (m : UnitNew) → Keeps (IsTracked k u) (handle_unit_new B R settings m)
    unfolding handle_unit_new track
    unit_new-IsTracked m =
        search (still_rules, subscribe-IsTracked, get_all-IsTracked, upsert_if_loaded-IsTracked)
          depth 8

    forget_or_panic-IsTracked :
        (name : String)
        → name ≢ k
        → (r : Result Error (Unit {0})) → Keeps (IsTracked k u) (forget_or_panic name r)
    unfolding forget_or_panic
    forget_or_panic-IsTracked name other (ok _) = forget-IsTracked k u name other
    forget_or_panic-IsTracked name other (err e) = search still_rules

    unit_removed-IsTracked :
        (m : UnitRemoved) → m.arg0 ≢ k → Keeps (IsTracked k u) (handle_unit_removed B R settings m)
    unfolding handle_unit_removed
    unit_removed-IsTracked m other =
        Keeps-if _ _ _
          (Keeps-bind _ _ (Keeps-attempt _ (unsubscribe-IsTracked m.arg1))
            (forget_or_panic-IsTracked m.arg0 other))
          (Keeps-pure _)

    get_unit_id-IsTracked : (path : String) → Keeps (IsTracked k u) (get_unit_id B R settings path)
    unfolding get_unit_id
    get_unit_id-IsTracked path = search (still_rules, invoke-IsTracked)

    changed-IsTracked :
        (msg : Dbus.Message B) (m : PropertiesChanged (Dbus.RefArg B))
        → Keeps (IsTracked k u) (handle_properties_changed B R settings msg m)
    unfolding handle_properties_changed
    changed-IsTracked msg m = search (still_rules, get_unit_id-IsTracked, upsert-IsTracked) depth 8

    message-IsTracked :
        (msg : Dbus.Message B)
        → IsOther B k (some msg)
        → Keeps (IsTracked k u) (handle_message B R settings msg)
    message-IsTracked msg other =
        message-Keeps _ B R settings msg unit_new-IsTracked
          (λ m removed. unit_removed-IsTracked m (other m removed)) (changed-IsTracked msg)

    handled-IsTracked :
        (schedule : List (Option (Dbus.Message B)))
        → All (IsOther B k) schedule
        → All (Handles (IsTracked k u) B R settings) schedule
    handled-IsTracked [] h = tt
    handled-IsTracked (none ∷ schedule) (_, h) = (tt, handled-IsTracked schedule h)
    handled-IsTracked (some msg ∷ schedule) (other, h) =
        (message-IsTracked msg other, handled-IsTracked schedule h)

-- While no signal says that a unit was removed, a tracked unit stays tracked, whatever the signals
-- and the answers: its machine stays the same or is replaced by one with a greater timestamp, and
-- does so also when the loop ends with an error.
pub serve-IsTracked :
    (k : String) (u : UnitStateMachine) (B : Dbus) (R : RegexCrate) (watcher : BusWatcher R)
    (schedule : List (Option (Dbus.Message B))) (w : World)
    → All (IsOther B k) schedule
    → lookup k w.unit_states ≡ some u
    → IsTracked k u (serve B R watcher schedule w).1
serve-IsTracked k u B R watcher schedule w h e =
    (serve-Keeps (IsTracked k u) B R watcher (tell-IsTracked k u _) schedule
        (handled-IsTracked k u B R watcher.settings schedule h)).at
      w (u, e, inl refl)
