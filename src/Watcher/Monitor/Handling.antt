-- ===== src/Watcher/Monitor/Handling.antt =====
-- The handlers of signals take only the specification's steps.
use killjoy.Base.{
  String, ◌≡◌, refl, ℕ, Option, none, some, true, List, [], ◌∷◌, Bool-cases, inl, inr, arith,
}
use killjoy.Base.Dict.{lookup, lookup-remove}
use killjoy.ActiveState.{ActiveState}
use killjoy.Error.{Error, Result, ok, err, ok_or, ◌>>=◌ as ◌then◌}
use killjoy.Exec.{◌>>=◌}
use killjoy.Exec.Keeps.{Keeps, Keeps-bind, Keeps-lift_then, Keeps-pure, Keeps-lift, Keeps-attempt}
use killjoy.Dbus.{Dbus}
use killjoy.Generated.Signals.{UnitNew, UnitRemoved, PropertiesChanged}
use killjoy.Timestamp.{UnitProps, get_monotonic_timestamp, get_realtime_timestamp}
use killjoy.Settings.Regex.{RegexCrate}
use killjoy.Settings.Types.{Settings, Notifier}
use killjoy.Settings.Sound.{IsSound}
use killjoy.Watcher.World.{World, gets, set_unit_states}
use killjoy.Watcher.Rules.{rules_match_name}
use killjoy.Watcher.Keeping.{still_rules}
use killjoy.Watcher.Notify.{gen_on_change}
use killjoy.Watcher.Units.{upsert_machine, upsert_unit_states, forget_unit_state}
use killjoy.Watcher.Handlers.{
  forget_or_panic, upsert_if_loaded, track, handle_unit_new, handle_unit_removed,
  handle_properties_changed, handle_message,
}
use killjoy.Watcher.Run.{track_if_loaded, learn_unit, learn_units}
use killjoy.Watcher.Delivery.{Address, HasAddress, IsUp}
use killjoy.Watcher.Looping.{message-Keeps}
use killjoy.Watcher.Monitor.{Monitor, IsRead, leave, Steps, next}
use killjoy.Watcher.Monitor.Silent.{
  Seen, get_all-Seen, get_unit-Seen, changed-Seen, unsubscribe-Seen, get_unit_id-Seen,
}
use killjoy.Watcher.Monitor.Observing.{Monitor-eq, upsert_machine-Steps}

module _ (B : Dbus) where
  cast-IsRead :
      (no_value no_number : Error) (found : Option (Dbus.RefArg B)) (ts : ℕ)
      → (ok_or no_value found then λ v. ok_or no_number (Dbus.as_u64 B v)) ≡ ok ts
      → IsRead B ts
  cast-IsRead no_value no_number none ts h = absurd (ground arith)
  cast-IsRead no_value no_number (some v) ts h = (v, ground arith)

  monotonic-IsRead :
      (state : ActiveState) (props : UnitProps B) (ts : ℕ)
      → get_monotonic_timestamp B state props ≡ ok ts
      → IsRead B ts
  unfolding get_monotonic_timestamp
  monotonic-IsRead state props ts h = cast-IsRead _ _ _ ts h

  realtime-IsRead :
      (state : ActiveState) (props : UnitProps B) (ts : ℕ)
      → get_realtime_timestamp B state props ≡ ok ts
      → IsRead B ts
  unfolding get_realtime_timestamp
  realtime-IsRead state props ts h = cast-IsRead _ _ _ ts h

module _ (B : Dbus) (R : RegexCrate) (up : IsUp B) (settings : Settings R)
    (sound : IsSound B R settings) (address : String → Address)
    (reach : (name : String) (n : Notifier)
      → lookup name settings.notifiers ≡ some n
      → HasAddress B n (address name)) where
  module _ (origin : Monitor) where
    -- The specification gets from `origin` to what is seen.
    abbrev pub Reaches : World → Type 0
    Reaches = Seen (Steps B R settings address origin)

    upsert_found-Reaches :
        (name : String) (state : ActiveState) (ts real_ts : ℕ)
        → IsRead B ts
        → IsRead B real_ts
        → Keeps Reaches (
            gets (λ w. lookup name w.unit_states)
            >>= upsert_machine name state ts (gen_on_change B R settings name real_ts))
    unfolding gets ◌>>=◌
    upsert_found-Reaches name state ts real_ts mono real = record {
      at = λ w h.
          upsert_machine-Steps B R up settings sound address reach origin name state ts real_ts mono
            real w h;
    }

    upsert-Reaches :
        (name : String) (props : UnitProps B)
        → Keeps Reaches (upsert_unit_states B R settings name props)
    unfolding upsert_unit_states
    upsert-Reaches name props = Keeps-bind _ _ (Keeps-lift _) λ state.
        Keeps-lift_then _ _ λ real_ts real. Keeps-lift_then _ _ λ ts mono.
          upsert_found-Reaches name state ts real_ts (monotonic-IsRead B state props ts mono)
            (realtime-IsRead B state props real_ts real)

    forget-Reaches :
        (name : String)
        → rules_match_name R settings.rules name ≡ true
        → Keeps Reaches (forget_unit_state name)
    unfolding forget_unit_state set_unit_states
    forget-Reaches name matched = record {
      at = λ w h.
          next h
            (leave name matched (Monitor-eq _ _ (λ j. lookup-remove name j w.unit_states) refl));
    }

    if_loaded-Reaches :
        (name : String) (r : Result Error (UnitProps B))
        → Keeps Reaches (upsert_if_loaded B R settings name r)
    unfolding upsert_if_loaded
    if_loaded-Reaches name (ok props) = upsert-Reaches name props
    if_loaded-Reaches name (err e) = search still_rules

    track-Reaches : (name path : String) → Keeps Reaches (track B R settings name path)
    unfolding track
    track-Reaches name path =
        search (still_rules, changed-Seen, get_all-Seen, if_loaded-Reaches) depth 8

    unit_new-Reaches : (m : UnitNew) → Keeps Reaches (handle_unit_new B R settings m)
    unfolding handle_unit_new
    unit_new-Reaches m = search (still_rules, track-Reaches)

    forget_or_panic-Reaches :
        (name : String)
        → rules_match_name R settings.rules name ≡ true
        → (r : Result Error (Unit {0})) → Keeps Reaches (forget_or_panic name r)
    unfolding forget_or_panic
    forget_or_panic-Reaches name matched (ok _) = forget-Reaches name matched
    forget_or_panic-Reaches name matched (err e) = search still_rules

    unit_removed-Reaches : (m : UnitRemoved) → Keeps Reaches (handle_unit_removed B R settings m)
    unfolding handle_unit_removed
    unit_removed-Reaches m = elim (Bool-cases (rules_match_name R settings.rules m.arg0)) [
      | inl matched ↦ rw matched (
          Keeps-bind _ _
            (Keeps-attempt _ (unsubscribe-Seen (Steps B R settings address origin) B m.arg1))
            (forget_or_panic-Reaches m.arg0 matched))
      | inr other ↦ rw other (Keeps-pure _)
    ]

    changed-Reaches :
        (msg : Dbus.Message B) (m : PropertiesChanged (Dbus.RefArg B))
        → Keeps Reaches (handle_properties_changed B R settings msg m)
    unfolding handle_properties_changed
    changed-Reaches msg m = search (still_rules, get_unit_id-Seen, upsert-Reaches) depth 8

    pub message-Reaches : (msg : Dbus.Message B) → Keeps Reaches (handle_message B R settings msg)
    message-Reaches msg =
        message-Keeps Reaches B R settings msg unit_new-Reaches
          (λ m removed. unit_removed-Reaches m) (changed-Reaches msg)

    track_if_loaded-Reaches :
        (name : String) (r : Result Error String)
        → Keeps Reaches (track_if_loaded B R settings name r)
    unfolding track_if_loaded
    track_if_loaded-Reaches name (ok path) = track-Reaches name path
    track_if_loaded-Reaches name (err e) = search still_rules

    learn_unit-Reaches : (name : String) → Keeps Reaches (learn_unit B R settings name)
    unfolding learn_unit
    learn_unit-Reaches name = search (still_rules, get_unit-Seen, track_if_loaded-Reaches)

    pub learn_units-Reaches : (names : List String) → Keeps Reaches (learn_units B R settings names)
    unfolding learn_units
    learn_units-Reaches [] = search still_rules
    learn_units-Reaches (name ∷ names) =
        Keeps-bind (learn_unit B R settings name) _ (learn_unit-Reaches name)
          (λ _. learn_units-Reaches names)
