-- ===== src/Watcher/Removal.antt =====
-- The signals that remove a unit, and those that are passed over.
use killjoy.Base.{
  String, ◌<>◌, ◌≡◌, refl, none, ◌==◌, ◌⊎◌, inl, inr, true, false, Bool-cases, if◌then◌else◌, arith,
}
use killjoy.Base.Dict.{Dict, lookup, lookup-remove}
use killjoy.Error.Display.{display}
use killjoy.Exec.{Outcome, returned, raised, panicked, panic, settle, and_then, ◌>>=◌}
use killjoy.Unit.Machine.{UnitStateMachine}
use killjoy.Dbus.{Dbus}
use killjoy.Generated.Signals.{UnitRemoved}
use killjoy.Settings.Regex.{RegexCrate}
use killjoy.Settings.Types.{Settings}
use killjoy.Watcher.World.{World, ask, set_unit_states}
use killjoy.Watcher.Names.{wrap_bus_name_for_systemd}
use killjoy.Watcher.Rules.{rules_match_name}
use killjoy.Watcher.Manager.{unsubscribe_properties_changed}
use killjoy.Watcher.Units.{forget_unit_state}
use killjoy.Watcher.Handlers.{forget_or_panic, handle_unit_removed}

-- What removing a unit does, by how unsubscribing from its changes ended.
abbrev pub Removes :
    String → Outcome (Unit {0}) → Dict UnitStateMachine → Outcome (Unit {0}) × World → Type 0
Removes name (returned _) before (r, after) =
    (r ≡ returned tt)
    × ((j : String) → lookup j after.unit_states ≡ (if name == j then none else lookup j before))
Removes name (raised e) before (r, after) =
    (r ≡ panicked ("Failed to handle UnitRemoved signal: " <> display e))
    × (after.unit_states ≡ before)
Removes name (panicked m) before (r, after) = (r ≡ panicked m) × (after.unit_states ≡ before)

module _ (B : Dbus) (R : RegexCrate) (settings : Settings R) where
  settled-Removes :
      (name : String) (x : Outcome (Unit {0}) × World) (before : Dict UnitStateMachine)
      → x.1.unit_states ≡ before
      → Removes name x.0 before (and_then (settle x) (forget_or_panic name))
  unfolding forget_or_panic forget_unit_state set_unit_states panic
  settled-Removes name (returned _, w) before e =
      (refl, λ j. rw (← e) (lookup-remove name j w.unit_states))
  settled-Removes name (raised x, w) before e = (refl, e)
  settled-Removes name (panicked m, w) before e = (refl, e)

  unsubscribe_aside :
      (path : String) (w : World)
      → (unsubscribe_properties_changed B path w).1.unit_states ≡ w.unit_states
  unfolding unsubscribe_properties_changed wrap_bus_name_for_systemd ask ◌>>=◌
  unsubscribe_aside path w = ground arith

  -- A unit that no rule is about: nothing happens when it is removed. Another: if unsubscribing from
  -- its changes succeeds, its machine is dropped and no other; if that fails, the thread panics with
  -- the error's message, and no machine is dropped.
  pub handle_unit_removed-Removes :
      (m : UnitRemoved) (w : World)
      → (rules_match_name R settings.rules m.arg0 ≡ false
          × (handle_unit_removed B R settings m w ≡ (returned tt, w)))
        ⊎ (rules_match_name R settings.rules m.arg0 ≡ true
            × Removes m.arg0
                (unsubscribe_properties_changed B m.arg1 w).0
                w.unit_states
                (handle_unit_removed B R settings m w))
  unfolding handle_unit_removed ◌>>=◌
  handle_unit_removed-Removes m w = elim (Bool-cases (rules_match_name R settings.rules m.arg0)) [
    | inl e ↦ inr (
      e,
      rw e (
          settled-Removes m.arg0 (unsubscribe_properties_changed B m.arg1 w) w.unit_states
            (unsubscribe_aside m.arg1 w)),
    )
    | inr e ↦ inl (e, rw e refl)
  ]
