-- ===== src/Watcher/Machines/Upsert.antt =====
-- What an observation of a unit does to the map of machines.
use killjoy.Base.{
  String, ◌≡◌, refl, ℕ, Option, none, some, inl, inr, arith, eq_iff, if◌then◌else◌, not, Bool-cases,
  ◌&&◌, ltb, Option-cases,
}
use killjoy.Base.Dict.{insert}
use killjoy.ActiveState.{ActiveState, state_eq}
use killjoy.Exec.{Outcome, returned, raised, panicked, pure, ◌>>=◌, and_then}
use killjoy.Unit.Machine.{UnitStateMachine, OnChange, new, update}
use killjoy.Unit.Machine.Laws.{update-callback}
use killjoy.Watcher.World.{World, set_unit_states}
use killjoy.Watcher.Units.{stored, upsert_machine}
use killjoy.Base.{◌==◌}
use killjoy.Base.Dict.{lookup, lookup-insert}
use killjoy.Unit.Machine.Laws.{update-machine}
use killjoy.Watcher.Machines.Aside.{IsAside}

-- An update by a callback that leaves the machines alone leaves them alone.
update-aside :
    (usm : UnitStateMachine) (state : ActiveState) (ts : ℕ) (f : OnChange World) (w : World)
    → IsAside f
    → (update usm state ts f w).1.1.unit_states ≡ w.unit_states
update-aside usm state ts f w aside =
    elim (Bool-cases (ltb usm.mono_ts ts && not (state_eq usm.active_state state))) [
      | inl e ↦ rw (update-callback usm state ts f w, e) (aside _ _ w)
      | inr e ↦ rw (update-callback usm state ts f w, e)
    ]

-- The machine of a unit after an observation: the newer of the two, or a first machine if the
-- callback returns.
unfoldable pub observed :
    Outcome (Unit {0}) → UnitStateMachine → Option UnitStateMachine → Option UnitStateMachine
observed r o (some usm) = some (if ltb usm.mono_ts o.mono_ts then o else usm)
observed (returned _) o none = some o
observed (raised e) o none = none
observed (panicked m) o none = none

module _ (name : String) (state : ActiveState) (ts : ℕ) (f : OnChange World) (w : World)
    (j : String) (aside : IsAside f) where
  upsert-some :
      (usm : UnitStateMachine)
      → lookup j (upsert_machine name state ts f (some usm) w).1.unit_states ≡ (
          if name == j
          then observed
              (upsert_machine name state ts f (some usm) w).0
              (record { active_state = state; mono_ts = ts })
              (some usm)
          else lookup j w.unit_states)
  unfolding upsert_machine stored observed
  upsert-some usm =
      rw (lookup-insert, update-aside usm state ts f w aside, update-machine usm state ts f w) refl

  -- The rest of a first observation, from what the callback left.
  first-lookup :
      (o : UnitStateMachine) (r : Outcome (Unit {0}) × World)
      → r.1.unit_states ≡ w.unit_states
      → lookup name w.unit_states ≡ none
      → let after =
          and_then (and_then r (λ _. pure o)) (λ usm. set_unit_states (insert name usm)) in
        lookup j after.1.unit_states
        ≡ (if name == j then observed after.0 o none else lookup j w.unit_states)
  unfolding pure set_unit_states observed
  first-lookup o (returned _, v) same e = rw (lookup-insert, same) refl
  first-lookup o (raised x, v) same e = ground (arith, eq_iff name j)
  first-lookup o (panicked x, v) same e = ground (arith, eq_iff name j)

  upsert-none :
      lookup name w.unit_states ≡ none
      → lookup j (upsert_machine name state ts f none w).1.unit_states ≡ (
          if name == j
          then observed
              (upsert_machine name state ts f none w).0
              (record { active_state = state; mono_ts = ts })
              none
          else lookup j w.unit_states)
  unfolding upsert_machine new ◌>>=◌
  upsert-none e = first-lookup _ (f _ none w) (aside _ none w) e

-- An observation changes the machine of its unit to the newer of the two, or stores a first
-- machine unless the callback fails, and changes no other unit's.
pub upsert_machine-lookup :
    (name : String) (state : ActiveState) (ts : ℕ) (f : OnChange World) (w : World) (j : String)
    → IsAside f
    → let after = upsert_machine name state ts f (lookup name w.unit_states) w in
      lookup j after.1.unit_states ≡ (
        if name == j
        then observed after.0
            (record { active_state = state; mono_ts = ts })
            (lookup name w.unit_states)
        else lookup j w.unit_states)
upsert_machine-lookup name state ts f w j aside = elim (Option-cases (lookup name w.unit_states)) [
  | inl e ↦ rw e (upsert-none name state ts f w j aside e)
  | inr (usm, e) ↦ rw e (upsert-some name state ts f w j aside usm)
]
