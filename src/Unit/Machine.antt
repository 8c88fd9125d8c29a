-- ===== src/Unit/Machine.antt =====
-- src/unit.rs: `UnitStateMachine`. The callback is an action on a state `S` that the machine does
-- not know: it may change it, fail, or panic.
pub mod Laws
use killjoy.Base.{String, Option, none, some, ℕ, ltb, if◌then◌else◌, not}
use killjoy.ActiveState.{ActiveState, state_eq}
use killjoy.Error.{Error}
use killjoy.Exec.{Outcome, returned, raised, panicked, Exec, pure, ◌>>=◌, ◌>>◌}

-- `mono_ts` is the u64 inside `MonotonicTimestamp`.
pub record UnitStateMachine : Type 0 where
  pub active_state : ActiveState
  pub mono_ts : ℕ

-- `impl Fn(&UnitStateMachine, Option<ActiveState>) -> Result<(), CrateError>`
abbrev pub OnChange : Type 0 → Type 0
OnChange S = UnitStateMachine → Option ActiveState → Exec S (Unit {0})

module _ {S : Type 0} where
  -- `UnitStateMachine::new`
  unfoldable pub new : ActiveState → ℕ → OnChange S → Exec S UnitStateMachine
  new active_state mono_ts on_change = do
    let usm : UnitStateMachine = record { active_state = active_state; mono_ts = mono_ts }
    on_change usm none
    pure usm

  -- `UnitStateMachine::update`, which mutates `self`: the machine is a result beside the outcome,
  -- so that it is there also when the callback fails.
  unfoldable pub update :
      UnitStateMachine → ActiveState → ℕ → OnChange S → S → UnitStateMachine × (Outcome Unit × S)
  unfolding state_eq pure
  update usm active_state mono_ts on_change s =
      if ltb usm.mono_ts mono_ts
      then (let usm' = record usm { mono_ts = mono_ts } in
          if not (state_eq usm.active_state active_state)
          then (let changed = record usm' { active_state = active_state } in
              (changed, on_change changed (some usm.active_state) s))
          else (usm', pure tt s))
      else (usm, pure tt s)
