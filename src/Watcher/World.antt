-- ===== src/Watcher/World.antt =====
-- The state of a watcher thread: the map of unit state machines, and the calls made so far.
use killjoy.Base.{◌∷◌}
use killjoy.Base.Dict.{Dict}
use killjoy.Error.{Error, ok, err, ExternError, ExternResult}
use killjoy.Exec.{Outcome, returned, raised, Exec}
use killjoy.Unit.Machine.{UnitStateMachine}
use killjoy.Dbus.{Call, Trace}
use killjoy.Generated.Wire.{Wire}

pub record World : Type 0 where
  pub unit_states : Dict UnitStateMachine
  pub trace : Trace

-- `map_err(f)?` on the answer of a foreign call.
abbrev pub or_raise : {A : Type 0} → ExternResult A → (ExternError → Error) → Outcome A
or_raise (ok a) f = returned a
or_raise (err e) f = raised (f e)

-- Makes a call, whose answer is a function of the calls made before.
unfoldable pub ask :
    {A : Type 0} → Call → (Trace → ExternResult A) → (ExternError → Error) → Exec World A
ask call answer f w = (or_raise (answer w.trace) f, record w { trace = call ∷ w.trace })

-- A method of the generated client.
unfoldable pub invoke : {A : Type 0} → Wire A → (ExternError → Error) → Exec World A
invoke m f w = let (r, trace) = m w.trace in (or_raise r f, record w { trace = trace })

-- Records a call that has no answer.
unfoldable pub tell : Call → Exec World (Unit {0})
tell call w = (returned tt, record w { trace = call ∷ w.trace })

unfoldable pub gets : {A : Type 0} → (World → A) → Exec World A
gets f w = (returned (f w), w)

unfoldable pub set_unit_states :
    (Dict UnitStateMachine → Dict UnitStateMachine) → Exec World (Unit {0})
set_unit_states f w = (returned tt, record w { unit_states = f w.unit_states })
