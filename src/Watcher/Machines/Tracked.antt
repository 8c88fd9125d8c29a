-- ===== src/Watcher/Machines/Tracked.antt =====
-- Units that are tracked, and what an observation does to them.
use killjoy.Base.{
  String, ◌≡◌, ◌≢◌, refl, ◌∙◌, ℕ, ◌<◌, Option, none, some, ◌⊎◌, inl, inr, arith, eq_iff,
  if◌then◌else◌, ap, Bool-cases, ltb, ◌==◌,
}
use killjoy.Base.Dict.{lookup, lookup-remove}
use killjoy.ActiveState.{ActiveState}
use killjoy.Error.{Error, ExternError, ExternResult}
use killjoy.Exec.{Outcome}
use killjoy.Exec.Keeps.{Keeps}
use killjoy.Unit.Machine.{UnitStateMachine, OnChange}
use killjoy.Dbus.{Dbus, Call, Trace}
use killjoy.Generated.Wire.{Wire}
use killjoy.Generated.Signals.{UnitRemoved, unit_removed_from_message}
use killjoy.Watcher.World.{World, ask, tell, set_unit_states, invoke}
use killjoy.Watcher.Units.{upsert_machine, forget_unit_state}
use killjoy.Watcher.Machines.Aside.{IsAside}
use killjoy.Watcher.Machines.Upsert.{observed, upsert_machine-lookup}

-- The machine is the same, or newer.
abbrev pub IsSince : UnitStateMachine → UnitStateMachine → Type 0
IsSince u v = (u ≡ v) ⊎ (u.mono_ts < v.mono_ts)

IsSince-trans : (u v w : UnitStateMachine) → IsSince u v → IsSince v w → IsSince u w
IsSince-trans u v w a b = ground arith

-- The unit `k` has a machine that is `u` or newer.
abbrev pub IsTracked : String → UnitStateMachine → World → Type 0
IsTracked k u w = (v : UnitStateMachine) × (lookup k w.unit_states ≡ some v) × IsSince u v

-- Not the signal that the unit `k` was removed.
abbrev pub IsOther : (B : Dbus) → String → Option (Dbus.Message B) → Type 0
IsOther B k none = Unit
IsOther B k (some msg) = (m : UnitRemoved) → unit_removed_from_message B msg ≡ some m → m.arg0 ≢ k

module _ (k : String) (u : UnitStateMachine) where
  pub tell-IsTracked : (call : Call) → Keeps (IsTracked k u) (tell call)
  unfolding tell
  tell-IsTracked call = record { at = λ w h. h }

  pub ask-IsTracked :
      {A : Type 0} (call : Call) (answer : Trace → ExternResult A) (f : ExternError → Error)
      → Keeps (IsTracked k u) (ask call answer f)
  unfolding ask
  ask-IsTracked call answer f = record { at = λ w h. h }

  pub invoke-IsTracked :
      {A : Type 0} (m : Wire A) (f : ExternError → Error) → Keeps (IsTracked k u) (invoke m f)
  unfolding invoke
  invoke-IsTracked m f = record { at = λ w h. h }

  pub forget-IsTracked : (name : String) → name ≢ k → Keeps (IsTracked k u) (forget_unit_state name)
  unfolding forget_unit_state set_unit_states
  forget-IsTracked name other = record {
    at = λ w (v, e, s). (v, ground (arith, lookup-remove name k w.unit_states, eq_iff name k), s);
  }

  -- An observation of any unit.
  observed_same :
      (r : Outcome (Unit {0})) (o v : UnitStateMachine)
      → (v' : UnitStateMachine) × (observed r o (some v) ≡ some v') × IsSince v v'
  unfolding observed
  observed_same r o v = elim (Bool-cases (ltb v.mono_ts o.mono_ts)) [
    | inl e ↦ rw e (o, refl, inr (ground arith))
    | inr e ↦ rw e (v, refl, inl refl)
  ]

  pub upsert_machine-IsTracked :
      (name : String) (state : ActiveState) (ts : ℕ) (f : OnChange World) (w : World)
      → IsAside f
      → IsTracked k u w
      → IsTracked k u (upsert_machine name state ts f (lookup name w.unit_states) w).1
  upsert_machine-IsTracked name state ts f w aside (v, e, s) =
      let after = upsert_machine name state ts f (lookup name w.unit_states) w in
      let at_k : lookup k after.1.unit_states ≡ (
          if name == k
          then observed after.0 (record { active_state = state; mono_ts = ts })
              (lookup name w.unit_states)
          else lookup k w.unit_states) =
        upsert_machine-lookup name state ts f w k aside in
      elim (Bool-cases (name == k)) [
        | inl same ↦
            let here : lookup name w.unit_states ≡ some v = rw ((eq_iff name k).0 same) e in
            let (v', e', s') =
              observed_same after.0 (record { active_state = state; mono_ts = ts }) v in
            (
              v',
              at_k
                  ∙ rw same (
                      ap (observed after.0 (record { active_state = state; mono_ts = ts })) here
                      ∙ e'),
              IsSince-trans u v v' s s',
            )
        | inr other ↦ (v, at_k ∙ rw other e, s)
      ]
