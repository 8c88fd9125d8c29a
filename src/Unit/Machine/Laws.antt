-- ===== src/Unit/Machine/Laws.antt =====
-- The state machine of one unit, over single updates and over any sequence of them.
use killjoy.Base.{
  some, ℕ, ◌≤◌, ltb, if◌then◌else◌, not, ◌&&◌, ◌≡◌, refl, ◌⊎◌, inl, ◌↔◌, List, [], ◌∷◌, All, In,
  All_of_In, arith,
}
use killjoy.ActiveState.{ActiveState, state_eq, state_eq_iff}
use killjoy.Exec.{returned, pure}
use killjoy.Unit.Machine.{UnitStateMachine, OnChange, update}

module _ {S : Type 0} (usm : UnitStateMachine) (active_state : ActiveState) (mono_ts : ℕ)
    (f : OnChange S) (s : S) where
  abbrev given : UnitStateMachine
  given = record { active_state = active_state; mono_ts = mono_ts }

  -- A newer observation replaces the machine whole, and any other leaves it alone. This does not
  -- depend on the callback, which may fail.
  pub update-machine : (update usm active_state mono_ts f s).0 ≡ (
      if ltb usm.mono_ts mono_ts
      then record { active_state = active_state; mono_ts = mono_ts }
      else usm)
  unfolding update
  update-machine = ground (arith, state_eq_iff usm.active_state active_state)

  -- The callback runs exactly when the observation is newer and its state is another, on the
  -- updated machine and with the old state; its outcome is that of the update.
  pub update-callback : (update usm active_state mono_ts f s).1 ≡ (
      if ltb usm.mono_ts mono_ts && not (state_eq usm.active_state active_state)
      then f (record { active_state = active_state; mono_ts = mono_ts }) (some usm.active_state) s
      else (returned tt, s))
  unfolding update
  update-callback = ground arith

-- One observation by a machine whose callback does nothing.
unfoldable pub step : UnitStateMachine → UnitStateMachine → UnitStateMachine
step usm o = (update usm o.active_state o.mono_ts (λ _ _. pure tt) tt).0

-- The machine after a sequence of observations, each a state with its timestamp.
unfoldable pub observe : UnitStateMachine → List UnitStateMachine → UnitStateMachine
observe usm [] = usm
observe usm (o ∷ os) = observe (step usm o) os

-- `m` is among the observations, and none is newer.
abbrev pub IsLatest : UnitStateMachine → List UnitStateMachine → Type 0
IsLatest m os = In m os × All (λ o. o.mono_ts ≤ m.mono_ts) os

step-cases :
    (usm o : UnitStateMachine)
    → ((step usm o ≡ o) × (usm.mono_ts ≤ o.mono_ts))
      ⊎ ((step usm o ≡ usm) × (o.mono_ts ≤ usm.mono_ts))
unfolding step
step-cases usm o = ground (arith, update-machine usm o.active_state o.mono_ts (λ _ _. pure tt) tt)

IsLatest-step :
    (usm o u m : UnitStateMachine) (os : List UnitStateMachine)
    → ((u ≡ o) × (usm.mono_ts ≤ o.mono_ts)) ⊎ ((u ≡ usm) × (o.mono_ts ≤ usm.mono_ts))
    → IsLatest m (u ∷ os)
    → IsLatest m (usm ∷ o ∷ os)
IsLatest-step usm o u m os c h = ground arith

-- Whatever the order, the machine ends at one of the observations, the first machine counted as
-- one, and no observation is newer than that.
pub observe-IsLatest :
    (usm : UnitStateMachine) (os : List UnitStateMachine) → IsLatest (observe usm os) (usm ∷ os)
unfolding observe
observe-IsLatest usm [] = (inl refl, (omega arith, tt))
observe-IsLatest usm (o ∷ os) =
    IsLatest-step usm o (step usm o) _ os (step-cases usm o) (observe-IsLatest (step usm o) os)

-- One time is one state.
abbrev pub IsConsistent : List UnitStateMachine → Type 0
IsConsistent os =
    (a b : UnitStateMachine)
    → In a os
    → In b os
    → a.mono_ts ≡ b.mono_ts
    → a.active_state ≡ b.active_state

-- If the observations agree where their timestamps are equal, then the final machine depends on
-- which observations arrived, and neither on their order nor on how often each did.
pub observe_order :
    (usm : UnitStateMachine) (xs ys : List UnitStateMachine)
    → IsConsistent (usm ∷ xs)
    → ((o : UnitStateMachine) → In o (usm ∷ xs) ↔ In o (usm ∷ ys))
    → observe usm xs ≡ observe usm ys
observe_order usm xs ys c same =
    let (m, newest) = observe-IsLatest usm xs in
    let (n, newest') = observe-IsLatest usm ys in
    let n' = (same (observe usm ys)).1 n in
    let below =
      All_of_In (λ o. o.mono_ts ≤ (observe usm xs).mono_ts) (usm ∷ xs) newest (observe usm ys) n' in
    let above =
      All_of_In (λ o. o.mono_ts ≤ (observe usm ys).mono_ts) (usm ∷ ys) newest' (observe usm xs)
        ((same (observe usm xs)).0 m) in
    let same_ts : (observe usm xs).mono_ts ≡ (observe usm ys).mono_ts = omega arith in
    let same_state = c (observe usm xs) (observe usm ys) m n' same_ts in
    λ i. record { active_state = same_state i; mono_ts = same_ts i }
