-- ===== src/Watcher/Interest.antt =====
-- Which rules a change of state is of interest to.
use killjoy.Base.{String, ◌≡◌, List, [], ◌∷◌, In, ◌↔◌, arith, any, In-filter, true}
use killjoy.ActiveState.{ActiveState, state_eq, state_eq_iff}
use killjoy.Settings.Regex.{RegexCrate}
use killjoy.Settings.Types.{Rule, Settings, matches}
use killjoy.Settings.Matching.{Denotes, matches_iff}
use killjoy.Watcher.Rules.{get_rules_matching_name, get_rules_matching_active_state}
use killjoy.Watcher.Notify.{interested}

any-state :
    (target : ActiveState) (states : List ActiveState)
    → (any (λ s. state_eq s target) states ≡ true) ↔ In target states
any-state target [] = (λ h. cc, λ h. absurd h)
any-state target (x ∷ xs) =
    let ih = any-state target xs in let e = state_eq_iff x target in ground arith

module _ (R : RegexCrate) where
  -- The rules that a change is of interest to are those whose expression matches the unit's name
  -- and whose states have the new one.
  pub In-interested :
      (settings : Settings R) (unit_name : String) (state : ActiveState) (rule : Rule R)
      → In rule (interested R settings unit_name state) ↔ (
          In rule settings.rules
          × Denotes R rule.expression unit_name
          × In state rule.active_states)
  unfolding interested get_rules_matching_name get_rules_matching_active_state
  In-interested settings unit_name state rule =
      let by_state =
        In-filter (λ r. any (λ s. state_eq s state) (Rule.active_states r)) rule
          (get_rules_matching_name R settings.rules unit_name) in
      let by_name = In-filter (λ r. matches R (Rule.expression r) unit_name) rule settings.rules in
      let denotes = matches_iff R rule.expression unit_name in
      let has_state = any-state state rule.active_states in
      (
        λ m. (
          (by_name.0 (by_state.0 m).0).0,
          denotes.0 (by_name.0 (by_state.0 m).0).1,
          has_state.0 (by_state.0 m).1,
        ),
        λ (m, d, s). by_state.1 (by_name.1 (m, denotes.1 d), has_state.1 s),
      )
