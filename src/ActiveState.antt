-- ===== src/ActiveState.antt =====
-- src/unit.rs: the `ActiveState` enum and its `Display`.
use killjoy.Base.{String, Bool, true, false, ◌≡◌, ◌↔◌, arith}

pub data ActiveState : Type 0 where
  activating active deactivating failed inactive : ActiveState

-- The derived `PartialEq`.
pub ActiveState-discrete : Discrete ActiveState
ActiveState-discrete = hlevel

unfoldable pub state_eq : ActiveState → ActiveState → Bool
state_eq activating activating = true
state_eq active active = true
state_eq deactivating deactivating = true
state_eq failed failed = true
state_eq inactive inactive = true
state_eq _ _ = false

-- `impl Display for ActiveState`
unfoldable pub display_state : ActiveState → String
display_state activating = "activating"
display_state active = "active"
display_state deactivating = "deactivating"
display_state failed = "failed"
display_state inactive = "inactive"

-- The derived `Debug`, which `Error`'s `Display` uses.
unfoldable pub debug_state : ActiveState → String
debug_state activating = "Activating"
debug_state active = "Active"
debug_state deactivating = "Deactivating"
debug_state failed = "Failed"
debug_state inactive = "Inactive"

pub state_eq_iff : (a b : ActiveState) → (state_eq a b ≡ true) ↔ (a ≡ b)
unfolding state_eq
state_eq_iff a b = ground arith
