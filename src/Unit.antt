-- ===== src/Unit.antt =====
-- src/unit.rs: conversions of `ActiveState`, and the state machine of one unit.
pub mod State
pub mod Machine
