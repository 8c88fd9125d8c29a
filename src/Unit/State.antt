-- ===== src/Unit/State.antt =====
-- src/unit.rs: the conversions between `ActiveState` and text.
use killjoy.Base.{String, ◌≡◌, refl, ◌↔◌, ◌==◌, if◌then◌else◌, eq_iff, arith}
use killjoy.ActiveState.{ActiveState, activating, active, deactivating, failed, inactive}
use killjoy.ActiveState.{display_state}
use killjoy.Error.{Error, Result, ok, err}

-- `impl TryFrom<&str> for ActiveState`
unfoldable pub try_from : String → Result Error ActiveState
try_from value =
    if value == "activating"
    then ok activating
    else if value == "active"
    then ok active
    else if value == "deactivating"
    then ok deactivating
    else if value == "failed"
    then ok failed
    else if value == "inactive"
    then ok inactive
    else err (Error.invalid_active_state value)

-- `impl From<ActiveState> for String`
unfoldable pub to_string : ActiveState → String
to_string activating = "activating"
to_string active = "active"
to_string deactivating = "deactivating"
to_string failed = "failed"
to_string inactive = "inactive"

try_from-to_string_self : (s : ActiveState) → try_from (to_string s) ≡ ok s
unfolding try_from to_string
try_from-to_string_self activating = refl
try_from-to_string_self active = refl
try_from-to_string_self deactivating = refl
try_from-to_string_self failed = refl
try_from-to_string_self inactive = refl

try_from-inverse : (value : String) (s : ActiveState) → try_from value ≡ ok s → value ≡ to_string s
unfolding try_from to_string
try_from-inverse value s h = ground (
  arith,
  eq_iff value "activating",
  eq_iff value "active",
  eq_iff value "deactivating",
  eq_iff value "failed",
  eq_iff value "inactive",
)

-- A text is read as a state exactly when it is the text that is written for that state.
pub try_from_iff :
    (value : String) (s : ActiveState) → (try_from value ≡ ok s) ↔ (value ≡ to_string s)
try_from_iff value s = (try_from-inverse value s, λ e. rw e (try_from-to_string_self s))

-- A text that is read as no state is reported whole.
pub try_from_error :
    (value : String) (e : Error) → try_from value ≡ err e → e ≡ Error.invalid_active_state value
unfolding try_from
try_from_error value e h = ground arith

-- `Display` and `String::from` write the same text.
pub display_state-eq-to_string : (s : ActiveState) → display_state s ≡ to_string s
unfolding display_state to_string
display_state-eq-to_string activating = refl
display_state-eq-to_string _ = refl
