-- ===== src/Watcher/Newest.antt =====
-- The states that a message to a notifier names.
use killjoy.Base.{String, ◌≡◌, refl, Option, none, some, List, [], ◌∷◌, map}
use killjoy.ActiveState.{ActiveState}
use killjoy.Unit.State.{to_string}
use killjoy.Watcher.Notify.{body_active_states}

-- The states that a message is to name: the one that the unit is in now, then the one before it.
abbrev pub old_states : Option ActiveState → List ActiveState
old_states none = []
old_states (some s) = s ∷ []

abbrev pub newest_first : ActiveState → Option ActiveState → List String
newest_first new old = map to_string (new ∷ old_states old)

pub body-newest_first :
    (new : ActiveState) (old : Option ActiveState)
    → body_active_states new old ≡ newest_first new old
unfolding body_active_states
body-newest_first new none = refl
body-newest_first new (some s) = refl
