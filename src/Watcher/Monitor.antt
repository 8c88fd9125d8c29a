-- ===== src/Watcher/Monitor.antt =====
-- What a watcher does, as a specification: the machines are a function, with no map behind them, and
-- of the calls only the messages to notifiers are left.
pub mod Observing
pub mod Silent
pub mod Handling
pub mod Serving
pub mod Letters
use mathlib.Core.List.{reverse_aux}
use killjoy.Base.{
  String, ◌==◌, ◌≡◌, ◌≢◌, ℕ, ◌<◌, Option, none, some, true, List, if◌then◌else◌, map,
}
use killjoy.Base.Dict.{lookup}
use killjoy.ActiveState.{ActiveState}
use killjoy.Unit.Machine.{UnitStateMachine}
use killjoy.Dbus.{Dbus, BusType, Notification}
use killjoy.Settings.Regex.{RegexCrate}
use killjoy.Settings.Types.{Settings}
use killjoy.Watcher.World.{World}
use killjoy.Watcher.Rules.{rules_match_name}
use killjoy.Watcher.Notify.{interested}
use killjoy.Watcher.Newest.{newest_first}
use killjoy.Watcher.Delivery.{Address, letter, labels, sent}

-- The machine of each unit that has one, and the messages sent, the latest first.
pub record Monitor : Type 0 where
  pub board : String → Option UnitStateMachine
  pub outbox : List (BusType × Notification)

-- A world without the representation of its map, and without its other calls.
abbrev pub view : World → Monitor
view w = record { board = λ k. lookup k w.unit_states; outbox = sent w.trace }

abbrev pub put :
    String
    → Option UnitStateMachine
    → (String → Option UnitStateMachine)
    → String
    → Option UnitStateMachine
put k x board j = if k == j then x else board j

-- A timestamp that some value of the bus holds.
abbrev pub IsRead : Dbus → ℕ → Type 0
IsRead B ts = (v : Dbus.RefArg B) × (Dbus.as_u64 B v ≡ some ts)

module _ (B : Dbus) (R : RegexCrate) (settings : Settings R) (address : String → Address) where
  -- The messages about a unit that entered the state of `o` at the time `ts`.
  unfoldable pub letters :
      String → ℕ → UnitStateMachine → Option ActiveState → List (BusType × Notification)
  letters k ts o old =
      map (λ name. letter k ts (newest_first o.active_state old) (address name))
        (labels (interested R settings k o.active_state))

  -- One step: a unit is first seen, is seen in a new state, is seen again in the same state, or is
  -- forgotten. Only the first two send messages.
  pub data Step (m m' : Monitor) : Type 0 where
    enter :
        (k : String) (o : UnitStateMachine) (ts : ℕ)
        → IsRead B ts
        → IsRead B o.mono_ts
        → m.board k ≡ none
        → m' ≡ record {
          board = put k (some o) m.board;
          outbox = reverse_aux (letters k ts o none) m.outbox;
        }
        → Step m m'
    change :
        (k : String) (usm o : UnitStateMachine) (ts : ℕ)
        → IsRead B ts
        → IsRead B o.mono_ts
        → m.board k ≡ some usm
        → usm.mono_ts < o.mono_ts
        → usm.active_state ≢ o.active_state
        → m' ≡ record {
          board = put k (some o) m.board;
          outbox = reverse_aux (letters k ts o (some usm.active_state)) m.outbox;
        }
        → Step m m'
    refresh :
        (k : String) (usm o : UnitStateMachine)
        → IsRead B o.mono_ts
        → m.board k ≡ some usm
        → usm.mono_ts < o.mono_ts
        → usm.active_state ≡ o.active_state
        → m' ≡ record { board = put k (some o) m.board; outbox = m.outbox }
        → Step m m'
    leave :
        (k : String)
        → rules_match_name R settings.rules k ≡ true
        → m' ≡ record { board = put k none m.board; outbox = m.outbox }
        → Step m m'

  pub data Steps (m : Monitor) : Monitor → Type 0 where
    here : Steps m m
    next : {n o : Monitor} → Steps m n → Step n o → Steps m o
