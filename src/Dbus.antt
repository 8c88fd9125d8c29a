-- ===== src/Dbus.antt =====
-- The dbus crate and what lies behind it (libdbus, systemd, the notifiers), as parameters. None of
-- it is in the repository: `Dbus` names what the program calls, and the answers are any functions
-- of what was asked and of the calls made before.
use killjoy.Base.{String, Option, ℕ, List}
use killjoy.Base.Dict.{Dict}
use killjoy.Error.{Result, ExternResult}

-- `dbus::BusType`, with the constructors of `HashableBusType` in src/settings.rs.
pub data BusType : Type 0 where
  session starter system : BusType

-- `dbus::ConnPath`: a destination, an object path and a timeout in milliseconds.
pub record ConnPath : Type 0 where
  pub dest : String
  pub path : String
  pub timeout : ℕ

-- The message that is sent to a notifier.
pub record Notification : Type 0 where
  pub bus_name : String
  pub path : String
  pub interface : String
  pub member : String
  pub timestamp : ℕ
  pub unit_name : String
  pub active_states : List String

-- What a thread of the program asks of the world outside, with the arguments that it gives.
pub data Call : Type 0 where
  connect : BusType → Call
  add_match : String → Call
  remove_match : String → Call
  poll : (timeout : ℕ) → Call
  method_call : ConnPath → (interface member : String) → (args : List String) → Call
  send : BusType → Notification → (timeout : ℕ) → Call
  eprint : String → Call

-- The calls made so far, the latest first.
abbrev pub Trace : Type 0
Trace = List Call

-- One entry of the answer of ListUnits: name, description, load state, active state, sub state,
-- followed unit, object path, job id, job type and job path.
abbrev pub UnitEntry : Type 0
UnitEntry = String × String × String × String × String × String × String × ℕ × String × String

pub record Dbus : Type 1 where
  -- `dbus::arg`: values, messages and the iterator over a message's arguments
  pub RefArg : Type 0
  pub as_str : RefArg → Option String
  pub as_u64 : RefArg → Option ℕ
  pub Message : Type 0
  pub Iter : Type 0
  pub iter_init : Message → Iter
  pub read_str : Iter → ExternResult (String × Iter)
  pub read_path : Iter → ExternResult (String × Iter)
  pub read_variant : Iter → ExternResult (RefArg × Iter)
  pub read_props : Iter → ExternResult (Dict RefArg × Iter)
  pub read_strs : Iter → ExternResult (List String × Iter)
  pub read_units : Iter → ExternResult (List UnitEntry × Iter)
  -- `Message::as_result` and `Message::path`
  pub as_result : Message → ExternResult (Unit {0})
  pub message_path : Message → Option String
  -- `BusName::new`, `Path::new`, `Interface::new`, `Member::new`: the text, if it is a valid one
  pub bus_name_new : String → Result String String
  pub path_new : String → Result String String
  pub interface_new : String → Result String String
  pub member_new : String → Result String String
  -- `as_cstr().to_str()` of a bus name
  pub bus_name_to_str : String → ExternResult String
  -- the default methods of `SignalArgs`, from the NAME, the INTERFACE and the `get` of a signal
  pub from_message :
      (T : Type 0) → (name interface : String) → (Iter → ExternResult T) → Message → Option T
  pub match_str : (name interface sender path : String) → String
  -- `Connection`
  pub get_private : Trace → BusType → ExternResult (Unit {0})
  pub answer_add_match : Trace → String → ExternResult (Unit {0})
  pub answer_remove_match : Trace → String → ExternResult (Unit {0})
  pub method_call_with_args :
      Trace → ConnPath → (interface member : String) → List String → ExternResult Message
  pub send_with_reply_and_block :
      Trace → BusType → Notification → (timeout : ℕ) → ExternResult (Unit {0})
