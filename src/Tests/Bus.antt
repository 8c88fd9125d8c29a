-- ===== src/Tests/Bus.antt =====
-- A small bus with one systemd instance that knows two units, and two notifiers.
use killjoy.Base.{
  String, ◌<>◌, ◌==◌, ℕ, Option, none, some, List, [], ◌∷◌, if◌then◌else◌, ◌&&◌, replace_char, ltb,
  ◌^◌, suc,
}
use Prim.Native.Nat.{pred}
use killjoy.Base.Dict.{Dict}
use killjoy.Error.{Result, ok, err, ExternResult}
use killjoy.Dbus.{Dbus, BusType, ConnPath, Notification, UnitEntry, Trace, add_match, remove_match}

pub data Value : Type 0 where
  text : String → Value
  number : ℕ → Value

pub data Argument : Type 0 where
  str path : String → Argument
  variant : Value → Argument
  props : Dict Value → Argument
  strs : List String → Argument
  units : List UnitEntry → Argument

-- A signal, or a reply: a name, an interface, a path and the arguments.
pub record Packet : Type 0 where
  pub name : String
  pub interface : String
  pub origin : Option String
  pub arguments : List Argument

abbrev pub problem : {A : Type 0} → String → ExternResult A
problem s = err (record { text = s })

abbrev pub as_text : Value → Option String
as_text (text s) = some s
as_text (number n) = none

-- A number that fits 64 bits.
abbrev pub as_number : Value → Option ℕ
as_number (text s) = none
as_number (number n) = if ltb n (2 ^ 64) then some n else none

abbrev pub read_string : List Argument → ExternResult (String × List Argument)
read_string (str s ∷ i) = ok (s, i)
read_string _ = problem "no string"

abbrev pub read_object : List Argument → ExternResult (String × List Argument)
read_object (path s ∷ i) = ok (s, i)
read_object _ = problem "no path"

abbrev pub read_value : List Argument → ExternResult (Value × List Argument)
read_value (variant v ∷ i) = ok (v, i)
read_value _ = problem "no variant"

abbrev pub read_dict : List Argument → ExternResult (Dict Value × List Argument)
read_dict (props d ∷ i) = ok (d, i)
read_dict _ = problem "no properties"

abbrev pub read_list : List Argument → ExternResult (List String × List Argument)
read_list (strs l ∷ i) = ok (l, i)
read_list _ = problem "no strings"

abbrev pub read_entries : List Argument → ExternResult (List UnitEntry × List Argument)
read_entries (units l ∷ i) = ok (l, i)
read_entries _ = problem "no units"

abbrev pub to_option : {A : Type 0} → ExternResult A → Option A
to_option (ok a) = some a
to_option (err e) = none

abbrev pub decode :
    (T : Type 0) → (name interface : String) → (List Argument → ExternResult T) → Packet → Option T
decode T name interface get m =
    if (m.name == name) && (m.interface == interface) then to_option (get m.arguments) else none

abbrev pub rule : (name interface sender object : String) → String
rule name interface sender object = name <> "," <> interface <> "," <> sender <> "," <> object

-- An object path has no hyphen; every other name is let through, unless it is empty.
abbrev pub checked_path : String → Result String String
checked_path s = if replace_char "-" "_" s == s then ok s else err ("Invalid path: " <> s)

abbrev pub checked_name : String → Result String String
checked_name s = if s == "" then err s else ok s

abbrev pub entry : String → String → UnitEntry
entry name object = (name, "", "loaded", "active", "running", "", object, 0, "", "/")

abbrev pub reply : List Argument → Packet
reply arguments = record { name = ""; interface = ""; origin = none; arguments = arguments }

abbrev pub web_props : Dict Value
web_props =
    ("Id", text "web.service")
    ∷ ("ActiveState", text "active")
    ∷ ("ActiveEnterTimestamp", number 1700)
    ∷ ("ActiveEnterTimestampMonotonic", number 7)
    ∷ []

abbrev pub web_failure : Dict Value
web_failure =
    ("ActiveState", text "failed")
    ∷ ("InactiveEnterTimestamp", number 1800)
    ∷ ("InactiveEnterTimestampMonotonic", number 9)
    ∷ []

-- What systemd answers, by the member, the path and the arguments of the call.
abbrev pub answer :
    Trace → ConnPath → (interface member : String) → List String → ExternResult Packet
answer t c interface member args =
    if member == "Subscribe"
    then ok (reply [])
    else if member == "ListUnits"
    then ok (reply (units (entry "web.service" "/web" ∷ entry "ntp.timer" "/ntp" ∷ []) ∷ []))
    else if member == "GetUnit"
    then ok (reply (path "/web" ∷ []))
    else if member == "GetAll"
    then ok (reply (props web_props ∷ []))
    else ok (reply (variant (text "web.service") ∷ []))

-- The notifier that has hung up does not answer.
abbrev pub delivered : Trace → BusType → Notification → ℕ → ExternResult (Unit {0})
delivered t b msg timeout = if msg.bus_name == "org.gone" then problem "no reply" else ok tt

-- How often a match rule is in place after these calls.
abbrev rules_in_place : Trace → String → ℕ
rules_in_place [] s = 0
rules_in_place (add_match r ∷ t) s =
    let before = rules_in_place t s in if r == s then suc before else before
rules_in_place (remove_match r ∷ t) s =
    let before = rules_in_place t s in if r == s then pred before else before
rules_in_place (_ ∷ t) s = rules_in_place t s

-- A rule that is not in place cannot be removed.
abbrev pub unmatched : Trace → String → ExternResult (Unit {0})
unmatched t s = if ltb 0 (rules_in_place t s) then ok tt else problem "MatchRuleNotFound"

abbrev pub demo : Dbus
demo = record {
  RefArg = Value;
  as_str = as_text;
  as_u64 = as_number;
  Message = Packet;
  Iter = List Argument;
  iter_init = λ m. m.arguments;
  read_str = read_string;
  read_path = read_object;
  read_variant = read_value;
  read_props = read_dict;
  read_strs = read_list;
  read_units = read_entries;
  as_result = λ m. ok tt;
  message_path = λ m. m.origin;
  bus_name_new = checked_name;
  path_new = checked_path;
  interface_new = checked_name;
  member_new = checked_name;
  bus_name_to_str = λ s. ok s;
  from_message = decode;
  match_str = rule;
  get_private = λ t b. ok tt;
  answer_add_match = λ t s. ok tt;
  answer_remove_match = unmatched;
  method_call_with_args = answer;
  send_with_reply_and_block = delivered;
}
