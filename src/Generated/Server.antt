-- ===== src/Generated/Server.antt =====
-- The server half of the generated code: the parts of the dbus crate's tree module that it uses.
-- A message's arguments are a list of items, and marshalling makes an iterator of it.
use killjoy.Base.{String, ◌==◌, Option, none, some, List, [], ◌∷◌, if◌then◌else◌, ◌≡◌}
use killjoy.Base.Dict.{Dict}
use killjoy.Error.{ExternResult, ok}
use killjoy.Dbus.{Dbus}

-- An argument of a message, by its type.
pub data Item (RefArg : Type 0) : Type 0 where
  str : String → Item RefArg
  path : String → Item RefArg
  variant : RefArg → Item RefArg
  props : Dict RefArg → Item RefArg
  strs : List String → Item RefArg

-- The type of an argument, in the notation of D-Bus.
unfoldable pub signature : {RefArg : Type 0} → Item RefArg → String
signature (str s) = "s"
signature (path s) = "o"
signature (variant v) = "v"
signature (props d) = "a{sv}"
signature (strs l) = "as"

-- `tree::Method` on a state `S` of the implementation: the handler reads the message's arguments,
-- and gives those of the reply, or an error. Arguments are declared with a name and a type.
pub record Method (Iter RefArg S : Type 0) : Type 0 where
  pub name : String
  pub handler : Iter → S → ExternResult (List (Item RefArg)) × S
  pub in_args : List (String × String)
  pub out_args : List (String × String)

-- `tree::Signal`
pub record Signal : Type 0 where
  pub name : String
  pub args : List (String × String)

-- `tree::Interface`
pub record Interface (Iter RefArg S : Type 0) : Type 0 where
  pub name : String
  pub methods : List (Method Iter RefArg S)
  pub signals : List Signal

module _ {Iter RefArg S : Type 0} where
  -- The method of a name, if there is one.
  abbrev pub method_of : List (Method Iter RefArg S) → String → Option (Method Iter RefArg S)
  method_of [] member = none
  method_of (m ∷ ms) member =
      let rest = method_of ms member in if m.name == member then some m else rest

-- Arguments are read in the order in which they were appended.
pub record Marshal (B : Dbus) : Type 0 where
  pub iter_of : List (Item (Dbus.RefArg B)) → Dbus.Iter B
  pub reads_str :
      (s : String) (xs : _) → Dbus.read_str B (iter_of (str s ∷ xs)) ≡ ok (s, iter_of xs)
  pub reads_path :
      (s : String) (xs : _) → Dbus.read_path B (iter_of (path s ∷ xs)) ≡ ok (s, iter_of xs)
  pub reads_variant :
      (v : Dbus.RefArg B) (xs : _)
      → Dbus.read_variant B (iter_of (variant v ∷ xs)) ≡ ok (v, iter_of xs)
  pub reads_props :
      (d : Dict (Dbus.RefArg B)) (xs : _)
      → Dbus.read_props B (iter_of (props d ∷ xs)) ≡ ok (d, iter_of xs)
  pub reads_strs :
      (l : List String) (xs : _) → Dbus.read_strs B (iter_of (strs l ∷ xs)) ≡ ok (l, iter_of xs)
