-- ===== src/Generated/Systemd/Typed.antt =====
-- The shapes of the generated code for typed arguments: client methods, getters and setters, and the
-- members of a server.
use killjoy.Base.{◌≡◌, String, ◌==◌, Option, none, some, List, [], ◌∷◌, map, if◌then◌else◌}
use killjoy.Error.{ExternResult, ok, err, ◌>>=◌, ◌>>◌}
use killjoy.Dbus.{Dbus, ConnPath}
use killjoy.Generated.Client.{manager_interface}
use killjoy.Generated.Systemd.Kinds.{Kind, Value, Values}

-- What the typed code takes from the dbus crate: the values of two more types, and reading an argument
-- of a type.
pub record Typed (B : Dbus) : Type 1 where
  pub F64 : Type 0
  pub OwnedFd : Type 0
  pub read :
      (k : Kind) → Dbus.Iter B → ExternResult (Value (Dbus.RefArg B) F64 OwnedFd k × Dbus.Iter B)

module _ (B : Dbus) (T : Typed B) where
  abbrev pub Val : Kind → Type 0
  Val = Value (Dbus.RefArg B) (Typed.F64 T) (Typed.OwnedFd T)

  abbrev pub Vals : List Kind → Type 0
  Vals = Values (Dbus.RefArg B) (Typed.F64 T) (Typed.OwnedFd T)

  -- One `read` for each argument.
  unfoldable pub read_all : (ks : List Kind) → Dbus.Iter B → ExternResult (Vals ks)
  read_all [] i = ok tt
  read_all (k ∷ ks) i = do (v, i) ← Typed.read T k i; vs ← read_all ks i; ok (v, vs)

  module _ (S : Type 0) where
    -- A method of the trait, of an implementation with a state, and the getter and the setter of a
    -- property.
    abbrev pub Does : (ins outs : List Kind) → Type 0
    Does ins outs = Vals ins → S → ExternResult (Vals outs) × S

    abbrev pub Yields : Kind → Type 0
    Yields k = S → ExternResult (Val k) × S

    abbrev pub Takes : Kind → Type 0
    Takes k = Val k → S → ExternResult (Unit {0}) × S

    -- A method of the server: the types that its handler reads and appends, the trait's method that it
    -- calls between, and the types that it declares, as names and texts.
    pub record Served : Type 0 where
      pub name : String
      pub ins : List Kind
      pub outs : List Kind
      pub does : Does ins outs
      pub in_args : List (String × String)
      pub out_args : List (String × String)

    -- A property of the server; only one that is `Access::ReadWrite` has a setter.
    pub record Property : Type 0 where
      pub name : String
      pub kind : Kind
      pub on_get : Yields kind
      pub on_set : Option (Takes kind)

  module _ {S : Type 0} where
    -- What follows the arguments, or their type mismatch.
    unfoldable pub with_values :
        (ks : List Kind) {A : Type 0}
        → ExternResult (Vals ks)
        → (Vals ks → S → ExternResult A × S)
        → S
        → ExternResult A × S
    with_values ks (ok args) f s = f args s
    with_values ks (err e) f s = (err e, s)

    -- The handler of a method.
    unfoldable pub handle_call : (m : Served S) → Dbus.Iter B → S → ExternResult (Vals m.outs) × S
    unfolding with_values
    handle_call m i s = with_values m.ins (read_all m.ins i) m.does s

    -- `on_set`, which reads the new value
    unfoldable pub handle_set :
        (k : Kind) → Takes S k → Dbus.Iter B → S → ExternResult (Unit {0}) × S
    unfolding with_values
    handle_set k f i s = with_values (k ∷ []) (read_all (k ∷ []) i) (λ vs. f vs.0) s

    abbrev pub served :
        String
        → (ins outs : List Kind) → Does S ins outs
        → (in_args out_args : List (String × String)) → Served S
    served name ins outs does in_args out_args = record {
      name = name;
      ins = ins;
      outs = outs;
      does = does;
      in_args = in_args;
      out_args = out_args;
    }

    -- `Access::Read` and `Access::ReadWrite`
    abbrev pub readable : String → (k : Kind) → Yields S k → Property S
    readable name k get = record { name = name; kind = k; on_get = get; on_set = none }

    abbrev pub writable : String → (k : Kind) → Yields S k → Takes S k → Property S
    writable name k get set = record { name = name; kind = k; on_get = get; on_set = some set }

    unfoldable pub find_method : (member : String) → List (Served S) → Option (Served S)
    find_method member [] = none
    find_method member (m ∷ ms) =
        let rest = find_method member ms in if m.name == member then some m else rest

    unfoldable pub find_property : (name : String) → List (Property S) → Option (Property S)
    find_property name [] = none
    find_property name (p ∷ ps) =
        let rest = find_property name ps in if p.name == name then some p else rest

-- The crate's `ConnPath`, with its client for the interface Properties. The answers are those at one
-- moment.
pub record Line (B : Dbus) (T : Typed B) : Type 0 where
  pub method_call_with_args :
      ConnPath
      → (interface member : String) → (ks : List Kind) → Vals B T ks
      → ExternResult (Dbus.Message B)
  pub get : ConnPath → (interface property : String) → (k : Kind) → ExternResult (Val B T k)
  pub set :
      ConnPath → (interface property : String) → (k : Kind) → Val B T k → ExternResult (Unit {0})

module _ (B : Dbus) (T : Typed B) where
  -- A client method, and a getter and a setter of a property.
  abbrev pub Asks : (ins outs : List Kind) → Type 0
  Asks ins outs = ConnPath → Vals B T ins → ExternResult (Vals B T outs)

  abbrev pub Gets : Kind → Type 0
  Gets k = ConnPath → ExternResult (Val B T k)

  abbrev pub Sets : Kind → Type 0
  Sets k = ConnPath → Val B T k → ExternResult (Unit {0})

  module _ (N : Line B T) where
    unfoldable pub ask : (member : String) → (ins outs : List Kind) → Asks ins outs
    unfolding read_all
    ask member ins outs c args = do
      m ← Line.method_call_with_args N c manager_interface member ins args
      Dbus.as_result B m
      read_all B T outs (Dbus.iter_init B m)

    unfoldable pub get_property : (name : String) → (k : Kind) → Gets k
    get_property name k c = Line.get N c manager_interface name k

    unfoldable pub set_property : (name : String) → (k : Kind) → Sets k
    set_property name k c value = Line.set N c manager_interface name k value

  -- The client gets what the implementation's method gives.
  abbrev pub Obtains :
      {S : Type 0}
      → (ins outs : List Kind) → Asks ins outs
      → Does B T S ins outs
      → ConnPath
      → S
      → Type 0
  Obtains ins outs client does c s = (args : Vals B T ins) → client c args ≡ (does args s).0

-- Arguments without names.
abbrev pub unnamed : List String → List (String × String)
unnamed types = map (λ type. ("", type)) types
