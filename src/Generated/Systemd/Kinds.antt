-- ===== src/Generated/Systemd/Kinds.antt =====
-- The types of D-Bus that the manager's interface uses. A number stands for a u8, u32 or u64: the
-- generated code passes numbers on and computes with none.
use killjoy.Base.{String, ◌<>◌, Bool, ℕ, List, [], ◌∷◌}

infixr 30 ◌⊗◌
pub data Kind : Type 0 where
  byte boolean i32 u32 u64 double string object_path fd variant : Kind
  array struct : Kind → Kind
  -- the fields of a struct
  ◌⊗◌ : Kind → Kind → Kind

-- `Arg::signature`, in the notation of D-Bus
unfoldable pub notation : Kind → String
notation byte = "y"
notation boolean = "b"
notation i32 = "i"
notation u32 = "u"
notation u64 = "t"
notation double = "d"
notation string = "s"
notation object_path = "o"
notation fd = "h"
notation variant = "v"
notation (array k) = "a" <> notation k
notation (struct k) = "(" <> notation k <> ")"
notation (k ⊗ l) = notation k <> notation l

-- `i32`
pub data ℤ : Type 0 where
  pos negsuc : ℕ → ℤ

module _ (RefArg F64 OwnedFd : Type 0) where
  -- The Rust values of a type.
  abbrev pub Value : Kind → Type 0
  Value byte = ℕ
  Value boolean = Bool
  Value i32 = ℤ
  Value u32 = ℕ
  Value u64 = ℕ
  Value double = F64
  Value string = String
  Value object_path = String
  Value fd = OwnedFd
  Value variant = RefArg
  Value (array k) = List (Value k)
  Value (struct k) = Value k
  Value (k ⊗ l) = Value k × Value l

  -- The arguments of a message, in order.
  abbrev pub Values : List Kind → Type 0
  Values [] = Unit
  Values (k ∷ ks) = Value k × Values ks

-- What several members of the interface have: properties of a unit, changes of links, the entries of
-- the lists of units and of jobs.
abbrev pub property : Kind
property = struct (string ⊗ variant)

abbrev pub change : Kind
change = struct (string ⊗ string ⊗ string)

abbrev pub unit_entry : Kind
unit_entry =
    struct (
      string ⊗ string ⊗ string ⊗ string ⊗ string ⊗ string ⊗ object_path ⊗ u32 ⊗ string
      ⊗ object_path)

abbrev pub job_entry : Kind
job_entry = struct (u32 ⊗ string ⊗ string ⊗ string ⊗ object_path ⊗ object_path)
