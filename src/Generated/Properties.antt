-- ===== src/Generated/Properties.antt =====
-- The server of org.freedesktop.DBus.Properties.
use killjoy.Base.{String, List, [], ◌∷◌}
use killjoy.Base.Dict.{Dict}
use killjoy.Error.{ExternResult, ok, err}
use killjoy.Dbus.{Dbus}
use killjoy.Generated.Server.{Item, str, variant, props, strs, Interface}
use killjoy.Generated.Peer.{reply_nothing}
use killjoy.Generated.Signals.{UnitNew, UnitRemoved, PropertiesChanged}

-- `OrgFreedesktopDBusProperties`, of an implementation with a state
pub record Properties (RefArg S : Type 0) : Type 0 where
  pub get : (interface property : String) → S → ExternResult RefArg × S
  pub get_all : (interface : String) → S → ExternResult (Dict RefArg) × S
  pub set : (interface property : String) → RefArg → S → ExternResult (Unit {0}) × S

module _ {RefArg S : Type 0} where
  unfoldable pub reply_value : ExternResult RefArg × S → ExternResult (List (Item RefArg)) × S
  reply_value (ok value, s) = (ok (variant value ∷ []), s)
  reply_value (err e, s) = (err e, s)

  unfoldable pub reply_properties :
      ExternResult (Dict RefArg) × S → ExternResult (List (Item RefArg)) × S
  reply_properties (ok properties, s) = (ok (props properties ∷ []), s)
  reply_properties (err e, s) = (err e, s)

module _ (B : Dbus) {S : Type 0} (d : Properties (Dbus.RefArg B) S) where
  open B use {Iter, RefArg, read_str, read_variant}

  abbrev Handler : Type 0
  Handler = S → ExternResult (List (Item RefArg)) × S

  -- What follows the arguments, or their type mismatch.
  unfoldable pub with_args : {A : Type 0} → ExternResult A → (A → Handler) → Handler
  with_args (ok a) f s = f a s
  with_args (err e) f s = (err e, s)

  unfoldable pub handle_get : Iter → Handler
  unfolding with_args reply_value
  handle_get i = with_args (read_str i) λ (interface, i).
      with_args (read_str i) λ (property, i). λ s. reply_value (d.get interface property s)

  unfoldable pub handle_get_all : Iter → Handler
  unfolding with_args reply_properties
  handle_get_all i =
      with_args (read_str i) λ (interface, i). λ s. reply_properties (d.get_all interface s)

  unfoldable pub handle_set : Iter → Handler
  unfolding with_args reply_nothing
  handle_set i = with_args (read_str i) λ (interface, i). with_args (read_str i) λ (property, i).
      with_args (read_variant i) λ (value, i). λ s. reply_nothing (d.set interface property value s)

  -- `org_freedesktop_dbus_properties_server`
  unfoldable pub properties_server : Interface Iter RefArg S
  unfolding handle_get handle_get_all handle_set
  properties_server = record {
    name = "org.freedesktop.DBus.Properties";
    methods =
        record {
          name = "Get";
          handler = handle_get;
          in_args = ("interface", "s") ∷ ("property", "s") ∷ [];
          out_args = ("value", "v") ∷ [];
        }
        ∷ record {
          name = "GetAll";
          handler = handle_get_all;
          in_args = ("interface", "s") ∷ [];
          out_args = ("properties", "a{sv}") ∷ [];
        }
        ∷ record {
          name = "Set";
          handler = handle_set;
          in_args = ("interface", "s") ∷ ("property", "s") ∷ ("value", "v") ∷ [];
          out_args = [];
        }
        ∷ [];
    signals =
        record {
          name = "PropertiesChanged";
          args =
              ("interface", "s")
              ∷ ("changed_properties", "a{sv}")
              ∷ ("invalidated_properties", "as")
              ∷ [];
        }
        ∷ [];
  }

-- `SignalArgs::append` of the three signals
unfoldable pub append_unit_new : {RefArg : Type 0} → UnitNew → List (Item RefArg)
append_unit_new m = str m.arg0 ∷ Item.path m.arg1 ∷ []

unfoldable pub append_unit_removed : {RefArg : Type 0} → UnitRemoved → List (Item RefArg)
append_unit_removed m = str m.arg0 ∷ Item.path m.arg1 ∷ []

unfoldable pub append_properties_changed :
    {RefArg : Type 0} → PropertiesChanged RefArg → List (Item RefArg)
append_properties_changed m =
    str m.interface ∷ props m.changed_properties ∷ strs m.invalidated_properties ∷ []
