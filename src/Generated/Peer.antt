-- ===== src/Generated/Peer.antt =====
-- The interfaces org.freedesktop.DBus.Peer and org.freedesktop.DBus.Introspectable: the clients and
-- the servers.
use killjoy.Base.{String, List, [], ◌∷◌}
use killjoy.Error.{ExternResult, ok, err}
use killjoy.Dbus.{Dbus, ConnPath}
use killjoy.Generated.Wire.{Wire, call, pure, given, ◌>>=◌ as ◌then◌}
use killjoy.Generated.Server.{Item, str, Interface}

abbrev pub peer_interface : String
peer_interface = "org.freedesktop.DBus.Peer"

abbrev pub introspectable_interface : String
introspectable_interface = "org.freedesktop.DBus.Introspectable"

-- `OrgFreedesktopDBusPeer`, of an implementation with a state
pub record Peer (S : Type 0) : Type 0 where
  pub ping : S → ExternResult (Unit {0}) × S
  pub get_machine_id : S → ExternResult String × S

-- `OrgFreedesktopDBusIntrospectable`
pub record Introspectable (S : Type 0) : Type 0 where
  pub introspect : S → ExternResult String × S

module _ (B : Dbus) where
  open B use {iter_init, read_str, as_result}

  -- The client's `ping`
  unfoldable pub ping : ConnPath → Wire (Unit {0})
  ping c = call B c peer_interface "Ping" [] then λ m. given (as_result m)

  -- A method without arguments that gives a text.
  unfoldable pub ask_text : ConnPath → (interface member : String) → Wire String
  ask_text c interface member = call B c interface member [] then λ m.
      given (as_result m) then λ _. given (read_str (iter_init m)) then λ (value, _). pure value

  unfoldable pub get_machine_id : ConnPath → Wire String
  unfolding ask_text
  get_machine_id c = ask_text c peer_interface "GetMachineId"

  unfoldable pub introspect : ConnPath → Wire String
  unfolding ask_text
  introspect c = ask_text c introspectable_interface "Introspect"

module _ {RefArg S : Type 0} where
  -- The reply of a method that gives nothing, and of one that gives a text.
  unfoldable pub reply_nothing : ExternResult (Unit {0}) × S → ExternResult (List (Item RefArg)) × S
  reply_nothing (ok _, s) = (ok [], s)
  reply_nothing (err e, s) = (err e, s)

  unfoldable pub reply_text : ExternResult String × S → ExternResult (List (Item RefArg)) × S
  reply_text (ok value, s) = (ok (str value ∷ []), s)
  reply_text (err e, s) = (err e, s)

module _ {Iter RefArg S : Type 0} where
  -- `org_freedesktop_dbus_peer_server`
  unfoldable pub peer_server : Peer S → Interface Iter RefArg S
  unfolding reply_nothing reply_text
  peer_server d = record {
    name = "org.freedesktop.DBus.Peer";
    methods =
        record {
          name = "Ping";
          handler = λ i s. reply_nothing (d.ping s);
          in_args = [];
          out_args = [];
        }
        ∷ record {
          name = "GetMachineId";
          handler = λ i s. reply_text (d.get_machine_id s);
          in_args = [];
          out_args = ("machine_uuid", "s") ∷ [];
        }
        ∷ [];
    signals = [];
  }

  -- `org_freedesktop_dbus_introspectable_server`
  unfoldable pub introspectable_server : Introspectable S → Interface Iter RefArg S
  unfolding reply_text
  introspectable_server d = record {
    name = "org.freedesktop.DBus.Introspectable";
    methods =
        record {
          name = "Introspect";
          handler = λ i s. reply_text (d.introspect s);
          in_args = [];
          out_args = ("data", "s") ∷ [];
        }
        ∷ [];
    signals = [];
  }
