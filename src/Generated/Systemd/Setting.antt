-- ===== src/Generated/Systemd/Setting.antt =====
-- The generated client's `Properties::set`, with its value as it is, against the generated server.
use killjoy.Base.{String, ◌≡◌, refl, List, [], ◌∷◌}
use killjoy.Error.{ExternResult, ok, err, ◌>>=◌, ◌>>◌}
use killjoy.Dbus.{Dbus, ConnPath}
use killjoy.Generated.Client.{properties_interface}
use killjoy.Generated.Server.{Item}
use killjoy.Generated.Peer.{reply_nothing}
use killjoy.Generated.Properties.{Properties, handle_set, with_args}
use killjoy.Generated.Systemd.Kinds.{Kind, string, variant}
use killjoy.Generated.Systemd.Typed.{Typed, Line}
use killjoy.Generated.Systemd.Server.{Wired}

abbrev set_kinds : List Kind
set_kinds = string ∷ string ∷ variant ∷ []

-- The two ways of reading an argument agree.
pub record ReadsAlike (B : Dbus) (T : Typed B) : Type 0 where
  pub string_alike : (i : Dbus.Iter B) → Dbus.read_str B i ≡ Typed.read T string i
  pub variant_alike : (i : Dbus.Iter B) → Dbus.read_variant B i ≡ Typed.read T variant i

module _ (B : Dbus) (T : Typed B) (N : Line B T) where
  unfoldable pub set :
      ConnPath → (interface property : String) → (value : Dbus.RefArg B) → ExternResult (Unit {0})
  set c interface property value = do
    m ←
        Line.method_call_with_args N c properties_interface "Set" set_kinds
          (interface, (property, (value, tt)))
    Dbus.as_result B m
    ok tt

  -- What the caller gets when the callee replies without arguments.
  abbrev pub Settled :
      ExternResult (List (Item (Dbus.RefArg B))) → ExternResult (Dbus.Message B) → Type 0
  Settled (ok items) r = (m : Dbus.Message B) × (r ≡ ok m) × (Dbus.as_result B m ≡ ok tt)
  Settled (err e) r = r ≡ err e

  module _ (W : Wired B T) (alike : ReadsAlike B T) {S : Type 0} (d : Properties (Dbus.RefArg B) S)
      (s : S) (c : ConnPath) where
    set_reply :
        (interface property : String) (value : Dbus.RefArg B)
        → (handle_set B d (Wired.iter_of W set_kinds (interface, (property, (value, tt)))) s).0
          ≡ (reply_nothing {RefArg = Dbus.RefArg B} (d.set interface property value s)).0
    unfolding handle_set with_args
    set_reply interface property value =
        rw
          (
            alike.string_alike,
            Wired.reads W,
            alike.string_alike,
            Wired.reads W,
            alike.variant_alike,
            Wired.reads W,
          )
          refl

    settled :
        (interface property : String) (value : Dbus.RefArg B) (x : ExternResult (Unit {0}) × S)
        → Settled (reply_nothing x).0 (
            Line.method_call_with_args N c properties_interface "Set" set_kinds
              (interface, (property, (value, tt))))
        → set c interface property value ≡ x.0
    unfolding set reply_nothing
    settled interface property value (ok _, after) (m, sent, good) = rw (sent, good) refl
    settled interface property value (err e, after) sent = rw sent refl

    -- From an object whose calls of Set are handed to the generated handler of Set, the client's `set`
    -- obtains what the implementation's `set` gives, success and errors alike.
    pub set-handle_set :
        (interface property : String) (value : Dbus.RefArg B)
        → Settled
            (handle_set B d (Wired.iter_of W set_kinds (interface, (property, (value, tt)))) s).0
            (Line.method_call_with_args N c properties_interface "Set" set_kinds
              (interface, (property, (value, tt))))
        → set c interface property value ≡ (d.set interface property value s).0
    set-handle_set interface property value h =
        settled interface property value (d.set interface property value s)
          (rw (set_reply interface property value) at h)
