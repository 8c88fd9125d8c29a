-- ===== src/Generated/Conforming.antt =====
-- The generated servers against their own declarations.
use killjoy.Base.{String, List, [], ◌∷◌, map, ◌≡◌, refl, All}
use killjoy.Base.Dict.{Dict}
use killjoy.Error.{ExternResult, ok, err}
use killjoy.Dbus.{Dbus}
use killjoy.Generated.Server.{Item, signature, Method, Signal}
use killjoy.Generated.Peer.{
  Peer, Introspectable, peer_server, introspectable_server, reply_nothing, reply_text,
}
use killjoy.Generated.Signals.{PropertiesChanged}
use killjoy.Generated.Properties.{
  Properties, properties_server, handle_get, handle_get_all, handle_set, with_args, reply_value,
  reply_properties, append_properties_changed,
}

abbrev pub types : List (String × String) → List String
types [] = []
types ((name, type) ∷ args) = type ∷ types args

module _ {RefArg : Type 0} where
  -- A reply, if there is one, has arguments of these types.
  abbrev pub Fits : List String → ExternResult (List (Item RefArg)) → Type 0
  Fits ts (ok items) = map signature items ≡ ts
  Fits ts (err e) = Unit

  -- What a method replies has the types that the method declares.
  abbrev pub Conforms : {Iter S : Type 0} → Method Iter RefArg S → Type 0
  Conforms {Iter} {S} m = (i : Iter) (s : S) → Fits (types m.out_args) (m.handler i s).0

module _ (RefArg : Type 0) where
  reply_nothing-Fits :
      {S : Type 0} (x : ExternResult (Unit {0}) × S) → Fits {RefArg = RefArg} [] (reply_nothing x).0
  unfolding reply_nothing
  reply_nothing-Fits (ok _, s) = refl
  reply_nothing-Fits (err e, s) = tt

  reply_text-Fits :
      {S : Type 0} (x : ExternResult String × S)
      → Fits {RefArg = RefArg} ("s" ∷ []) (reply_text x).0
  unfolding reply_text signature
  reply_text-Fits (ok v, s) = refl
  reply_text-Fits (err e, s) = tt

  reply_value-Fits :
      {S : Type 0} (x : ExternResult RefArg × S)
      → Fits {RefArg = RefArg} ("v" ∷ []) (reply_value x).0
  unfolding reply_value signature
  reply_value-Fits (ok v, s) = refl
  reply_value-Fits (err e, s) = tt

  reply_properties-Fits :
      {S : Type 0} (x : ExternResult (Dict RefArg) × S)
      → Fits {RefArg = RefArg} ("a{sv}" ∷ []) (reply_properties x).0
  unfolding reply_properties signature
  reply_properties-Fits (ok v, s) = refl
  reply_properties-Fits (err e, s) = tt

  -- The methods of the peer and of the introspection server.
  pub peer_server-Conforms :
      (Iter : Type 0) {S : Type 0} (p : Peer S) (d : Introspectable S)
      → All Conforms (peer_server {Iter = Iter} {RefArg = RefArg} p).methods
        × All Conforms (introspectable_server {Iter = Iter} {RefArg = RefArg} d).methods
  unfolding peer_server introspectable_server
  peer_server-Conforms Iter p d = (
    (λ i s. reply_nothing-Fits (p.ping s), (λ i s. reply_text-Fits (p.get_machine_id s), tt)),
    (λ i s. reply_text-Fits (d.introspect s), tt),
  )

module _ (B : Dbus) {S : Type 0} (d : Properties (Dbus.RefArg B) S) where
  with_args-Fits :
      {A : Type 0} (ts : List String) (r : ExternResult A)
      (f : A → S → ExternResult (List (Item (Dbus.RefArg B))) × S) (s : S)
      → ((a : A) → Fits ts (f a s).0)
      → Fits ts (with_args B d r f s).0
  unfolding with_args
  with_args-Fits ts (ok a) f s h = h a
  with_args-Fits ts (err e) f s h = tt

  handle_get-Fits : (i : Dbus.Iter B) (s : S) → Fits ("v" ∷ []) (handle_get B d i s).0
  unfolding handle_get
  handle_get-Fits i s = with_args-Fits _ (Dbus.read_str B i) _ s λ (interface, j).
      with_args-Fits _ (Dbus.read_str B j) _ s
        (λ (property, k). reply_value-Fits _ (d.get interface property s))

  handle_get_all-Fits : (i : Dbus.Iter B) (s : S) → Fits ("a{sv}" ∷ []) (handle_get_all B d i s).0
  unfolding handle_get_all
  handle_get_all-Fits i s =
      with_args-Fits _ (Dbus.read_str B i) _ s
        (λ (interface, j). reply_properties-Fits _ (d.get_all interface s))

  handle_set-Fits : (i : Dbus.Iter B) (s : S) → Fits [] (handle_set B d i s).0
  unfolding handle_set
  handle_set-Fits i s = with_args-Fits _ (Dbus.read_str B i) _ s λ (interface, j).
      with_args-Fits _ (Dbus.read_str B j) _ s λ (property, k).
        with_args-Fits _ (Dbus.read_variant B k) _ s
          (λ (value, l). reply_nothing-Fits _ (d.set interface property value s))

  -- Every reply of the properties server has arguments of the types that its method declares, and
  -- so has the signal that it declares.
  pub properties_server-Conforms :
      All Conforms (properties_server B d).methods
      × ((x : PropertiesChanged (Dbus.RefArg B))
          → All
              (λ (g : Signal). map signature (append_properties_changed x) ≡ types g.args)
              (properties_server B d).signals)
  unfolding properties_server append_properties_changed signature
  properties_server-Conforms =
      ((handle_get-Fits, (handle_get_all-Fits, (handle_set-Fits, tt))), λ x. (refl, tt))
