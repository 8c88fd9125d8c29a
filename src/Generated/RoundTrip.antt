-- ===== src/Generated/RoundTrip.antt =====
-- The generated clients against the generated servers.
use killjoy.Base.{String, List, [], ◌∷◌, map, some, ◌≡◌, refl}
use killjoy.Base.Dict.{Dict}
use killjoy.Error.{ExternResult, ok, err}
use killjoy.Dbus.{Dbus, ConnPath, Trace}
use killjoy.Generated.Client.{properties_interface, get, get_all}
use killjoy.Generated.Signals.{
  UnitNew, UnitRemoved, PropertiesChanged, get_unit_new, get_unit_removed, get_properties_changed,
}
use killjoy.Generated.Server.{Item, str, Interface, Method, method_of, Marshal}
use killjoy.Generated.Properties.{
  Properties, properties_server, handle_get, handle_get_all, reply_value, reply_properties,
  append_unit_new, append_unit_removed, append_properties_changed,
}

module _ (B : Dbus) (M : Marshal B) where
  -- What the caller gets when the callee's reply is this.
  abbrev pub Answers :
      ExternResult (List (Item (Dbus.RefArg B))) → ExternResult (Dbus.Message B) → Type 0
  Answers (ok items) r =
      (m : Dbus.Message B) × (r ≡ ok m)
      × (Dbus.as_result B m ≡ ok tt)
      × (Dbus.iter_init B m ≡ Marshal.iter_of M items)
  Answers (err e) r = r ≡ err e

  -- The object at `c` has the methods of an interface on a state: a call of one of them with texts as
  -- its arguments is handed to its handler, whose reply, or error, is the answer.
  abbrev pub IsServed :
      {S : Type 0} → Interface (Dbus.Iter B) (Dbus.RefArg B) S → S → Trace → ConnPath → Type 0
  IsServed {S = S} server s t c =
      (member : String) (m : Method (Dbus.Iter B) (Dbus.RefArg B) S)
      → method_of server.methods member ≡ some m
      → (args : List String)
      → Answers (m.handler (Marshal.iter_of M (map str args)) s).0
          (Dbus.method_call_with_args B t c server.name member args)

  module _ {S : Type 0} (d : Properties (Dbus.RefArg B) S) (s : S) where
    abbrev request : List String → List (Item (Dbus.RefArg B))
    request args = map str args

    get_reply :
        (interface property : String)
        → (handle_get B d (Marshal.iter_of M (request (interface ∷ property ∷ []))) s).0
          ≡ (reply_value (d.get interface property s)).0
    unfolding handle_get
    get_reply interface property = rw (Marshal.reads_str M, Marshal.reads_str M) refl

    get_all_reply :
        (interface : String)
        → (handle_get_all B d (Marshal.iter_of M (request (interface ∷ []))) s).0
          ≡ (reply_properties (d.get_all interface s)).0
    unfolding handle_get_all
    get_all_reply interface = rw (Marshal.reads_str M) refl

    get_answer :
        (c : ConnPath) (t : Trace) (interface property : String)
        (x : ExternResult (Dbus.RefArg B) × S)
        → Answers (reply_value x).0 (
            Dbus.method_call_with_args B t c properties_interface "Get" (interface ∷ property ∷ []))
        → (get B c interface property t).0 ≡ x.0
    unfolding get reply_value
    get_answer c t interface property (ok v, s') (m, e, e', e'') =
        rw (e, e', e'', Marshal.reads_variant M) refl
    get_answer c t interface property (err x, s') e = rw e refl

    get_all_answer :
        (c : ConnPath) (t : Trace) (interface : String)
        (x : ExternResult (Dict (Dbus.RefArg B)) × S)
        → Answers
            (reply_properties x).0
            (Dbus.method_call_with_args B t c properties_interface "GetAll" (interface ∷ []))
        → (get_all B c interface t).0 ≡ x.0
    unfolding get_all reply_properties
    get_all_answer c t interface (ok d, s') (m, e, e', e'') =
        rw (e, e', e'', Marshal.reads_props M) refl
    get_all_answer c t interface (err x, s') e = rw e refl

    -- From an object that is served by the generated properties server, the generated client's
    -- `get` and `get_all` obtain what the implementation's methods give, values and errors alike.
    pub get-properties_server :
        (t : Trace) (c : ConnPath)
        → IsServed (properties_server B d) s t c
        → ((interface property : String)
            → (get B c interface property t).0 ≡ (d.get interface property s).0)
          × ((interface : String) → (get_all B c interface t).0 ≡ (d.get_all interface s).0)
    unfolding properties_server
    get-properties_server t c served = (
      λ interface property.
          get_answer c t interface property (d.get interface property s) (
            rw (get_reply interface property) at (served "Get" _ refl (interface ∷ property ∷ []))),
      λ interface.
          get_all_answer c t interface (d.get_all interface s)
            (rw (get_all_reply interface) at (served "GetAll" _ refl (interface ∷ []))),
    )

  -- The arguments of each signal are read back as they were appended.
  pub get-append :
      ((x : UnitNew) → get_unit_new B (Marshal.iter_of M (append_unit_new x)) ≡ ok x)
      × ((x : UnitRemoved) → get_unit_removed B (Marshal.iter_of M (append_unit_removed x)) ≡ ok x)
      × ((x : PropertiesChanged (Dbus.RefArg B))
          → get_properties_changed B (Marshal.iter_of M (append_properties_changed x)) ≡ ok x)
  unfolding get_unit_new get_unit_removed get_properties_changed append_unit_new append_unit_removed
      append_properties_changed
  get-append = (
    λ x. rw (Marshal.reads_str M, Marshal.reads_path M) refl,
    λ x. rw (Marshal.reads_str M, Marshal.reads_path M) refl,
    λ x. rw (Marshal.reads_str M, Marshal.reads_props M, Marshal.reads_strs M) refl,
  )
