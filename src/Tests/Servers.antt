-- ===== src/Tests/Servers.antt =====
-- An object that is served by the generated properties server.
use killjoy.Base.{String, List, Option, none, some, [], map, ◌≡◌, refl, All}
use killjoy.Error.{ok, err, ExternResult}
use killjoy.Dbus.{Dbus, ConnPath}
use killjoy.Generated.Client.{get, get_all}
use killjoy.Generated.Signals.{
  UnitNew, UnitRemoved, PropertiesChanged, get_unit_new, get_unit_removed, get_properties_changed,
}
use killjoy.Generated.Server.{Item, Signal, Marshal, Method, method_of, signature}
use killjoy.Generated.Properties.{
  Properties, properties_server, append_unit_new, append_unit_removed, append_properties_changed,
}
use killjoy.Generated.RoundTrip.{Answers, IsServed, get-properties_server, get-append}
use killjoy.Generated.Conforming.{Conforms, types, properties_server-Conforms}
use killjoy.Tests.Bus.{
  demo, Value, text, Argument, str, path, variant, props, strs, Packet, reply, web_props, problem,
}

abbrev argument : Item Value → Argument
argument (Item.str s) = str s
argument (Item.path s) = path s
argument (Item.variant v) = variant v
argument (Item.props d) = props d
argument (Item.strs l) = strs l

-- One property, and the dictionary of a web server.
abbrev implementation : Properties Value (Unit {0})
implementation = record {
  get = λ interface property s. (ok (text property), s);
  get_all = λ interface s. (ok web_props, s);
  set = λ interface property value s. (problem "read-only", s);
}

abbrev answered : ExternResult (List (Item Value)) → ExternResult Packet
answered (ok items) = ok (reply (map argument items))
answered (err e) = err e

abbrev handled :
    Option (Method (List Argument) Value (Unit {0}))
    → List Argument
    → ExternResult (List (Item Value))
handled (some m) i = (m.handler i tt).0
handled none i = problem "unknown method"

abbrev served : Dbus
served = record demo {
  method_call_with_args = λ t c interface member args. answered (
      handled (method_of (properties_server demo implementation).methods member)
        (map argument (map Item.str args)));
}

abbrev marshal : Marshal served
marshal = record {
  iter_of = map argument;
  reads_str = λ s xs. refl;
  reads_path = λ s xs. refl;
  reads_variant = λ v xs. refl;
  reads_props = λ d xs. refl;
  reads_strs = λ l xs. refl;
}

answers : (r : ExternResult (List (Item Value))) → Answers served marshal r (answered r)
answers (ok items) = (reply (map argument items), refl, refl, refl)
answers (err e) = refl

abbrev conn : ConnPath
conn = record { dest = "org.log"; path = "/"; timeout = 1000 }

is_served : IsServed served marshal (properties_server served implementation) tt [] conn
unfolding properties_server
is_served member m e args = rw e (answers _)

get-properties_server_example :
    ((interface property : String) → (get served conn interface property []).0 ≡ ok (text property))
    × ((interface : String) → (get_all served conn interface []).0 ≡ ok web_props)
get-properties_server_example =
    get-properties_server served marshal implementation tt [] conn is_served

get-append_example :
    ((x : UnitNew) → get_unit_new served (map argument (append_unit_new x)) ≡ ok x)
    × ((x : UnitRemoved) → get_unit_removed served (map argument (append_unit_removed x)) ≡ ok x)
    × ((x : PropertiesChanged Value)
        → get_properties_changed served (map argument (append_properties_changed x)) ≡ ok x)
get-append_example = get-append served marshal

properties_server-Conforms_example :
    All Conforms (properties_server demo implementation).methods
    × ((x : PropertiesChanged Value)
        → All
            (λ (g : Signal). map signature (append_properties_changed x) ≡ types g.args)
            (properties_server demo implementation).signals)
properties_server-Conforms_example = properties_server-Conforms demo implementation
