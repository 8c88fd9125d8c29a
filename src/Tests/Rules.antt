-- ===== src/Tests/Rules.antt =====
-- The settings file of the tests, decoded, and the theorems on settings at it.
use killjoy.Base.{none, true, [], ◌∷◌, ◌≡◌, refl, ◌↔◌, In, Any}
use killjoy.Base.Dict.{lookup, insert}
use killjoy.ActiveState.{failed, inactive, state_eq}
use killjoy.Error.{ok}
use killjoy.Unit.State.{try_from, to_string}
use killjoy.Dbus.{BusType, session}
use killjoy.Settings.Types.{
  Notifier, unit_type, Rule, Settings, matches, new_notifier, maybe_get_bus_name,
}
use killjoy.Settings.Matching.{Denotes, matches_iff}
use killjoy.Settings.Decode.{
  decode_states, insert_state, decode_rule, decode_rules, decode_settings, decode_bus_type_str,
  decode_expression, decode_notifier, decode_notifiers, check_notifiers,
}
use killjoy.Settings.States.{decode_states_iff}
use killjoy.Settings.Buses.{
  get_bus_types, IsNodup, get_bus_types_lem, from_bus_type, into_bus_type, collect_set, bus_eq,
}
use killjoy.Settings.Sound.{Each, IsDecoded, IsSound, decode_rules_iff, decode_settings-IsSound}
use killjoy.Settings.Load.{load, load-IsSound, new, get_load_path}
use killjoy.Tests.Bus.{demo}
use killjoy.Tests.Crates.{literal, web_rule, file, disk}

abbrev pub log : Notifier
log = record { bus_name = "org.log"; bus_type = session }

abbrev pub watch_services : Rule literal
watch_services = record {
  active_states = inactive ∷ failed ∷ [];
  bus_type = session;
  expression = unit_type ".service";
  notifiers = "log" ∷ [];
}

abbrev pub settings : Settings literal
settings = record { notifiers = ("log", log) ∷ []; rules = watch_services ∷ [] }

decoded : decode_settings demo literal file ≡ ok settings
unfolding decode_settings decode_notifiers decode_notifier decode_bus_type_str new_notifier
    maybe_get_bus_name insert decode_rules decode_rule decode_states insert_state try_from state_eq
    decode_expression check_notifiers lookup
decoded = refl

pub loaded : load disk demo literal none ≡ ok settings
unfolding load new get_load_path decode_settings decode_notifiers decode_notifier
    decode_bus_type_str new_notifier maybe_get_bus_name insert decode_rules decode_rule
    decode_states insert_state try_from state_eq decode_expression check_notifiers lookup
loaded = refl

decode_settings-IsSound_example : IsSound demo literal settings
decode_settings-IsSound_example = decode_settings-IsSound demo literal file settings decoded

load-IsSound_example : IsSound demo literal settings
load-IsSound_example = load-IsSound disk demo literal none settings loaded

pub sound : IsSound demo literal settings
sound = load-IsSound disk demo literal none settings loaded

decode_rules_iff_example :
    (decode_rules demo literal settings.notifiers (web_rule ∷ []) ≡ ok (watch_services ∷ []))
    ↔ Each (IsDecoded demo literal settings.notifiers) (web_rule ∷ []) (watch_services ∷ [])
decode_rules_iff_example =
    decode_rules_iff demo literal settings.notifiers (web_rule ∷ []) (watch_services ∷ [])

states : decode_states ("failed" ∷ "inactive" ∷ "failed" ∷ []) [] ≡ ok (inactive ∷ failed ∷ [])
unfolding decode_states insert_state try_from state_eq
states = refl

decode_states_iff_example :
    In failed (inactive ∷ failed ∷ [])
    ↔ In (to_string failed) ("failed" ∷ "inactive" ∷ "failed" ∷ [])
decode_states_iff_example =
    decode_states_iff ("failed" ∷ "inactive" ∷ "failed" ∷ []) (inactive ∷ failed ∷ []) failed states

matches_iff_example :
    (matches literal (unit_type ".timer") "ntp.timer" ≡ true)
    ↔ Denotes literal (unit_type ".timer") "ntp.timer"
matches_iff_example = matches_iff literal (unit_type ".timer") "ntp.timer"

get_bus_types_lem_example :
    IsNodup (get_bus_types literal (watch_services ∷ watch_services ∷ []))
    × ((b : BusType)
        → In b (get_bus_types literal (watch_services ∷ watch_services ∷ []))
          ↔ Any (λ rule. Rule.bus_type rule ≡ b) (watch_services ∷ watch_services ∷ []))
get_bus_types_lem_example = get_bus_types_lem literal (watch_services ∷ watch_services ∷ [])

one_bus : get_bus_types literal (watch_services ∷ watch_services ∷ []) ≡ session ∷ []
unfolding get_bus_types from_bus_type into_bus_type collect_set bus_eq
one_bus = refl
