-- ===== src/Watcher/Safety/Errors.antt =====
-- The errors that a watcher passes on, and the one panic that it can meet.
use killjoy.Base.{String, ◌<>◌, ◌∷◌, ◌≡◌, arith}
use killjoy.ActiveState.{ActiveState}
use killjoy.Error.{Error, ok, err, ExternError, ExternResult}
use killjoy.Exec.Safe.{Safe, Allows}
use killjoy.Unit.State.{try_from}
use killjoy.Timestamp.{UnitProps, get_realtime_timestamp, get_monotonic_timestamp}
use killjoy.Dbus.{Dbus, Call, Trace, remove_match}
use killjoy.Error.Display.{display}
use killjoy.Generated.Wire.{Wire}
use killjoy.Watcher.World.{World, ask, invoke, tell, gets, set_unit_states, or_raise}
use killjoy.Watcher.Names.{
  bus_name_for_systemd, path_for_systemd, interface_for_notifier, member_for_notify,
  cast_bus_name_to_path,
}
use killjoy.Watcher.Rules.{get_active_state}

-- Failures of the bus, of systemd, or of their answers, and a bus name of a notifier that makes no
-- object path. Errors of loading the settings and of the command line are none of these, nor are
-- the failures of GetUnit and GetAll and of removing a match rule.
abbrev pub IsRuntime : Error → Type 0
IsRuntime (Error.invalid_active_state _) = Unit
IsRuntime (Error.add_signal_match _ _) = Unit
IsRuntime (Error.call_manager_list_units _) = Unit
IsRuntime (Error.call_manager_subscribe _) = Unit
IsRuntime (Error.cast_bus_name_to_str _) = Unit
IsRuntime Error.cast_unit_active_state = Unit
IsRuntime Error.cast_unit_id = Unit
IsRuntime (Error.cast_unit_timestamp _) = Unit
IsRuntime (Error.cast_str_to_path _) = Unit
IsRuntime (Error.connect_to_bus _) = Unit
IsRuntime (Error.get_unit_id _) = Unit
IsRuntime Error.message_lacks_path = Unit
IsRuntime Error.properties_lacks_active_state = Unit
IsRuntime (Error.properties_lacks_timestamp _ _) = Unit
IsRuntime _ = ⊥

-- The constants of the program are valid names.
pub record IsHealthy (B : Dbus) : Type 0 where
  pub bus_name : (n : String) × (Dbus.bus_name_new B bus_name_for_systemd ≡ ok n)
  pub path : (n : String) × (Dbus.path_new B path_for_systemd ≡ ok n)
  pub interface : (n : String) × (Dbus.interface_new B interface_for_notifier ≡ ok n)
  pub member : (n : String) × (Dbus.member_new B member_for_notify ≡ ok n)

-- The last call was to remove a match rule, the bus refused it with an error, and the panic's
-- message is the one of the handler of UnitRemoved for that error.
abbrev pub IsRefused : Dbus → String → World → Type 0
IsRefused B m w =
    (match_str : String) × (x : ExternError) × (t : Trace) × (w.trace ≡ remove_match match_str ∷ t)
    × (Dbus.answer_remove_match B t match_str ≡ err x)
    × (m
        ≡ "Failed to handle UnitRemoved signal: "
          <> display (Error.remove_signal_match match_str x))

-- Every error.
abbrev pub IsAny : Error → Type 0
IsAny e = Unit

or_raise-safe :
    {A : Type 0} (E : Error → Type 0) (P : String → World → Type 0) (r : ExternResult A)
    (f : ExternError → Error) (w : World)
    → ((x : ExternError) → E (f x))
    → Allows E P (or_raise r f, w)
or_raise-safe E P (ok a) f w h = tt
or_raise-safe E P (err x) f w h = h x

module _ {E : Error → Type 0} {P : String → World → Type 0} where
  pub Safe-ask :
      {A : Type 0} (call : Call) (answer : Trace → ExternResult A) (f : ExternError → Error)
      → ((x : ExternError) → E (f x))
      → Safe E P (ask call answer f)
  unfolding ask
  Safe-ask call answer f h = record { at = λ w. or_raise-safe E P (answer w.trace) f _ h }

  pub Safe-invoke :
      {A : Type 0} (m : Wire A) (f : ExternError → Error)
      → ((x : ExternError) → E (f x))
      → Safe E P (invoke m f)
  unfolding invoke
  Safe-invoke m f h = record { at = λ w. or_raise-safe E P (m w.trace).0 f _ h }

  pub Safe-tell : (call : Call) → Safe E P (tell call)
  unfolding tell
  Safe-tell call = record { at = λ w. tt }

  pub Safe-gets : {A : Type 0} (f : World → A) → Safe E P (gets f)
  unfolding gets
  Safe-gets f = record { at = λ w. tt }

  pub Safe-set_unit_states : (f : _) → Safe E P (set_unit_states f)
  unfolding set_unit_states
  Safe-set_unit_states f = record { at = λ w. tt }

module _ (B : Dbus) where
  pub get_active_state-IsRuntime :
      (props : UnitProps B) (e : Error) → get_active_state B props ≡ err e → IsRuntime e
  unfolding get_active_state try_from
  get_active_state-IsRuntime props e h = ground arith

  pub get_realtime_timestamp-IsRuntime :
      (s : ActiveState) (props : UnitProps B) (e : Error)
      → get_realtime_timestamp B s props ≡ err e
      → IsRuntime e
  unfolding get_realtime_timestamp
  get_realtime_timestamp-IsRuntime s props e h = ground arith

  pub get_monotonic_timestamp-IsRuntime :
      (s : ActiveState) (props : UnitProps B) (e : Error)
      → get_monotonic_timestamp B s props ≡ err e
      → IsRuntime e
  unfolding get_monotonic_timestamp
  get_monotonic_timestamp-IsRuntime s props e h = ground arith

  pub cast_bus_name_to_path-IsRuntime :
      (name : String) (e : Error) → cast_bus_name_to_path B name ≡ err e → IsRuntime e
  unfolding cast_bus_name_to_path
  cast_bus_name_to_path-IsRuntime name e h = ground arith
