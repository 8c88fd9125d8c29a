-- ===== src/Watcher/Safety/Signals.antt =====
-- Panics and errors of the handlers.
use killjoy.Base.{String, ◌∷◌, ◌≡◌, refl, Option, none, some, arith}
use killjoy.Error.{Error, Result, ok, err, ok_or, ExternResult}
use killjoy.Dbus.{Dbus, remove_match}
use killjoy.Generated.Signals.{UnitNew, UnitRemoved, PropertiesChanged}
use killjoy.Timestamp.{UnitProps}
use killjoy.Settings.Regex.{RegexCrate}
use killjoy.Settings.Types.{Settings}
use killjoy.Watcher.World.{World, ask, or_raise, set_unit_states}
use killjoy.Watcher.Names.{wrap_bus_name_for_systemd, wrap_path_for_systemd, get_conn_path}
use killjoy.Watcher.Manager.{
  call_properties_get_all, call_manager_get_unit, subscribe_signal, subscribe_properties_changed,
  unsubscribe_properties_changed,
}
use killjoy.Watcher.Units.{forget_unit_state}
use killjoy.Watcher.Handlers.{
  forget_or_panic, tolerate, upsert_if_loaded, track, handle_unit_new, handle_unit_removed,
  get_unit_id, handle_properties_changed, dispatch, handle_message,
}
use killjoy.Exec.{settle, and_then, attempt, panic, ◌>>=◌}
use killjoy.Exec.Safe.{
  Allows, Safe, Safe-lift, Safe-expect, Safe-bind, Safe-if, Safe-pure, Safe-raise,
  Safe-bind-attempt,
}
use killjoy.Settings.Sound.{IsSound}
use killjoy.Watcher.Safety.Errors.{IsRuntime, IsHealthy, IsRefused, IsAny, Safe-ask, Safe-invoke}
use killjoy.Watcher.Safety.Notifying.{upsert-Safe}

module _ {P : String → World → Type 0} (B : Dbus) (healthy : IsHealthy B) (E : Error → Type 0) where
  pub bus_name-Safe : Safe {S = World} E P (wrap_bus_name_for_systemd B)
  unfolding wrap_bus_name_for_systemd
  bus_name-Safe = Safe-expect _ _ _ healthy.bus_name.1

  pub path-Safe : Safe {S = World} E P (wrap_path_for_systemd B)
  unfolding wrap_path_for_systemd
  path-Safe = Safe-expect _ _ _ healthy.path.1

  pub conn_path-Safe : (path : String) → Safe {S = World} E P (get_conn_path B path)
  unfolding get_conn_path
  conn_path-Safe path = Safe-bind _ _ bus_name-Safe (λ n. Safe-pure _)

module _ {P : String → World → Type 0} (B : Dbus) (healthy : IsHealthy B) where
  subscribe_changes-Safe : (path : String) → Safe IsRuntime P (subscribe_properties_changed B path)
  unfolding subscribe_properties_changed subscribe_signal
  subscribe_changes-Safe path =
      Safe-bind _ _ (bus_name-Safe B healthy _) (λ n. Safe-ask _ _ _ (λ x. tt))

  get_all-Safe : (path : String) → Safe IsAny P (call_properties_get_all B path)
  unfolding call_properties_get_all
  get_all-Safe path =
      Safe-bind _ _ (conn_path-Safe B healthy _ path) (λ c. Safe-invoke _ _ (λ x. tt))

  pub get_unit-Safe : (name : String) → Safe IsAny P (call_manager_get_unit B name)
  unfolding call_manager_get_unit
  get_unit-Safe name =
      Safe-bind _ _ (path-Safe B healthy _)
        λ p. Safe-bind _ _ (conn_path-Safe B healthy _ p) (λ c. Safe-invoke _ _ (λ x. tt))

-- Unsubscribing, with what is made of its outcome: the bus's refusal is the end of the watcher.
forget-Allows :
    (B : Dbus) (name match_str : String) (r : ExternResult (Unit {0})) (w : World)
    → Dbus.answer_remove_match B w.trace match_str ≡ r
    → Allows IsRuntime (IsRefused B) (
        and_then
          (settle (
            or_raise r (Error.remove_signal_match match_str),
            record w { trace = remove_match match_str ∷ w.trace },
          ))
          (forget_or_panic name))
unfolding forget_or_panic forget_unit_state set_unit_states panic
forget-Allows B name match_str (ok _) w e = tt
forget-Allows B name match_str (err x) w e = (match_str, x, w.trace, refl, e, refl)

removed-Safe :
    (B : Dbus)
    → IsHealthy B
    → (name path : String)
    → Safe IsRuntime
        (IsRefused B)
        (attempt (unsubscribe_properties_changed B path) >>= forget_or_panic name)
unfolding unsubscribe_properties_changed wrap_bus_name_for_systemd ask ◌>>=◌
removed-Safe B healthy name path = record {
  at = λ w. rw healthy.bus_name.1 (forget-Allows B name _ _ w refl);
}

tolerate-Safe :
    {P : String → World → Type 0} (r : Result Error (Unit {0}))
    → ((e : Error) → r ≡ err e → IsRuntime e)
    → Safe IsRuntime P (tolerate r)
unfolding tolerate
tolerate-Safe (ok _) h = Safe-pure _
tolerate-Safe (err Error.properties_lacks_active_state) h = Safe-pure _
tolerate-Safe (err e) h = Safe-raise _ (h e refl)

module _ (B : Dbus) (R : RegexCrate) (healthy : IsHealthy B) (settings : Settings R)
    (sound : IsSound B R settings) where
  upsert_if_loaded-Safe :
      (name : String) (props : Result Error (UnitProps B))
      → Safe IsRuntime (IsRefused B) (upsert_if_loaded B R settings name props)
  unfolding upsert_if_loaded
  upsert_if_loaded-Safe name (ok props) = upsert-Safe B R healthy settings sound name props
  upsert_if_loaded-Safe name (err e) = Safe-pure _

  pub track-Safe :
      (name path : String) → Safe IsRuntime (IsRefused B) (track B R settings name path)
  unfolding track
  track-Safe name path = Safe-bind _ _ (subscribe_changes-Safe B healthy path) λ _.
      Safe-bind-attempt IsAny _ _ (get_all-Safe B healthy path)
        (λ r _. upsert_if_loaded-Safe name r)

  handle_unit_new-Safe :
      (m : UnitNew) → Safe IsRuntime (IsRefused B) (handle_unit_new B R settings m)
  unfolding handle_unit_new
  handle_unit_new-Safe m = Safe-if _ _ _ (track-Safe m.arg0 m.arg1) (Safe-pure _)

  handle_unit_removed-Safe :
      (m : UnitRemoved) → Safe IsRuntime (IsRefused B) (handle_unit_removed B R settings m)
  unfolding handle_unit_removed
  handle_unit_removed-Safe m = Safe-if _ _ _ (removed-Safe B healthy m.arg0 m.arg1) (Safe-pure _)

  get_unit_id-Safe : (path : String) → Safe IsRuntime (IsRefused B) (get_unit_id B R settings path)
  unfolding get_unit_id
  get_unit_id-Safe path =
      Safe-bind _ _ (conn_path-Safe B healthy _ path)
        λ c. Safe-bind _ _ (Safe-invoke _ _ (λ x. tt)) (λ value. Safe-lift _ (ok_or-runtime value))
    where
      ok_or-runtime :
          (value : Dbus.RefArg B) (e : Error)
          → ok_or Error.cast_unit_id (Dbus.as_str B value) ≡ err e
          → IsRuntime e
      ok_or-runtime value e h = ground arith

  handle_properties_changed-Safe :
      (msg : Dbus.Message B) (m : PropertiesChanged (Dbus.RefArg B))
      → Safe IsRuntime (IsRefused B) (handle_properties_changed B R settings msg m)
  unfolding handle_properties_changed
  handle_properties_changed-Safe msg m =
      Safe-if _ _ _
        (Safe-bind _ _ (Safe-lift _ path-runtime) λ path.
          Safe-bind _ _ (get_unit_id-Safe path) λ name.
            Safe-bind-attempt IsRuntime _ _ (upsert-Safe B R healthy settings sound name _)
              tolerate-Safe)
        (Safe-pure _)
    where
      path-runtime :
          (e : Error)
          → ok_or Error.message_lacks_path (Dbus.message_path B msg) ≡ err e
          → IsRuntime e
      path-runtime e h = ground arith

  dispatch-Safe :
      (msg : Dbus.Message B) (a : Option UnitNew) (b : Option UnitRemoved)
      (c : Option (PropertiesChanged (Dbus.RefArg B)))
      → Safe IsRuntime (IsRefused B) (dispatch B R settings msg a b c)
  unfolding dispatch
  dispatch-Safe msg (some m) b c = handle_unit_new-Safe m
  dispatch-Safe msg none (some m) c = handle_unit_removed-Safe m
  dispatch-Safe msg none none (some m) = handle_properties_changed-Safe msg m
  dispatch-Safe msg none none none = Safe-pure _

  pub handle_message-Safe :
      (msg : Dbus.Message B) → Safe IsRuntime (IsRefused B) (handle_message B R settings msg)
  unfolding handle_message
  handle_message-Safe msg = dispatch-Safe msg _ _ _
