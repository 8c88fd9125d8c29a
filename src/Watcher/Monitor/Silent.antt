-- ===== src/Watcher/Monitor/Silent.antt =====
-- The calls of a watcher that the specification does not show.
use killjoy.Base.{String, ◌≡◌, refl, ℕ, List, ◌∷◌}
use killjoy.Error.{Error, ExternError, ExternResult}
use killjoy.Exec.Keeps.{Keeps, Keeps-bind}
use killjoy.Dbus.{Dbus, Call, Trace, add_match, remove_match, poll, method_call, ConnPath}
use killjoy.Generated.Wire.{Wire}
use killjoy.Generated.Client.{get, get_all, get_unit, list_units, subscribe}
use killjoy.Generated.Trace.{
  get-trace, get_all-trace, get_unit-trace, list_units-trace, subscribe-trace,
}
use killjoy.Settings.Regex.{RegexCrate}
use killjoy.Settings.Types.{Settings}
use killjoy.Watcher.World.{World, gets, ask, tell, invoke}
use killjoy.Watcher.Manager.{
  call_properties_get_all, call_manager_get_unit, call_manager_subscribe, call_manager_list_units,
  subscribe_signal, subscribe_manager_unit_new, subscribe_manager_unit_removed,
  subscribe_properties_changed, unsubscribe_properties_changed,
}
use killjoy.Watcher.Handlers.{get_unit_id}
use killjoy.Watcher.Delivery.{sent}
use killjoy.Watcher.Keeping.{still_rules, bus_name-Keeps}
use killjoy.Watcher.Monitor.{Monitor, view}

-- A world is seen as before when a call is added that is no message.
pub IsSilent : Call → Type 0
IsSilent c = (t : Trace) → sent (c ∷ t) ≡ sent t

add_match-IsSilent : (s : String) → IsSilent (add_match s)
unfolding IsSilent sent
add_match-IsSilent s t = refl

remove_match-IsSilent : (s : String) → IsSilent (remove_match s)
unfolding IsSilent sent
remove_match-IsSilent s t = refl

poll-IsSilent : (n : ℕ) → IsSilent (poll n)
unfolding IsSilent sent
poll-IsSilent n t = refl

method_call-IsSilent :
    (c : ConnPath) (interface member : String) (args : List String)
    → IsSilent (method_call c interface member args)
unfolding IsSilent sent
method_call-IsSilent c interface member args t = refl

-- What holds of worlds by how they are seen.
module _ (P : Monitor → Type 0) where
  abbrev pub Seen : World → Type 0
  Seen w = P (view w)

  tell-Seen : (c : Call) → IsSilent c → Keeps Seen (tell c)
  unfolding tell IsSilent
  tell-Seen c silent = record { at = λ w h. rw silent h }

  pub poll-Seen : (n : ℕ) → Keeps Seen (tell (poll n))
  poll-Seen n = tell-Seen _ (poll-IsSilent n)

  ask-Seen :
      {A : Type 0} (c : Call) (answer : Trace → ExternResult A) (f : ExternError → Error)
      → IsSilent c
      → Keeps Seen (ask c answer f)
  unfolding ask IsSilent
  ask-Seen c answer f silent = record { at = λ w h. rw silent h }

  invoke-Seen :
      {A : Type 0} (m : Wire A) (c : Call) (f : ExternError → Error)
      → ((t : Trace) → (m t).1 ≡ c ∷ t)
      → IsSilent c
      → Keeps Seen (invoke m f)
  unfolding invoke IsSilent
  invoke-Seen m c f only silent = record { at = λ w h. rw (only, silent) h }

  pub gets-Seen : {A : Type 0} (f : World → A) → Keeps Seen (gets f)
  unfolding gets
  gets-Seen f = record { at = λ w h. h }

  module _ (B : Dbus) where
    pub id-Seen :
        (c : ConnPath) (interface property : String) (f : ExternError → Error)
        → Keeps Seen (invoke (get B c interface property) f)
    id-Seen c interface property f =
        invoke-Seen _ _ f (get-trace B c interface property) (method_call-IsSilent c _ _ _)

    get_all_wire-Seen :
        (c : ConnPath) (interface : String) (f : ExternError → Error)
        → Keeps Seen (invoke (get_all B c interface) f)
    get_all_wire-Seen c interface f =
        invoke-Seen _ _ f (get_all-trace B c interface) (method_call-IsSilent c _ _ _)

    get_unit_wire-Seen :
        (c : ConnPath) (name : String) (f : ExternError → Error)
        → Keeps Seen (invoke (get_unit B c name) f)
    get_unit_wire-Seen c name f =
        invoke-Seen _ _ f (get_unit-trace B c name) (method_call-IsSilent c _ _ _)

    list_units_wire-Seen :
        (c : ConnPath) (f : ExternError → Error) → Keeps Seen (invoke (list_units B c) f)
    list_units_wire-Seen c f =
        invoke-Seen _ _ f (list_units-trace B c) (method_call-IsSilent c _ _ _)

    subscribe_wire-Seen :
        (c : ConnPath) (f : ExternError → Error) → Keeps Seen (invoke (subscribe B c) f)
    subscribe_wire-Seen c f = invoke-Seen _ _ f (subscribe-trace B c) (method_call-IsSilent c _ _ _)

    add_match-Seen : (match_str : String) → Keeps Seen (subscribe_signal B match_str)
    unfolding subscribe_signal
    add_match-Seen match_str = ask-Seen _ _ _ (add_match-IsSilent match_str)

    pub get_all-Seen : (path : String) → Keeps Seen (call_properties_get_all B path)
    unfolding call_properties_get_all
    get_all-Seen path = search (still_rules, get_all_wire-Seen)

    pub get_unit-Seen : (name : String) → Keeps Seen (call_manager_get_unit B name)
    unfolding call_manager_get_unit
    get_unit-Seen name = search (still_rules, get_unit_wire-Seen)

    pub subscribe-Seen : Keeps Seen (call_manager_subscribe B)
    unfolding call_manager_subscribe
    subscribe-Seen = search (still_rules, subscribe_wire-Seen)

    pub list_units-Seen : Keeps Seen (call_manager_list_units B)
    unfolding call_manager_list_units
    list_units-Seen = search (still_rules, list_units_wire-Seen)

    pub unit_new-Seen : Keeps Seen (subscribe_manager_unit_new B)
    unfolding subscribe_manager_unit_new
    unit_new-Seen = search (still_rules, add_match-Seen)

    pub unit_removed-Seen : Keeps Seen (subscribe_manager_unit_removed B)
    unfolding subscribe_manager_unit_removed
    unit_removed-Seen = search (still_rules, add_match-Seen)

    pub changed-Seen : (path : String) → Keeps Seen (subscribe_properties_changed B path)
    unfolding subscribe_properties_changed
    changed-Seen path = search (still_rules, add_match-Seen)

    pub unsubscribe-Seen : (path : String) → Keeps Seen (unsubscribe_properties_changed B path)
    unfolding unsubscribe_properties_changed
    unsubscribe-Seen path =
        Keeps-bind _ _ (bus_name-Keeps Seen B) (λ name. ask-Seen _ _ _ (remove_match-IsSilent _))

    pub get_unit_id-Seen :
        (R : RegexCrate) (settings : Settings R) (path : String)
        → Keeps Seen (get_unit_id B R settings path)
    unfolding get_unit_id
    get_unit_id-Seen R settings path = search (still_rules, id-Seen)
