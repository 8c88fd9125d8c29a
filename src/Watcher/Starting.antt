-- ===== src/Watcher/Starting.antt =====
-- The calls with which a watcher starts.
use mathlib.Core.List.{append_assoc}
use killjoy.Base.{ap, ◌∙◌, String, ◌≡◌, refl, List, [], ◌∷◌, ◌++◌, arith}
use killjoy.Error.{Error, ok, err, ExternError, ExternResult}
use killjoy.Exec.{Outcome, returned, raised, panicked, Exec, pure, and_then, ◌>>=◌}
use killjoy.Dbus.{Dbus, Call, Trace, ConnPath, add_match, poll, method_call}
use killjoy.Generated.Wire.{Wire}
use killjoy.Generated.Client.{manager_interface, list_units, subscribe}
use killjoy.Generated.Trace.{list_units-trace, subscribe-trace}
use killjoy.Generated.Signals.{unit_new_match_str, unit_removed_match_str}
use killjoy.Settings.Regex.{RegexCrate}
use killjoy.Watcher.World.{World, ask, invoke, tell, set_unit_states, or_raise}
use killjoy.Watcher.Names.{
  bus_name_for_systemd, path_for_systemd, wrap_bus_name_for_systemd, wrap_path_for_systemd,
  get_conn_path,
}
use killjoy.Watcher.Manager.{
  call_manager_subscribe, call_manager_list_units, subscribe_signal, subscribe_manager_unit_new,
  subscribe_manager_unit_removed,
}
use killjoy.Watcher.Run.{start}

-- If the action returned, it has made these calls, the latest first.
abbrev MadeAt : {A : Type 0} → List Call → World → Outcome A × World → Type 0
MadeAt calls w (returned a, w') = w'.trace ≡ calls ++ w.trace
MadeAt calls w _ = Unit

MadeAt-trace :
    {A : Type 0} (calls : List Call) (w : World) (x : Outcome A × World) (a : A)
    → x.0 ≡ returned a
    → MadeAt calls w x
    → x.1.trace ≡ calls ++ w.trace
MadeAt-trace calls w (returned b, v) a h k = k
MadeAt-trace calls w (raised e, v) a h k = absurd (ground arith)
MadeAt-trace calls w (panicked m, v) a h k = absurd (ground arith)

record Made {A : Type 0} (calls : List Call) (m : Exec World A) : Type 0 where
  at : (w : World) → MadeAt calls w (m w)

MadeAt-append :
    {B : Type 0} (xs ys : List Call) (w v : World) (x : Outcome B × World)
    → v.trace ≡ xs ++ w.trace
    → MadeAt ys v x
    → MadeAt (ys ++ xs) w x
MadeAt-append xs ys w v (returned b, w') h k = rw append_assoc (k ∙ ap (λ t. ys ++ t) h)
MadeAt-append xs ys w v (raised e, w') h k = tt
MadeAt-append xs ys w v (panicked m, w') h k = tt

and_then-MadeAt :
    {A B : Type 0} (xs ys : List Call) (w : World) (x : Outcome A × World) (f : A → Exec World B)
    → MadeAt xs w x
    → ((a : A) → Made ys (f a))
    → MadeAt (ys ++ xs) w (and_then x f)
and_then-MadeAt xs ys w (returned a, v) f h k = MadeAt-append xs ys w v (f a v) h ((k a).at v)
and_then-MadeAt xs ys w (raised e, v) f h k = tt
and_then-MadeAt xs ys w (panicked m, v) f h k = tt

Made-bind :
    {A B : Type 0} (xs ys : List Call) (m : Exec World A) (f : A → Exec World B)
    → Made xs m
    → ((a : A) → Made ys (f a))
    → Made (ys ++ xs) (m >>= f)
unfolding ◌>>=◌
Made-bind xs ys m f h k = record { at = λ w. and_then-MadeAt xs ys w (m w) f (h.at w) k }

or_raise-MadeAt :
    {A : Type 0} (calls : List Call) (w : World) (r : ExternResult A) (f : ExternError → Error)
    (t : Trace)
    → t ≡ calls ++ w.trace
    → MadeAt calls w (or_raise r f, record w { trace = t })
or_raise-MadeAt calls w (ok a) f t h = h
or_raise-MadeAt calls w (err e) f t h = tt

Made-pure : {A : Type 0} (a : A) → Made [] (pure {S = World} a)
unfolding pure
Made-pure a = record { at = λ w. refl }

Made-tell : (call : Call) → Made (call ∷ []) (tell call)
unfolding tell
Made-tell call = record { at = λ w. refl }

Made-set : (f : _) → Made [] (set_unit_states f)
unfolding set_unit_states
Made-set f = record { at = λ w. refl }

module _ (B : Dbus) (n p : String) (named : Dbus.bus_name_new B bus_name_for_systemd ≡ ok n)
    (placed : Dbus.path_new B path_for_systemd ≡ ok p) where
  abbrev manager : ConnPath
  manager = record { dest = n; path = p; timeout = 1000 }

  abbrev pub starting_calls : List Call
  starting_calls =
      method_call manager manager_interface "ListUnits" []
      ∷ add_match (unit_new_match_str B n p)
      ∷ add_match (unit_removed_match_str B n p)
      ∷ poll 1000
      ∷ method_call manager manager_interface "Subscribe" []
      ∷ []

  path_known : {A : Type 0} (f : String → Exec World A) → (wrap_path_for_systemd B >>= f) ≡ f p
  unfolding wrap_path_for_systemd ◌>>=◌
  path_known f = rw placed refl

  bus_known : {A : Type 0} (f : String → Exec World A) → (wrap_bus_name_for_systemd B >>= f) ≡ f n
  unfolding wrap_bus_name_for_systemd ◌>>=◌
  bus_known f = rw named refl

  conn_known : {A : Type 0} (f : ConnPath → Exec World A) → (get_conn_path B p >>= f) ≡ f manager
  unfolding get_conn_path wrap_bus_name_for_systemd ◌>>=◌
  conn_known f = rw named refl

  Made-match : (rule : String) → Made (add_match rule ∷ []) (subscribe_signal B rule)
  unfolding subscribe_signal ask
  Made-match rule = record {
    at = λ w.
        or_raise-MadeAt (add_match rule ∷ []) w (Dbus.answer_add_match B w.trace rule)
          (Error.add_signal_match rule) _ refl;
  }

  Made-invoke :
      {A : Type 0} (m : Wire A) (f : ExternError → Error) (call : Call)
      → ((t : Trace) → (m t).1 ≡ call ∷ t)
      → Made (call ∷ []) (invoke m f)
  unfolding invoke
  Made-invoke m f call h = record {
    at = λ w. or_raise-MadeAt (call ∷ []) w (m w.trace).0 f (m w.trace).1 (h w.trace);
  }

  Made-subscribe :
      Made (method_call manager manager_interface "Subscribe" [] ∷ []) (call_manager_subscribe B)
  unfolding call_manager_subscribe
  Made-subscribe =
      rw (path_known, conn_known)
        (Made-invoke (subscribe B manager) _ _ (subscribe-trace B manager))

  Made-list_units :
      Made (method_call manager manager_interface "ListUnits" [] ∷ []) (call_manager_list_units B)
  unfolding call_manager_list_units
  Made-list_units =
      rw (path_known, conn_known)
        (Made-bind _ [] _ _ (Made-invoke (list_units B manager) _ _ (list_units-trace B manager))
          (λ units. Made-pure _))

  Made-unit_new : Made (add_match (unit_new_match_str B n p) ∷ []) (subscribe_manager_unit_new B)
  unfolding subscribe_manager_unit_new
  Made-unit_new = rw (bus_known, path_known) (Made-match _)

  Made-unit_removed :
      Made (add_match (unit_removed_match_str B n p) ∷ []) (subscribe_manager_unit_removed B)
  unfolding subscribe_manager_unit_removed
  Made-unit_removed = rw (bus_known, path_known) (Made-match _)

  Made-start : (R : RegexCrate) → Made starting_calls (start B R)
  unfolding start
  Made-start R = Made-bind _ _ _ _ Made-subscribe λ _.
      Made-bind _ _ _ _ (Made-tell (poll 1000)) λ _. Made-bind _ _ _ _ Made-unit_removed λ _.
        Made-bind _ _ _ _ Made-unit_new
          λ _. Made-bind _ _ _ _ (Made-set (λ _. [])) (λ _. Made-list_units)

  -- If a watcher starts without an error, it has called Subscribe, discarded one message, subscribed
  -- to UnitRemoved and only then to UnitNew, and only then asked for the list of units.
  pub start-trace :
      (R : RegexCrate) (w : World) (names : List String)
      → (start B R w).0 ≡ returned names
      → (start B R w).1.trace ≡ starting_calls ++ w.trace
  start-trace R w names h =
      MadeAt-trace starting_calls w (start B R w) names h ((Made-start R).at w)
