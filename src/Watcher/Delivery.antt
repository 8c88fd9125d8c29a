-- ===== src/Watcher/Delivery.antt =====
-- Which messages a change of state sends.
use mathlib.Core.List.{reverse_aux, map-append}
use killjoy.Base.{
  String, ◌≡◌, refl, ◌∙◌, ℕ, Option, some, List, [], ◌∷◌, ◌++◌, map, All, All-filter, arith,
}
use killjoy.Base.Dict.{Dict, lookup}
use killjoy.ActiveState.{ActiveState}
use killjoy.Error.{ok}
use killjoy.Exec.{Outcome, returned, Exec, pure, and_then, ◌>>=◌}
use killjoy.Unit.Machine.{UnitStateMachine}
use killjoy.Dbus.{
  Dbus, BusType, Trace, connect, add_match, remove_match, poll, method_call, send, eprint,
  Notification,
}
use killjoy.Settings.Regex.{RegexCrate}
use killjoy.Settings.Types.{Notifier, Rule, Settings, get_bus_name}
use killjoy.Settings.Sound.{IsListed, IsSound}
use killjoy.Watcher.World.{World, ask, tell}
use killjoy.Watcher.Names.{
  interface_for_notifier, member_for_notify, wrap_interface_for_killjoy_notifier,
  wrap_member_for_notify, cast_bus_name_to_path,
}
use killjoy.Watcher.Newest.{newest_first, body-newest_first}
use killjoy.Watcher.Rules.{get_rules_matching_name, get_rules_matching_active_state}
use killjoy.Watcher.Notify.{
  report, deliver, notify_one, notify_all, notify_rules, interested, gen_on_change,
}

-- The messages of a trace, each with the bus that it went to, the latest first.
unfoldable pub sent : Trace → List (BusType × Notification)
sent [] = []
sent (send b msg timeout ∷ t) = (b, msg) ∷ sent t
sent (connect b ∷ t) = sent t
sent (add_match s ∷ t) = sent t
sent (remove_match s ∷ t) = sent t
sent (poll n ∷ t) = sent t
sent (method_call c i m args ∷ t) = sent t
sent (eprint s ∷ t) = sent t

-- Where a notifier is reached: the bus, the bus name and the object path.
pub record Address : Type 0 where
  pub bus : BusType
  pub bus_name : String
  pub path : String

module _ (B : Dbus) where
  -- The address of a notifier, if the dbus crate accepts its bus name and the path made from it.
  pub record HasAddress (n : Notifier) (a : Address) : Type 0 where
    pub bus : n.bus_type ≡ a.bus
    pub name : Dbus.bus_name_new B n.bus_name ≡ ok a.bus_name
    pub path : cast_bus_name_to_path B a.bus_name ≡ ok a.path

  -- The constants of the notifier interface are valid names, and the buses accept connections.
  pub record IsUp : Type 0 where
    pub interface : Dbus.interface_new B interface_for_notifier ≡ ok interface_for_notifier
    pub member : Dbus.member_new B member_for_notify ≡ ok member_for_notify
    pub connects : (t : Trace) (b : BusType) → Dbus.get_private B t b ≡ ok tt

module _ (unit_name : String) (ts : ℕ) (states : List String) where
  -- The message for a notifier at an address.
  unfoldable pub letter : Address → BusType × Notification
  letter a = (
    a.bus,
    record {
      bus_name = a.bus_name;
      path = a.path;
      interface = interface_for_notifier;
      member = member_for_notify;
      timestamp = ts;
      unit_name = unit_name;
      active_states = states;
    },
  )

-- The action returned, left the machines alone, and sent the messages, oldest first.
abbrev pub Sends : List (BusType × Notification) → World → Outcome (Unit {0}) × World → Type 0
Sends letters w (r, w') =
    (r ≡ returned tt)
    × (w'.unit_states ≡ w.unit_states)
    × (sent w'.trace ≡ reverse_aux letters (sent w.trace))

module _ (B : Dbus) (up : IsUp B) (notifiers : Dict Notifier) (unit_name : String) (ts : ℕ)
    (states : List String) where
  deliver-Sends :
      (name : String) (b : BusType) (msg : Notification) (w : World)
      → Sends ((b, msg) ∷ []) w (deliver B name b msg w)
  unfolding deliver report sent tell ◌>>=◌
  deliver-Sends name b msg w = ground arith

  notify_one-deliver :
      (name : String) (n : Notifier) (a : Address) (w : World)
      → lookup name notifiers ≡ some n
      → HasAddress B n a
      → notify_one B notifiers unit_name ts states name w
        ≡ deliver B name a.bus
            (letter unit_name ts states a).1
            (record w { trace = connect a.bus ∷ w.trace })
  unfolding notify_one wrap_interface_for_killjoy_notifier wrap_member_for_notify get_bus_name ask
      ◌>>=◌ letter
  notify_one-deliver name n a w found at =
      ground
        (arith, up.interface, up.member, up.connects w.trace n.bus_type, at.name, at.path, at.bus)

  notify_one-Sends :
      (name : String) (n : Notifier) (a : Address) (w : World)
      → lookup name notifiers ≡ some n
      → HasAddress B n a
      → Sends
          (letter unit_name ts states a ∷ [])
          w
          (notify_one B notifiers unit_name ts states name w)
  unfolding sent letter
  notify_one-Sends name n a w found at =
      rw (notify_one-deliver name n a w found at)
        (deliver-Sends name a.bus _ (record w { trace = connect a.bus ∷ w.trace }))

reverse_aux-append :
    {A : Type 0} (xs ys r : List A) → reverse_aux (xs ++ ys) r ≡ reverse_aux ys (reverse_aux xs r)
reverse_aux-append [] ys r = refl
reverse_aux-append (x ∷ xs) ys r = reverse_aux-append xs ys (x ∷ r)

Sends-bind :
    (xs ys : List (BusType × Notification)) (w : World) (m k : Exec World (Unit {0}))
    → Sends xs w (m w)
    → ((w' : World) → Sends ys w' (k w'))
    → Sends (xs ++ ys) w ((m >>= λ _. k) w)
unfolding ◌>>=◌
Sends-bind xs ys w m k (r, u, s) h =
    let (r', u', s') = h (m w).1 in
    rw (r, and_then) (r', u' ∙ u, rw (s', s, reverse_aux-append xs ys (sent w.trace)))

Sends-nothing : (w : World) → Sends [] w (returned tt, w)
Sends-nothing w = (refl, refl, refl)

-- The labels that the rules name, in order.
unfoldable pub labels : {R : RegexCrate} → List (Rule R) → List String
labels [] = []
labels (rule ∷ rules) = rule.notifiers ++ labels rules

module _ (B : Dbus) (up : IsUp B) (notifiers : Dict Notifier) (address : String → Address)
    (reach : (name : String) (n : Notifier)
      → lookup name notifiers ≡ some n
      → HasAddress B n (address name))
    (unit_name : String) (ts : ℕ) (states : List String) where
  abbrev letter_to : String → BusType × Notification
  letter_to name = letter unit_name ts states (address name)

  notify_all-Sends :
      (names : List String) (w : World)
      → All (IsListed notifiers) names
      → Sends (map letter_to names) w (notify_all B notifiers unit_name ts states names w)
  unfolding notify_all pure
  notify_all-Sends [] w h = Sends-nothing w
  notify_all-Sends (name ∷ names) w ((n, found), h) =
      Sends-bind (letter_to name ∷ []) (map letter_to names) w
        (notify_one B notifiers unit_name ts states name)
        (notify_all B notifiers unit_name ts states names)
        (notify_one-Sends B up notifiers unit_name ts states name n (address name) w found
          (reach name n found))
        (λ w'. notify_all-Sends names w' h)

  notify_rules-Sends :
      (R : RegexCrate) (rules : List (Rule R)) (w : World)
      → All (λ rule. All (IsListed notifiers) (Rule.notifiers rule)) rules
      → Sends
          (map letter_to (labels rules))
          w
          (notify_rules B R notifiers unit_name ts states rules w)
  unfolding notify_rules pure labels
  notify_rules-Sends R [] w h = Sends-nothing w
  notify_rules-Sends R (rule ∷ rules) w (l, h) = rw map-append (
      Sends-bind (map letter_to rule.notifiers) (map letter_to (labels rules)) w
        (notify_all B notifiers unit_name ts states rule.notifiers)
        (notify_rules B R notifiers unit_name ts states rules) (notify_all-Sends rule.notifiers w l)
        (λ w'. notify_rules-Sends R rules w' h))

module _ (B : Dbus) (R : RegexCrate) (up : IsUp B) (settings : Settings R)
    (sound : IsSound B R settings) (address : String → Address)
    (reach : (name : String) (n : Notifier)
      → lookup name settings.notifiers ≡ some n
      → HasAddress B n (address name)) where
  -- The callback of a change sends one message for each label of each rule that the change is of
  -- interest to, in order, to the address of the label's notifier. It names the unit, the time, and
  -- the state that the unit is in now with, after it, the one before, if there was one. It returns without an error whether or not the notifiers
  -- answer, and leaves the machines alone.
  pub gen_on_change-Sends :
      (unit_name : String) (ts : ℕ) (usm : UnitStateMachine) (old : Option ActiveState) (w : World)
      → Sends
          (map
            (λ name. letter unit_name ts (newest_first usm.active_state old) (address name))
            (labels (interested R settings unit_name usm.active_state)))
          w
          (gen_on_change B R settings unit_name ts usm old w)
  unfolding gen_on_change interested get_rules_matching_name get_rules_matching_active_state
  gen_on_change-Sends unit_name ts usm old w = rw (body-newest_first usm.active_state old) (
      notify_rules-Sends B up settings.notifiers address reach unit_name ts _ R _ w
        (All-filter _ _ _ (All-filter _ _ settings.rules sound.listed)))
